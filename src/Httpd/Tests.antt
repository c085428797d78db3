-- ===== src/Httpd/Tests.antt =====
-- Requests for a connection.
use netcwmp.Common.{
  ℕ, zero, suc, ◌<◌, true, false, List, [], ◌∷◌, none, some, Bytes, codes, bytes_eq, replicate, All,
  ◌==◌, ◌≡◌, refl, arith, if◌then◌else◌,
}
use netcwmp.Types.{case_eq}
use netcwmp.Event.{list_create}
use netcwmp.Http.Headers.{get_variable}
use netcwmp.Http.Reading.{message, header_length, read_header}
use netcwmp.Http.Splitting.{IsSent-line}
use netcwmp.Http.Requests.{read_request}
use netcwmp.Http.Requests.Printed.{lines_of}
use netcwmp.Digest.{no_fields, Slot}
use netcwmp.Digest.Accepts.{IsMd5}
use netcwmp.Digest.Reads.{fields_text, stored}
use netcwmp.Httpd.{Config, Server, accepted, unauthorised, judge, serve_slots}
use netcwmp.Httpd
use netcwmp.Httpd.Requests.{are_right, get_line, judge-read_request}
use netcwmp.Httpd.Slots.{answered, ready_in, without_ready, serve_slots-answered}

abbrev md5 : Bytes → Bytes
md5 s = replicate 16 171

below : (n : ℕ) → All (λ b. b < 256) (replicate n 171)
below zero = tt
below (suc n) = (omega arith, below n)

md5-IsMd5 : IsMd5 md5
md5-IsMd5 s = (refl, below 16)

abbrev config : Config
config = record { cpe_auth = true; cpe_user = codes "u"; cpe_pwd = codes "p" }

abbrev credentials : List (Slot × Bytes)
credentials = (Slot.username, codes "u") ∷ (Slot.response, codes "0") ∷ []

abbrev headers : List (Bytes × Bytes)
headers = (codes "Authorization", codes "Digest username=\"u\", response=\"0\"") ∷ []

judge-read_request_example :
    judge md5 config
      (read_request true (message (get_line (codes "/ HTTP/1.1") ∷ lines_of headers) []))
    ≡ some (
        if are_right md5 config (record no_fields { username = codes "u"; response = codes "0" })
        then accepted
        else unauthorised)
unfolding stored get_variable case_eq bytes_eq fields_text header_length
judge-read_request_example =
    judge-read_request md5 config true (codes "/ HTTP/1.1") headers credentials [] md5-IsMd5 refl
      (omega arith) (omega arith)
      (
        IsSent-line (codes "GET / HTTP/1.1") (omega arith) (omega arith) refl refl refl,
        (
          IsSent-line (codes "Authorization: Digest username=\"u\", response=\"0\"") (omega arith)
              (omega arith) refl refl refl,
          tt,
        ),
      )
      (refl, tt) (refl, tt) refl
      ((omega arith, omega arith, (refl, tt)), ((omega arith, omega arith, (refl, tt)), tt))
      (omega arith)

-- A server with a client at the descriptor 5.
abbrev server : List Httpd.Slot → Server
server slots = record {
  slots = slots;
  readset = λ fd. fd == 5;
  nonce = 0;
  new_request = false;
  el = list_create 4;
  sent = [];
}

abbrev clients : List Httpd.Slot
clients = replicate 8 (some (5, 0))

serve_slots-answered_example :
    (s' : Server) × (serve_slots md5 config
        (λ fd. true)
        (λ fd. (true, []))
        1
        (none ∷ some (5, 0) ∷ [])
        (server [])
      ≡ some (none ∷ none ∷ [], s'))
    × (answered s' ≡ 5 ∷ [])
unfolding ready_in without_ready
serve_slots-answered_example =
    serve_slots-answered md5 config (λ fd. true) (λ fd. (true, [])) (none ∷ some (5, 0) ∷ [])
      (server []) ((Httpd.bad, unfold read_request read_header judge in refl), tt)

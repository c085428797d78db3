-- ===== src/Httpd/Requests.antt =====
-- Requests for a connection: who is let in by cwmpd/src/httpd.c.
use netcwmp.Common.{
  ◌≤◌, Bool, true, false, ◌&&◌, List, ◌∷◌, ◌++◌, some, Bytes, codes, bytes_eq, length, All, without,
  ◌≡◌, refl, ap, ◌∙◌, if◌then◌else◌,
}
use netcwmp.Types.{case_eq}
use netcwmp.Hex.{hex_to_string}
use netcwmp.Http.Headers.{Parser, get_variable}
use netcwmp.Http.Reading.{message, header_length}
use netcwmp.Http.Splitting.{IsSent}
use netcwmp.Http.Requests.{Method, request, method_of, first_word, read_request}
use netcwmp.Http.Requests.Printed.{lines_of, lowered}
use netcwmp.Http.Requests.Trip.{AreValues, read_request-lines}
use netcwmp.Digest.{no_fields, Slot, Fields}
use netcwmp.Digest.Reads.{stored}
use netcwmp.Digest.Accepts
use netcwmp.Digest.Accepts.{check_key, keyed, header, rfc_response, IsMd5, check_digest_auth-rfc}
use netcwmp.Httpd.{Config, accepted, unauthorised, verdict_of, authorised, judge_get, judge}

-- Whether the fields name the user of the device and carry the response of RFC 2617 for the password.
abbrev pub are_right : (Bytes → Bytes) → Config → Fields → Bool
are_right md5 config f =
    bytes_eq config.cpe_user f.username
    && case_eq
        (rfc_response (λ s. hex_to_string (md5 s)) (codes "GET") config.cpe_user config.cpe_pwd f)
        f.response

-- The line of a GET.
abbrev pub get_line : Bytes → Bytes
get_line rest = codes "GET " ++ rest

get_line-method : (rest : Bytes) → method_of (first_word (get_line rest)) ≡ Method.get
unfolding method_of first_word case_eq bytes_eq
get_line-method rest = refl

verdict_of-some : (b : Bool) → verdict_of (some b) ≡ some (if b then accepted else unauthorised)
verdict_of-some true = refl
verdict_of-some false = refl

judge_get-rfc :
    (md5 : Bytes → Bytes) (config : Config) (p : Parser) (avs : List (Slot × Bytes))
    → IsMd5 md5
    → config.cpe_auth ≡ true
    → get_variable (codes "Authorization") p ≡ some (header check_key avs)
    → Accepts.AreValues check_key avs
    → length (header check_key avs) ≤ 511
    → judge_get md5 config p
      ≡ some (
          if are_right md5 config (stored (keyed check_key avs) no_fields)
          then accepted
          else unauthorised)
unfolding judge_get authorised
judge_get-rfc md5 config p avs is_md5 on sent h short = rw (on) (
    ap (authorised md5 config) sent
    ∙ ap verdict_of (check_digest_auth-rfc md5 is_md5 avs config.cpe_user config.cpe_pwd h short)
    ∙ verdict_of-some (are_right md5 config (stored (keyed check_key avs) no_fields)))

-- A GET whose header fits into the copy, with lines of at most 1020 bytes without a NUL or a byte of a
-- line end, names without colon, and values that are not empty and begin with no blank; its credentials
-- have fields in any order, none empty, too long for its array or with a quote. Where the device asks
-- for credentials, the request is accepted exactly if they name the user of the device, and their
-- response is that of RFC 2617 for the password and the other fields; otherwise a challenge answers.
pub judge-read_request :
    (md5 : Bytes → Bytes) (config : Config) (closed : Bool) (rest : Bytes)
    (nvs : List (Bytes × Bytes)) (avs : List (Slot × Bytes)) (body : Bytes)
    → IsMd5 md5
    → config.cpe_auth ≡ true
    → header_length (get_line rest ∷ lines_of nvs) ≤ 2047
    → length nvs ≤ 63
    → All IsSent (get_line rest ∷ lines_of nvs)
    → All (λ nv. without 58 nv.0 ≡ true) nvs
    → AreValues nvs
    → get_variable (codes "Authorization") (lowered nvs) ≡ some (header check_key avs)
    → Accepts.AreValues check_key avs
    → length (header check_key avs) ≤ 511
    → judge md5 config (read_request closed (message (get_line rest ∷ lines_of nvs) body))
      ≡ some (
          if are_right md5 config (stored (keyed check_key avs) no_fields)
          then accepted
          else unauthorised)
unfolding judge
judge-read_request md5 config closed rest nvs avs body is_md5 on h many sent names values asked each
      short =
    ap (judge md5 config) (
      read_request-lines closed (get_line rest) nvs body h many sent names values
      ∙ ap (λ m. request (header_length (get_line rest ∷ lines_of nvs)) m (lowered nvs) body)
          (get_line-method rest))
    ∙ judge_get-rfc md5 config (lowered nvs) avs is_md5 on asked each short

-- ===== src/Httpd.antt =====
-- The server for connection requests, cwmpd/src/httpd.c: its answers, the slots of its clients, and a
-- round of its loop. What `select` finds, the descriptors that `accept` gives and what clients send are
-- arguments. Sending an answer succeeds; its result is not looked at.
mod Requests
mod Slots
mod Tests
use netcwmp.Common.{
  ℕ, zero, suc, ◌+◌, ◌-◌, Bool, true, false, ◌&&◌, not, List, [], ◌∷◌, ◌++◌, Option, none, some,
  Bytes, codes, take, ltb, leb, decimal, pos, ◌==◌, if◌then◌else◌,
}
use netcwmp.Event.{EventList, inform_connectionrequest, set_value, or_same}
use netcwmp.Http.Headers.{get_variable, Parser}
use netcwmp.Http.Reading.{message}
use netcwmp.Http.Requests.{Method, Request, failed, request, read_request, quoted}
use netcwmp.Digest.{md5_text, check_digest_auth}

-- What is read of `cwmp_t` and of the configuration.
pub record Config : Type 0 where
  pub cpe_auth : Bool
  pub cpe_user : Bytes
  pub cpe_pwd : Bytes

-- `sessionfd[i]`: the descriptor and the time, where the socket is not NULL.
abbrev pub Slot : Type 0
Slot = Option (ℕ × ℕ)

-- The state of the server: the slots, the descriptors in `readset` without the listening one,
-- `AuthNonce`, `cwmp->new_request` and the event list; and what was sent to whom.
pub record Server : Type 0 where
  pub slots : List Slot
  pub readset : ℕ → Bool
  pub nonce : ℕ
  pub new_request : Bool
  pub el : EventList
  pub sent : List (ℕ × Bytes)

unfoldable pub response_200 : Bytes
response_200 =
    message
      (codes "HTTP/1.1 200 OK"
        ∷ codes "Connection: close"
        ∷ codes "Content-Length: 2"
        ∷ codes "Content-Type: text/xml; charset=\"utf-8\""
        ∷ [])
      (codes "OK")

unfoldable pub response_400 : Bytes
response_400 =
    message
      (codes "HTTP/1.1 400 Bad request"
        ∷ codes "Server: CWMP-Agent"
        ∷ codes "Connection: close"
        ∷ codes "Content-Length: 5"
        ∷ [])
      (codes "Error")

-- `RESPONSE_401` with its nonce; `AuthOpaque` is empty.
unfoldable pub response_401 : Bytes → Bytes
response_401 nonce =
    message
      (codes "HTTP/1.1 401 Unauthorized"
        ∷ (codes "WWW-Authenticate: Digest qop=\"auth\" nonce="
            ++ (quoted nonce ++ codes " opaque=\"\" realm=\"cwmpd\""))
        ∷ codes "Server: TR069Agent"
        ∷ codes "Content-Length: 0"
        ∷ [])
      []

abbrev pub send : ℕ → Bytes → Server → Server
send fd text s = record s { sent = s.sent ++ (fd, text) ∷ [] }

-- How a request is answered.
pub data Verdict : Type 0 where
  bad unauthorised accepted : Verdict

abbrev pub verdict_of : Option Bool → Option Verdict
verdict_of none = none
verdict_of (some true) = some accepted
verdict_of (some false) = some unauthorised

abbrev pub fd_clr : ℕ → (ℕ → Bool) → ℕ → Bool
fd_clr fd set x = if x == fd then false else set x

abbrev pub fd_set : ℕ → (ℕ → Bool) → ℕ → Bool
fd_set fd set x = if x == fd then true else set x

-- The first free slot is taken; `none` where all are.
unfoldable pub take_slot : ℕ × ℕ → List Slot → Option (List Slot)
take_slot client [] = none
take_slot client (none ∷ slots) = some (some client ∷ slots)
take_slot client (some c ∷ slots) = elim (take_slot client slots) [
  | none ↦ none
  | some slots' ↦ some (some c ∷ slots')
]

-- The loop behind a `select` that finds nothing.
unfoldable pub drop_old : ℕ → List Slot → (ℕ → Bool) → List Slot × (ℕ → Bool)
drop_old now [] set = ([], set)
drop_old now (none ∷ slots) set =
    let (slots', set') = drop_old now slots set in (none ∷ slots', set')
drop_old now (some (fd, time) ∷ slots) set =
    let old = drop_old now slots (fd_clr fd set) in
    let (slots', set') = drop_old now slots set in
    if ltb 15 (now - time) then (none ∷ old.0, old.1) else (some (fd, time) ∷ slots', set')

-- What `select` finds: nothing; or a connection, if there is one, with its descriptor, and so many
-- more descriptors that are ready.
pub data Ready : Type 0 where
  nothing : Ready
  ready : Option ℕ → ℕ → Ready

module _ (md5 : Bytes → Bytes) (config : Config) where
  -- The test of the credentials; `none` is a pointer that was never set.
  unfoldable pub authorised : Option Bytes → Option Verdict
  authorised none = some unauthorised
  authorised (some auth) =
      verdict_of (check_digest_auth md5 (some auth) config.cpe_user config.cpe_pwd)

  unfoldable pub judge_get : Parser → Option Verdict
  unfolding authorised
  judge_get p =
      let tested = authorised (get_variable (codes "Authorization") p) in
      if config.cpe_auth then tested else some accepted

  -- The tests on a request.
  unfoldable pub judge : Request → Option Verdict
  unfolding judge_get
  judge failed = some bad
  judge (request n Method.get p rest) = judge_get p
  judge (request n method p rest) = some bad

  -- `httpd_response_unauthorization`
  unfoldable pub response_unauthorization : ℕ → Server → Server
  unfolding response_401
  response_unauthorization fd s =
      send fd (take 255 (response_401 (take 32 (md5_text md5 (decimal (s.nonce + 1))))))
        (record s { nonce = s.nonce + 1 })

  -- The answer: `httpd_response_unkonw_error`, `httpd_response_unauthorization`, or
  -- `httpd_response_ok` with the request for a session and its event.
  unfoldable pub respond : ℕ → Verdict → Server → Server
  unfolding response_200 response_400 response_unauthorization
  respond fd bad s = send fd response_400 s
  respond fd unauthorised s = response_unauthorization fd s
  respond fd accepted s = record (send fd response_200 s) {
    new_request = true;
    el = or_same s.el (set_value s.el (pos inform_connectionrequest) (pos 1) none (pos 0) 0 0);
  }

  -- The service of one client that is ready, up to the label `faild` and behind it, but for its slot.
  unfoldable pub serve : ℕ → Bool × Bytes → Server → Option Server
  unfolding judge respond
  serve fd (closed, s) srv = elim (judge (read_request closed s)) [
    | none ↦ none
    | some v ↦
        let srv' = respond fd v srv in some (record srv' { readset = fd_clr fd srv'.readset })
  ]

  -- The loop over the slots, while `nready` is positive; the slots that are left, and the state.
  unfoldable pub serve_slots :
      (ℕ → Bool) → (ℕ → Bool × Bytes) → ℕ → List Slot → Server → Option (List Slot × Server)
  unfolding serve
  serve_slots rdset input zero slots s = some (slots, s)
  serve_slots rdset input (suc nready) [] s = some ([], s)
  serve_slots rdset input (suc nready) (none ∷ slots) s =
      elim (serve_slots rdset input (suc nready) slots s) [
        | none ↦ none
        | some (slots', s') ↦ some (none ∷ slots', s')
      ]
  serve_slots rdset input (suc nready) (some (fd, time) ∷ slots) s = elim (rdset fd) [
    | false ↦ elim (serve_slots rdset input (suc nready) slots s) [
      | none ↦ none
      | some (slots', s') ↦ some (some (fd, time) ∷ slots', s')
    ]
    | true ↦ elim (serve fd (input fd) s) [
      | none ↦ none
      | some s₁ ↦ elim (serve_slots rdset input nready slots s₁) [
        | none ↦ none
        | some (slots', s') ↦ some (none ∷ slots', s')
      ]
    ]
  ]

  unfoldable pub serve_all : (ℕ → Bool) → (ℕ → Bool × Bytes) → ℕ → Server → Option Server
  unfolding serve_slots
  serve_all rdset input nready s = elim (serve_slots rdset input nready s.slots s) [
    | none ↦ none
    | some (slots, s') ↦ some (record s' { slots = slots })
  ]

  -- A round of the loop of `httpd_build_server`, at a time, for the descriptors in `rdset`.
  unfoldable pub server_round : ℕ → (ℕ → Bool) → (ℕ → Bool × Bytes) → Ready → Server → Option Server
  unfolding serve_all take_slot drop_old
  server_round now rdset input nothing s =
      let (slots, set) = drop_old now s.slots s.readset in
      some (record s { slots = slots; readset = set })
  server_round now rdset input (ready none nready) s = serve_all rdset input nready s
  server_round now rdset input (ready (some fd) nready) s = elim (take_slot (fd, now) s.slots) [
    | none ↦ some s
    | some slots ↦
        serve_all rdset input nready (record s { slots = slots; readset = fd_set fd s.readset })
  ]

-- ===== src/Exchange.antt =====
-- The exchange of a request for a response with the ACS: `cwmp_session_set_auth`,
-- `cwmp_session_send_request` and `cwmp_session_recv_response` of libcwmp/src/session.c. What the ACS
-- sends is given as the bytes that come, with whether it then closes the connection, and how the bytes
-- behind a header come in reads.
mod Challenge
mod Tests
use netcwmp.Common.{
  ℕ, zero, suc, Bool, true, false, List, [], ◌∷◌, ◌++◌, Option, none, some, Bytes, codes, take, ℤ,
  pos, negsuc, ◌==◌, if◌then◌else◌,
}
use netcwmp.Http.{Dest}
use netcwmp.Http.Headers.{Parser, get_variable}
use netcwmp.Http.Requests.{Method, Target, write_request}
use netcwmp.Http.Responses.{Response, read_response, parse_cookie}
use netcwmp.Digest.{DigestAuth, Parsed, parse_digest_auth}

-- The members of `cwmp_session_t` and of its destination that an exchange reads and changes.
pub record Exchange : Type 0 where
  pub target : Target
  pub last_method : ℕ
  pub last_code : ℤ
  pub readers : List Bytes

abbrev pub or_empty : Option Bytes → Bytes → Bytes
or_empty none old = old
or_empty (some s) old = take 64 s

-- `cwmp_session_set_auth`; `TRstrncpy` from NULL changes nothing.
unfoldable pub set_auth : Option Bytes → Option Bytes → Exchange → Exchange
set_auth user pwd x =
    let t = x.target in
    record x {
      target = record t {
        auth_type = 2;
        auth = record t.auth { active = false };
        dest = record t.dest {
          user = or_empty user t.dest.user;
          password = or_empty pwd t.dest.password;
        };
      };
    }

-- A response of the ACS.
pub record Incoming : Type 0 where
  pub closed : Bool
  pub bytes : Bytes
  pub cut : Bytes → List Bytes

-- What the exchanges come to: a pointer that was never set is followed, or whether `CWMP_OK` is
-- returned, and the session.
pub data Outcome : Type 0 where
  undefined : Outcome
  returned : Bool → Exchange → Outcome

abbrev pub with_auth : Exchange → DigestAuth → Exchange
with_auth x a = let t = x.target in record x { target = record t { auth = a } }

-- What becomes of the parse of a challenge; one that fails changes nothing.
unfoldable pub challenged : Parsed → Exchange → Option Exchange
challenged Parsed.failed x = some x
challenged Parsed.undefined x = none
challenged (Parsed.done a) x = some (with_auth x a)

unfoldable pub challenge : Option Bytes → Exchange → Option Exchange
unfolding challenged
challenge none x = some x
challenge (some auth) x =
    let d = record x.target.auth { active = false } in
    challenged (parse_digest_auth auth d) (with_auth x d)

-- `response->status == 401 ||response->status == 407`
abbrev pub asks_auth : ℤ → Bool
asks_auth (pos n) = if n == 401 then true else n == 407
asks_auth (negsuc n) = false

abbrev pub is_ok_code : ℤ → Bool
is_ok_code (pos n) = n == 200
is_ok_code (negsuc n) = false

-- What a response does to the state of the authentication.
unfoldable pub update_auth : ℤ → Response → Exchange → Option Exchange
unfolding challenge
update_auth code r x =
    let asked = challenge (get_variable (codes "WWW-Authenticate") r.parser) x in
    if is_ok_code code
    then some (with_auth x (record x.target.auth { active = true }))
    else if asks_auth r.status
    then asked
    else some x

-- The cookie of the response to an Inform.
unfoldable pub update_cookie : Response → Exchange → Exchange
update_cookie r x =
    let t = x.target in
    elim (get_variable (codes "Set-Cookie") r.parser) [
      | none ↦ x
      | some v ↦
          if x.last_method == 1
          then record x { target = record t { cookie = parse_cookie v } }
          else x
    ]

abbrev pub returns : ℤ → Response → Option Exchange → Outcome
returns code r none = undefined
returns code r (some x) = returned (is_ok_code code) (update_cookie r x)

-- Behind `http_read_response`.
unfoldable pub received : ℤ × Response × List Bytes → Exchange → Outcome
unfolding update_auth update_cookie
received (code, r, unread) x =
    returns code r
      (update_auth code r (record x { last_code = r.status; readers = x.readers ++ r.readers }))

-- `cwmp_session_recv_response`
unfoldable pub recv_response : Incoming → Exchange → Outcome
unfolding received
recv_response i x = received (read_response i.closed i.cut i.bytes) x

-- A post: what goes to the socket, `none` where the buffer overflows, and the session.
unfoldable pub post : (Bytes → Bytes) → Bytes → Exchange → Option Bytes × Exchange
post md5 body x =
    let (sent, t) = write_request md5 Method.post body x.target in (sent, record x { target = t })

-- What `cwmp_session_send_request` comes to: a buffer that overflows or a pointer that was never set;
-- or what it has posted, with whether `CWMP_OK` is returned, and the session.
pub data Sending : Type 0 where
  broken : Sending
  posted : List Bytes → Bool → Exchange → Sending

-- The post of the body, behind what has been posted.
unfoldable pub post_body : (Bytes → Bytes) → Bool → Bytes → List Bytes → Exchange → Sending
unfolding post
post_body md5 write_ok body before x =
    let (sent, x') = post md5 body x in
    elim sent [ none ↦ broken | some text ↦ posted (before ++ text ∷ []) write_ok x' ]

unfoldable pub after_empty : (Bytes → Bytes) → Bool → Bytes → Bytes → Outcome → Sending
unfolding post_body
after_empty md5 write_ok body first undefined = broken
after_empty md5 write_ok body first (returned ok x) = post_body md5 write_ok body (first ∷ []) x

unfoldable pub from_empty :
    (Bytes → Bytes) → Bool → Bytes → Incoming → Option Bytes × Exchange → Sending
unfolding after_empty
from_empty md5 write_ok body i (none, x) = broken
from_empty md5 write_ok body i (some first, x) =
    after_empty md5 write_ok body first (recv_response i x)

-- Whether an empty post goes first: digest authentication is set, and the last response was not
-- accepted.
abbrev pub posts_empty : Target → Bool
posts_empty t = if t.auth_type == 2 then (if t.auth.active then false else true) else false

-- `cwmp_session_send_request`; the result of the empty post is not looked at. `write_ok` says that
-- the last write to the socket writes something.
unfoldable pub send_request : (Bytes → Bytes) → Bool → Bytes → Incoming → Exchange → Sending
unfolding from_empty post_body
send_request md5 write_ok body i x =
    let direct = post_body md5 write_ok body [] x in
    let twice = from_empty md5 write_ok body i (post md5 [] x) in
    if posts_empty x.target then twice else direct

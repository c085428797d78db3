-- ===== src/Http.antt =====
-- `http_parse_url` of libcwmp/src/http.c: the parts of a URL.
pub mod Urls
mod Tests
pub mod Headers
pub mod Reading
pub mod Splitting
pub mod Requests
pub mod Responses
use netcwmp.Common.{
  ℕ, ◌+◌, ◌-◌, ◌*◌, ◌/◌, ◌%◌, Bool, true, false, ◌&&◌, ◌||◌, List, [], ◌∷◌, ◌++◌, Option, none,
  some, Bytes, codes, bytes_eq, take, isdigit, isspace, ltb, ◌==◌, if◌then◌else◌,
}
use netcwmp.Types.{case_eq}

-- The parts of `http_dest_t` that are written, each string without its NUL. The function does not
-- write the NUL of a user and a password; the struct is zero before, as `http_dest_create` makes it.
pub record Dest : Type 0 where
  pub scheme : Bytes
  pub user : Bytes
  pub password : Bytes
  pub host : Bytes
  pub port : ℕ
  pub uri : Bytes

abbrev pub no_dest : Dest
no_dest = record { scheme = []; user = []; password = []; host = []; port = 0; uri = [] }

-- `strstr(url, ":/")`: what stands before it, and what stands behind the colon.
unfoldable pub find_scheme : Bytes → Option (Bytes × Bytes)
find_scheme [] = none
find_scheme (c ∷ []) = none
find_scheme (c ∷ d ∷ s) =
    let rest = find_scheme (d ∷ s) in
    if c == 58 && d == 47
    then some ([], d ∷ s)
    else elim rest [ none ↦ none | some (before, behind) ↦ some (c ∷ before, behind) ]

-- Two slashes are left out, one is left.
abbrev pub strip_slashes : Bytes → Bytes
strip_slashes (c ∷ d ∷ s) = if d == 47 then s else c ∷ d ∷ s
strip_slashes s = s

-- `strpbrk(uri, "/@")`, if it comes to an `@`: what stands behind it.
unfoldable pub behind_at : Bytes → Option Bytes
behind_at [] = none
behind_at (c ∷ s) =
    let rest = behind_at s in if c == 47 then none else if c == 64 then some s else rest

-- The loops that copy up to one of two bytes: what is copied, and the rest.
unfoldable pub up_to : ℕ → ℕ → Bytes → Bytes × Bytes
up_to a b [] = ([], [])
up_to a b (c ∷ s) =
    let (before, rest) = up_to a b s in if c == a || c == b then ([], c ∷ s) else (c ∷ before, rest)

-- The user, and the password where a colon stands before the `@`.
abbrev pub password_of : Bytes → Bytes
password_of [] = []
password_of (c ∷ s) = if c == 58 then take 64 (up_to 58 64 s).0 else []

-- The digits of a port, and the rest; without a rest, the port is invalid.
unfoldable pub port_loop : Bytes → ℕ → ℕ × Option Bytes
port_loop [] n = (n, some [])
port_loop (c ∷ s) n =
    let rest = port_loop s (n * 10 + (c - 48)) in
    if c == 47 then (n, some (c ∷ s)) else if isdigit c then rest else (n, none)

-- The port that is set from the scheme, or that stands behind a colon.
unfoldable pub port_of : ℕ → Bytes → ℕ × Option Bytes
unfolding port_loop
port_of default [] = (default, some [])
port_of default (c ∷ s) =
    let given = port_loop s 0 in if c == 58 then given else (default, some (c ∷ s))

-- `hexnums[n]`
abbrev pub hexnum : ℕ → ℕ
hexnum n = if ltb n 10 then n + 48 else n + 87

-- The loop that writes the document.
unfoldable pub encode_spaces : Bytes → Bytes
encode_spaces [] = []
encode_spaces (c ∷ s) =
    let rest = encode_spaces s in
    if isspace c then 37 ∷ hexnum (c / 16) ∷ hexnum (c % 16) ∷ rest else c ∷ rest

abbrev pub or_slash : Bytes → Bytes
or_slash [] = codes "/"
or_slash (c ∷ s) = c ∷ s

-- Behind the label `nohost`, for a document that fits, with its blanks encoded, into the 513 bytes of
-- `uri`; the loop does not look at that size.
unfoldable pub write_document : Bytes → Dest → Dest
unfolding encode_spaces
write_document p dest =
    if case_eq dest.scheme (codes "http") || case_eq dest.scheme (codes "https")
    then record dest { uri = encode_spaces (or_slash p) }
    else dest

-- From the port on, for the host's bytes: whether `CWMP_OK` is returned.
unfoldable pub from_port : Bytes → ℕ × Option Bytes → Dest → Bool × Dest
unfolding write_document
from_port host (port, none) dest = (false, record dest { host = take 128 host; port = port })
from_port host (port, some document) dest =
    (true, write_document document (record dest { host = take 128 host; port = port }))

unfoldable pub from_host : ℕ → Bytes × Bytes → Dest → Bool × Dest
unfolding port_of from_port
from_host default (host, rest) dest = from_port host (port_of default rest) dest

-- From the host on.
unfoldable pub parse_host : ℕ → Bytes → Dest → Bool × Dest
unfolding up_to from_host
parse_host default p dest = from_host default (up_to 47 58 p) dest

-- From the user on.
unfoldable pub from_user : ℕ → Bytes → Option Bytes → Dest → Bool × Dest
unfolding parse_host up_to
from_user default uri none dest = parse_host default uri dest
from_user default uri (some p) dest =
    let (user, rest) = up_to 58 64 uri in
    parse_host default p (record dest { user = take 64 user; password = password_of rest })

unfoldable pub parse_authority : ℕ → Bytes → Dest → Bool × Dest
unfolding behind_at from_user
parse_authority default uri dest = from_user default uri (behind_at uri) dest

-- From the test for a host on.
unfoldable pub parse_rest : ℕ → Bytes → Dest → Bool × Dest
unfolding parse_authority write_document
parse_rest default [] dest = (true, write_document [] dest)
parse_rest default (c ∷ s) dest =
    let authority = parse_authority default (c ∷ s) dest in
    if c == 47 || c == 46 then (true, write_document (c ∷ s) dest) else authority

-- `strncmp(url, "https:", 6) == 0`
abbrev pub default_port : Bytes → ℕ
default_port url = if bytes_eq (take 6 url) (codes "https:") then 443 else 80

-- Behind the scheme.
unfoldable pub from_scheme : Bytes → Option (Bytes × Bytes) → Dest → Bool × Dest
unfolding parse_rest
from_scheme url none dest = parse_rest (default_port url) url dest
from_scheme url (some (scheme, behind)) dest =
    parse_rest (default_port url) (strip_slashes behind) (record dest { scheme = take 8 scheme })

-- `http_parse_url`
unfoldable pub parse_url : Bytes → Dest → Bool × Dest
unfolding find_scheme from_scheme
parse_url url dest = from_scheme url (find_scheme url) dest

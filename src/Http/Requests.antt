-- ===== src/Http/Requests.antt =====
-- Requests in libcwmp/src/http.c: `http_read_request`, and `http_write_request` with `http_get` and
-- `http_post`.
pub mod Printed
pub mod Trip
use netcwmp.Common.{
  ℕ, zero, suc, ◌+◌, Bool, true, false, ◌&&◌, List, [], ◌∷◌, ◌++◌, map, Option, none, some, Bytes,
  codes, length, take, leb, decimal, ◌==◌, if◌then◌else◌,
}
use netcwmp.Types.{case_eq}
use netcwmp.Http.{Dest}
use netcwmp.Http.Headers.{Parser, parse_headers}
use netcwmp.Http.Reading.{broken, whole, read_header, crlf}
use netcwmp.Http.Reading
use netcwmp.Http.Splitting.{line_string, split_headers, joined}
use netcwmp.Digest.{DigestAuth, calc_digest_response}

-- `http_method_t`, as far as a request is given it.
pub data Method : Type 0 where
  get : Method
  put : Method
  post : Method
  head : Method
  unknown : Method

-- The first line up to its first blank.
unfoldable pub first_word : Bytes → Bytes
first_word [] = []
first_word (c ∷ s) = let rest = first_word s in if c == 32 then [] else c ∷ rest

-- The comparisons with `req_type`.
unfoldable pub method_of : Bytes → Method
method_of w =
    if case_eq (codes "GET") w
    then Method.get
    else if case_eq (codes "POST") w
    then Method.post
    else if case_eq (codes "HEAD") w
    then Method.head
    else Method.unknown

-- What `http_read_request` comes to: a return value that is not positive, or the number of bytes with
-- the method, the headers, and what has not been read.
pub data Request : Type 0 where
  failed : Request
  request : ℕ → Method → Parser → Bytes → Request

-- Behind `http_read_header`, for the copy of the header in `text`. `line[0]` is the start of the text
-- also where no line is counted.
unfoldable pub parse_request : Bytes → Bytes → Request
unfolding first_word method_of
parse_request text rest =
    request (length text) (method_of (first_word (line_string text)))
      (parse_headers (split_headers text) []) rest

unfoldable pub from_header : Reading.Header → Request
unfolding parse_request
from_header (broken lines) = failed
from_header (whole lines bytes rest) = parse_request (take 2047 (joined lines)) rest

-- `http_read_request`, for a header without NUL, while memory can be allocated.
unfoldable pub read_request : Bool → Bytes → Request
unfolding from_header
read_request closed s = from_header (read_header closed s)

-- The members of `http_dest_t` that a request is made of.
pub record Target : Type 0 where
  pub dest : Dest
  pub auth_type : ℕ
  pub cookie : Bytes
  pub auth : DigestAuth

-- `http_method`
abbrev pub method_text : Method → Bytes
method_text Method.post = codes "POST"
method_text Method.put = codes "PUT"
method_text _ = codes "GET"

-- The lines of `header_fmt`. The length is printed as an `int`: bodies are shorter than 2 ^ 31.
unfoldable pub head_lines : Method → Dest → ℕ → List Bytes
head_lines method d len =
    (method_text method ++ (32 ∷ (d.uri ++ codes " HTTP/1.1")))
    ∷ (codes "Host: " ++ (d.host ++ (58 ∷ decimal d.port)))
    ∷ codes "User-Agent: CPE Netcwmp Agent"
    ∷ codes "Accept: */*"
    ∷ codes "Content-Type: text/xml; charset=utf-8"
    ∷ (codes "Content-Length: " ++ decimal len)
    ∷ []

abbrev pub quoted : Bytes → Bytes
quoted v = 34 ∷ (v ++ 34 ∷ [])

-- The line of `auth_fmt`.
unfoldable pub auth_line : Bytes → DigestAuth → Bytes
auth_line user a =
    codes "Authorization: Digest username="
    ++ (quoted user
        ++ (codes ", realm="
            ++ (quoted a.realm
                ++ (codes ", nonce="
                    ++ (quoted a.nonce
                        ++ (codes ", uri="
                            ++ (quoted a.uri ++ (codes ", response=" ++ quoted a.response))))))))

-- `dest->auth.response` is calculated, where a body is sent with digest authentication and the last
-- response was not accepted.
unfoldable pub authorise : (Bytes → Bytes) → ℕ → Target → Target
authorise md5 len t =
    let a = t.auth in
    let response =
      calc_digest_response md5 t.dest.user t.dest.password a.realm a.nonce a.uri a.cnonce in
    if len == 0
    then t
    else if a.active
    then t
    else if t.auth_type == 2
    then record t { auth = record a { response = response } }
    else t

abbrev pub sends_auth : ℕ → Target → Bool
sends_auth len t = if len == 0 then false else if t.auth.active then false else t.auth_type == 2

abbrev pub auth_lines : Bool → Target → List Bytes
auth_lines false t = []
auth_lines true t = auth_line t.dest.user t.auth ∷ []

abbrev pub cookie_lines : Bytes → List Bytes
cookie_lines [] = []
cookie_lines (c ∷ s) = (codes "Cookie: " ++ c ∷ s) ∷ []

-- The pieces that are printed one behind the other.
unfoldable pub head_pieces : Method → ℕ → Target → List (List Bytes)
unfolding head_lines auth_line
head_pieces method len t =
    head_lines method t.dest len ∷ auth_lines (sends_auth len t) t ∷ cookie_lines t.cookie ∷ []

-- The calls of `snprintf` at `buffer + len1`, where `out` is what would have been written. Behind the
-- 1024 bytes the size that is left is a huge one, and the buffer overflows: `none`.
unfoldable pub print_pieces : Bytes → List (List Bytes) → Option Bytes
print_pieces out [] = if leb (length out) 1024 then some (take 1023 (out ++ 13 ∷ 10 ∷ [])) else none
print_pieces out (ls ∷ pieces) =
    let rest = print_pieces (out ++ joined (map crlf ls)) pieces in
    if leb (length out) 1024 then rest else none

abbrev pub with_body : Bytes → Option Bytes → Option Bytes
with_body body none = none
with_body body (some text) = some (text ++ body)

-- `http_write_request` with `http_get` and `http_post`, for the bytes of the chunk: what goes to the
-- socket, and the destination afterwards.
unfoldable pub write_request : (Bytes → Bytes) → Method → Bytes → Target → Option Bytes × Target
unfolding authorise head_pieces print_pieces
write_request md5 method body t =
    let t' = authorise md5 (length body) t in
    (with_body body (print_pieces [] (head_pieces method (length body) t')), t')

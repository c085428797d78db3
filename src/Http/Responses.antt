-- ===== src/Http/Responses.antt =====
-- Responses in libcwmp/src/http.c: `http_read_body`, `http_read_response` and `http_parse_cookie`.
pub mod Pieces
use netcwmp.Common.{
  ℕ, zero, suc, ◌+◌, ◌-◌, Bool, true, false, List, [], ◌∷◌, ◌++◌, Option, none, some, Bytes, codes,
  length, take, leb, ltb, isspace, atoi, to_int, ℤ, pos, negsuc, ◌==◌, if◌then◌else◌,
}
use netcwmp.Http.Headers.{Parser, get_variable, set_variable, parse_headers}
use netcwmp.Http.Reading.{broken, whole, read_header}
use netcwmp.Http.Reading
use netcwmp.Http.Splitting.{line_string, split_headers, joined}

-- What `http_read_body` returns, `none` for `CWMP_ERROR`, what it gives to the callback, and the
-- pieces that are not read.
pub record Body : Type 0 where
  pub bytes : Option ℕ
  pub written : List Bytes
  pub unread : List Bytes

abbrev pub write_body : Bytes → Body → Body
write_body piece b = record b { written = piece ∷ b.written }

-- The loop of `http_read_body`, after `bytes` bytes. The pieces are what the reads of up to 512 bytes
-- give; behind the last one a read gives 0 where the peer has closed the connection, and otherwise
-- fails.
unfoldable pub body_loop : Bool → ℕ → ℕ → List Bytes → Body
body_loop closed max bytes [] =
    if ltb bytes max
    then record { bytes = if closed then some bytes else none; written = []; unread = [] }
    else record { bytes = some bytes; written = []; unread = [] }
body_loop closed max bytes (piece ∷ pieces) =
    let further = write_body piece (body_loop closed max (bytes + length piece) pieces) in
    if ltb bytes max
    then further
    else record { bytes = some bytes; written = []; unread = piece ∷ pieces }

-- `http_read_body`
unfoldable pub read_body : Bool → ℕ → List Bytes → Body
unfolding body_loop
read_body closed max pieces = body_loop closed max 0 pieces

-- What stands before the first blank, and the rest from there.
unfoldable pub cut_blank : Bytes → Bytes × Bytes
cut_blank [] = ([], [])
cut_blank (c ∷ s) =
    let (before, rest) = cut_blank s in if c == 32 then ([], c ∷ s) else (c ∷ before, rest)

-- Behind blanks; `none` at the end of the line.
unfoldable pub behind_blanks : Bytes → Option Bytes
behind_blanks [] = none
behind_blanks (c ∷ s) = let rest = behind_blanks s in if c == 32 then rest else some (c ∷ s)

unfoldable pub code_message : Option Bytes → Option (Bytes × Bytes)
unfolding cut_blank behind_blanks
code_message none = none
code_message (some s) =
    let (code, rest) = cut_blank s in
    elim (behind_blanks rest) [ none ↦ none | some text ↦ some (code, text) ]

-- `resp_code` and `message` of the first line; `none` where one of them stays NULL.
unfoldable pub status_line : Bytes → Option (Bytes × Bytes)
unfolding code_message
status_line line = code_message (behind_blanks (cut_blank line).1)

-- `http_response_t`, with the bytes that the callback has got.
pub record Response : Type 0 where
  pub status : ℤ
  pub parser : Parser
  pub readers : List Bytes

abbrev pub no_response : Response
no_response = record { status = pos 0; parser = []; readers = [] }

-- `code < 200 || code >= 300`
abbrev pub is_failure : ℤ → Bool
is_failure (negsuc n) = true
is_failure (pos n) = if ltb n 200 then true else leb 300 n

-- The status code as an `int`.
abbrev pub code_of : Bytes → ℤ
code_of code = to_int (atoi code)

-- The variables that are set from the first line.
unfoldable pub set_status : Bytes → Bytes → Parser → Parser
unfolding set_variable
set_status code text p =
    let coded = set_variable (codes "__errorcode__") code p in
    let told =
      if is_failure (code_of code)
      then set_variable (codes "__errormessage__") text coded
      else coded in
    set_variable (codes "__req_type__") (codes "NONE") told

-- A negative length is none.
abbrev pub not_negative : ℤ → ℕ
not_negative (pos n) = n
not_negative (negsuc n) = 0

abbrev pub length_value : Option Bytes → ℕ
length_value none = 0
length_value (some v) = not_negative (to_int (atoi v))

-- The length of the body.
unfoldable pub content_length : Parser → ℕ
unfolding get_variable
content_length p = length_value (get_variable (codes "Content-Length") p)

-- Behind the first line: what is returned, with the response and the pieces that are not read.
unfoldable pub with_status :
    Bool → List Bytes → List Bytes → Option (Bytes × Bytes) → ℤ × Response × List Bytes
unfolding set_status content_length read_body
with_status closed lines pieces none = (negsuc 0, no_response, pieces)
with_status closed lines pieces (some (code, text)) =
    let p = parse_headers lines (set_status code text []) in
    let b = read_body closed (content_length p) pieces in
    (code_of code, record { status = code_of code; parser = p; readers = b.written }, b.unread)

unfoldable pub with_header :
    Bool → (Bytes → List Bytes) → Reading.Header → ℤ × Response × List Bytes
unfolding status_line with_status
with_header closed cut (broken lines) = (negsuc 0, no_response, [])
with_header closed cut (whole lines bytes rest) =
    let text = joined lines in
    with_status closed (split_headers text) (cut rest) (status_line (line_string text))

-- `http_read_response`, for a header without NUL, while memory can be allocated. `cut` says how what
-- stands behind the header comes in the reads of the body.
unfoldable pub read_response : Bool → (Bytes → List Bytes) → Bytes → ℤ × Response × List Bytes
unfolding with_header
read_response closed cut s = with_header closed cut (read_header closed s)

-- `http_parse_cookie`, for a cookie that is there.
unfoldable pub parse_cookie : Bytes → Bytes
parse_cookie [] = []
parse_cookie (c ∷ s) = let rest = parse_cookie s in if isspace c then rest else take 256 (c ∷ s)

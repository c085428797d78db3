-- ===== src/Http/Responses/Pieces.antt =====
-- Responses that are read, however their bodies come.
use netcwmp.Common.{
  ℕ, ◌+◌, ◌≤◌, ◌<◌, Bool, true, false, List, [], ◌∷◌, ◌++◌, none, some, Bytes, codes, bytes_eq,
  length, length-append, All, without, lt→ltb, to_int, to_int-pos, decimal, atoi-decimal, ◌==◌, ◌≡◌,
  refl, sym, ap, ap₂, ◌∙◌, arith, if◌then◌else◌,
}
use netcwmp.Types.{case_eq}
use netcwmp.Http.Headers.{Parser, get_variable, set_variable, parse_headers, IsValue}
use netcwmp.Http.Reading.{message, read_header-message}
use netcwmp.Http.Splitting.{
  line_string, split_headers, joined, IsSent, joined-written_lines, sent-IsLine, sent-AreLines,
  split_headers-message,
}
use netcwmp.Http.Requests.Printed.{lines_of, lowered}
use netcwmp.Http.Requests.Trip.{
  parse_lines-lines_of, line_string-message, length-lines_of, with_names,
}
use netcwmp.Http.Responses.{
  body_loop, read_body, cut_blank, behind_blanks, code_message, status_line, set_status, code_of,
  is_failure, not_negative, length_value, content_length, with_status, with_header, read_response,
}

-- The reads give at least a byte each.
abbrev pub AreReads : List Bytes → Type 0
AreReads = All (λ piece. 1 ≤ length piece)

-- A body that comes in any number of reads is written whole.
body_loop-exact :
    (closed : Bool) (max bytes : ℕ) (pieces : List Bytes)
    → AreReads pieces
    → bytes + length (joined pieces) ≡ max
    → body_loop closed max bytes pieces ≡ record { bytes = some max; written = pieces; unread = [] }
unfolding body_loop joined
body_loop-exact closed max bytes [] reads h = ground arith
body_loop-exact closed max bytes (piece ∷ pieces) reads h =
    let fits = length-append piece (joined pieces) in
    rw
      (
        lt→ltb bytes max (omega (arith, h, reads.0, fits)),
        body_loop-exact closed max (bytes + length piece) pieces reads.1 (omega (arith, h, fits)),
      )
      refl

cut_blank-append :
    (w rest : Bytes) → All (λ c. (c == 32) ≡ false) w → cut_blank (w ++ 32 ∷ rest) ≡ (w, 32 ∷ rest)
unfolding cut_blank
cut_blank-append [] rest h = refl
cut_blank-append (c ∷ w) rest h = rw (h.0, cut_blank-append w rest h.1) refl

-- A word of a first line.
abbrev pub IsWord : Bytes → Type 0
IsWord w = (1 ≤ length w) × All (λ c. (c == 32) ≡ false) w

behind_blanks-word :
    (w rest : Bytes) → IsWord w → behind_blanks (32 ∷ (w ++ rest)) ≡ some (w ++ rest)
unfolding behind_blanks
behind_blanks-word [] rest h = absurd (omega (arith, h.0))
behind_blanks-word (c ∷ w) rest h = rw (h.1.0) refl

behind_blanks-value : (text : Bytes) → IsValue text → behind_blanks (32 ∷ text) ≡ some text
unfolding behind_blanks
behind_blanks-value [] h = absurd h
behind_blanks-value (c ∷ s) h = rw h refl

-- The first line of a response.
abbrev pub status_text : Bytes → Bytes → Bytes → Bytes
status_text version code text = version ++ 32 ∷ (code ++ 32 ∷ text)

status_line-status_text :
    (version code text : Bytes)
    → All (λ c. (c == 32) ≡ false) version
    → IsWord code
    → IsValue text
    → status_line (status_text version code text) ≡ some (code, text)
unfolding status_line code_message
status_line-status_text version code text hv hc ht =
    rw
      (
        cut_blank-append version (code ++ 32 ∷ text) hv,
        behind_blanks-word code (32 ∷ text) hc,
        code_message,
        cut_blank-append code text hc.1,
        behind_blanks-value text ht,
        cut_blank-append code text hc.1,
      )
      refl

set_status-length : (code text : Bytes) → length (set_status code text []) ≤ 3
unfolding set_status set_variable
set_status-length code text =
    elim (is_failure (code_of code))
      as (λ b.
        length (
          set_variable (codes "__req_type__") (codes "NONE") (
            if b
            then set_variable (codes "__errormessage__") text
                (set_variable (codes "__errorcode__") code [])
            else set_variable (codes "__errorcode__") code []))
        ≤ 3) [ true ↦ omega arith | false ↦ omega arith ]

content_length-set_status :
    (code text : Bytes) → get_variable (codes "Content-Length") (set_status code text []) ≡ none
unfolding set_status set_variable get_variable case_eq bytes_eq
content_length-set_status code text =
    elim (is_failure (code_of code))
      as (λ b.
        get_variable (codes "Content-Length") (
          set_variable (codes "__req_type__") (codes "NONE") (
            if b
            then set_variable (codes "__errormessage__") text
                (set_variable (codes "__errorcode__") code [])
            else set_variable (codes "__errorcode__") code []))
        ≡ none) [ true ↦ refl | false ↦ refl ]

get_variable-append_none :
    (name : Bytes) (p q : Parser)
    → get_variable name p ≡ none
    → get_variable name (p ++ q) ≡ get_variable name q
unfolding get_variable
get_variable-append_none name [] q h = refl
get_variable-append_none name ((n, v) ∷ p) q h = ground (arith, get_variable-append_none name p q)

content_length-decimal :
    (code text : Bytes) (q : Parser) (n : ℕ)
    → n < 2147483648
    → get_variable (codes "Content-Length") q ≡ some (decimal n)
    → content_length (set_status code text [] ++ q) ≡ n
unfolding content_length
content_length-decimal code text q n h e =
    ap length_value (
      get_variable-append_none (codes "Content-Length") (set_status code text []) q
        (content_length-set_status code text)
      ∙ e)
    ∙ ap not_negative (ap to_int (atoi-decimal n (omega (arith, h))) ∙ to_int-pos n h)

-- Behind the header, for the headers `nvs`.
with_status-lines :
    (closed : Bool) (first : Bytes) (nvs : List (Bytes × Bytes)) (code text : Bytes)
    (pieces : List Bytes)
    → length nvs ≤ 61
    → All (λ nv. without 58 nv.0 ≡ true) nvs
    → All (λ nv. IsValue nv.1) nvs
    → AreReads pieces
    → length (joined pieces) < 2147483648
    → get_variable (codes "Content-Length") (lowered nvs) ≡ some (decimal (length (joined pieces)))
    → with_status closed (first ∷ lines_of nvs) pieces (some (code, text)) ≡ (
      code_of code,
      record {
        status = code_of code;
        parser = set_status code text [] ++ lowered nvs;
        readers = pieces;
      },
      [],
    )
unfolding with_status parse_headers read_body
with_status-lines closed first nvs code text pieces many names values reads below e =
    let p = set_status code text [] in
    let n = length (joined pieces) in
    rw
      (
        parse_lines-lines_of nvs p (omega (arith, many, set_status-length code text))
            (with_names nvs names values),
        content_length-decimal code text (lowered nvs) n below e,
        body_loop-exact closed n 0 pieces reads (omega arith),
      )
      refl

-- A response whose header has a version, a code and a message, at most 61 headers with names without
-- colon and values that are not empty and begin with no blank, one of them the length of the body,
-- and lines of at most 1020 bytes without a NUL or a byte of a line end; the body has less than 2 ^ 31
-- bytes. However the body comes, as
-- long as each read gives a byte: `http_read_response` returns the code as an `int`, sets the status and the
-- headers, gives the whole body to the callback and leaves nothing to be read.
pub read_response-message :
    (closed : Bool) (cut : Bytes → List Bytes) (version code text : Bytes)
    (nvs : List (Bytes × Bytes)) (body : Bytes)
    → joined (cut body) ≡ body
    → AreReads (cut body)
    → All (λ c. (c == 32) ≡ false) version
    → IsWord code
    → IsValue text
    → length nvs ≤ 61
    → All (λ nv. without 58 nv.0 ≡ true) nvs
    → All (λ nv. IsValue nv.1) nvs
    → All IsSent (status_text version code text ∷ lines_of nvs)
    → length body < 2147483648
    → get_variable (codes "Content-Length") (lowered nvs) ≡ some (decimal (length body))
    → read_response closed cut (message (status_text version code text ∷ lines_of nvs) body) ≡ (
      code_of code,
      record {
        status = code_of code;
        parser = set_status code text [] ++ lowered nvs;
        readers = cut body;
      },
      [],
    )
unfolding read_response with_header
read_response-message closed cut version code text nvs body whole_body reads hv hc ht many names
      values sent below e =
    let first = status_text version code text in
    let ls = first ∷ lines_of nvs in
    ap (with_header closed cut) (read_header-message closed ls body (sent-IsLine ls sent))
    ∙ ap (λ s. with_status closed (split_headers s) (cut body) (status_line (line_string s)))
        (joined-written_lines ls)
    ∙ ap₂ (λ ms l. with_status closed ms (cut body) (status_line l))
        (split_headers-message first (lines_of nvs) (omega (arith, many, length-lines_of nvs))
          (sent-AreLines ls sent))
        (line_string-message first (lines_of nvs) sent.0.2)
    ∙ ap (with_status closed ls (cut body)) (status_line-status_text version code text hv hc ht)
    ∙ with_status-lines closed first nvs code text (cut body) many names values reads
        (omega (arith, below, ap length whole_body))
        (e ∙ ap (λ s. some (decimal (length s))) (sym whole_body))

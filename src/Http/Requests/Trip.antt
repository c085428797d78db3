-- ===== src/Http/Requests/Trip.antt =====
-- Requests that are written and read again.
use netcwmp.Common.{
  ℕ, suc, ◌+◌, ◌≤◌, Bool, true, false, List, [], ◌∷◌, ◌++◌, map, append_assoc, append-nil, some,
  Bytes, length, length-append, take, take_all, All, without, without_sound, bytes_eq, ◌==◌, ◌≡◌,
  refl, sym, ap, ap₂, ◌∙◌, arith,
}
use netcwmp.Types.{case_eq, to_lower}
use netcwmp.Http.Headers.{Parser, parse_lines, parse_headers, IsValue, parse_line-line_of}
use netcwmp.Http.Reading.{message, header_length, read_header-message}
use netcwmp.Http.Splitting.{
  line_string, split_headers, IsText, IsSent, joined-written_lines, sent-IsLine, sent-AreLines,
  split_headers-message, line_string-text,
}
use netcwmp.Http.Requests.Printed.{
  header_fields, auth_fields, cookie_fields, first_line, lines_of, lowered, length-message,
  request_lines, write_request-message,
}
use netcwmp.Http.Requests.{
  Method, first_word, method_of, request, parse_request, from_header, read_request, Target,
  authorise, sends_auth, write_request,
}

pub parse_lines-lines_of :
    (nvs : List (Bytes × Bytes)) (p : Parser)
    → length p + length nvs ≤ 64
    → All (λ nv. All (λ c. (c == 58) ≡ false) nv.0 × IsValue nv.1) nvs
    → parse_lines (lines_of nvs) p ≡ p ++ lowered nvs
unfolding parse_lines
parse_lines-lines_of [] p h each = sym (append-nil p)
parse_lines-lines_of ((n, v) ∷ nvs) p h each =
    ap (parse_lines (lines_of nvs)) (parse_line-line_of n v p each.0.0 each.0.1 (omega (arith, h)))
    ∙ parse_lines-lines_of nvs (p ++ (map to_lower n, v) ∷ [])
        (omega (arith, h, length-append p ((map to_lower n, v) ∷ []))) each.1
    ∙ append_assoc p ((map to_lower n, v) ∷ []) (lowered nvs)

-- The headers' values: none is empty or begins with a blank.
abbrev pub AreValues : List (Bytes × Bytes) → Type 0
AreValues = All (λ nv. IsValue nv.1)

pub with_names :
    (nvs : List (Bytes × Bytes))
    → All (λ nv. without 58 nv.0 ≡ true) nvs
    → AreValues nvs
    → All (λ nv. All (λ c. (c == 58) ≡ false) nv.0 × IsValue nv.1) nvs
with_names [] names values = tt
with_names ((n, v) ∷ nvs) names values =
    ((without_sound 58 n names.0, values.0), with_names nvs names.1 values.1)

optional_names :
    (b : Bool) (cookie : Bytes) (t : Target)
    → All (λ nv. without 58 nv.0 ≡ true) (auth_fields b t ++ cookie_fields cookie)
optional_names false [] t = tt
optional_names false (c ∷ s) t = (refl, tt)
optional_names true [] t = (refl, tt)
optional_names true (c ∷ s) t = (refl, (refl, tt))

names : (len : ℕ) (t : Target) → All (λ nv. without 58 nv.0 ≡ true) (header_fields len t)
names len t = (refl, (refl, (refl, (refl, (refl, optional_names (sends_auth len t) t.cookie t)))))

optional_length :
    (b : Bool) (cookie : Bytes) (t : Target) → length (auth_fields b t ++ cookie_fields cookie) ≤ 2
optional_length false [] t = omega arith
optional_length false (c ∷ s) t = omega arith
optional_length true [] t = omega arith
optional_length true (c ∷ s) t = omega arith

fields_length : (len : ℕ) (t : Target) → length (header_fields len t) ≤ 7
fields_length len t = omega (arith, optional_length (sends_auth len t) t.cookie t)

pub length-lines_of : (nvs : List (Bytes × Bytes)) → length (lines_of nvs) ≡ length nvs
length-lines_of [] = refl
length-lines_of (nv ∷ nvs) = ap suc (length-lines_of nvs)

post_line : (t : Target) → method_of (first_word (first_line t)) ≡ Method.post
unfolding method_of first_word case_eq bytes_eq
post_line t = refl

pub line_string-message :
    (l : Bytes) (ls : List Bytes) → All IsText l → line_string (message (l ∷ ls) []) ≡ l
unfolding message
line_string-message l ls h = line_string-text l (10 ∷ message ls []) h

parse_request-message :
    (l : Bytes) (ls : List Bytes) (body : Bytes)
    → length ls ≤ 63
    → All IsSent (l ∷ ls)
    → parse_request (message (l ∷ ls) []) body
      ≡ request (header_length (l ∷ ls)) (method_of (first_word l)) (parse_headers (l ∷ ls) []) body
unfolding parse_request
parse_request-message l ls body h sent =
    ap
      (λ n.
        request n (method_of (first_word (line_string (message (l ∷ ls) []))))
          (parse_headers (split_headers (message (l ∷ ls) [])) []) body)
      (length-message (l ∷ ls))
    ∙ ap₂
        (λ w ms.
          request (header_length (l ∷ ls)) (method_of (first_word w)) (parse_headers ms []) body)
        (line_string-message l ls sent.0.2)
        (split_headers-message l ls h (sent-AreLines (l ∷ ls) sent))

-- A request whose header fits into the copy is read as its first line and its headers say.
pub read_request-lines :
    (closed : Bool) (first : Bytes) (nvs : List (Bytes × Bytes)) (body : Bytes)
    → header_length (first ∷ lines_of nvs) ≤ 2047
    → length nvs ≤ 63
    → All IsSent (first ∷ lines_of nvs)
    → All (λ nv. without 58 nv.0 ≡ true) nvs
    → AreValues nvs
    → read_request closed (message (first ∷ lines_of nvs) body)
      ≡ request
          (header_length (first ∷ lines_of nvs))
          (method_of (first_word first))
          (lowered nvs)
          body
unfolding read_request from_header
read_request-lines closed first nvs body h many sent names values =
    let ls = first ∷ lines_of nvs in
    ap from_header (read_header-message closed ls body (sent-IsLine ls sent))
    ∙ ap (λ s. parse_request (take 2047 s) body) (joined-written_lines ls)
    ∙ ap (λ s. parse_request s body)
        (take_all 2047 (message ls []) (omega (arith, h, length-message ls)))
    ∙ parse_request-message first (lines_of nvs) body (omega (arith, many, length-lines_of nvs))
        sent
    ∙ ap (λ p. request (header_length ls) (method_of (first_word first)) p body)
        (unfold parse_headers in
          parse_lines-lines_of nvs [] (omega (arith, many)) (with_names nvs names values))

read_request-message :
    (closed : Bool) (len : ℕ) (t : Target) (body : Bytes)
    → header_length (request_lines len t) ≤ 1023
    → All IsSent (request_lines len t)
    → AreValues (header_fields len t)
    → read_request closed (message (request_lines len t) body)
      ≡ request
          (header_length (request_lines len t))
          Method.post
          (lowered (header_fields len t))
          body
read_request-message closed len t body h sent values =
    read_request-lines closed (first_line t) (header_fields len t) body (omega (arith, h))
      (omega (arith, fields_length len t)) sent (names len t) values
    ∙ ap (λ m. request (header_length (request_lines len t)) m (lowered (header_fields len t)) body)
        (post_line t)

-- The destination with the response that is calculated for the request.
abbrev pub sent_target : (Bytes → Bytes) → Bytes → Target → Target
sent_target md5 body t = authorise md5 (length body) t

-- A POST whose header fits in 1023 bytes, each line without a NUL or a byte of a line end, and no
-- value of a header empty or with a blank in front: what `http_write_request` sends is read back by
-- `http_read_request` as a POST with the headers that were sent, their names in lower case, and the
-- body is left to be read.
pub read_request-write_request :
    (md5 : Bytes → Bytes) (closed : Bool) (body : Bytes) (t : Target)
    → header_length (request_lines (length body) (sent_target md5 body t)) ≤ 1023
    → All IsSent (request_lines (length body) (sent_target md5 body t))
    → AreValues (header_fields (length body) (sent_target md5 body t))
    → (sent : Bytes) × ((write_request md5 Method.post body t).0 ≡ some sent)
      × (read_request closed sent
          ≡ request
              (header_length (request_lines (length body) (sent_target md5 body t)))
              Method.post
              (lowered (header_fields (length body) (sent_target md5 body t)))
              body)
read_request-write_request md5 closed body t h sent values =
    let u = sent_target md5 body t in
    (
      message (request_lines (length body) u) body,
      write_request-message md5 body t h,
      read_request-message closed (length body) u body h sent values,
    )

-- ===== src/Http/Requests/Printed.antt =====
-- The text of a request that `http_write_request` of libcwmp/src/http.c makes.
use netcwmp.Common.{
  ℕ, ◌+◌, ◌≤◌, ◌<◌, Bool, true, false, List, [], ◌∷◌, ◌++◌, map, append_assoc, append-nil, none,
  some, Bytes, codes, length, length-append, take_all, leb, le→leb, lt→leb, decimal, ◌≡◌, refl, ap,
  ◌∙◌, arith, if◌then◌else◌,
}
use netcwmp.Types.{to_lower}
use netcwmp.Http.Headers.{Parser, line_of}
use netcwmp.Http.Reading.{crlf, message, header_length}
use netcwmp.Http.Splitting.{joined}
use netcwmp.Http.Requests.{
  Method, Target, head_lines, quoted, auth_line, authorise, sends_auth, auth_lines, cookie_lines,
  head_pieces, print_pieces, with_body, write_request,
}

-- The names and values of the headers that are sent.
abbrev pub auth_fields : Bool → Target → List (Bytes × Bytes)
auth_fields false t = []
auth_fields true t =
    (
      codes "Authorization",
      codes "Digest username="
          ++ (quoted t.dest.user
              ++ (codes ", realm="
                  ++ (quoted t.auth.realm
                      ++ (codes ", nonce="
                          ++ (quoted t.auth.nonce
                              ++ (codes ", uri="
                                  ++ (quoted t.auth.uri
                                      ++ (codes ", response=" ++ quoted t.auth.response)))))))),
    )
    ∷ []

abbrev pub cookie_fields : Bytes → List (Bytes × Bytes)
cookie_fields [] = []
cookie_fields (c ∷ s) = (codes "Cookie", c ∷ s) ∷ []

abbrev pub header_fields : ℕ → Target → List (Bytes × Bytes)
header_fields len t =
    (codes "Host", t.dest.host ++ (58 ∷ decimal t.dest.port))
    ∷ (codes "User-Agent", codes "CPE Netcwmp Agent")
    ∷ (codes "Accept", codes "*/*")
    ∷ (codes "Content-Type", codes "text/xml; charset=utf-8")
    ∷ (codes "Content-Length", decimal len)
    ∷ (auth_fields (sends_auth len t) t ++ cookie_fields t.cookie)

-- The first line, and the lines of the headers.
abbrev pub first_line : Target → Bytes
first_line t = codes "POST " ++ (t.dest.uri ++ codes " HTTP/1.1")

abbrev pub lines_of : List (Bytes × Bytes) → List Bytes
lines_of = map (λ nv. line_of nv.0 nv.1)

-- The headers as they are read.
abbrev pub lowered : List (Bytes × Bytes) → Parser
lowered = map (λ nv. (map to_lower nv.0, nv.1))

message-append : (ls : List Bytes) (body : Bytes) → message ls [] ++ body ≡ message ls body
unfolding message
message-append [] body = refl
message-append (l ∷ ls) body =
    append_assoc l (13 ∷ 10 ∷ message ls []) body
    ∙ ap (λ s. l ++ 13 ∷ 10 ∷ s) (message-append ls body)

joined-crlf : (ls ms : List Bytes) → joined (map crlf ls) ++ message ms [] ≡ message (ls ++ ms) []
unfolding joined message
joined-crlf [] ms = refl
joined-crlf (l ∷ ls) ms =
    append_assoc (crlf l) (joined (map crlf ls)) (message ms [])
    ∙ append_assoc l (13 ∷ 10 ∷ []) (joined (map crlf ls) ++ message ms [])
    ∙ ap (λ s. l ++ 13 ∷ 10 ∷ s) (joined-crlf ls ms)

pub length-message : (ls : List Bytes) → length (message ls []) ≡ header_length ls
unfolding message header_length
length-message [] = refl
length-message (l ∷ ls) = omega (
  arith,
  length-append l (13 ∷ 10 ∷ message ls []),
  length-append l (13 ∷ 10 ∷ []),
  length-message ls,
)

-- The pieces, one behind the other.
abbrev concat : List (List Bytes) → List Bytes
concat [] = []
concat (ls ∷ pieces) = ls ++ concat pieces

joined-append :
    (out : Bytes) (ls ms : List Bytes)
    → (out ++ joined (map crlf ls)) ++ joined (map crlf ms) ≡ out ++ joined (map crlf (ls ++ ms))
unfolding joined
joined-append out [] ms = ap (λ s. s ++ joined (map crlf ms)) (append-nil out)
joined-append out (l ∷ ls) ms =
    append_assoc out (crlf l ++ joined (map crlf ls)) (joined (map crlf ms))
    ∙ ap (λ s. out ++ s)
        (append_assoc (crlf l) (joined (map crlf ls)) (joined (map crlf ms))
          ∙ ap (λ s. crlf l ++ s) (joined-append [] ls ms))

length-joined : (ls : List Bytes) → length (joined (map crlf ls)) + 2 ≡ header_length ls
unfolding joined header_length
length-joined [] = refl
length-joined (l ∷ ls) =
    omega (arith, length-append (crlf l) (joined (map crlf ls)), length-joined ls)

print_pieces-concat :
    (out : Bytes) (pieces : List (List Bytes))
    → length (out ++ message (concat pieces) []) ≤ 1023
    → print_pieces out pieces ≡ some (out ++ message (concat pieces) [])
unfolding print_pieces
print_pieces-concat out [] h =
    unfold message in
    rw (le→leb (length out) 1024 (omega (arith, h, length-append out (13 ∷ 10 ∷ []))))
      (ap some (take_all 1023 (out ++ 13 ∷ 10 ∷ []) h))
print_pieces-concat out (ls ∷ pieces) h =
    let e : (out ++ joined (map crlf ls)) ++ message (concat pieces) []
        ≡ out ++ message (ls ++ concat pieces) [] =
      append_assoc out (joined (map crlf ls)) (message (concat pieces) [])
      ∙ ap (λ s. out ++ s) (joined-crlf ls (concat pieces)) in
    rw
      (le→leb (length out) 1024
        (omega (arith, h, length-append out (message (ls ++ concat pieces) []))))
      (print_pieces-concat (out ++ joined (map crlf ls)) pieces (omega (arith, h, ap length e))
        ∙ ap some e)

optional :
    (b : Bool) (cookie : Bytes) (t : Target)
    → auth_lines b t ++ (cookie_lines cookie ++ [])
      ≡ lines_of (auth_fields b t ++ cookie_fields cookie)
unfolding auth_line
optional false [] t = refl
optional false (c ∷ s) t = refl
optional true [] t = refl
optional true (c ∷ s) t = refl

concat-head_pieces :
    (len : ℕ) (t : Target)
    → concat (head_pieces Method.post len t) ≡ first_line t ∷ lines_of (header_fields len t)
unfolding head_pieces head_lines
concat-head_pieces len t =
    ap (λ ls. concat (head_lines Method.post t.dest len ∷ []) ++ ls)
      (optional (sends_auth len t) t.cookie t)

-- The text of a request with these headers.
abbrev pub request_lines : ℕ → Target → List Bytes
request_lines len t = first_line t ∷ lines_of (header_fields len t)

pub write_request-message :
    (md5 : Bytes → Bytes) (body : Bytes) (t : Target)
    → header_length (request_lines (length body) (authorise md5 (length body) t)) ≤ 1023
    → (write_request md5 Method.post body t).0
      ≡ some (message (request_lines (length body) (authorise md5 (length body) t)) body)
unfolding write_request
write_request-message md5 body t h =
    let t' = authorise md5 (length body) t in
    let e = concat-head_pieces (length body) t' in
    ap (with_body body) (
      print_pieces-concat [] (head_pieces Method.post (length body) t') (
        omega (
          arith,
          h,
          length-message (request_lines (length body) t'),
          ap (λ ls. length (message ls [])) e,
        ))
      ∙ ap (λ ls. some (message ls [])) e)
    ∙ ap some (message-append (request_lines (length body) t') body)

print_pieces_overflow :
    (out : Bytes) (pieces : List (List Bytes))
    → 1024 < length (out ++ joined (map crlf (concat pieces)))
    → print_pieces out pieces ≡ none
unfolding print_pieces
print_pieces_overflow out [] h =
    unfold joined in rw (lt→leb 1024 (length out) (omega (arith, h, length-append out []))) refl
print_pieces_overflow out (ls ∷ pieces) h =
    elim (leb (length out) 1024)
      as (λ b. (if b then print_pieces (out ++ joined (map crlf ls)) pieces else none) ≡ none) [
        | true ↦
            print_pieces_overflow (out ++ joined (map crlf ls)) pieces
              (omega (arith, h, ap length (joined-append out ls (concat pieces))))
        | false ↦ refl
      ]

-- A POST whose header, without the empty line at its end, is longer than 1024 bytes: the buffer of
-- `http_write_request` overflows.
pub write_request_overflow :
    (md5 : Bytes → Bytes) (body : Bytes) (t : Target)
    → 1026 < header_length (request_lines (length body) (authorise md5 (length body) t))
    → (write_request md5 Method.post body t).0 ≡ none
unfolding write_request
write_request_overflow md5 body t h =
    let t' = authorise md5 (length body) t in
    ap (with_body body) (
      print_pieces_overflow [] (head_pieces Method.post (length body) t') (
        omega (
          arith,
          h,
          length-joined (concat (head_pieces Method.post (length body) t')),
          ap header_length (concat-head_pieces (length body) t'),
        )))

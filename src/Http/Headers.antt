-- ===== src/Http/Headers.antt =====
-- The headers of a message in libcwmp/src/http.c: `http_get_variable`, `http_set_variable` and
-- `http_parse_headers`.
use netcwmp.Common.{
  ℕ, lt→ltb, bytes_eq, ◌<◌, Bool, true, false, List, [], ◌∷◌, ◌++◌, map, Option, none, some, Bytes,
  length, ltb, ◌==◌, ◌≡◌, refl, ap, ap₂, ◌∙◌, arith, if◌then◌else◌, All,
}
use netcwmp.Types.{case_eq, to_lower}

-- `http_parser_t`: the names and values, in the order in which they came.
abbrev pub Parser : Type 0
Parser = List (Bytes × Bytes)

-- `http_get_variable`
unfoldable pub get_variable : Bytes → Parser → Option Bytes
get_variable name [] = none
get_variable name ((n, value) ∷ p) =
    let rest = get_variable name p in if case_eq n name then some value else rest

-- `http_set_variable`, for a name and a value that are not null; the name is put in lower case. The
-- allocations succeed.
unfoldable pub set_variable : Bytes → Bytes → Parser → Parser
set_variable name value p = if ltb (length p) 64 then p ++ (map to_lower name, value) ∷ [] else p

-- What stands before the first colon.
unfoldable pub name_of : Bytes → Bytes
name_of [] = []
name_of (c ∷ s) = let rest = name_of s in if c == 58 then [] else c ∷ rest

-- The value behind the blanks; `none` is NULL.
unfoldable pub skip_blanks : Bytes → Option Bytes
skip_blanks [] = none
skip_blanks (c ∷ s) = let rest = skip_blanks s in if c == 32 then rest else some (c ∷ s)

-- The loop over a line, where `whitespace` says that the byte before was a colon.
unfoldable pub value_of : Bool → Bytes → Option Bytes
unfolding skip_blanks
value_of whitespace [] = none
value_of whitespace (c ∷ s) =
    let behind_colon = value_of true s in
    let further = value_of false s in
    if c == 58 then behind_colon else if whitespace then skip_blanks (c ∷ s) else further

-- A round of `http_parse_headers`.
unfoldable pub parse_line : Bytes → Parser → Parser
unfolding name_of value_of set_variable
parse_line line p = elim (value_of false line) [
  | none ↦ p
  | some value ↦ set_variable (name_of line) value p
]

unfoldable pub parse_lines : List Bytes → Parser → Parser
unfolding parse_line
parse_lines [] p = p
parse_lines (line ∷ lines) p = parse_lines lines (parse_line line p)

-- `http_parse_headers`: the first line is that of the request or the status.
unfoldable pub parse_headers : List Bytes → Parser → Parser
unfolding parse_lines
parse_headers [] p = p
parse_headers (first ∷ lines) p = parse_lines lines p

-- The value that is there, or another one.
abbrev pub or_else : Option Bytes → Option Bytes → Option Bytes
or_else none o = o
or_else (some v) o = some v

to_lower_twice : (c : ℕ) → to_lower (to_lower c) ≡ to_lower c
to_lower_twice c = ground arith

map-to_lower : (s : Bytes) → map to_lower (map to_lower s) ≡ map to_lower s
map-to_lower [] = refl
map-to_lower (c ∷ s) = ap₂ (◌∷◌) (to_lower_twice c) (map-to_lower s)

get_variable-append :
    (name n value : Bytes) (p : Parser)
    → get_variable name (p ++ (n, value) ∷ [])
      ≡ or_else (get_variable name p) (if case_eq n name then some value else none)
unfolding get_variable
get_variable-append name n value [] = refl
get_variable-append name n value ((m, v) ∷ p) =
    elim (case_eq m name)
      as (λ b.
        (if b then some v else get_variable name (p ++ (n, value) ∷ []))
        ≡ or_else (if b then some v else get_variable name p)
            (if case_eq n name then some value else none)) [
              | true ↦ refl
              | false ↦ get_variable-append name n value p
            ]

get_variable-set_variable :
    (name n value : Bytes) (p : Parser)
    → length p < 64
    → get_variable name (set_variable n value p)
      ≡ or_else (get_variable name p) (if case_eq n name then some value else none)
unfolding set_variable case_eq
get_variable-set_variable name n value p h =
    ap (λ b. get_variable name (if b then p ++ (map to_lower n, value) ∷ [] else p))
      (lt→ltb (length p) 64 h)
    ∙ get_variable-append name (map to_lower n) value p
    ∙ ap
        (λ m.
          or_else (get_variable name p)
            (if bytes_eq m (map to_lower name) then some value else none))
        (map-to_lower n)

-- A value that is there and begins with no blank.
abbrev pub IsValue : Bytes → Type 0
IsValue [] = ⊥
IsValue (c ∷ s) = (c == 32) ≡ false

-- The line of a header, `name: value`.
abbrev pub line_of : Bytes → Bytes → Bytes
line_of name value = name ++ 58 ∷ 32 ∷ value

name_of-append :
    (name rest : Bytes) → All (λ c. (c == 58) ≡ false) name → name_of (name ++ 58 ∷ rest) ≡ name
unfolding name_of
name_of-append [] rest h = refl
name_of-append (c ∷ s) rest h = rw (h.0, name_of-append s rest h.1) refl

value_of-append :
    (name value : Bytes)
    → All (λ c. (c == 58) ≡ false) name
    → IsValue value
    → value_of false (line_of name value) ≡ some value
unfolding value_of skip_blanks
value_of-append [] [] h v = absurd v
value_of-append [] (c ∷ s) h v = rw (v) refl
value_of-append (c ∷ name) value h v = rw (h.0) (value_of-append name value h.1 v)

-- The header is put behind the others.
pub parse_line-line_of :
    (name value : Bytes) (p : Parser)
    → All (λ c. (c == 58) ≡ false) name
    → IsValue value
    → length p < 64
    → parse_line (line_of name value) p ≡ p ++ (map to_lower name, value) ∷ []
unfolding parse_line set_variable
parse_line-line_of name value p h v lt =
    rw
      (
        value_of-append name value h v,
        parse_line,
        name_of-append name (32 ∷ value) h,
        lt→ltb (length p) 64 lt,
      )
      refl

-- While fewer than 64 headers are there, a line `name: value`, whose name has no colon and whose
-- value is not empty and begins with no blank, adds the value under the name in any case of letters,
-- unless an earlier header has the name; other names are found as before.
pub get_variable-parse_line :
    (wanted name value : Bytes) (p : Parser)
    → All (λ c. (c == 58) ≡ false) name
    → IsValue value
    → length p < 64
    → get_variable wanted (parse_line (line_of name value) p)
      ≡ or_else (get_variable wanted p) (if case_eq name wanted then some value else none)
unfolding parse_line
get_variable-parse_line wanted name value p h v lt =
    rw (value_of-append name value h v, parse_line, name_of-append name (32 ∷ value) h)
      (get_variable-set_variable wanted name value p lt)

-- ===== src/Escape/Decode.antt =====
-- Text that `cwmp_xml_copy_to_chunk_with_escape` has escaped, read as XML.
use netcwmp.Common.{
  ℕ, zero, suc, ◌≤◌, ◌≡◌, refl, sym, ◌∙◌, ap, inl, inr, Bool, true, false, ◌||◌, [], ◌∷◌, ◌++◌,
  append_assoc, append-nil, Option, none, some, Bytes, codes, bytes_eq, length, ◌==◌, if◌then◌else◌,
  arith, Bool-cases, ==_iff, ℤ, All, All-append,
}
use netcwmp.Buffer.{Chunk, chunk_write_string}
use netcwmp.Buffer.Write.{IsWf, content, Wrote, chunk_write_string-Wrote}
use netcwmp.Escape.{escape_byte, copy_to_chunk_with_escape}

-- The bytes that the loop writes.
pub escape : Bytes → Bytes
escape [] = []
escape (c ∷ p) = escape_byte c ++ escape p

-- The five entities that XML predefines.
pub entity : Bytes → Option ℕ
entity name =
    if bytes_eq name (codes "lt")
    then some 60
    else if bytes_eq name (codes "gt")
    then some 62
    else if bytes_eq name (codes "amp")
    then some 38
    else if bytes_eq name (codes "apos")
    then some 39
    else if bytes_eq name (codes "quot")
    then some 34
    else none

-- A name up to its semicolon, and what is behind it.
pub reference : Bytes → Bytes × Bytes
reference [] = ([], [])
reference (c ∷ s) = if c == 59 then ([], s) else let (name, rest) = reference s in (c ∷ name, rest)

abbrev pub cons : Option ℕ → Option Bytes → Option Bytes
cons (some c) (some s) = some (c ∷ s)
cons _ _ = none

-- XML character data with at most `fuel` characters, decoded. It has no `<`, and an `&` begins a
-- predefined entity.
pub decode : ℕ → Bytes → Option Bytes
decode fuel [] = some []
decode zero (c ∷ s) = none
decode (suc k) (c ∷ s) =
    let (name, rest) = reference s in
    let plain = cons (some c) (decode k s) in
    let special = cons (entity name) (decode k rest) in
    if c == 38 then special else if c == 60 then none else plain

-- `e` is read as the byte `c`.
ReadsAs : ℕ → Bytes → Type 0
ReadsAs c e = (k : ℕ) (s : Bytes) → decode (suc k) (e ++ s) ≡ cons (some c) (decode k s)

ReadsAs-if :
    (c d : ℕ) (x y : Bytes)
    → ReadsAs d x
    → ((c == d) ≡ false → ReadsAs c y)
    → ReadsAs c (if c == d then x else y)
ReadsAs-if c d x y hx hy = elim (Bool-cases (c == d)) [
  | inl e ↦ rw (e, (==_iff c d).0 e) hx
  | inr e ↦ rw e (hy e)
]

ReadsAs-plain : (c : ℕ) → (c == 38) ≡ false → (c == 60) ≡ false → ReadsAs c (c ∷ [])
unfolding ReadsAs decode
ReadsAs-plain c a l k s = rw (a, l) refl

-- What stands for a byte is read as that byte.
escape_byte-ReadsAs : (c : ℕ) → ReadsAs c (escape_byte c)
unfolding ReadsAs decode escape_byte entity reference bytes_eq
escape_byte-ReadsAs c =
    ReadsAs-if c 60 _ _ (λ k s. refl)
      (λ lt.
        ReadsAs-if c 62 _ _ (λ k s. refl)
          (λ gt.
            ReadsAs-if c 38 _ _ (λ k s. refl)
              (λ amp.
                ReadsAs-if c 39 _ _ (λ k s. refl)
                  (λ apos. ReadsAs-if c 34 _ _ (λ k s. refl) (λ quot. ReadsAs-plain c amp lt)))))

-- Escaped text, decoded as XML with fuel for each byte of the text, is the text.
pub decode-escape : (s : Bytes) (k : ℕ) → length s ≤ k → decode k (escape s) ≡ some s
unfolding ReadsAs escape
decode-escape [] zero h = unfold decode in refl
decode-escape [] (suc k) h = unfold decode in refl
decode-escape (c ∷ s) zero h = elim h [ ]
decode-escape (c ∷ s) (suc k) h =
    escape_byte-ReadsAs c k (escape s) ∙ ap (cons (some c)) (decode-escape s k (omega arith))

-- No byte of it begins or ends a tag or an attribute value.
abbrev pub IsText : ℕ → Type 0
IsText c = (c == 60 || (c == 62 || (c == 39 || c == 34))) ≡ false

All-if :
    (b : Bool) (x y : Bytes)
    → All IsText x
    → (b ≡ false → All IsText y)
    → All IsText (if b then x else y)
All-if true x y hx hy = hx
All-if false x y hx hy = hy refl

pub escape-IsText : (s : Bytes) → All IsText (escape s)
unfolding escape escape_byte
escape-IsText [] = tt
escape-IsText (c ∷ s) =
    All-append IsText (escape_byte c) (escape s)
      (All-if (c == 60) _ _ (refl, (refl, (refl, (refl, tt))))
        (λ lt.
          All-if (c == 62) _ _ (refl, (refl, (refl, (refl, tt))))
            (λ gt.
              All-if (c == 38) _ _ (refl, (refl, (refl, (refl, (refl, tt)))))
                (λ amp.
                  All-if (c == 39) _ _ (refl, (refl, (refl, (refl, (refl, (refl, tt))))))
                    (λ apos.
                      All-if (c == 34) _ _ (refl, (refl, (refl, (refl, (refl, (refl, tt))))))
                        (λ quot. (rw (lt, gt, apos, quot) refl, tt)))))))
      (escape-IsText s)

Wrote-all :
    (str old : Bytes) (r : Option ℤ × Chunk)
    → Wrote (λ _. true) str 0 old r
    → IsWf r.1 × (content r.1 ≡ old ++ str)
Wrote-all str old r (Wrote.all e v g) = (v, g)
Wrote-all str old r (Wrote.part n k e v l g m) = absurd (ground arith)

-- Where no allocation fails, a well-formed chunk stays well-formed and the escaped text is appended
-- to its contents.
pub copy_to_chunk-escape :
    (p : Bytes) (cb : Chunk)
    → IsWf cb
    → let cb' = copy_to_chunk_with_escape (λ _ _. true) p cb in
      IsWf cb' × (content cb' ≡ content cb ++ escape p)
unfolding copy_to_chunk_with_escape escape
copy_to_chunk-escape [] cb v = (v, sym (append-nil (content cb)))
copy_to_chunk-escape (c ∷ p) cb v =
    let w =
      Wrote-all (escape_byte c) (content cb) (chunk_write_string (λ _. true) (escape_byte c) cb)
        (chunk_write_string-Wrote (λ _. true) (escape_byte c) cb v) in
    let rest = copy_to_chunk-escape p (chunk_write_string (λ _. true) (escape_byte c) cb).1 w.0 in
    (rest.0, rest.1 ∙ rw w.1 (append_assoc (content cb) (escape_byte c) (escape p)))

-- ===== src/Digest/Reads.antt =====
-- The loops over the fields of a header in libcwmp/src/http.c, on fields `key="value"`.
use netcwmp.Common.{
  ℕ, zero, suc, ◌+◌, ◌-◌, ◌≤◌, ◌<◌, false, List, [], ◌∷◌, ◌++◌, append_assoc, none, some, Bytes,
  length, drop, All, ◌==◌, ◌≡◌, refl, sym, ap, ◌∙◌, arith,
}
use netcwmp.Digest.{
  Fields, Slot, store, Scan, matched, is_quote, scan_value, scan_at, parse_key_value, Key, find_key,
  read_field, fields_loop,
}

-- A value that a field of the size can hold: not empty, without quotes.
abbrev pub IsValue : ℕ → Bytes → Type 0
IsValue size v = (1 ≤ length v) × (length v < size) × All (λ c. (c == 34) ≡ false) v

-- `key="value"`, where `text` is the key with its equals sign.
abbrev pub item : Bytes → Bytes → Bytes
item text v = text ++ (34 ∷ (v ++ 34 ∷ []))

matched-value :
    (width : ℕ) (v rest : Bytes)
    → length v ≤ width
    → All (λ c. (c == 34) ≡ false) v
    → matched is_quote width (v ++ 34 ∷ rest) ≡ v
unfolding matched
matched-value zero [] rest h plain = refl
matched-value (suc width) [] rest h plain = refl
matched-value zero (c ∷ v) rest h plain = absurd (omega (arith, h))
matched-value (suc width) (c ∷ v) rest h plain =
    rw (plain.0, matched-value width v rest (omega (arith, h)) plain.1) refl

scan_value-value :
    (width shift moved : ℕ) (v rest : Bytes)
    → 1 ≤ length v
    → length v ≤ width
    → All (λ c. (c == 34) ≡ false) v
    → scan_value is_quote width shift moved (v ++ 34 ∷ rest) ≡ Scan.reads v (moved + length v)
unfolding scan_value
scan_value-value width shift moved [] rest one h plain = absurd (omega (arith, one))
scan_value-value width shift moved (c ∷ v) rest one h plain =
    rw (plain.0, matched-value width (c ∷ v) rest h plain) refl

drop-append : (s t : Bytes) → drop (length s) (s ++ t) ≡ t
drop-append [] t = refl
drop-append (c ∷ s) t = drop-append s t

parse_key_value-item :
    (size : ℕ) (text v rest : Bytes)
    → IsValue size v
    → parse_key_value size (length text) (text ++ (34 ∷ (v ++ 34 ∷ rest)))
      ≡ Scan.reads v (length text + 1 + length v)
unfolding parse_key_value scan_at
parse_key_value-item size text v rest h = rw (drop-append text (34 ∷ (v ++ 34 ∷ rest))) (
    scan_value-value (size - 1) (length text) (length text + 1) v rest h.0 (omega (arith, h.1)) h.2)

-- Bytes that are left out.
fields_loop-skip :
    (keys : List Key) (s rest : Bytes) (f : Fields)
    → fields_loop keys (length s) (s ++ rest) f ≡ fields_loop keys 0 rest f
unfolding fields_loop
fields_loop-skip keys [] rest f = refl
fields_loop-skip keys (c ∷ s) rest f = fields_loop-skip keys s rest f

length-field : (t v : Bytes) → length (t ++ (34 ∷ (v ++ 34 ∷ []))) ≡ length t + 2 + length v
length-field [] [] = refl
length-field [] (c ∷ v) = omega (arith, length-field [] v)
length-field (c ∷ t) v = omega (arith, length-field t v)

field-rest :
    (t v rest : Bytes) → (t ++ (34 ∷ (v ++ 34 ∷ []))) ++ rest ≡ t ++ (34 ∷ (v ++ 34 ∷ rest))
field-rest t v rest =
    append_assoc t (34 ∷ (v ++ 34 ∷ [])) rest
    ∙ ap (λ s. t ++ (34 ∷ s)) (append_assoc v (34 ∷ []) rest)

skip-field :
    (keys : List Key) (n : ℕ) (t v rest : Bytes) (f : Fields)
    → n ≡ length t + 2 + length v
    → fields_loop keys n (t ++ (34 ∷ (v ++ 34 ∷ rest))) f ≡ fields_loop keys 0 rest f
skip-field keys n t v rest f h =
    ap (λ s. fields_loop keys n s f) (sym (field-rest t v rest))
    ∙ ap (λ m. fields_loop keys m ((t ++ (34 ∷ (v ++ 34 ∷ []))) ++ rest) f)
        (h ∙ sym (length-field t v))
    ∙ fields_loop-skip keys (t ++ (34 ∷ (v ++ 34 ∷ []))) rest f

-- A field whose key is found is stored, and the loop goes on behind it.
fields_loop-item :
    (keys : List Key) (c : ℕ) (t : Bytes) (size : ℕ) (slot : Slot) (v rest : Bytes) (f : Fields)
    → find_key keys (c ∷ (t ++ (34 ∷ (v ++ 34 ∷ rest))))
      ≡ some (record { text = c ∷ t; size = size; slot = slot })
    → IsValue size v
    → fields_loop keys 0 (c ∷ (t ++ (34 ∷ (v ++ 34 ∷ rest)))) f
      ≡ fields_loop keys 0 rest (store slot v f)
unfolding fields_loop read_field
fields_loop-item keys c t size slot v rest f found h =
    rw (found, parse_key_value-item size (c ∷ t) v rest h, read_field)
      (skip-field keys (suc (length t) + 1 + length v) t v rest (store slot v f) (omega arith))

-- Of the tests, the one for the key holds where it stands before a quote.
abbrev pub IsKnown : List Key → Key → Type 0
IsKnown keys k = (1 ≤ length k.text) × ((s : Bytes) → find_key keys (k.text ++ (34 ∷ s)) ≡ some k)

step :
    (keys : List Key) (text : Bytes) (size : ℕ) (slot : Slot) (v rest : Bytes) (f : Fields)
    → IsKnown keys (record { text = text; size = size; slot = slot })
    → IsValue size v
    → fields_loop keys 0 (text ++ (34 ∷ (v ++ 34 ∷ rest))) f
      ≡ fields_loop keys 0 rest (store slot v f)
step keys [] size slot v rest f known h = absurd (omega (arith, known.0))
step keys (c ∷ t) size slot v rest f known h =
    fields_loop-item keys c t size slot v rest f (known.1 (v ++ 34 ∷ rest)) h

-- The text of a list of fields, with commas and blanks between them.
abbrev pub comma : List (Key × Bytes) → Bytes → Bytes
comma [] s = s
comma (kv ∷ kvs) s = 44 ∷ 32 ∷ s

unfoldable pub fields_text : List (Key × Bytes) → Bytes
fields_text [] = []
fields_text ((k, v) ∷ kvs) = k.text ++ (34 ∷ (v ++ 34 ∷ comma kvs (fields_text kvs)))

-- The arrays after the values are stored, the last one for a key that is repeated.
unfoldable pub stored : List (Key × Bytes) → Fields → Fields
stored [] f = f
stored ((k, v) ∷ kvs) f = stored kvs (store k.slot v f)

-- No key begins with a comma or a blank.
abbrev pub AreKeys : List Key → Type 0
AreKeys keys = (s : Bytes) → (find_key keys (44 ∷ s) ≡ none) × (find_key keys (32 ∷ s) ≡ none)

fields_loop-comma :
    (keys : List Key) (kvs : List (Key × Bytes)) (s : Bytes) (f : Fields)
    → AreKeys keys
    → fields_loop keys 0 (comma kvs s) f ≡ fields_loop keys 0 s f
unfolding fields_loop read_field
fields_loop-comma keys [] s f h = refl
fields_loop-comma keys (kv ∷ kvs) s f h = rw ((h (32 ∷ s)).0, (h s).1) refl

pub fields_loop-fields_text :
    (keys : List Key) (kvs : List (Key × Bytes)) (f : Fields)
    → AreKeys keys
    → All (λ kv. IsKnown keys kv.0 × IsValue kv.0.size kv.1) kvs
    → fields_loop keys 0 (fields_text kvs) f ≡ some (stored kvs f)
unfolding fields_text stored
fields_loop-fields_text keys [] f h each = unfold fields_loop in refl
fields_loop-fields_text keys ((k, v) ∷ kvs) f h each =
    step keys k.text k.size k.slot v (comma kvs (fields_text kvs)) f each.0.0 each.0.1
    ∙ fields_loop-comma keys kvs (fields_text kvs) (store k.slot v f) h
    ∙ fields_loop-fields_text keys kvs (store k.slot v f) h each.1

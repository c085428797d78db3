-- ===== src/Buffer/Copy.antt =====
-- `cwmp_chunk_copy` of libcwmp/src/buffer.c against the contents of the chunk.
use Prim.Native.Nat.{min}
use netcwmp.Common.{
  ℕ, zero, suc, ◌+◌, ◌-◌, ◌≤◌, ◌≡◌, refl, sym, ◌∙◌, ap, subst, Bool, true, false, List, [], ◌∷◌,
  ◌++◌, Option, none, some, Bytes, length, take, All, All-append, All-append_left, All-append_right,
  length-append, take-append, take_all, ◌==◌, if◌then◌else◌, ℤ, pos, arith,
}
use netcwmp.Buffer.{
  Buffer, buffer_length, Chunk, from_current, buffers, chunk_write_string, strncpy, copy_loop,
  chunk_copy, chunk_clear,
}
use netcwmp.Buffer.Write.{
  strings, content, IsGood, Parts, IsWf, Wrote, chunk_write_string-Wrote, chunk_clear-IsWf,
}

-- A byte string that C code can read as a string.
abbrev pub NoNul : Bytes → Type 0
NoNul = All (λ c. (c == 0) ≡ false)

strncpy-NoNul : (n : ℕ) (s : Bytes) → n ≤ length s → NoNul s → strncpy n s ≡ take n s
unfolding strncpy
strncpy-NoNul zero s h z = refl
strncpy-NoNul (suc n) [] h z = elim h [ ]
strncpy-NoNul (suc n) (c ∷ s) h z = rw z.0 (ap (◌∷◌ c) (strncpy-NoNul n s (omega arith) z.1))

take_nothing : (n : ℕ) (s : Bytes) → length s ≤ 0 → [] ≡ take n s
take_nothing zero s h = refl
take_nothing (suc n) [] h = refl
take_nothing (suc n) (c ∷ s) h = elim h [ ]

copy_loop-take :
    (room left : ℕ) (bs : List Buffer)
    → All IsGood bs
    → NoNul (strings bs)
    → length (strings bs) ≤ left
    → copy_loop room left bs ≡ take room (strings bs)
unfolding copy_loop
copy_loop-take room left [] g z h = take_nothing room [] (omega arith)
copy_loop-take room left (b ∷ bs) g z h = cut (left == 0) refl (
    rw
      (
        strncpy-NoNul n b.string (omega (arith, total, g.0.length, g.0.readed))
            (All-append_left (λ c. (c == 0) ≡ false) b.string (strings bs) z),
        copy_loop-take (room - n) (left - n) bs g.1
            (All-append_right (λ c. (c == 0) ≡ false) b.string (strings bs) z)
            (omega (arith, total)),
      )
      (sym (
        take-append room n (room - n) b.string (strings bs)
          (omega (arith, total, g.0.length, g.0.readed)) refl)))
  where
    n : ℕ
    n = min room (min left (buffer_length b))

    total : length b.string + length (strings bs) ≤ left
    total = omega (arith, length-append b.string (strings bs), h)

    cut :
        (t : Bool)
        → (left == 0) ≡ t
        → strncpy n b.string ++ copy_loop (room - n) (left - n) bs ≡ take room (strings (b ∷ bs))
        → (if t then [] else strncpy n b.string ++ copy_loop (room - n) (left - n) bs)
          ≡ take room (strings (b ∷ bs))
    cut false e q = q
    cut true e q = take_nothing room (strings (b ∷ bs)) (ground arith)

buffers-IsGood :
    (before : List Buffer) (current : Option Buffer) (next : List Buffer)
    → Parts before current next
    → All IsGood (before ++ from_current current next)
buffers-IsGood [] none [] p = tt
buffers-IsGood (b ∷ bs) none [] p = absurd p
buffers-IsGood before (some b) [] p = All-append IsGood before (b ∷ []) p.0 (p.1, tt)
buffers-IsGood before none (n ∷ ns) p = absurd p
buffers-IsGood before (some b) (n ∷ ns) p = absurd p

-- Copying a well-formed chunk whose contents have no NUL into an array of `max_length` bytes and a
-- NUL gives the first `max_length` bytes of the contents.
pub chunk_copy-take :
    (cb : Chunk) (max_length : ℕ)
    → IsWf cb
    → NoNul (content cb)
    → chunk_copy cb max_length ≡ take max_length (content cb)
unfolding chunk_copy
chunk_copy-take cb max_length v z =
    copy_loop-take max_length cb.bytes (buffers cb)
      (buffers-IsGood cb.before cb.current cb.next v.parts) z (omega (arith, v.bytes))

-- A string without NUL that is written to a cleared chunk while allocations succeed, and copied to
-- an array with room for it, comes back unchanged; the write returns its length.
pub chunk_copy-chunk_write_string :
    (str : Bytes) (max_length : ℕ) (cb : Chunk)
    → NoNul str
    → length str ≤ max_length
    → let r = chunk_write_string (λ _. true) str (chunk_clear cb) in
      (r.0 ≡ some (pos (length str))) × (chunk_copy r.1 max_length ≡ str)
chunk_copy-chunk_write_string str max_length cb z h =
    back (chunk_write_string (λ _. true) str (chunk_clear cb))
      (chunk_write_string-Wrote (λ _. true) str (chunk_clear cb) (chunk_clear-IsWf cb).0)
  where
    back :
        (r : Option ℤ × Chunk)
        → Wrote (λ _. true) str 0 (content (chunk_clear cb)) r
        → (r.0 ≡ some (pos (length str))) × (chunk_copy r.1 max_length ≡ str)
    back r (Wrote.all e v g) =
        let c : content r.1 ≡ str = g ∙ ap (λ s. s ++ str) (chunk_clear-IsWf cb).1 in
        (
          e ∙ ap (λ n. some (pos n)) (omega arith),
          chunk_copy-take r.1 max_length v (subst NoNul (sym c) z)
              ∙ ap (take max_length) c
              ∙ take_all max_length str h,
        )
    back r (Wrote.part n k e v l g m) = absurd (ground arith)

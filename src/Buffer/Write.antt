-- ===== src/Buffer/Write.antt =====
-- `cwmp_chunk_write_string` of libcwmp/src/buffer.c against the contents of the chunk.
use Prim.Native.Nat.{min}
use netcwmp.Common.{
  ℕ, zero, suc, ◌+◌, ◌-◌, ◌≤◌, ◌<◌, ◌≡◌, refl, sym, ◌∙◌, ap, Bool, true, false, List, [], ◌∷◌, ◌++◌,
  Option, none, some, Bytes, length, take, drop, All, All-append, length-append, length-take,
  length-drop, take_all, take_add, take-append-drop, append_assoc, append-nil, ltb, ◌==◌,
  if◌then◌else◌, ℤ, pos, negsuc, arith, subst,
}
use netcwmp.Buffer.{
  default_buffer_size, Buffer, fresh_buffer, buffer_remain, buffer_write_bytes, Chunk, buffers,
  next_buffer, with_room, write_current, write_loop, chunk_write_string, chunk_clear,
}

abbrev pub strings : List Buffer → Bytes
strings [] = []
strings (b ∷ bs) = b.string ++ strings bs

-- All that has been written to a chunk, in order.
abbrev pub content : Chunk → Bytes
content cb = strings (buffers cb)

-- A buffer that has been written and not read.
pub record IsGood (b : Buffer) : Type 0 where
  pub offset : b.offset ≡ b.writed
  pub readed : b.readed ≡ 0
  pub size : b.size ≡ default_buffer_size
  pub length : length b.string ≡ b.writed
  pub fits : b.writed ≤ b.size

-- Where writing has come to: nothing is behind the current buffer, and it is NULL only at the
-- start.
abbrev pub Parts : List Buffer → Option Buffer → List Buffer → Type 0
Parts [] none [] = Unit
Parts (a ∷ bs) none [] = ⊥
Parts before (some b) [] = All IsGood before × IsGood b
Parts before c (n ∷ ns) = ⊥

pub record IsWf (cb : Chunk) : Type 0 where
  pub parts : Parts cb.before cb.current cb.next
  pub bytes : cb.bytes ≡ length (content cb)

pub strings-append : (xs ys : List Buffer) → strings (xs ++ ys) ≡ strings xs ++ strings ys
strings-append [] ys = refl
strings-append (b ∷ xs) ys =
    rw (strings-append xs ys) (sym (append_assoc b.string (strings xs) (strings ys)))

-- A chunk whose current buffer has room, with the contents of `cb`.
record Roomy (cb cb' : Chunk) : Type 0 where
  wf : IsWf cb'
  same : content cb' ≡ content cb
  room : 0 < buffer_remain cb'.current

IsGood-fresh : IsGood fresh_buffer
IsGood-fresh = record {
  offset = refl;
  readed = refl;
  size = refl;
  length = refl;
  fits = omega arith;
}

content_at :
    (before : List Buffer) (b : Buffer) → strings (before ++ b ∷ []) ≡ strings before ++ b.string
content_at before b = rw (strings-append before (b ∷ []), append-nil b.string) refl

content_fresh : (before : List Buffer) → strings (before ++ fresh_buffer ∷ []) ≡ strings before
content_fresh before = content_at before fresh_buffer ∙ append-nil (strings before)

-- The writer has a chunk with room, or allocation has failed.
Room : Bool → Chunk → Option Chunk → Type 0
Room mem cb none = mem ≡ false
Room mem cb (some cb') = Roomy cb cb'

Room-none :
    (mem : Bool) (bytes : ℕ)
    → let cb : Chunk = record { before = []; current = none; next = []; bytes = bytes } in
      IsWf cb → Room mem cb (with_room mem cb)
unfolding with_room next_buffer Room
Room-none false bytes v = refl
Room-none true bytes v = record {
  wf = record { parts = (tt, IsGood-fresh); bytes = v.bytes };
  same = refl;
  room = omega arith;
}

Room-some :
    (mem full : Bool) (before : List Buffer) (b : Buffer) (bytes : ℕ)
    → let cb : Chunk = record { before = before; current = some b; next = []; bytes = bytes } in
      (b.size - b.writed == 0) ≡ full
      → IsWf cb
      → Room mem cb (if full then next_buffer mem (some b) [] cb else some cb)
unfolding next_buffer Room
Room-some mem false before b bytes e v = record { wf = v; same = refl; room = ground arith }
Room-some false true before b bytes e v = refl
Room-some true true before b bytes e v = record {
  wf = record {
    parts = (All-append IsGood before (b ∷ []) v.parts.0 (v.parts.1, tt), IsGood-fresh);
    bytes = v.bytes ∙ ap length (sym (content_fresh (before ++ b ∷ [])));
  };
  same = content_fresh (before ++ b ∷ []);
  room = omega arith;
}

with_room-Roomy :
    (mem : Bool) (before : List Buffer) (current : Option Buffer) (next : List Buffer) (bytes : ℕ)
    → let cb : Chunk = record { before = before; current = current; next = next; bytes = bytes } in
      IsWf cb → Room mem cb (with_room mem cb)
unfolding with_room
with_room-Roomy mem before none (n ∷ ns) bytes v = absurd v.parts
with_room-Roomy mem before (some b) (n ∷ ns) bytes v = absurd v.parts
with_room-Roomy mem [] none [] bytes v = Room-none mem bytes v
with_room-Roomy mem (b ∷ bs) none [] bytes v = absurd v.parts
with_room-Roomy mem before (some b) [] bytes v =
    Room-some mem (b.size - b.writed == 0) before b bytes refl v

record Grown (val : Bytes) (cb cb' : Chunk) : Type 0 where
  wf : IsWf cb'
  grown : content cb' ≡ content cb ++ val

-- A buffer after `val` has been written to it.
abbrev longer : Buffer → Bytes → Buffer
longer b val = record b {
  string = b.string ++ val;
  offset = b.offset + length val;
  writed = b.writed + length val;
}

write_bytes_at :
    (b : Buffer) (val : Bytes)
    → IsGood b
    → length val ≤ b.size - b.writed
    → buffer_write_bytes b val ≡ longer b val
unfolding buffer_write_bytes
write_bytes_at b val g h =
    rw (if_fits, take_all b.offset b.string (omega (arith, g.length, g.offset))) refl
  where
    if_fits : ltb (b.size - b.writed) (length val) ≡ false
    if_fits = ground arith

IsGood-longer :
    (b : Buffer) (val : Bytes) → IsGood b → length val ≤ b.size - b.writed → IsGood (longer b val)
IsGood-longer b val g h = record {
  offset = omega (arith, g.offset);
  readed = g.readed;
  size = g.size;
  length = omega (arith, length-append b.string val, g.length);
  fits = omega (arith, g.fits);
}

write_current-Grown :
    (val : Bytes) (before : List Buffer) (current : Option Buffer) (next : List Buffer) (bytes : ℕ)
    → let cb : Chunk = record { before = before; current = current; next = next; bytes = bytes } in
      IsWf cb
      → 0 < buffer_remain current
      → length val ≤ buffer_remain current
      → Grown val cb (write_current val current cb)
unfolding write_current
write_current-Grown val before none next bytes v h0 h = elim h0 [ ]
write_current-Grown val before (some b) (n ∷ ns) bytes v h0 h = absurd v.parts
write_current-Grown val before (some b) [] bytes v h0 h =
    subst (λ b'. Grown val (chunk b bytes) (chunk b' (bytes + length val)))
      (sym (write_bytes_at b val v.parts.1 h))
      record {
        wf = record {
          parts = (v.parts.0, IsGood-longer b val v.parts.1 h);
          bytes =
              omega (arith, v.bytes, ap length same, length-append (content (chunk b bytes)) val);
        };
        grown = same;
      }
  where
    chunk : Buffer → ℕ → Chunk
    chunk b n = record { before = before; current = some b; next = []; bytes = n }

    same : strings (before ++ longer b val ∷ []) ≡ strings (before ++ b ∷ []) ++ val
    same =
        rw (content_at before (longer b val), content_at before b)
          (sym (append_assoc (strings before) b.string val))

-- What `cwmp_chunk_write_string` promises of a result: all is written and counted, or an allocation
-- has failed and the first `n` bytes are written.
pub data Wrote (mem : ℕ → Bool) (rest : Bytes) (w : ℕ) (old : Bytes) (r : Option ℤ × Chunk)
    : Type 0 where
  all :
      r.0 ≡ some (pos (w + length rest))
      → IsWf r.1
      → content r.1 ≡ old ++ rest
      → Wrote mem rest w old r
  part :
      (n k : ℕ)
      → r.0 ≡ some (negsuc 0)
      → IsWf r.1
      → n < length rest
      → content r.1 ≡ old ++ take n rest
      → mem k ≡ false
      → Wrote mem rest w old r

-- A round that writes the first `n` bytes, and the rounds behind it.
Wrote-round :
    (mem : ℕ → Bool) (rest : Bytes) (w n : ℕ) (old mid : Bytes) (r : Option ℤ × Chunk)
    → n ≤ length rest
    → mid ≡ old ++ take n rest
    → Wrote mem (drop n rest) (w + n) mid r
    → Wrote mem rest w old r
Wrote-round mem rest w n old mid r h e (all a v g) =
    all (a ∙ ap (λ m. some (pos m)) (omega (arith, length-drop n rest))) v
      (g ∙ rw (e, append_assoc old (take n rest) (drop n rest), take-append-drop n rest) refl)
Wrote-round mem rest w n old mid r h e (part i k a v li g m) =
    part (n + i) k a v (omega (arith, length-drop n rest))
      (g
        ∙ rw
            (
              e,
              append_assoc old (take n rest) (take i (drop n rest)),
              take_add n i (n + i) rest refl,
            )
            refl)
      m

write_loop-Wrote :
    (mem : ℕ → Bool) (fuel : ℕ) (rest : Bytes) (w : ℕ) (cb : Chunk)
    → length rest ≤ fuel
    → IsWf cb
    → Wrote mem rest w (content cb) (write_loop mem fuel rest w cb)
unfolding write_loop Room
write_loop-Wrote mem fuel [] w cb h v =
    all (ap (λ m. some (pos m)) (omega arith)) v (sym (append-nil (content cb)))
write_loop-Wrote mem zero (c ∷ cs) w cb h v = elim h [ ]
write_loop-Wrote mem (suc k) (c ∷ cs) w cb h v =
    rounds (λ n cb' l v'. write_loop-Wrote mem k (drop n (c ∷ cs)) (w + n) cb' l v')
      (with_room (mem k) cb) (with_room-Roomy (mem k) cb.before cb.current cb.next cb.bytes v)
  where
    round : Chunk → Option ℤ × Chunk
    round cb' =
        let n = min (length (c ∷ cs)) (buffer_remain cb'.current) in
        write_loop mem k (drop n (c ∷ cs)) (w + n) (write_current (take n (c ∷ cs)) cb'.current cb')

    rounds :
        ((n : ℕ) (cb' : Chunk)
          → length (drop n (c ∷ cs)) ≤ k
          → IsWf cb'
          → Wrote mem
              (drop n (c ∷ cs))
              (w + n)
              (content cb')
              (write_loop mem k (drop n (c ∷ cs)) (w + n) cb'))
        → (o : Option Chunk) → Room (mem k) cb o
        → Wrote mem (c ∷ cs) w (content cb) (elim o as (λ _. Option ℤ × Chunk) [
          | none ↦ (some (negsuc 0), cb)
          | some cb' ↦ round cb'
        ])
    rounds ih none m = part 0 k refl v (omega arith) (sym (append-nil (content cb))) m
    rounds ih (some cb') r =
        let n = min (length (c ∷ cs)) (buffer_remain cb'.current) in
        let g : Grown (take n (c ∷ cs)) cb' (write_current (take n (c ∷ cs)) cb'.current cb') =
          write_current-Grown (take n (c ∷ cs)) cb'.before cb'.current cb'.next cb'.bytes r.wf
            r.room (omega (arith, length-take n (c ∷ cs))) in
        Wrote-round mem (c ∷ cs) w n (content cb)
          (content (write_current (take n (c ∷ cs)) cb'.current cb')) (round cb') (omega arith)
          (g.grown ∙ ap (λ s. s ++ take n (c ∷ cs)) r.same)
          (ih n _ (omega (arith, length-drop n (c ∷ cs), r.room)) g.wf)

-- Writing a string to a well-formed chunk always ends, with a well-formed chunk: either it returns
-- the length of the string and the string is appended to the contents, or an allocation has failed,
-- it returns -1 and a proper prefix of the string is appended.
pub chunk_write_string-Wrote :
    (mem : ℕ → Bool) (str : Bytes) (cb : Chunk)
    → IsWf cb
    → Wrote mem str 0 (content cb) (chunk_write_string mem str cb)
unfolding chunk_write_string
chunk_write_string-Wrote mem str cb v = write_loop-Wrote mem (length str) str 0 cb (omega arith) v

-- Creating or clearing a chunk leaves it well-formed and empty.
pub chunk_clear-IsWf : (cb : Chunk) → IsWf (chunk_clear cb) × (content (chunk_clear cb) ≡ [])
unfolding chunk_clear
chunk_clear-IsWf cb = (record { parts = tt; bytes = refl }, refl)

-- ===== src/Buffer.antt =====
-- libcwmp/src/buffer.c and libcwmp/include/cwmp/buffer.h: byte buffers of fixed size, and the chunk,
-- a list of them that grows as it is written.
--
-- A buffer's array is the list of the bytes before `offset`, an index here: no function below reads
-- further. A chunk's list of buffers is cut at `current`. Whether an allocation succeeds is an
-- argument. Lengths do not wrap.

pub mod Write
pub mod Copy
mod Tests
use Prim.Native.Nat.{min}
use netcwmp.Common.{
  ℕ, zero, suc, ◌+◌, ◌-◌, Bool, true, false, List, [], ◌∷◌, ◌++◌, Option, none, some, Bytes, length,
  take, drop, replicate, ltb, ◌==◌, if◌then◌else◌, ℤ, pos, negsuc,
}

-- `DEFAULT_BUFFER_SIZE`
abbrev pub default_buffer_size : ℕ
default_buffer_size = 1024

-- `cwmp_buffer_t`
pub record Buffer : Type 0 where
  pub writed : ℕ
  pub readed : ℕ
  pub size : ℕ
  pub offset : ℕ
  pub string : Bytes

-- `cwmp_buffer_create`, `cwmp_buffer_init` and `cwmp_buffer_clear` leave this.
abbrev pub fresh_buffer : Buffer
fresh_buffer = record {
  writed = 0;
  readed = 0;
  size = default_buffer_size;
  offset = 0;
  string = [];
}

pub buffer_clear : Buffer → Buffer
buffer_clear b = record b {
  writed = 0;
  readed = 0;
  offset = 0;
  size = default_buffer_size;
  string = [];
}

-- `cwmp_buffer_length`
abbrev pub buffer_length : Buffer → ℕ
buffer_length b = b.writed - b.readed

-- `cwmp_buffer_remain`, of a buffer that may be NULL
abbrev pub buffer_remain : Option Buffer → ℕ
buffer_remain none = 0
buffer_remain (some b) = b.size - b.writed

-- `cwmp_buffer_write_bytes`, and `cwmp_buffer_write_string`, which calls it.
pub buffer_write_bytes : Buffer → Bytes → Buffer
buffer_write_bytes b val = if ltb (b.size - b.writed) (length val) then b else record b {
  string = take b.offset b.string ++ val;
  offset = b.offset + length val;
  writed = b.writed + length val;
}

-- `cwmp_buffer_read_bytes`: the bytes and the buffer; `none` stands for `CWMP_ERROR`.
pub buffer_read_bytes : ℕ → Buffer → Option (Bytes × Buffer)
buffer_read_bytes len b =
    if ltb (buffer_length b) len
    then none
    else some (take len (drop b.readed b.string), record b { readed = b.readed + len })

-- `cwmp_chunk_t`: the buffers before `current`, itself (`none` is NULL), and those behind it.
pub record Chunk : Type 0 where
  pub before : List Buffer
  pub current : Option Buffer
  pub next : List Buffer
  pub bytes : ℕ

-- `cwmp_chunk_create`, `cwmp_chunk_init` and `cwmp_chunk_clear` leave this.
pub chunk_clear : Chunk → Chunk
chunk_clear cb = record { before = []; current = none; next = []; bytes = 0 }

-- The buffers of a chunk, from `cb->buffer` on.
abbrev pub from_current : Option Buffer → List Buffer → List Buffer
from_current none next = next
from_current (some b) next = b ∷ next

abbrev pub buffers : Chunk → List Buffer
buffers cb = cb.before ++ from_current cb.current cb.next

-- The step of `cwmp_chunk_write_string` to a buffer with room, where the current one has none: to
-- the next buffer, which is cleared and loses those behind it, or to a new one. `none`: out of
-- memory.
pub next_buffer : Bool → Option Buffer → List Buffer → Chunk → Option Chunk
unfolding buffer_clear
next_buffer mem (some b) (n ∷ _) cb =
    some (record cb { before = cb.before ++ b ∷ []; current = some (buffer_clear n); next = [] })
next_buffer false _ _ cb = none
next_buffer true (some b) [] cb =
    some (record cb { before = cb.before ++ b ∷ []; current = some fresh_buffer })
next_buffer true none ns cb =
    some (record cb { before = []; current = some fresh_buffer; next = [] })

pub with_room : Bool → Chunk → Option Chunk
unfolding next_buffer
with_room mem cb =
    if buffer_remain cb.current == 0 then next_buffer mem cb.current cb.next cb else some cb

-- One write of it, to the current buffer.
pub write_current : Bytes → Option Buffer → Chunk → Chunk
unfolding buffer_write_bytes
write_current val none cb = cb
write_current val (some b) cb = record cb {
  current = some (buffer_write_bytes b val);
  bytes = cb.bytes + length val;
}

-- The loop of `cwmp_chunk_write_string` on fuel: `rest` is what is left to write, `writed` what has
-- been written. The result is what the code returns, or `none` where the fuel has run out. `mem k`
-- says whether an allocation succeeds with `k` rounds left.
pub write_loop : (ℕ → Bool) → ℕ → Bytes → ℕ → Chunk → Option ℤ × Chunk
unfolding with_room write_current
write_loop mem fuel [] writed cb = (some (pos writed), cb)
write_loop mem zero (c ∷ cs) writed cb = (none, cb)
write_loop mem (suc k) (c ∷ cs) writed cb = elim (with_room (mem k) cb) [
  | none ↦ (some (negsuc 0), cb)
  | some cb' ↦
      let n = min (length (c ∷ cs)) (buffer_remain cb'.current) in
      write_loop mem k (drop n (c ∷ cs)) (writed + n)
        (write_current (take n (c ∷ cs)) cb'.current cb')
]

-- `cwmp_chunk_write_string`: every round writes a byte at least.
pub chunk_write_string : (ℕ → Bool) → Bytes → Chunk → Option ℤ × Chunk
chunk_write_string mem str cb = write_loop mem (length str) str 0 cb

-- `strncpy(dest, src, n)`: the `n` bytes that it writes; behind a NUL they are NULs.
pub strncpy : ℕ → Bytes → Bytes
strncpy zero src = []
strncpy (suc n) [] = replicate (suc n) 0
strncpy (suc n) (c ∷ src) = if c == 0 then replicate (suc n) 0 else c ∷ strncpy n src

-- The loop of `cwmp_chunk_copy` over the buffers: the bytes that go to `dest`. `room` is
-- `max_length - destwrited`, which does not fall below 0.
pub copy_loop : ℕ → ℕ → List Buffer → Bytes
unfolding strncpy
copy_loop room bufleft [] = []
copy_loop room bufleft (b ∷ bs) =
    let n = min room (min bufleft (buffer_length b)) in
    let rest = copy_loop (room - n) (bufleft - n) bs in
    if bufleft == 0 then [] else strncpy n b.string ++ rest

-- `cwmp_chunk_copy`: the bytes before the final NUL. Their number is what the code returns.
pub chunk_copy : Chunk → ℕ → Bytes
unfolding copy_loop
chunk_copy cb max_length = copy_loop max_length cb.bytes (buffers cb)

-- ===== src/Escape.antt =====
-- `cwmp_xml_copy_to_chunk_with_escape` of libcwmp/src/cwmp.c: the text of an XML element, escaped, on
-- its way into a chunk.
pub mod Decode
mod Tests
use netcwmp.Common.{ℕ, Bool, List, [], ◌∷◌, Bytes, codes, length, ◌==◌, if◌then◌else◌}
use netcwmp.Buffer.{Chunk, chunk_write_string}

-- The `switch`: what is written for a byte.
pub escape_byte : ℕ → Bytes
escape_byte c =
    if c == 60
    then codes "&lt;"
    else if c == 62
    then codes "&gt;"
    else if c == 38
    then codes "&amp;"
    else if c == 39
    then codes "&apos;"
    else if c == 34
    then codes "&quot;"
    else c ∷ []

-- The loop; the results of the writes are ignored. `mem i k` says whether the allocations of the
-- write with `i` bytes behind it succeed.
pub copy_to_chunk_with_escape : (ℕ → ℕ → Bool) → Bytes → Chunk → Chunk
unfolding escape_byte
copy_to_chunk_with_escape mem [] cb = cb
copy_to_chunk_with_escape mem (c ∷ p) cb =
    copy_to_chunk_with_escape mem p (chunk_write_string (mem (length p)) (escape_byte c) cb).1

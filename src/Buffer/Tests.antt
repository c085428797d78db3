-- ===== src/Buffer/Tests.antt =====
-- The theorems on libcwmp/src/buffer.c at concrete inputs.
use netcwmp.Common.{◌≡◌, refl, true, [], none, some, Bytes, codes, pos, arith}
use netcwmp.Buffer.{Chunk, chunk_clear, chunk_copy, chunk_write_string}
use netcwmp.Buffer.Write.{IsWf}
use netcwmp.Buffer.Copy.{NoNul, chunk_copy-chunk_write_string}

abbrev greeting : Bytes
greeting = codes "inform"

abbrev empty_chunk : Chunk
empty_chunk = record { before = []; current = none; next = []; bytes = 0 }

greeting-NoNul : NoNul greeting
greeting-NoNul = (refl, (refl, (refl, (refl, (refl, (refl, tt))))))

empty-IsWf : IsWf empty_chunk
empty-IsWf = record { parts = tt; bytes = refl }

chunk_copy-chunk_write_string_example :
    ((chunk_write_string (λ _. true) greeting (chunk_clear empty_chunk)).0 ≡ some (pos 6))
    × (chunk_copy (chunk_write_string (λ _. true) greeting (chunk_clear empty_chunk)).1 8
        ≡ greeting)
chunk_copy-chunk_write_string_example =
    chunk_copy-chunk_write_string greeting 8 empty_chunk greeting-NoNul (omega arith)

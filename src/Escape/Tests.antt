-- ===== src/Escape/Tests.antt =====
-- Escaping at concrete inputs.
use netcwmp.Common.{◌≡◌, [], none, some, Bytes, codes, arith}
use netcwmp.Buffer.{Chunk}
use netcwmp.Escape.Decode.{escape, decode, decode-escape}

abbrev markup : Bytes
markup = codes "a<b & 'c'"

abbrev empty_chunk : Chunk
empty_chunk = record { before = []; current = none; next = []; bytes = 0 }

decode-escape_example : decode 9 (escape markup) ≡ some markup
decode-escape_example = decode-escape markup 9 (omega arith)

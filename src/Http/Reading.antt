-- ===== src/Http/Reading.antt =====
-- What comes from a socket: `http_read_line` and `http_read_header` of libcwmp/src/http.c.
use netcwmp.Common.{
  ℕ, zero, suc, ◌+◌, ◌≤◌, Bool, true, false, List, [], ◌∷◌, ◌++◌, map, Option, none, some, Bytes,
  length, length-append, ◌==◌, ◌≡◌, refl, arith, if◌then◌else◌, All,
}

-- Behind a carriage return, with `room` bytes of the buffer left: the end of the line, and what has
-- not been read. Behind the last byte a read gives 0 where the peer has closed the connection, and
-- then the carriage return is stored twice; otherwise it fails.
unfoldable pub after_cr : Bool → ℕ → Bytes → Option (Bytes × Bytes)
after_cr closed (suc (suc room)) (d ∷ s) = some (13 ∷ d ∷ [], s)
after_cr true (suc (suc room)) [] = some (13 ∷ 13 ∷ [], [])
after_cr _ _ _ = none

abbrev pub put : ℕ → Option (Bytes × Bytes) → Option (Bytes × Bytes)
put c none = none
put c (some (line, rest)) = some (c ∷ line, rest)

-- `http_read_line`, with `room` for `max - i`: the line, and what has not been read. `none` is
-- `CWMP_ERROR`. The stream is given by its bytes, and by whether the peer closes the connection
-- behind them.
unfoldable pub read_line : Bool → ℕ → Bytes → Option (Bytes × Bytes)
unfolding after_cr
read_line closed zero s = none
read_line closed (suc room) [] = none
read_line closed (suc room) (c ∷ s) =
    let further = put c (read_line closed room s) in
    if c == 13 then after_cr closed room s else further

-- What `http_read_header` comes to: `CWMP_ERROR`, or the number of bytes and what has not been read;
-- with the strings that it writes to the chunk.
pub data Header : Type 0 where
  broken : List Bytes → Header
  whole : List Bytes → ℕ → Bytes → Header

abbrev pub write : Bytes → Header → Header
write line (broken lines) = broken (line ∷ lines)
write line (whole lines bytes rest) = whole (line ∷ lines) (length line + bytes) rest

-- `buffer[0] == '\r' && buffer[1] == '\n'`
abbrev pub is_end : Bytes → Bool
is_end (c ∷ d ∷ s) = if c == 13 then d == 10 else false
is_end _ = false

-- The end of a round, where `further` is the result of the next rounds.
abbrev pub header_round : Bytes → Bytes → Header → Header
header_round line rest further =
    if is_end line then whole (line ∷ []) (length line) rest else write line further

-- The loop of `http_read_header` on fuel; without fuel it is broken.
unfoldable pub header_loop : ℕ → Bool → Bytes → Header
unfolding read_line
header_loop zero closed s = broken []
header_loop (suc k) closed s = elim (read_line closed 1023 s) [
  | none ↦ broken []
  | some (line, rest) ↦ header_round line rest (header_loop k closed rest)
]

-- `http_read_header`. Each line takes a byte at least.
unfoldable pub read_header : Bool → Bytes → Header
unfolding header_loop
read_header closed s = header_loop (suc (length s)) closed s

-- A line that is sent: not empty, within the buffer, and without a carriage return.
abbrev pub IsLine : Bytes → Type 0
IsLine l = (1 ≤ length l) × (length l ≤ 1020) × All (λ b. (b == 13) ≡ false) l

abbrev pub crlf : Bytes → Bytes
crlf l = l ++ 13 ∷ 10 ∷ []

-- The lines as they are sent, and the empty line, before `body`.
unfoldable pub message : List Bytes → Bytes → Bytes
message [] body = 13 ∷ 10 ∷ body
message (l ∷ ls) body = l ++ 13 ∷ 10 ∷ message ls body

-- The bytes of the header.
unfoldable pub header_length : List Bytes → ℕ
header_length [] = 2
header_length (l ∷ ls) = length (crlf l) + header_length ls

read_line-crlf :
    (closed : Bool) (room : ℕ) (l rest : Bytes)
    → length l + 3 ≤ room
    → All (λ b. (b == 13) ≡ false) l
    → read_line closed room (l ++ 13 ∷ 10 ∷ rest) ≡ some (crlf l, rest)
unfolding read_line after_cr
read_line-crlf closed zero l rest h plain = absurd (omega (arith, h))
read_line-crlf closed (suc zero) l rest h plain = absurd (omega (arith, h))
read_line-crlf closed (suc (suc zero)) l rest h plain = absurd (omega (arith, h))
read_line-crlf closed (suc (suc (suc room))) [] rest h plain = refl
read_line-crlf closed (suc (suc (suc room))) (c ∷ l) rest h plain =
    rw (plain.0, read_line-crlf closed (suc (suc room)) l rest (omega (arith, h)) plain.1) refl

line-goes_on : (l : Bytes) → IsLine l → is_end (crlf l) ≡ false
line-goes_on [] h = absurd (omega (arith, h.0))
line-goes_on (c ∷ []) h = rw (h.2.0) refl
line-goes_on (c ∷ d ∷ l) h = rw (h.2.0) refl

header_loop-end :
    (closed : Bool) (k : ℕ) (body : Bytes)
    → header_loop (suc k) closed (13 ∷ 10 ∷ body) ≡ whole ((13 ∷ 10 ∷ []) ∷ []) 2 body
unfolding header_loop read_line after_cr
header_loop-end closed k body = refl

header_loop-message :
    (closed : Bool) (k : ℕ) (ls : List Bytes) (body : Bytes)
    → length ls ≤ k
    → All IsLine ls
    → header_loop (suc k) closed (message ls body)
      ≡ whole (map crlf ls ++ (13 ∷ 10 ∷ []) ∷ []) (header_length ls) body
unfolding header_loop message header_length
header_loop-message closed k [] body h lines = header_loop-end closed k body
header_loop-message closed zero (l ∷ ls) body h lines = absurd (omega (arith, h))
header_loop-message closed (suc k) (l ∷ ls) body h (line, lines) =
    rw
      (
        header_loop,
        read_line-crlf closed 1023 l (message ls body) (omega (arith, line.1)) line.2,
        line-goes_on l line,
        header_loop-message closed k ls body (omega (arith, h)) lines,
      )
      refl

lines_below : (ls : List Bytes) (body : Bytes) → length ls ≤ length (message ls body)
unfolding message
lines_below [] body = omega arith
lines_below (l ∷ ls) body =
    omega (arith, lines_below ls body, length-append l (13 ∷ 10 ∷ message ls body))

-- Of lines that are sent with an empty line behind them, none empty or longer than 1020 bytes, and
-- none with a carriage return, `http_read_header` writes exactly these, each with its end, and
-- returns their number of bytes; it stops in front of the body, whatever this is.
pub read_header-message :
    (closed : Bool) (ls : List Bytes) (body : Bytes)
    → All IsLine ls
    → read_header closed (message ls body)
      ≡ whole (map crlf ls ++ (13 ∷ 10 ∷ []) ∷ []) (header_length ls) body
unfolding read_header
read_header-message closed ls body lines =
    header_loop-message closed (length (message ls body)) ls body (lines_below ls body) lines

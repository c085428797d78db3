-- ===== src/Http/Splitting.antt =====
-- The lines of a header: `http_split_headers` of libcwmp/src/http.c.
use netcwmp.Common.{
  ℕ, zero, suc, ◌≤◌, Bool, true, false, List, [], ◌∷◌, ◌++◌, map, append_assoc, Bytes, length, ◌==◌,
  ◌≡◌, refl, ap, ◌∙◌, without, without_sound, arith, if◌then◌else◌, All,
}
use netcwmp.Http.Reading.{
  message, IsLine, crlf, whole, read_header, header_length, read_header-message,
}

-- The string at the start of a line that is counted: each of its line ends is a NUL by then.
unfoldable pub line_string : Bytes → Bytes
line_string [] = []
line_string (c ∷ s) =
    let rest = line_string s in
    if c == 0 then [] else if c == 10 then [] else if c == 13 then [] else c ∷ rest

-- `data[i + 1] == '\n' || data[i + 1] == '\r'`, with `i + 1 < len` before it.
abbrev pub at_end : Bytes → Bool
at_end [] = false
at_end (c ∷ s) = if c == 10 then true else c == 13

-- The loop, with `room` for `MAX_HEADERS - lines`, from where the line begins and from the byte `i`:
-- the lines that are counted. No more lines than there is room for are set.
unfoldable pub split_loop : ℕ → Bytes → Bytes → List Bytes
unfolding line_string
split_loop zero start s = []
split_loop (suc room) start [] = []
split_loop (suc room) start (c ∷ s) =
    let next = split_loop room s s in
    let further = split_loop (suc room) start s in
    if c == 10 then line_string start ∷ (if at_end s then [] else next) else further

-- `http_split_headers`
unfoldable pub split_headers : Bytes → List Bytes
unfolding split_loop
split_headers text = split_loop 64 text text

-- A byte within a line.
abbrev pub IsText : ℕ → Type 0
IsText b = ((b == 0) ≡ false) × ((b == 10) ≡ false) × ((b == 13) ≡ false)

pub line_string-text : (l rest : Bytes) → All IsText l → line_string (l ++ 13 ∷ rest) ≡ l
unfolding line_string
line_string-text [] rest h = refl
line_string-text (c ∷ l) rest h =
    rw (h.0.0, h.0.1, h.0.2) (ap (◌∷◌ c) (line_string-text l rest h.1))

split_loop-text :
    (room : ℕ) (start l rest : Bytes)
    → All IsText l
    → split_loop (suc room) start (l ++ 13 ∷ 10 ∷ rest)
      ≡ line_string start ∷ (if at_end rest then [] else split_loop room rest rest)
unfolding split_loop
split_loop-text room start [] rest h = refl
split_loop-text room start (c ∷ l) rest h = rw (h.0.1) (split_loop-text room start l rest h.1)

-- The lines of a header.
abbrev pub AreLines : List Bytes → Type 0
AreLines = All (λ l. (1 ≤ length l) × All IsText l)

not_at_end :
    (l : Bytes) (ls : List Bytes) → AreLines (l ∷ ls) → at_end (message (l ∷ ls) []) ≡ false
unfolding message
not_at_end [] ls h = absurd (omega (arith, h.0.0))
not_at_end (c ∷ l) ls h = rw (h.0.1.0.1, h.0.1.0.2) refl

split_loop-message :
    (room : ℕ) (l : Bytes) (ls : List Bytes)
    → length ls ≤ room
    → AreLines (l ∷ ls)
    → split_loop (suc room) (message (l ∷ ls) []) (message (l ∷ ls) []) ≡ l ∷ ls
unfolding message
split_loop-message room l [] h lines =
    split_loop-text room (message (l ∷ []) []) l (message [] []) lines.0.1
    ∙ ap (λ s. s ∷ []) (line_string-text l (10 ∷ message [] []) lines.0.1)
split_loop-message zero l (m ∷ ls) h lines = absurd (omega (arith, h))
split_loop-message (suc room) l (m ∷ ls) h lines =
    split_loop-text (suc room) (message (l ∷ m ∷ ls) []) l (message (m ∷ ls) []) lines.0.1
    ∙ rw
        (
          not_at_end m ls lines.1,
          line_string-text l (10 ∷ message (m ∷ ls) []) lines.0.1,
          split_loop-message room m ls (omega (arith, h)) lines.1,
        )
        refl

-- Up to 64 lines, at least one, none empty and none with a NUL or a byte of a line end, are what
-- `http_split_headers` finds in the header that `http_read_header` reads of them.
pub split_headers-message :
    (l : Bytes) (ls : List Bytes)
    → length ls ≤ 63
    → AreLines (l ∷ ls)
    → split_headers (message (l ∷ ls) []) ≡ l ∷ ls
unfolding split_headers
split_headers-message l ls h lines = split_loop-message 63 l ls h lines

-- A line that is sent, within the buffer of a read.
abbrev pub IsSent : Bytes → Type 0
IsSent l = (1 ≤ length l) × (length l ≤ 1020) × All IsText l

without_return : (l : Bytes) → All IsText l → All (λ b. (b == 13) ≡ false) l
without_return [] h = tt
without_return (c ∷ l) h = (h.0.2, without_return l h.1)

pub sent-IsLine : (ls : List Bytes) → All IsSent ls → All IsLine ls
sent-IsLine [] h = tt
sent-IsLine (l ∷ ls) h = ((h.0.0, h.0.1, without_return l h.0.2), sent-IsLine ls h.1)

pub sent-AreLines : (ls : List Bytes) → All IsSent ls → AreLines ls
sent-AreLines [] h = tt
sent-AreLines (l ∷ ls) h = ((h.0.0, h.0.2), sent-AreLines ls h.1)

-- The text of a chunk to which strings have been written.
unfoldable pub joined : List Bytes → Bytes
joined [] = []
joined (s ∷ strings) = s ++ joined strings

-- What `http_read_header` writes for lines.
abbrev pub written_lines : List Bytes → List Bytes
written_lines ls = map crlf ls ++ (13 ∷ 10 ∷ []) ∷ []

pub joined-written_lines : (ls : List Bytes) → joined (written_lines ls) ≡ message ls []
unfolding joined message
joined-written_lines [] = refl
joined-written_lines (l ∷ ls) =
    append_assoc l (13 ∷ 10 ∷ []) (joined (written_lines ls))
    ∙ ap (λ s. l ++ 13 ∷ 10 ∷ s) (joined-written_lines ls)

-- Up to 64 lines are sent, at least one, with an empty line and a body behind them; none is empty or
-- longer than 1020 bytes, and none has a NUL or a byte of a line end. Then `http_read_header` writes
-- exactly these, each with its end, returns their number of bytes and stops in front of the body;
-- and in the text that it has written `http_split_headers` finds the lines that were sent.
pub split_headers-read_header :
    (closed : Bool) (l : Bytes) (ls : List Bytes) (body : Bytes)
    → length ls ≤ 63
    → All IsSent (l ∷ ls)
    → (read_header closed (message (l ∷ ls) body)
        ≡ whole (written_lines (l ∷ ls)) (header_length (l ∷ ls)) body)
      × (split_headers (joined (written_lines (l ∷ ls))) ≡ l ∷ ls)
split_headers-read_header closed l ls body h sent = (
  read_header-message closed (l ∷ ls) body (sent-IsLine (l ∷ ls) sent),
  ap split_headers (joined-written_lines (l ∷ ls))
      ∙ split_headers-message l ls h (sent-AreLines (l ∷ ls) sent),
)

texts :
    (l : Bytes)
    → All (λ b. (b == 0) ≡ false) l
    → All (λ b. (b == 10) ≡ false) l
    → All (λ b. (b == 13) ≡ false) l
    → All IsText l
texts [] h k m = tt
texts (c ∷ l) h k m = ((h.0, k.0, m.0), texts l h.1 k.1 m.1)

-- A line at which the bytes can be looked through.
pub IsSent-line :
    (l : Bytes)
    → 1 ≤ length l
    → length l ≤ 1020
    → without 0 l ≡ true
    → without 10 l ≡ true
    → without 13 l ≡ true
    → IsSent l
IsSent-line l one h nul lf cr =
    (one, h, texts l (without_sound 0 l nul) (without_sound 10 l lf) (without_sound 13 l cr))

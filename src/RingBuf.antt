-- ===== src/RingBuf.antt =====
-- utils/ringbuf.rs: the byte ring that keeps the tail of ffmpeg's stderr.
use rusttgcalls.Prelude.{
  ℕ, ◌+◌, ◌-◌, ◌%◌, min, Bool, true, false, ◌||◌, List, [], ◌∷◌, ◌++◌, length, take, drop,
  replicate, ltb, leb, ◌==◌, if◌then◌else◌,
}
pub mod Laws
pub mod Layout
pub mod Tail
mod Tests

-- `Inner`, behind the mutex. A byte is a number.
pub record RingBuffer : Type 0 where
  pub buf : List ℕ
  pub head : ℕ
  pub full : Bool

pub new : ℕ → RingBuffer
new capacity =
    let cap = if capacity == 0 then 4096 else capacity in
    record { buf = replicate cap 0; head = 0; full = false }

pub snapshot : RingBuffer → List ℕ
snapshot r = if r.full then drop r.head r.buf ++ take r.head r.buf else take r.head r.buf

-- `buf[at..at + src.len()].copy_from_slice(src)`.
abbrev pub splice : List ℕ → ℕ → List ℕ → List ℕ
splice buf at src = take at buf ++ (src ++ drop (at + length src) buf)

-- The copy at `head` of what fits, then the rest at the front.
pub copy_in : List ℕ → ℕ → List ℕ → List ℕ
copy_in buf head p =
    let written = min (length p) (length buf - head) in
    let buf' = splice buf head (take written p) in
    if ltb written (length p) then splice buf' 0 (drop written p) else buf'

-- `write`; the number is the count of bytes taken. `head + n` stays below twice the length of a
-- `Vec`, so the sum does not overflow.
pub write : RingBuffer → List ℕ → RingBuffer × ℕ
write r p =
    let n = length p in
    let cap = length r.buf in
    if n == 0
    then (r, 0)
    else if leb cap n
    then (record { buf = drop (n - cap) p; head = 0; full = true }, n)
    else let head' = (r.head + n) % cap in
      (record { buf = copy_in r.buf r.head p; head = head'; full = r.full || ltb head' n }, n)

-- The writes of a stream of chunks.
unfoldable pub write_all : RingBuffer → List (List ℕ) → RingBuffer
write_all r [] = r
write_all r (p ∷ ps) = write_all (write r p).0 ps

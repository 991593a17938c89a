-- ===== src/FrameReader/Vp8.antt =====
-- `VP8FrameReader`: VP8 frames out of an IVF file.
use rusttgcalls.Prelude.{
  ℕ, zero, suc, ◌+◌, ◌*◌, ◌/◌, Bool, true, false, not, ◌&&◌, List, [], ◌∷◌, ◌++◌, Option, none,
  some, if◌then◌else◌, ltb, length, take, drop, lit, text_eq,
}
use mathlib.Core.Option
use rusttgcalls.Models.{Error, Result, ok, err, internal}
use rusttgcalls.FrameReader.{Sample, read_exact}
pub mod Fuel
pub mod RoundTrip

-- `VP8FrameReader`. `reader` are the bytes that its source still has.
pub record Vp8FrameReader : Type 0 where
  pub reader : List ℕ
  pub header_read : Bool
  pub frame_duration : ℕ

unfoldable pub new : List ℕ → Vp8FrameReader
new reader = record { reader = reader; header_read = false; frame_duration = 33_333_333 }

-- `u32::from_le_bytes` on the first four bytes.
pub u32_le : List ℕ → ℕ
u32_le (a ∷ b ∷ c ∷ d ∷ rest) = a + 256 * b + 65536 * c + 16777216 * d
u32_le rest = 0

-- The duration of a frame by the header's timebase. A zero in it leaves the duration as it was.
pub timed : List ℕ → ℕ → ℕ
unfolding u32_le
timed header duration =
    let timebase_den = u32_le (drop 16 header) in
    let timebase_num = u32_le (drop 20 header) in
    if ltb 0 timebase_den && ltb 0 timebase_num
    then timebase_num * 1_000_000_000 / timebase_den
    else duration

-- The part of `next_sample` behind the file's header.
pub next_frame : Vp8FrameReader → Vp8FrameReader × Result Sample
next_frame r = elim (read_exact 12 r.reader) [
  | none ↦ (record r { reader = [] }, err Error.file)
  | some (frame_header, rest) ↦ elim (read_exact (u32_le frame_header) rest) [
    | none ↦ (record r { reader = [] }, err Error.file)
    | some (frame_bytes, rest') ↦ (
      record r { reader = rest' },
      ok (record { payload = frame_bytes; duration = r.frame_duration }),
    )
  ]
]

unfoldable pub next_sample : Vp8FrameReader → Vp8FrameReader × Result Sample
next_sample r = if r.header_read then next_frame r else elim (read_exact 32 r.reader) [
  | none ↦ (record r { reader = [] }, err Error.file)
  | some (ivf_header, rest) ↦
      if not (text_eq (take 4 ivf_header) (lit "DKIF"))
      then (record r { reader = rest }, err (internal (lit "invalid IVF magic header")))
      else next_frame (record {
        reader = rest;
        header_read = true;
        frame_duration = timed ivf_header r.frame_duration;
      })
]

-- The samples that the streamer's reader gets before the error at which it stops, and that error. Each
-- sample takes bytes from the source, which are the fuel.
pub read_on : ℕ → Vp8FrameReader → Option (List Sample × Error)
read_on zero r = none
read_on (suc fuel) r =
    let (r', result) = next_sample r in
    let rest = read_on fuel r' in
    elim result [ err e ↦ some ([], e) | ok s ↦ Option.map (λ (l, e). (s ∷ l, e)) rest ]

unfoldable pub read_all : Vp8FrameReader → Option (List Sample × Error)
unfolding read_on
read_all r = read_on (suc (length r.reader)) r

-- ===== src/FrameReader/Vp8/Fuel.antt =====
-- Reading an IVF file ends: each frame takes bytes from the source.
use rusttgcalls.Prelude.{
  ℕ, zero, suc, ◌<◌, true, none, length, ◌≡◌, ◌≢◌, inl, inr, arith, Option-cases,
}
use rusttgcalls.Models.{ok, Result-cases}
use rusttgcalls.FrameReader.{Sample, read_exact}
use rusttgcalls.FrameReader.Exact.{read_exact-length}
use rusttgcalls.FrameReader.Vp8.{
  Vp8FrameReader, u32_le, timed, next_frame, next_sample, read_on, read_all,
}

next_frame-measure :
    (r : Vp8FrameReader) (s : Sample)
    → (next_frame r).1 ≡ ok s
    → length (next_frame r).0.reader < length r.reader
unfolding next_frame
next_frame-measure r s h = elim (Option-cases (read_exact 12 r.reader)) [
  | inl e ↦ ground (arith, e)
  | inr ((header, rest), e) ↦ elim (Option-cases (read_exact (u32_le header) rest)) [
    | inl e' ↦ ground (arith, e, e')
    | inr ((body, rest'), e') ↦ ground (
      arith,
      e,
      e',
      read_exact-length 12 r.reader (header, rest) e,
      read_exact-length (u32_le header) rest (body, rest') e',
    )
  ]
]

next_sample-measure :
    (r : Vp8FrameReader) (s : Sample)
    → (next_sample r).1 ≡ ok s
    → length (next_sample r).0.reader < length r.reader
unfolding next_sample
next_sample-measure r s h = elim (Option-cases (read_exact 32 r.reader)) [
  | inl e ↦ ground (arith, e, next_frame-measure r s)
  | inr ((header, rest), e) ↦ ground (
    arith,
    e,
    next_frame-measure r s,
    read_exact-length 32 r.reader (header, rest) e,
    next_frame-measure
        (record {
          reader = rest;
          header_read = true;
          frame_duration = timed header r.frame_duration;
        })
        s,
  )
]

read_on-total : (f : ℕ) (r : Vp8FrameReader) → length r.reader < f → read_on f r ≢ none
unfolding read_on
read_on-total zero r h e = absurd (omega arith)
read_on-total (suc f) r h e = elim (Result-cases (next_sample r).1) [
  | inl (s, q) ↦ ground (arith, q, next_sample-measure r s q, read_on-total f (next_sample r).0)
  | inr (x, q) ↦ ground (arith, q)
]

-- Whatever bytes the source has, reading on comes to an error.
pub read_all-ends : (r : Vp8FrameReader) → read_all r ≢ none
unfolding read_all
read_all-ends r = read_on-total (suc (length r.reader)) r (omega arith)

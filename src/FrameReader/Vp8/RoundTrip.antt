-- ===== src/FrameReader/Vp8/RoundTrip.antt =====
-- Frames that a writer puts into an IVF file, read back.
use rusttgcalls.Prelude.{
  ℕ, zero, suc, ◌*◌, ◌/◌, ◌%◌, ◌^◌, ◌≤◌, ◌<◌, true, false, List, [], ◌∷◌, ◌++◌, some, length, take,
  drop, lit, text_eq, ◌≡◌, refl, sym, ◌∙◌, ap, arith, Every, append_assoc, lt→ltb, length-append,
  drop-append_exact,
}
use rusttgcalls.Models.{Error, ok, err}
use rusttgcalls.FrameReader.{Sample, read_exact}
use rusttgcalls.FrameReader.Exact.{read_exact-append}
use rusttgcalls.FrameReader.Vp8.{
  Vp8FrameReader, new, u32_le, timed, next_frame, next_sample, read_on, read_all,
}

-- `to_le_bytes` of a `u32`.
abbrev pub put_u32 : ℕ → List ℕ
put_u32 n = n % 256 ∷ n / 256 % 256 ∷ n / 65536 % 256 ∷ n / 16777216 % 256 ∷ []

u32_le-put_u32 : (n : ℕ) (rest : List ℕ) → n < 2 ^ 32 → u32_le (put_u32 n ++ rest) ≡ n
unfolding u32_le
u32_le-put_u32 n rest h = omega arith

-- A frame with its timestamp.
pub record Frame : Type 0 where
  pub stamp : List ℕ
  pub body : List ℕ

abbrev pub IsFrame : Frame → Type 0
IsFrame f = (length f.stamp ≡ 8) × (length f.body < 2 ^ 32)

abbrev pub frame_bytes : Frame → List ℕ
frame_bytes f = put_u32 (length f.body) ++ (f.stamp ++ f.body)

abbrev pub frames_bytes : List Frame → List ℕ
frames_bytes [] = []
frames_bytes (f ∷ l) = frame_bytes f ++ frames_bytes l

abbrev pub samples : ℕ → List Frame → List Sample
samples duration [] = []
samples duration (f ∷ l) = record { payload = f.body; duration = duration } ∷ samples duration l

next_frame_lem :
    (f : Frame) (rest : List ℕ) (r : Vp8FrameReader)
    → IsFrame f
    → r.reader ≡ frame_bytes f ++ rest
    → next_frame r
      ≡ (record r { reader = rest }, ok (record { payload = f.body; duration = r.frame_duration }))
unfolding next_frame
next_frame_lem f rest r (long, small) e = ground (
  arith,
  ap (read_exact 12) (e ∙ cut) ∙ read_exact-append 12 header (f.body ++ rest) (omega (arith, long)),
  read_exact-append (u32_le header) f.body rest
      (sym (u32_le-put_u32 (length f.body) f.stamp small)),
)
  where
    header : List ℕ
    header = put_u32 (length f.body) ++ f.stamp

    cut : frame_bytes f ++ rest ≡ header ++ (f.body ++ rest)
    cut = ap (λ t. put_u32 (length f.body) ++ t) (append_assoc f.stamp f.body rest)

end_of_source : (r : Vp8FrameReader) → r.reader ≡ [] → (next_frame r).1 ≡ err Error.file
unfolding next_frame read_exact
end_of_source r e = rw e refl

read_frames :
    (l : List Frame) (fuel : ℕ) (r : Vp8FrameReader)
    → Every IsFrame l
    → r.header_read ≡ true
    → r.reader ≡ frames_bytes l
    → length l < fuel
    → read_on fuel r ≡ some (samples r.frame_duration l, Error.file)
unfolding read_on next_sample
read_frames l zero r h b e m = absurd (omega arith)
read_frames [] (suc fuel) r h b e m = ground (arith, end_of_source r e)
read_frames (f ∷ l) (suc fuel) r (is, h) b e m = ground (
  arith,
  next_frame_lem f (frames_bytes l) r is e,
  read_frames l fuel (record r { reader = frames_bytes l }) h b refl (omega arith),
)

-- The header of a file: 12 bytes behind the magic, the timebase, 8 bytes.
pub record IvfHeader : Type 0 where
  pub before : List ℕ
  pub timebase_den : ℕ
  pub timebase_num : ℕ
  pub after : List ℕ

abbrev pub IsHeader : IvfHeader → Type 0
IsHeader h =
    (length h.before ≡ 12)
    × (0 < h.timebase_den)
    × (h.timebase_den < 2 ^ 32)
    × (0 < h.timebase_num)
    × (h.timebase_num < 2 ^ 32)
    × (length h.after ≡ 8)

abbrev times : IvfHeader → List ℕ
times h = put_u32 h.timebase_den ++ (put_u32 h.timebase_num ++ h.after)

abbrev pub header_bytes : IvfHeader → List ℕ
header_bytes h = lit "DKIF" ++ (h.before ++ times h)

timed_lem :
    (h : IvfHeader) (d : ℕ)
    → IsHeader h
    → timed (header_bytes h) d ≡ h.timebase_num * 1_000_000_000 / h.timebase_den
unfolding timed lit
timed_lem h d (before, den_pos, den, num_pos, num, after) =
    rw (at_16, at_20, lt→ltb 0 h.timebase_den den_pos, lt→ltb 0 h.timebase_num num_pos) refl
  where
    at_16 : u32_le (drop 12 (h.before ++ times h)) ≡ h.timebase_den
    at_16 =
        ap u32_le (drop-append_exact 12 h.before (times h) before)
        ∙ u32_le-put_u32 h.timebase_den (put_u32 h.timebase_num ++ h.after) den

    at_20 : u32_le (drop 16 (h.before ++ times h)) ≡ h.timebase_num
    at_20 =
        ap u32_le (
          ap (drop 16) (sym (append_assoc h.before (put_u32 h.timebase_den) _))
          ∙ drop-append_exact 16 (h.before ++ put_u32 h.timebase_den)
              (put_u32 h.timebase_num ++ h.after)
              (omega (arith, length-append h.before (put_u32 h.timebase_den), before)))
        ∙ u32_le-put_u32 h.timebase_num h.after num

next_sample_parts :
    (r : Vp8FrameReader) (header rest : List ℕ)
    → r.header_read ≡ false
    → read_exact 32 r.reader ≡ some (header, rest)
    → text_eq (take 4 header) (lit "DKIF") ≡ true
    → next_sample r
      ≡ next_sample (record {
        reader = rest;
        header_read = true;
        frame_duration = timed header r.frame_duration;
      })
unfolding next_sample
next_sample_parts r header rest a b c = ground (arith, a, b, c)

enough : (l : List Frame) → length l ≤ length (frames_bytes l)
enough [] = omega arith
enough (f ∷ l) = omega (arith, enough l, length-append (f.stamp ++ f.body) (frames_bytes l))

read_on-next :
    (f : ℕ) (r r' : Vp8FrameReader)
    → next_sample r ≡ next_sample r'
    → read_on (suc f) r ≡ read_on (suc f) r'
unfolding read_on
read_on-next f r r' e = ground (arith, e)

long_header : (h : IvfHeader) → IsHeader h → length (header_bytes h) ≡ 32
unfolding lit
long_header h (before, _, _, _, _, after) =
    omega (arith, length-append h.before (times h), before, after)

magic : (h : IvfHeader) → text_eq (take 4 (header_bytes h)) (lit "DKIF") ≡ true
unfolding lit text_eq
magic h = refl

-- Reading an IVF file gives the frames that a writer has put into it, each with the duration of the
-- timebase, and then the end of the file, if the timebase and the lengths fit in 32 bits and the
-- timebase has no zero.
pub read_all-ivf :
    (h : IvfHeader) (l : List Frame)
    → IsHeader h
    → Every IsFrame l
    → read_all (new (header_bytes h ++ frames_bytes l))
      ≡ some (samples (h.timebase_num * 1_000_000_000 / h.timebase_den) l, Error.file)
unfolding read_all new
read_all-ivf h l is frames =
    let bytes = header_bytes h ++ frames_bytes l in
    let r : Vp8FrameReader = record {
      reader = frames_bytes l;
      header_read = true;
      frame_duration = timed (header_bytes h) 33_333_333;
    } in
    read_on-next (length bytes) (new bytes) r (
      next_sample_parts (new bytes) (header_bytes h) (frames_bytes l) refl
        (read_exact-append 32 (header_bytes h) (frames_bytes l) (long_header h is)) (magic h))
    ∙ read_frames l (suc (length bytes)) r frames refl refl
        (omega (arith, enough l, length-append (header_bytes h) (frames_bytes l)))
    ∙ ap (λ d. some (samples d l, Error.file)) (timed_lem h 33_333_333 is)

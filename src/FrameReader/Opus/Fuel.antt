-- ===== src/FrameReader/Opus/Fuel.antt =====
-- The loops of `OpusFrameReader` end: each page takes bytes from the source.
use rusttgcalls.Prelude.{
  ℕ, zero, suc, ◌+◌, ◌≤◌, ◌<◌, List, [], ◌∷◌, ◌++◌, none, some, if◌then◌else◌, leb, length, take,
  drop, ◌≡◌, ◌≢◌, inl, inr, Option-cases, refl, ◌∙◌, arith, length-append,
}
use rusttgcalls.Models.{Error, ok, err}
use rusttgcalls.FrameReader.{Sample, read_exact}
use rusttgcalls.FrameReader.Exact.{read_exact-length}
use rusttgcalls.FrameReader.Opus.{
  OpusFrameReader, deliver, finish, Cursor, segment, segments, read_page, first_byte, sum, next_on,
  next_sample, read_on, read_all, sample,
}

-- Delivering a packet queues at most one, and reads nothing.
finish_lem :
    (r : OpusFrameReader)
    → ((finish r).reader ≡ r.reader) × (length (finish r).queue ≤ suc (length r.queue))
unfolding finish deliver
finish_lem r = (ground arith, ground (arith, length-append r.queue (r.current_packet ∷ [])))

segment_lem :
    (payload : List ℕ) (len : ℕ) (c : Cursor)
    → ((segment payload len c).1.reader ≡ c.1.reader)
      × (length (segment payload len c).1.queue ≤ suc (length c.1.queue))
unfolding segment
segment_lem payload len (offset, r) =
    let piece =
      if leb (offset + len) (length payload) then take len (drop offset payload) else [] in
    let f = finish_lem (record r { current_packet = r.current_packet ++ piece }) in
    ground (arith, f)

pub segments_lem :
    (payload table : List ℕ) (c : Cursor)
    → ((segments payload table c).reader ≡ c.1.reader)
      × (length (segments payload table c).queue ≤ length c.1.queue + length table)
unfolding segments
segments_lem payload [] c = (refl, omega arith)
segments_lem payload (len ∷ table) c =
    let (same, more) = segments_lem payload table (segment payload len c) in
    let (same', more') = segment_lem payload len c in (same ∙ same', omega arith)

-- A page that is read takes at least 27 bytes and a byte for each packet that it completes.
pub read_page-measure :
    (r : OpusFrameReader)
    → (read_page r).1 ≡ ok tt
    → length (read_page r).0.reader + length (read_page r).0.queue + 27
      ≤ length r.reader + length r.queue
unfolding read_page
read_page-measure r h = elim (Option-cases (read_exact 27 r.reader)) [
  | inl e ↦ ground (arith, e)
  | inr ((header, rest), e) ↦ elim (Option-cases (read_exact (first_byte (drop 26 header)) rest)) [
    | inl e' ↦ ground (arith, e, e')
    | inr ((table, rest'), e') ↦ elim (Option-cases (read_exact (sum table) rest')) [
      | inl e'' ↦ ground (arith, e, e', e'')
      | inr ((payload, rest''), e'') ↦ ground (
        arith,
        e,
        e',
        e'',
        read_exact-length 27 r.reader (header, rest) e,
        read_exact-length (first_byte (drop 26 header)) rest (table, rest') e',
        read_exact-length (sum table) rest' (payload, rest'') e'',
        segments_lem payload table (0, record r { reader = rest'' }),
      )
    ]
  ]
]

next_on_fuel :
    (f g : ℕ) (r : OpusFrameReader)
    → length r.reader + length r.queue < f
    → length r.reader + length r.queue < g
    → next_on f r ≡ next_on g r
unfolding next_on
next_on_fuel zero g r h h' = absurd (omega arith)
next_on_fuel (suc f) zero r h h' = absurd (omega arith)
next_on_fuel (suc f) (suc g) r h h' =
    ground (arith, read_page-measure r, next_on_fuel f g (read_page r).0)

next_on-total :
    (f : ℕ) (r : OpusFrameReader) → length r.reader + length r.queue < f → next_on f r ≢ none
unfolding next_on
next_on-total zero r h e = absurd (omega arith)
next_on-total (suc f) r h e = ground (arith, read_page-measure r, next_on-total f (read_page r).0)

-- A sample that is read makes the source or the queue shorter.
next_on-measure :
    (f : ℕ) (r r' : OpusFrameReader) (s : Sample)
    → next_on f r ≡ some (r', ok s)
    → length r'.reader + length r'.queue < length r.reader + length r.queue
unfolding next_on
next_on-measure zero r r' s e = ground (arith, e)
next_on-measure (suc f) r r' s e =
    ground (arith, read_page-measure r, next_on-measure f (read_page r).0 r' s)

read_on-total :
    (f : ℕ) (r : OpusFrameReader) → length r.reader + length r.queue < f → read_on f r ≢ none
unfolding read_on next_sample
read_on-total zero r h e = absurd (omega arith)
read_on-total (suc f) r h bad = elim (Option-cases (next_sample r)) [
  | inl e ↦ next_on-total (suc (length r.reader + length r.queue)) r (omega arith) e
  | inr ((r', err x), e) ↦ ground (arith, e)
  | inr ((r', ok s), e) ↦ ground (
    arith,
    e,
    next_on-measure (suc (length r.reader + length r.queue)) r r' s e,
    read_on-total f r',
  )
]

-- Whatever bytes the source has, `next_sample` comes to a sample or an error, and reading on comes to
-- an error: the fuel is enough.
pub read_all-total : (r : OpusFrameReader) → (next_sample r ≢ none) × (read_all r ≢ none)
unfolding next_sample read_all
read_all-total r = (
  next_on-total (suc (length r.reader + length r.queue)) r (omega arith),
  read_on-total (suc (length r.reader + length r.queue)) r (omega arith),
)

-- The steps of `next_sample`, without fuel.
pub next_sample-queued :
    (r : OpusFrameReader) (pkt : List ℕ) (queue : List (List ℕ))
    → r.queue ≡ pkt ∷ queue
    → next_sample r ≡ some (record r { queue = queue }, ok (sample pkt))
unfolding next_sample next_on
next_sample-queued r pkt queue e = rw e refl

pub next_sample-page :
    (r : OpusFrameReader)
    → r.queue ≡ []
    → (read_page r).1 ≡ ok tt
    → next_sample r ≡ next_sample (read_page r).0
unfolding next_sample next_on
next_sample-page r e h = ground (
  arith,
  read_page-measure r,
  next_on_fuel (length r.reader + length r.queue)
      (suc (length (read_page r).0.reader + length (read_page r).0.queue)) (read_page r).0,
)

pub next_sample-error :
    (r : OpusFrameReader) (x : Error)
    → r.queue ≡ []
    → (read_page r).1 ≡ err x
    → next_sample r ≡ some ((read_page r).0, err x)
unfolding next_sample next_on
next_sample-error r x e h = ground arith

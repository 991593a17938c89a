-- ===== src/RingBuf/Tail.antt =====
-- The ring holds the tail of what was written to it: `snapshot` is the last `capacity` bytes.
use rusttgcalls.Prelude.{
  dec_le, dec_lt, ℕ_discrete, ℕ, ◌%◌, ◌||◌, ◌+◌, ◌-◌, ◌≤◌, ◌<◌, ◌≡◌, refl, ◌≢◌, List, [], ◌∷◌, ◌++◌,
  length, take, drop, arith, last_of, last_of_short, last_of-append, last_of-last_of, length-append,
  length-take, length-drop, ltb, ◌==◌, Bool, true, false, if◌then◌else◌, append_assoc, append-nil,
  ap, ◌∙◌, sym, ap₂,
}
use native.Mathlib.Nat.{mod-eq_of_lt, mod-eq-sub-mod}
use rusttgcalls.RingBuf.{RingBuffer, new, snapshot, write, copy_in, write_all}
use rusttgcalls.RingBuf.Layout.{
  fits_take, fits_drop, wraps_take, wraps_drop, last_of-rotated_fits, last_of-rotated_wraps,
  drop_through,
}
use rusttgcalls.RingBuf.Laws.{IsValid, capacity, new-IsValid, capacity-new, write-IsValid}

length-snapshot :
    (r : RingBuffer) → IsValid r → length (snapshot r) ≡ (if r.full then capacity r else r.head)
unfolding snapshot
length-snapshot r v = ground (
  arith,
  length-append (drop r.head r.buf) (take r.head r.buf),
  length-drop r.head r.buf,
  length-take r.head r.buf,
)

-- A write of at least the capacity replaces everything.
write_large :
    (r : RingBuffer) (p : List ℕ)
    → IsValid r
    → capacity r ≤ length p
    → snapshot (write r p).0 ≡ last_of (capacity r) p
unfolding write snapshot
write_large r p v h = ground (arith, append-nil (drop (length p - capacity r) p))

-- The state after a write below the capacity, by where the write position moves.
write_at :
    (r : RingBuffer) (p : List ℕ) (head' : ℕ)
    → length p ≢ 0
    → length p < capacity r
    → (r.head + length p) % capacity r ≡ head'
    → (write r p).0
      ≡ record { buf = copy_in r.buf r.head p; head = head'; full = r.full || ltb head' (length p) }
unfolding write
write_at r p head' ne lt e = ground arith

module _ (buf : List ℕ) (head : ℕ) (p : List ℕ) (lt : length p < length buf) where
  -- The two layouts after a write that stays inside the storage, by the old `full`.
  snapshot_fits :
      (full : Bool)
      → length p ≢ 0
      → head + length p < length buf
      → snapshot (record {
        buf = copy_in buf head p;
        head = head + length p;
        full = full || ltb (head + length p) (length p);
      })
        ≡ last_of (length buf) (snapshot (record { buf = buf; head = head; full = full }) ++ p)
  unfolding snapshot
  snapshot_fits true ne h =
      rw (fits_take buf head p (omega arith), fits_drop buf head p (omega arith))
        (sym (last_of-rotated_fits buf head p (omega arith)))
  snapshot_fits false ne h =
      let e : ltb (head + length p) (length p) ≡ false = ground arith in
      rw (e, fits_take buf head p (omega arith))
        (sym (
          last_of_short (length buf) (take head buf ++ p)
            (omega (arith, length-append (take head buf) p, length-take head buf))))

  snapshot_wraps :
      (full : Bool)
      → head < length buf
      → length buf ≤ head + length p
      → snapshot (record {
        buf = copy_in buf head p;
        head = head + length p - length buf;
        full = full || ltb (head + length p - length buf) (length p);
      })
        ≡ last_of (length buf) (snapshot (record { buf = buf; head = head; full = full }) ++ p)
  unfolding snapshot
  snapshot_wraps true v h =
      rw
        (
          wraps_take buf head p (omega arith) h (omega arith),
          wraps_drop buf head p (omega arith) h (omega arith),
          drop_through buf head p (omega arith) (omega arith),
        )
        (sym (last_of-rotated_wraps buf head p h (omega arith)))
  snapshot_wraps false v h =
      let e : ltb (head + length p - length buf) (length p) ≡ true = ground arith in
      rw
        (
          e,
          wraps_take buf head p (omega arith) h (omega arith),
          wraps_drop buf head p (omega arith) h (omega arith),
          drop_through buf head p (omega arith) (omega arith),
        )
        (ap (λ n. drop n (take head buf ++ p))
          (omega (arith, length-append (take head buf) p, length-take head buf)))

snapshot-write_nil :
    (r : RingBuffer) (p : List ℕ)
    → IsValid r
    → length p ≡ 0
    → snapshot (write r p).0 ≡ last_of (capacity r) (snapshot r ++ p)
unfolding write
snapshot-write_nil r [] v e =
    rw (append-nil (snapshot r))
      (sym (last_of_short (capacity r) (snapshot r) (ground (arith, length-snapshot r v))))
snapshot-write_nil r (x ∷ p) v e = absurd (omega arith)

back_in :
    (r : RingBuffer) (p : List ℕ)
    → IsValid r
    → length p < capacity r
    → capacity r ≤ r.head + length p
    → (r.head + length p) % capacity r ≡ r.head + length p - capacity r
back_in r p v lt h =
    mod-eq-sub-mod {n = r.head + length p} {m = capacity r} (omega arith)
    ∙ mod-eq_of_lt {n = r.head + length p - capacity r} {m = capacity r} (omega arith)

snapshot-write_small :
    (r : RingBuffer) (p : List ℕ)
    → IsValid r
    → length p < capacity r
    → snapshot (write r p).0 ≡ last_of (capacity r) (snapshot r ++ p)
snapshot-write_small r p v lt = elim (dec_lt (r.head + length p) (capacity r)) [
  | yes fits ↦ elim (ℕ_discrete (length p) 0) [
    | yes e ↦ snapshot-write_nil r p v e
    | no ne ↦
        rw (write_at r p (r.head + length p) ne lt (mod-eq_of_lt fits))
          (snapshot_fits r.buf r.head p lt r.full ne fits)
  ]
  | no wraps ↦
      rw
        (write_at r p (r.head + length p - capacity r) (omega arith) lt
          (back_in r p v lt (omega arith)))
        (snapshot_wraps r.buf r.head p lt r.full v.head_in (omega arith))
]

-- One write makes the ring hold the last `capacity` bytes of what it held followed by the bytes
-- written.
pub snapshot-write :
    (r : RingBuffer) (p : List ℕ)
    → IsValid r
    → snapshot (write r p).0 ≡ last_of (capacity r) (snapshot r ++ p)
snapshot-write r p v = elim (dec_le (capacity r) (length p)) [
  | yes large ↦ write_large r p v large ∙ sym (last_of-append (capacity r) (snapshot r) p large)
  | no small ↦ snapshot-write_small r p v (omega arith)
]

abbrev pub flatten : List (List ℕ) → List ℕ
flatten [] = []
flatten (p ∷ ps) = p ++ flatten ps

snapshot-short : (r : RingBuffer) → IsValid r → last_of (capacity r) (snapshot r) ≡ snapshot r
snapshot-short r v = last_of_short (capacity r) (snapshot r) (ground (arith, length-snapshot r v))

write_all-tail :
    (r : RingBuffer) (ps : List (List ℕ))
    → IsValid r
    → snapshot (write_all r ps) ≡ last_of (capacity r) (snapshot r ++ flatten ps)
unfolding write_all
write_all-tail r [] v = rw (append-nil (snapshot r)) (sym (snapshot-short r v))
write_all-tail r (p ∷ ps) v =
    rw
      (
        write_all-tail (write r p).0 ps (write-IsValid r p v).0,
        (write-IsValid r p v).1,
        snapshot-write r p v,
      )
      (last_of-last_of (capacity r) (snapshot r ++ p) (flatten ps)
        ∙ ap (last_of (capacity r)) (append_assoc (snapshot r) p (flatten ps)))

snapshot-new : (size : ℕ) → snapshot (new size) ≡ []
unfolding snapshot new
snapshot-new size = refl

-- Whatever chunks are written to a new ring, it then holds exactly the last bytes of the stream:
-- `size` of them, 4096 where the size is 0, or all of a shorter stream, in order.
pub snapshot-write_all :
    (size : ℕ) (ps : List (List ℕ))
    → snapshot (write_all (new size) ps) ≡ last_of (if size == 0 then 4096 else size) (flatten ps)
snapshot-write_all size ps =
    write_all-tail (new size) ps (new-IsValid size)
    ∙ ap₂ (λ k s. last_of k (s ++ flatten ps)) (capacity-new size) (snapshot-new size)

-- ===== src/RingBuf/Laws.antt =====
-- The representation invariant of the ring, and that every write keeps it.
use rusttgcalls.Prelude.{
  ℕ, ◌+◌, ◌-◌, ◌≤◌, ◌<◌, ◌≡◌, List, ◌++◌, length, take, drop, arith, min, length-append,
  length-take, length-drop, length-replicate, take_all, drop_all, append-nil, ◌==◌, if◌then◌else◌,
}
use rusttgcalls.RingBuf.{RingBuffer, new, splice, copy_in, write}

-- The write position lies in the storage.
pub record IsValid (r : RingBuffer) : Type 0 where
  pub head_in : r.head < length r.buf

abbrev pub capacity : RingBuffer → ℕ
capacity r = length r.buf

pub new-IsValid : (size : ℕ) → IsValid (new size)
unfolding new
new-IsValid size = ground (arith, length-replicate {A = ℕ} size 0, length-replicate {A = ℕ} 4096 0)

pub capacity-new : (size : ℕ) → capacity (new size) ≡ (if size == 0 then 4096 else size)
unfolding new
capacity-new size = ground (arith, length-replicate {A = ℕ} size 0, length-replicate {A = ℕ} 4096 0)

pub length-splice :
    (buf : List ℕ) (at : ℕ) (src : List ℕ)
    → at + length src ≤ length buf
    → length (splice buf at src) ≡ length buf
length-splice buf at src h = omega (
  arith,
  length-append (take at buf) (src ++ drop (at + length src) buf),
  length-append src (drop (at + length src) buf),
  length-take at buf,
  length-drop (at + length src) buf,
)

pub length-copy_in :
    (buf : List ℕ) (head : ℕ) (p : List ℕ)
    → head < length buf
    → length p < length buf
    → length (copy_in buf head p) ≡ length buf
unfolding copy_in
length-copy_in buf head p h k = ground (
  arith,
  length-take (min (length p) (length buf - head)) p,
  length-drop (min (length p) (length buf - head)) p,
  length-splice buf head (take (min (length p) (length buf - head)) p),
  length-splice (splice buf head (take (min (length p) (length buf - head)) p)) 0
      (drop (min (length p) (length buf - head)) p),
)

-- Every write keeps the write position in the storage and the capacity as it is.
pub write-IsValid :
    (r : RingBuffer) (p : List ℕ)
    → IsValid r
    → IsValid (write r p).0 × (capacity (write r p).0 ≡ capacity r)
unfolding write
write-IsValid r p v =
    ground (arith, length-copy_in r.buf r.head p, length-drop (length p - length r.buf) p)

-- The bytes of a write that fits lie at `head`, and the rest of the storage is untouched.
pub copy_in_fits :
    (buf : List ℕ) (head : ℕ) (p : List ℕ)
    → head + length p ≤ length buf
    → copy_in buf head p ≡ take head buf ++ (p ++ drop (head + length p) buf)
unfolding copy_in
copy_in_fits buf head p h = ground (arith, take_all (min (length p) (length buf - head)) p)

-- A write that runs past the end fills the storage and continues at the front.
pub copy_in_wraps :
    (buf : List ℕ) (head : ℕ) (p : List ℕ)
    → head ≤ length buf
    → length buf ≤ head + length p
    → length p ≤ length buf
    → copy_in buf head p
      ≡ drop (length buf - head) p
        ++ drop (head + length p - length buf) (take head buf ++ take (length buf - head) p)
unfolding copy_in
copy_in_wraps buf head p h k m = ground (
  arith,
  drop_all (length buf - head) p,
  length-take (min (length p) (length buf - head)) p,
  length-drop (min (length p) (length buf - head)) p,
  drop_all (head + length (take (min (length p) (length buf - head)) p)) buf,
  append-nil (take (min (length p) (length buf - head)) p),
)

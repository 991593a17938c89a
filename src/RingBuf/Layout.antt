-- ===== src/RingBuf/Layout.antt =====
-- The storage of the ring as a list: what a copy leaves before and behind the write position.
use rusttgcalls.Prelude.{
  ℕ, ◌+◌, ◌-◌, ◌≤◌, ◌≡◌, List, ◌++◌, length, take, drop, arith, last_of, length-append, length-take,
  length-drop, drop-append_exact, drop-append_inside, take-append_exact, drop-append_beyond,
  append_assoc, ap, ◌∙◌, sym, take-append-drop, drop-drop,
}
use rusttgcalls.RingBuf.{copy_in}
use rusttgcalls.RingBuf.Laws.{copy_in_fits, copy_in_wraps}

module _ (buf : List ℕ) (head : ℕ) (p : List ℕ) where
  pub fits_take :
      head + length p ≤ length buf
      → take (head + length p) (copy_in buf head p) ≡ take head buf ++ p
  fits_take h =
      rw (copy_in_fits buf head p h, ← append_assoc (take head buf) p (drop (head + length p) buf))
        (take-append_exact (head + length p) (take head buf ++ p) (drop (head + length p) buf)
          (omega (arith, length-append (take head buf) p, length-take head buf)))

  pub fits_drop :
      head + length p ≤ length buf
      → drop (head + length p) (copy_in buf head p) ≡ drop (head + length p) buf
  fits_drop h =
      rw (copy_in_fits buf head p h, ← append_assoc (take head buf) p (drop (head + length p) buf))
        (drop-append_exact (head + length p) (take head buf ++ p) (drop (head + length p) buf)
          (omega (arith, length-append (take head buf) p, length-take head buf)))

  module _ (h : head ≤ length buf) (k : length buf ≤ head + length p)
      (m : length p ≤ length buf) where
    pub wraps_take :
        take (head + length p - length buf) (copy_in buf head p) ≡ drop (length buf - head) p
    wraps_take = rw (copy_in_wraps buf head p h k m) (
        take-append_exact (head + length p - length buf) (drop (length buf - head) p) _
          (omega (arith, length-drop (length buf - head) p)))

    pub wraps_drop :
        drop (head + length p - length buf) (copy_in buf head p)
        ≡ drop (head + length p - length buf) (take head buf ++ take (length buf - head) p)
    wraps_drop = rw (copy_in_wraps buf head p h k m) (
        drop-append_exact (head + length p - length buf) (drop (length buf - head) p) _
          (omega (arith, length-drop (length buf - head) p)))

  -- The same for the bytes that a full ring holds, oldest first.
  abbrev pub rotated : List ℕ
  rotated = drop head buf ++ take head buf

  length-rotated : length (rotated ++ p) ≡ length buf + length p
  length-rotated = omega (
    arith,
    length-append rotated p,
    length-append (drop head buf) (take head buf),
    length-take head buf,
    length-drop head buf,
  )

  pub last_of-rotated_fits :
      head + length p ≤ length buf
      → last_of (length buf) (rotated ++ p) ≡ drop (head + length p) buf ++ (take head buf ++ p)
  last_of-rotated_fits h =
      let e : length (rotated ++ p) - length buf ≡ length p = omega (arith, length-rotated) in
      rw (e, append_assoc (drop head buf) (take head buf) p)
        (drop-append_inside (length p) (drop head buf) (take head buf ++ p)
            (omega (arith, length-drop head buf))
          ∙ ap (λ d. d ++ (take head buf ++ p)) (drop-drop (length p) head buf))

  pub last_of-rotated_wraps :
      length buf ≤ head + length p
      → head ≤ length buf
      → last_of (length buf) (rotated ++ p)
        ≡ drop (head + length p - length buf) (take head buf ++ p)
  last_of-rotated_wraps h k = rw (append_assoc (drop head buf) (take head buf) p) (
      drop-append_beyond _ (head + length p - length buf) (drop head buf) (take head buf ++ p) (
        omega (
          arith,
          length-drop head buf,
          length-rotated,
          ap length (append_assoc (drop head buf) (take head buf) p),
        )))

  pub drop_through :
      head + length p - length buf ≤ head
      → head ≤ length buf
      → drop (head + length p - length buf) (take head buf ++ take (length buf - head) p)
          ++ drop (length buf - head) p
        ≡ drop (head + length p - length buf) (take head buf ++ p)
  drop_through h k =
      sym (
        drop-append_inside (head + length p - length buf)
          (take head buf ++ take (length buf - head) p) (drop (length buf - head) p)
          (omega (
            arith,
            length-append (take head buf) (take (length buf - head) p),
            length-take head buf,
          )))
      ∙ ap (drop (head + length p - length buf)) (
          append_assoc (take head buf) (take (length buf - head) p) (drop (length buf - head) p)
          ∙ ap (λ q. take head buf ++ q) (take-append-drop (length buf - head) p))

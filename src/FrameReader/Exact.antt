-- ===== src/FrameReader/Exact.antt =====
-- What `read_exact` reads.
use rusttgcalls.Prelude.{
  ℕ, ◌+◌, true, List, ◌++◌, some, leb, length, ◌≡◌, refl, arith, length-append, length-take,
  length-drop, take-append_exact, drop-append_exact, le→leb,
}
use rusttgcalls.FrameReader.{read_exact}

pub read_exact-length :
    (n : ℕ) (bytes : List ℕ) (p : List ℕ × List ℕ)
    → read_exact n bytes ≡ some p
    → (length p.0 ≡ n) × (length p.1 + n ≡ length bytes)
unfolding read_exact
read_exact-length n bytes p h = ground (arith, length-take n bytes, length-drop n bytes)

pub read_exact-append :
    (n : ℕ) (front back : List ℕ)
    → length front ≡ n
    → read_exact n (front ++ back) ≡ some (front, back)
unfolding read_exact
read_exact-append n front back e =
    let fits : leb n (length (front ++ back)) ≡ true =
      le→leb _ _ (omega (arith, length-append front back)) in
    rw (fits, take-append_exact n front back e, drop-append_exact n front back e) refl

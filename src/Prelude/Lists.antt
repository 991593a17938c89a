-- ===== src/Prelude/Lists.antt =====
-- Lists measured and indexed by native numbers, under the library's names.
use Prim.Native.Nat.{ℕ, zero, suc, ◌+◌, ◌-◌, ◌≤◌, min}
use native.Mathlib.Decide.{dec_le}
use mathlib.Core.Path.{◌≡◌, refl, sym, ap, ◌∙◌}
use mathlib.Core.List.{List, [], ◌∷◌, ◌++◌, append_assoc}
use mathlib.Core.Option.{Option, none, some}
use native.Mathlib.Omega.{arith}

module _ {ℓ} {A : Type ℓ} where
  abbrev pub length : List A → ℕ
  length [] = 0
  length (x ∷ xs) = suc (length xs)

  abbrev pub get_elem? : List A → ℕ → Option A
  get_elem? [] i = none
  get_elem? (x ∷ xs) zero = some x
  get_elem? (x ∷ xs) (suc i) = get_elem? xs i

  abbrev pub get_or : List A → ℕ → A → A
  get_or [] i d = d
  get_or (x ∷ xs) zero d = x
  get_or (x ∷ xs) (suc i) d = get_or xs i d

  abbrev pub take : ℕ → List A → List A
  take zero xs = []
  take (suc n) [] = []
  take (suc n) (x ∷ xs) = x ∷ take n xs

  abbrev pub drop : ℕ → List A → List A
  drop zero xs = xs
  drop (suc n) [] = []
  drop (suc n) (x ∷ xs) = drop n xs

  abbrev pub replicate : ℕ → A → List A
  replicate zero a = []
  replicate (suc n) a = a ∷ replicate n a

  pub length-append : (xs ys : List A) → length (xs ++ ys) ≡ length xs + length ys
  length-append [] ys = omega arith
  length-append (x ∷ xs) ys = omega (arith, length-append xs ys)

  pub take-append-drop : (n : ℕ) (xs : List A) → take n xs ++ drop n xs ≡ xs
  take-append-drop zero xs = refl
  take-append-drop (suc n) [] = refl
  take-append-drop (suc n) (x ∷ xs) = ap (λ r. x ∷ r) (take-append-drop n xs)

  pub length-take : (n : ℕ) (xs : List A) → length (take n xs) ≡ min n (length xs)
  length-take zero xs = omega arith
  length-take (suc n) [] = omega arith
  length-take (suc n) (x ∷ xs) = omega (arith, length-take n xs)

  pub length-drop : (n : ℕ) (xs : List A) → length (drop n xs) ≡ length xs - n
  length-drop zero xs = omega arith
  length-drop (suc n) [] = omega arith
  length-drop (suc n) (x ∷ xs) = omega (arith, length-drop n xs)

  pub length-replicate : (n : ℕ) (a : A) → length (replicate n a) ≡ n
  length-replicate zero a = refl
  length-replicate (suc n) a = ap suc (length-replicate n a)

  -- The first part of a list whose length is known is cut off exactly.
  pub take-append_exact : (n : ℕ) (xs ys : List A) → length xs ≡ n → take n (xs ++ ys) ≡ xs
  take-append_exact zero [] ys e = refl
  take-append_exact zero (x ∷ xs) ys e = absurd (omega arith)
  take-append_exact (suc n) [] ys e = absurd (omega arith)
  take-append_exact (suc n) (x ∷ xs) ys e =
      ap (λ r. x ∷ r) (take-append_exact n xs ys (omega arith))

  pub drop-append_exact : (n : ℕ) (xs ys : List A) → length xs ≡ n → drop n (xs ++ ys) ≡ ys
  drop-append_exact zero [] ys e = refl
  drop-append_exact zero (x ∷ xs) ys e = absurd (omega arith)
  drop-append_exact (suc n) [] ys e = absurd (omega arith)
  drop-append_exact (suc n) (x ∷ xs) ys e = drop-append_exact n xs ys (omega arith)

  -- A drop that stays inside the first part.
  pub drop-append_inside :
      (n : ℕ) (xs ys : List A) → n ≤ length xs → drop n (xs ++ ys) ≡ drop n xs ++ ys
  drop-append_inside zero xs ys h = refl
  drop-append_inside (suc n) [] ys h = absurd (omega arith)
  drop-append_inside (suc n) (x ∷ xs) ys h = drop-append_inside n xs ys (omega arith)

  -- A drop that goes beyond the first part.
  pub drop-append_beyond :
      (n k : ℕ) (xs ys : List A) → n ≡ length xs + k → drop n (xs ++ ys) ≡ drop k ys
  drop-append_beyond n k [] ys e = ap (λ m. drop m ys) (omega arith)
  drop-append_beyond zero k (x ∷ xs) ys e = absurd (omega arith)
  drop-append_beyond (suc n) k (x ∷ xs) ys e = drop-append_beyond n k xs ys (omega arith)

  pub drop_all : (n : ℕ) (xs : List A) → length xs ≤ n → drop n xs ≡ []
  drop_all zero [] h = refl
  drop_all zero (x ∷ xs) h = absurd (omega arith)
  drop_all (suc n) [] h = refl
  drop_all (suc n) (x ∷ xs) h = drop_all n xs (omega arith)

  pub take_all : (n : ℕ) (xs : List A) → length xs ≤ n → take n xs ≡ xs
  take_all zero [] h = refl
  take_all zero (x ∷ xs) h = absurd (omega arith)
  take_all (suc n) [] h = refl
  take_all (suc n) (x ∷ xs) h = ap (λ r. x ∷ r) (take_all n xs (omega arith))

  pub drop-drop : (n m : ℕ) (xs : List A) → drop n (drop m xs) ≡ drop (m + n) xs
  drop-drop n zero xs = ap (λ k. drop k xs) (omega arith)
  drop-drop zero (suc m) [] = drop_of_nil (suc m + zero)
    where
      drop_of_nil : (k : ℕ) → [] ≡ drop k []
      drop_of_nil zero = refl
      drop_of_nil (suc k) = refl
  drop-drop (suc n) (suc m) [] = drop_of_nil (suc m + suc n)
    where
      drop_of_nil : (k : ℕ) → [] ≡ drop k []
      drop_of_nil zero = refl
      drop_of_nil (suc k) = refl
  drop-drop n (suc m) (x ∷ xs) = drop-drop n m xs ∙ ap (λ k. drop k (x ∷ xs)) (shift n m)
    where
      shift : (n m : ℕ) → suc (m + n) ≡ suc m + n
      shift n m = omega arith

-- The last `k` elements, or all of a shorter list.
abbrev pub last_of {ℓ} : {A : Type ℓ} → ℕ → List A → List A
last_of k xs = drop (length xs - k) xs

pub last_of_short {ℓ} : {A : Type ℓ} (k : ℕ) (xs : List A) → length xs ≤ k → last_of k xs ≡ xs
last_of_short k xs h = let e : length xs - k ≡ 0 = omega arith in ap (λ n. drop n xs) e

-- What precedes `k` elements does not count.
pub last_of-append {ℓ} :
    {A : Type ℓ} (k : ℕ) (xs ys : List A) → k ≤ length ys → last_of k (xs ++ ys) ≡ last_of k ys
last_of-append k xs ys h =
    drop-append_beyond (length (xs ++ ys) - k) (length ys - k) xs ys
      (omega (arith, length-append xs ys))

pub last_of-last_of {ℓ} :
    {A : Type ℓ} (k : ℕ) (xs ys : List A) → last_of k (last_of k xs ++ ys) ≡ last_of k (xs ++ ys)
last_of-last_of k xs ys = elim (dec_le (length xs) k) [
  | yes short ↦ rw (last_of_short k xs short) refl
  | no long ↦
      sym (
        last_of-append k (take (length xs - k) xs) (last_of k xs ++ ys)
          (omega (arith, length-append (last_of k xs) ys, length-drop (length xs - k) xs)))
      ∙ ap (last_of k) (
          sym (append_assoc (take (length xs - k) xs) (last_of k xs) ys)
          ∙ ap (λ l. l ++ ys) (take-append-drop (length xs - k) xs))
]

-- A predicate of every element.
abbrev pub Every {ℓ κ} : {A : Type ℓ} (P : A → Type κ) → List A → Type κ
Every P [] = Unit
Every P (a ∷ l) = P a × Every P l

pub Every-append {ℓ κ} :
    {A : Type ℓ} (P : A → Type κ) (l m : List A) → Every P l → Every P m → Every P (l ++ m)
Every-append P [] m of_l of_m = of_m
Every-append P (a ∷ l) m (of_a, of_l) of_m = (of_a, Every-append P l m of_l of_m)

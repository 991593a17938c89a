-- ===== src/Client/Calls.antt =====
-- The concurrent map of the client's calls, as an association list: `get`, `insert`, `remove`.
use rusttgcalls.Prelude.{
  ℕ, false, List, [], ◌∷◌, Option, none, some, if◌then◌else◌, ◌==◌, ◌≡◌, refl, arith, ==_iff,
  ==_refl,
}

module _ {ℓ} {V : Type ℓ} where
  unfoldable pub get : ℕ → List (ℕ × V) → Option V
  get chat [] = none
  get chat ((id, v) ∷ calls) = if id == chat then some v else get chat calls

  -- A value that is there is replaced.
  unfoldable pub insert : ℕ → V → List (ℕ × V) → List (ℕ × V)
  insert chat v [] = (chat, v) ∷ []
  insert chat v ((id, w) ∷ calls) =
      let rest = insert chat v calls in if id == chat then (id, v) ∷ calls else (id, w) ∷ rest

  unfoldable pub remove : ℕ → List (ℕ × V) → List (ℕ × V)
  remove chat [] = []
  remove chat ((id, v) ∷ calls) =
      let rest = remove chat calls in if id == chat then rest else (id, v) ∷ rest

  pub get-insert :
      (chat : ℕ) (v : V) (calls : List (ℕ × V)) → get chat (insert chat v calls) ≡ some v
  unfolding get insert
  get-insert chat v [] = ground (arith, ==_refl chat)
  get-insert chat v ((id, w) ∷ calls) = ground (arith, get-insert chat v calls)

  pub get-insert_other :
      (other chat : ℕ) (v : V) (calls : List (ℕ × V))
      → (chat == other) ≡ false
      → get other (insert chat v calls) ≡ get other calls
  unfolding get insert
  get-insert_other other chat v [] h = ground (arith, h)
  get-insert_other other chat v ((id, w) ∷ calls) h = ground (
    arith,
    h,
    get-insert_other other chat v calls h,
    ==_iff id chat,
    ==_iff chat other,
    ==_iff id other,
  )

  pub get-remove : (chat : ℕ) (calls : List (ℕ × V)) → get chat (remove chat calls) ≡ none
  unfolding get remove
  get-remove chat [] = refl
  get-remove chat ((id, w) ∷ calls) = ground (arith, get-remove chat calls)

  pub get-remove_other :
      (other chat : ℕ) (calls : List (ℕ × V))
      → (chat == other) ≡ false
      → get other (remove chat calls) ≡ get other calls
  unfolding get remove
  get-remove_other other chat [] h = refl
  get-remove_other other chat ((id, w) ∷ calls) h = ground (
    arith,
    h,
    get-remove_other other chat calls h,
    ==_iff id chat,
    ==_iff chat other,
    ==_iff id other,
  )

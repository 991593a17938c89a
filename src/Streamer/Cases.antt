-- ===== src/Streamer/Cases.antt =====
-- The places of the two tasks, to split on with the equation kept, and induction along a schedule.
use rusttgcalls.Prelude.{
  true, ◌≡◌, ◌⊎◌, inl, inr, refl, Option, List, [], ◌∷◌, ℕ, Every, some, false, Bool-cases, arith,
}
use rusttgcalls.Models.{Error, Result, Result-cases}
use rusttgcalls.FrameReader.{Sample}
use rusttgcalls.Streamer.Tasks.{
  Reading, at_head, fetching, left, offering, Pacing, finishing, calling, gone, is_over, System,
  Event, after_send, play, step, run,
}

pub Reading-cases :
    (r : Reading)
    → (r ≡ at_head) ⊎ (r ≡ fetching) ⊎ (r ≡ left) ⊎ ((q : Result Sample) × (r ≡ offering q))
Reading-cases at_head = inl refl
Reading-cases fetching = inr (inl refl)
Reading-cases left = inr (inr (inl refl))
Reading-cases (offering q) = inr (inr (inr (q, refl)))

-- The places in the loop, and those behind it.
pub data PacingView (p : Pacing) : Type 0 where
  waits : (wake : ℕ) → p ≡ Pacing.waiting wake → PacingView p
  loops : (next : Option (Result Sample)) → p ≡ Pacing.looping next → PacingView p
  holds : (sample : Sample) → p ≡ Pacing.holding sample → PacingView p
  is_due : (sample : Sample) → p ≡ Pacing.due sample → PacingView p
  ends : is_over p ≡ true → PacingView p

pub pacing_view : (p : Pacing) → PacingView p
pacing_view (Pacing.waiting wake) = waits wake refl
pacing_view (Pacing.looping next) = loops next refl
pacing_view (Pacing.holding sample) = holds sample refl
pacing_view (Pacing.due sample) = is_due sample refl
pacing_view (finishing e) = ends refl
pacing_view (calling f e) = ends refl
pacing_view gone = ends refl

module _ {Stack Reader : Type 0} (send : ℕ → List ℕ → ℕ → Stack → Stack × Result (Unit {0})) where
  -- What each event of a kind keeps, a schedule of such events keeps.
  pub run_inv :
      (P : System Stack Reader → Type 0) (Q : Event → Type 0)
      → ((e : Event) (s : System Stack Reader) → Q e → P s → P (step send e s))
      → (l : List Event) (s : System Stack Reader) → Every Q l
      → P s
      → P (run send l s)
  unfolding run
  run_inv P Q keep [] s h p = p
  run_inv P Q keep (e ∷ l) s (q, h) p = run_inv P Q keep l (step send e s) h (keep e s q p)

-- Any event, and no condition.
abbrev pub Any : Event → Type 0
Any e = Unit {0}

pub Every-Any : (l : List Event) → Every Any l
Every-Any [] = tt
Every-Any (e ∷ l) = (tt, Every-Any l)

-- What playing a frame comes to: it is counted unsent, or sent and counted, or the send fails.
pub data PlayView {Stack Reader : Type 0} (s : System Stack Reader) (sample : Sample)
    (t : System Stack Reader) : Type 0 where
  unsent : s.handle.muted ≡ true → t ≡ after_send sample false s → PlayView s sample t
  sends :
      (stack : Stack)
      → s.handle.muted ≡ false
      → t ≡ after_send sample true (record s { stack = stack })
      → PlayView s sample t
  fails :
      (stack : Stack) (e : Error)
      → s.handle.muted ≡ false
      → t ≡ record s { stack = stack; pacing = finishing (some e) }
      → PlayView s sample t

module _ {Stack Reader : Type 0} (send : ℕ → List ℕ → ℕ → Stack → Stack × Result (Unit {0})) where
  pub play_view :
      (sample : Sample) (s : System Stack Reader) → PlayView s sample (play send sample s)
  unfolding play
  play_view sample s =
      let (stack, r) = send s.handle.payload_type sample.payload sample.duration s.stack in
      elim (Bool-cases s.handle.muted) [
        | inl m ↦ unsent m (ground (arith, m))
        | inr m ↦ elim (Result-cases r) [
          | inl (u, q) ↦ sends stack m (ground (arith, m, q))
          | inr (e, q) ↦ fails stack e m (ground (arith, m, q))
        ]
      ]

-- ===== src/Dispatcher/Tests.antt =====
-- Three tasks on a dispatcher with room for them.
use rusttgcalls.Prelude.{ℕ, List, [], ◌∷◌, ◌≡◌, refl, arith, length}
use rusttgcalls.Dispatcher.{Event, submits, takes, finishes, new, run}
use rusttgcalls.Dispatcher.Order.{accepted, submitted, drain, run-submitted}

abbrev events : List (Event ℕ)
events = submits 1 ∷ submits 2 ∷ takes ∷ submits 3 ∷ finishes ∷ []

run-submitted_example :
    let d = run events (new 3) in
    (accepted d ≡ submitted events) × ((run (drain (length d.queue)) d).ran ≡ submitted events)
run-submitted_example =
    run-submitted 3 events (refl, (refl, (refl, (refl, (refl, tt))))) (omega arith)

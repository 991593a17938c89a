-- ===== src/CertPool/Tests.antt =====
-- A pool of two certificates, of which one is taken.
use rusttgcalls.Prelude.{ℕ, ◌≤◌, List, true, ◌⊎◌, [], ◌∷◌, ◌++◌, some, ◌≡◌, length}
use rusttgcalls.Models.{ok}
use rusttgcalls.CertPool.{Event, makes, offers, takes, new, take, take_cert, close, run}
use rusttgcalls.CertPool.Order.{stock, serves, given, run-given}

abbrev events : List (Event ℕ)
events = makes (some 1) ∷ offers ∷ makes (some 2) ∷ takes (ok 9) ∷ offers ∷ []

run-given_example :
    let p = run events (new 2) in
    (given events (new 2) ++ stock p ≡ p.made)
    × (length p.queue ≤ p.size)
    × ((serves p ≡ true) ⊎ ((take (ok 9) p ≡ (p, ok 9)) × (take_cert (ok 9) p ≡ (p, ok 9))))
    × (take (ok 9) (close p) ≡ (close p, ok 9))
    × (take_cert (ok 9) (close p) ≡ (close p, ok 9))
run-given_example = run-given 2 events (ok 9)

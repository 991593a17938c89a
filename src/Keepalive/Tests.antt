-- ===== src/Keepalive/Tests.antt =====
-- A stack that is connecting, and one that was connected.
use rusttgcalls.Prelude.{
  true, false, List, ◌++◌, some, replicate, [], ◌∷◌, ◌≡◌, refl, arith, if◌then◌else◌, ◌==◌,
}
use rusttgcalls.Models.{connecting, connected, failed}
use rusttgcalls.Client.Calls.{get, insert}
use rusttgcalls.Keepalive.{
  PcMonitorEntry, pads, new, Look, ticks, FactoryMonitor, new_monitor, start, register, View,
}
use rusttgcalls.Keepalive.Laws.{IsWaiting, closes_after, ticks-waiting}
use rusttgcalls.Keepalive.Polls.{polls, polls-pads}

abbrev later : List Look
later = (true, connecting, 20_000_000_005) ∷ (false, failed, 35_000_000_006) ∷ []

ticks-waiting_example :
    (ticks ((false, connecting, 5) ∷ later) (new 8)).tasks ≡ closes_after 5 later
unfolding IsWaiting
ticks-waiting_example =
    ticks-waiting 8 false connecting 5 later (ground arith) (refl, (refl, (refl, tt)))

abbrev monitor : FactoryMonitor
monitor = register 1 8 (register 2 0 (start new_monitor))

abbrev views : List View
views =
    ((λ key. if key == 2 then connecting else connected), 5)
    ∷ ((λ key. connected), 9)
    ∷ ((λ key. connected), 10)
    ∷ []

polls-pads_example :
    (e : PcMonitorEntry) × (get 1 (polls views monitor).entries ≡ some e)
    × (e.tasks ≡ [] ++ replicate 1 pads)
unfolding new_monitor start register new get insert
polls-pads_example = polls-pads views 1 monitor (new 8) refl refl refl (refl, (refl, (refl, tt)))

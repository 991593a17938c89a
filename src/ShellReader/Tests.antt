-- ===== src/ShellReader/Tests.antt =====
-- A process that writes and crashes, and one that is to be closed while it runs.
use rusttgcalls.Prelude.{true, false, List, [], ◌∷◌, some, ◌≡◌, ◌⊎◌, refl, lit, last_of}
use rusttgcalls.RingBuf.Tail.{flatten}
use rusttgcalls.ShellReader.{
  Exit, exited, error_of, fresh, Event, reaps, closes, calls_close, exits, writes, sets_on_exit,
  reap, exit_with, read_stderr, set_on_exit, stderr_tail, step, run,
}
use rusttgcalls.ShellReader.Reports.{run-reports}
use rusttgcalls.ShellReader.Blocking.{IsRunning, close-waits}
use rusttgcalls.ShellReader.Stderr.{chunks, stderr_tail-run}

abbrev crash : List Event
crash =
    sets_on_exit
    ∷ reaps
    ∷ writes (1 ∷ 2 ∷ [])
    ∷ exits (exited false (lit "1"))
    ∷ reaps
    ∷ reaps
    ∷ reaps
    ∷ []

reports_crash : (run crash (fresh true)).called ≡ error_of (exited false (lit "1")) ∷ []
unfolding run step reap exit_with read_stderr set_on_exit
reports_crash = refl

run-reports_example :
    let r = run crash (fresh true) in
    (r.called ≡ [])
    ⊎ ((e : Exit) × (r.exit ≡ some e) × (r.called ≡ error_of e ∷ []) × (r.exit_error ≡ error_of e))
run-reports_example = run-reports crash true

stderr_tail-run_example :
    stderr_tail (run crash (fresh true)) ≡ last_of 4096 (flatten (chunks true crash))
stderr_tail-run_example = stderr_tail-run crash true

close-waits_example :
    IsRunning false (run (calls_close ∷ closes ∷ closes ∷ []) (run (reaps ∷ []) (fresh true)))
unfolding run step reap
close-waits_example =
    close-waits (calls_close ∷ closes ∷ closes ∷ []) (run (reaps ∷ []) (fresh true)) false
      (refl, (refl, (refl, tt)))
      (record { waits = refl; locked = refl; runs = refl; same = refl; before = refl })

-- ===== src/ShellReader/Blocking.antt =====
-- What `close` can do while the process runs.
use rusttgcalls.Prelude.{Bool, true, false, List, [], ◌∷◌, none, ◌≡◌, arith, Every}
use rusttgcalls.ShellReader.{
  reaper, reaping, Closing, idle, wanting, ShellReader, Event, reaps, closes, calls_close, exits,
  writes, ends_stderr, sets_on_exit, reap, call_close, close, exit_with, read_stderr, set_on_exit,
  step, run,
}

abbrev pub is_exit : Event → Bool
is_exit (exits e) = true
is_exit e = false

abbrev pub is_before : Closing → Bool
is_before idle = true
is_before wanting = true
is_before c = false

-- A process that runs on while the task waits for it, before `close` is at work.
pub record IsRunning (killed : Bool) (r : ShellReader) : Type 0 where
  pub waits : r.reaping ≡ reaping
  pub locked : r.lock ≡ reaper
  pub runs : r.exit ≡ none
  pub same : r.killed ≡ killed
  pub before : is_before r.closing ≡ true

step-IsRunning :
    (killed : Bool) (e : Event) (r : ShellReader)
    → is_exit e ≡ false
    → IsRunning killed r
    → IsRunning killed (step e r)
unfolding step reap close call_close exit_with read_stderr set_on_exit
step-IsRunning killed reaps r h v = ground arith
step-IsRunning killed closes r h v = ground arith
step-IsRunning killed calls_close r h v = ground arith
step-IsRunning killed (exits e) r h v = ground arith
step-IsRunning killed (writes chunk) r h v = ground arith
step-IsRunning killed ends_stderr r h v = ground arith
step-IsRunning killed sets_on_exit r h v = ground arith

-- While the waiting task waits for the exit, it holds the lock on the child: until the process exits by
-- itself, `close` neither kills it nor returns, however often and at whatever time it is tried.
pub close-waits :
    (l : List Event) (r : ShellReader) (killed : Bool)
    → Every (λ e. is_exit e ≡ false) l
    → IsRunning killed r
    → IsRunning killed (run l r)
unfolding run
close-waits [] r killed h v = v
close-waits (e ∷ l) r killed (q, h) v =
    close-waits l (step e r) killed h (step-IsRunning killed e r q v)

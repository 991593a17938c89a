-- ===== src/ShellReader.antt =====
-- io/shell_reader.rs: a child process behind a reader, the task that waits for its exit, the task that
-- keeps the tail of its stderr, and `close`. A schedule of events tells which of them goes on next.
use rusttgcalls.Prelude.{
  ℕ, Text, Bool, true, false, not, ◌&&◌, List, [], ◌∷◌, ◌++◌, Option, none, some, if◌then◌else◌,
  lit,
}
use rusttgcalls.Models.{Error, Result, ok, err, ffmpeg_crashed, ffmpeg_spawn}
use rusttgcalls.RingBuf
use rusttgcalls.RingBuf.{RingBuffer}
pub mod Reports
pub mod Blocking
pub mod Stderr
mod Tests

-- How `child.wait()` ends: with a status, successful or not, and its text, or with an error.
pub data Exit : Type 0 where
  exited : Bool → Text → Exit
  wait_failed : Text → Exit

-- Who holds the lock on the child: nobody, the task that waits for the exit, or `close`.
pub data Holder : Type 0 where
  nobody reaper closer : Holder

-- Where the waiting task is: before the lock, in `child.wait()`, behind it with the exit, with the
-- callback to be called, or gone.
pub data Reaping : Type 0 where
  locking reaping reaped_all : Reaping
  reaped : Exit → Reaping
  calling : Option Error → Reaping

-- Where the call of `close` that does the work is: not made, before the lock, in `child.kill()`, or done.
pub data Closing : Type 0 where
  idle wanting killing closed_all : Closing

-- `ShellReader`. `has_child` tells whether the slot holds the child, `exit` what has become of the
-- process, and `killed` whether it was killed; `called` are the calls of `on_exit`.
pub record ShellReader : Type 0 where
  pub has_child : Bool
  pub exit : Option Exit
  pub killed : Bool
  pub lock : Holder
  pub reaping : Reaping
  pub closing : Closing
  pub stderr_ring : RingBuffer
  pub stderr_open : Bool
  pub on_exit : Bool
  pub closed : Bool
  pub exited_flag : Bool
  pub exit_error : Option Error
  pub called : List (Option Error)

-- A reader that has just been made.
abbrev pub fresh : Bool → ShellReader
fresh stream_stderr = record {
  has_child = true;
  exit = none;
  killed = false;
  lock = nobody;
  reaping = locking;
  closing = idle;
  stderr_ring = RingBuf.new 4096;
  stderr_open = stream_stderr;
  on_exit = false;
  closed = false;
  exited_flag = false;
  exit_error = none;
  called = [];
}

-- `spawned` is what starting the program gives: whether stdout is there, or an error.
unfoldable pub new : Bool → Result Bool → Result ShellReader
new stream_stderr spawned = elim spawned [
  | err e ↦ err e
  | ok has_stdout ↦
      if not has_stdout
      then err (ffmpeg_spawn (lit "failed to capture ffmpeg stdout"))
      else ok (fresh stream_stderr)
]

-- The error of an exit.
abbrev pub error_of : Exit → Option Error
error_of (exited true status) = none
error_of (exited false status) = some (ffmpeg_crashed (lit "ffmpeg exited with code " ++ status))
error_of (wait_failed e) = some (ffmpeg_crashed e)

-- `reaps` and `closes` are steps of the waiting task and of `close`, `calls_close` is its call, `exits`
-- the process's own exit, `writes` a chunk of its stderr.
pub data Event : Type 0 where
  reaps closes calls_close : Event
  exits : Exit → Event
  writes : List ℕ → Event
  ends_stderr sets_on_exit : Event

-- The task that waits. It holds the lock until `wait` is over.
unfoldable pub reap : ShellReader → ShellReader
reap r = elim r.reaping [
  | locking ↦ elim r.lock [
    | nobody ↦
        if r.has_child
        then record r { lock = reaper; reaping = reaping }
        else record r { reaping = reaped_all }
    | reaper ↦ r
    | closer ↦ r
  ]
  | reaping ↦ elim r.exit [ none ↦ r | some e ↦ record r { lock = nobody; reaping = reaped e } ]
  | reaped e ↦ record r { exit_error = error_of e; reaping = calling (error_of e) }
  | calling e ↦ record r {
    called = if r.on_exit then r.called ++ (e ∷ []) else r.called;
    exited_flag = true;
    reaping = reaped_all;
  }
  | reaped_all ↦ r
]

-- The call of `close`, of which the first one counts.
unfoldable pub call_close : ShellReader → ShellReader
call_close r = if r.closed then r else record r { closed = true; closing = wanting }

-- `close` behind its test. Killing waits for the exit, which it brings about.
unfoldable pub close : ShellReader → ShellReader
close r = elim r.closing [
  | idle ↦ r
  | wanting ↦ elim r.lock [
    | nobody ↦
        if r.has_child
        then record r { lock = closer; has_child = false; killed = true; closing = killing }
        else record r { exited_flag = true; closing = closed_all }
    | reaper ↦ r
    | closer ↦ r
  ]
  | killing ↦ elim r.exit [
    | none ↦ r
    | some e ↦ record r { lock = nobody; exited_flag = true; closing = closed_all }
  ]
  | closed_all ↦ r
]

-- The process exits once.
unfoldable pub exit_with : Exit → ShellReader → ShellReader
exit_with e r = elim r.exit [ none ↦ record r { exit = some e } | some old ↦ r ]

-- A chunk that the task has read from stderr, up to its end.
unfoldable pub read_stderr : List ℕ → ShellReader → ShellReader
read_stderr chunk r =
    if r.stderr_open then record r { stderr_ring = (RingBuf.write r.stderr_ring chunk).0 } else r

unfoldable pub set_on_exit : ShellReader → ShellReader
set_on_exit r = record r { on_exit = true }

unfoldable pub stderr_tail : ShellReader → List ℕ
stderr_tail r = RingBuf.snapshot r.stderr_ring

-- Whether `wait_for_exit` returns at once.
abbrev pub is_exited : ShellReader → Bool
is_exited r = r.exited_flag

unfoldable pub step : Event → ShellReader → ShellReader
step reaps r = reap r
step closes r = close r
step calls_close r = call_close r
step (exits e) r = exit_with e r
step (writes chunk) r = read_stderr chunk r
step ends_stderr r = record r { stderr_open = false }
step sets_on_exit r = set_on_exit r

unfoldable pub run : List Event → ShellReader → ShellReader
run [] r = r
run (e ∷ l) r = run l (step e r)

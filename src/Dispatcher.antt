-- ===== src/Dispatcher.antt =====
-- utils/synccallback.rs: the queue of the callbacks, which one task runs.
use rusttgcalls.Prelude.{
  ℕ, Bool, true, false, List, [], ◌∷◌, ◌++◌, Option, none, some, if◌then◌else◌, ◌==◌, ltb, length,
}
pub mod Order
mod Tests

-- `Dispatcher`, with its channel of `size` places and the task that it has spawned. `running` is the task
-- that is being run, and `ran` are those that have been run, a panic or not.
pub record Dispatcher (Task : Type 0) : Type 0 where
  pub size : ℕ
  pub queue : List Task
  pub closed : Bool
  pub running : Option Task
  pub ran : List Task

abbrev pub size_of : ℕ → ℕ
size_of buf_size = if buf_size == 0 then 256 else buf_size

-- What happens next: a call, or a step of the spawned task, which takes a task or is done with one.
pub data Event (Task : Type 0) : Type 0 where
  submits : Task → Event Task
  closes takes finishes : Event Task

module _ {Task : Type 0} where
  unfoldable pub new : ℕ → Dispatcher Task
  new buf_size = record {
    size = size_of buf_size;
    queue = [];
    closed = false;
    running = none;
    ran = [];
  }

  -- A task that finds the channel full is dropped.
  unfoldable pub submit : Task → Dispatcher Task → Dispatcher Task
  submit task d =
      if d.closed
      then d
      else if ltb (length d.queue) d.size
      then record d { queue = d.queue ++ (task ∷ []) }
      else d

  unfoldable pub close : Dispatcher Task → Dispatcher Task
  close d = record d { closed = true }

  -- `rx.recv()` in the spawned task.
  unfoldable pub take_task : Dispatcher Task → Dispatcher Task
  take_task d = elim d.running [
    | some t ↦ d
    | none ↦ elim d.queue [ [] ↦ d | t ∷ rest ↦ record d { running = some t; queue = rest } ]
  ]

  -- The end of a task, which `catch_unwind` makes the same for a panic.
  unfoldable pub finish_task : Dispatcher Task → Dispatcher Task
  finish_task d = elim d.running [
    | none ↦ d
    | some t ↦ record d { running = none; ran = d.ran ++ (t ∷ []) }
  ]

  unfoldable pub step : Event Task → Dispatcher Task → Dispatcher Task
  step (submits t) d = submit t d
  step closes d = close d
  step takes d = take_task d
  step finishes d = finish_task d

  unfoldable pub run : List (Event Task) → Dispatcher Task → Dispatcher Task
  run [] d = d
  run (e ∷ l) d = run l (step e d)

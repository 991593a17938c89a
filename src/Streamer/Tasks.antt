-- ===== src/Streamer/Tasks.antt =====
-- The two tasks behind a streamer, which `new_with_barrier` spawns: one reads frames ahead into a channel,
-- the other takes them out and sends each at its time. A schedule of events tells which of them, the
-- callers of the handle, the clock or the barrier goes on next.
use rusttgcalls.Prelude.{
  ℕ, ◌+◌, ◌%◌, ◌^◌, Bool, true, false, not, ◌&&◌, List, [], ◌∷◌, ◌++◌, Option, none, some,
  if◌then◌else◌, ltb, length,
}
use rusttgcalls.Models.{Error, Result, ok, err}
use rusttgcalls.FrameReader.{Sample}
use rusttgcalls.Streamer
use rusttgcalls.Streamer.{OnEnd, Streamer}

-- Where the reading task is: at the head of its loop, in `next_sample`, in `tx.send`, or gone.
pub data Reading : Type 0 where
  at_head fetching left : Reading
  offering : Result Sample → Reading

-- Where the pacing task is: in `rx.recv` and asleep until a time, at the head of its loop with what it
-- has received, past the tests of `running` and `paused` with a frame, past the barrier with it, behind
-- the loop, with the callback in hand, or gone.
pub data Pacing : Type 0 where
  waiting : ℕ → Pacing
  looping : Option (Result Sample) → Pacing
  holding due : Sample → Pacing
  finishing : Option Error → Pacing
  calling : Option OnEnd → Option Error → Pacing
  gone : Pacing

-- A frame that was played: when its slot began, when it was played, and whether it was sent.
pub record Played : Type 0 where
  pub sample : Sample
  pub slot : ℕ
  pub time : ℕ
  pub sent : Bool

-- A streamer, its tasks and the transport that it sends on. `fetched` is all that `next_sample` has given,
-- the oldest first; `played` are the frames played, the newest first; `ended` are the calls of the
-- completion callback.
pub record System (Stack Reader : Type 0) : Type 0 where
  pub handle : Streamer Reader
  pub stack : Stack
  pub now : ℕ
  pub reading : Reading
  pub channel : List (Result Sample)
  pub pacing : Pacing
  pub first_sample : Bool
  pub next_deadline : ℕ
  pub fetched : List (Result Sample)
  pub played : List Played
  pub ended : List (OnEnd × Option Error)

-- What happens next. `reads` is a step of the reading task, `fetches` the end of its `next_sample` or of
-- the time limit on it, `paces` a step of the pacing task, `opens` the barrier.
pub data Event : Type 0 where
  reads paces opens : Event
  fetches : Result Sample → Event
  passes : ℕ → Event
  starts pauses resumes stops : Event
  mutes : Bool → Event
  sets_on_end : OnEnd → Event

-- The capacity of the channel.
abbrev pub capacity : ℕ
capacity = 256

abbrev pub is_err {ℓ} : {A : Type ℓ} → Result A → Bool
is_err (ok a) = false
is_err (err e) = true

-- Whether the pacing task has left its loop. The receiver goes with the task.
abbrev pub is_over : Pacing → Bool
is_over (finishing e) = true
is_over (calling f e) = true
is_over gone = true
is_over p = false

abbrev pub is_gone : Pacing → Bool
is_gone gone = true
is_gone p = false

abbrev pub has_left : Reading → Bool
has_left left = true
has_left r = false

module _ {Stack Reader : Type 0} where
  -- The tests before a frame, where the loop goes on with it.
  unfoldable pub at_loop : Option (Result Sample) → System Stack Reader → System Stack Reader
  at_loop next s =
      if not s.handle.running
      then record s { pacing = finishing none }
      else if s.handle.paused
      then record s { first_sample = true }
      else elim next [
        | none ↦ record s { pacing = finishing none }
        | some r ↦ elim r [
          | err e ↦ record s { pacing = finishing (some e) }
          | ok sample ↦ record s { pacing = holding sample }
        ]
      ]

  -- A slot begins anew, behind the barrier if there is one.
  abbrev pub begin_slot : Sample → System Stack Reader → System Stack Reader
  begin_slot sample s = record s {
    pacing = due sample;
    first_sample = false;
    next_deadline = s.now;
  }

  -- The count of the frame, the next deadline, and the wait for it. More than 100 ms late, the deadline is
  -- moved up.
  abbrev pub after_send : Sample → Bool → System Stack Reader → System Stack Reader
  after_send sample sent s =
      let deadline = s.next_deadline + sample.duration in
      record s {
        handle = record s.handle { ns_sent = (s.handle.ns_sent + sample.duration) % 2 ^ 64 };
        next_deadline = if ltb (deadline + 100_000_000) s.now then s.now else deadline;
        pacing = waiting deadline;
        played =
            record { sample = sample; slot = s.next_deadline; time = s.now; sent = sent }
            ∷ s.played;
      }

  -- The end of the sleep and of `rx.recv`: the channel gives its oldest, or nothing more when the
  -- reading task has left.
  unfoldable pub receive : ℕ → System Stack Reader → System Stack Reader
  receive wake s = if ltb s.now wake then s else elim s.channel [
    | r ∷ rest ↦ record s { channel = rest; pacing = looping (some r) }
    | [] ↦ if has_left s.reading then record s { pacing = looping none } else s
  ]

  -- Behind the loop: the flag, and the callback is taken.
  abbrev pub finish : Option Error → System Stack Reader → System Stack Reader
  finish e s = record s {
    handle = record s.handle { done_flag = true; on_end = none };
    pacing = calling s.handle.on_end e;
  }

  abbrev pub call : Option OnEnd → Option Error → System Stack Reader → System Stack Reader
  call none e s = record s { pacing = gone }
  call (some f) e s = record s { pacing = gone; ended = (f, e) ∷ s.ended }

  unfoldable pub open_barrier : System Stack Reader → System Stack Reader
  open_barrier s = elim s.pacing [
    | holding sample ↦ if s.first_sample && s.handle.barrier then begin_slot sample s else s
    | waiting wake ↦ s
    | looping next ↦ s
    | due sample ↦ s
    | finishing e ↦ s
    | calling f e ↦ s
    | gone ↦ s
  ]

  -- The reading task, but for `next_sample`.
  unfoldable pub read : System Stack Reader → System Stack Reader
  read s = elim s.reading [
    | at_head ↦
        if not s.handle.running
        then record s { reading = left }
        else if s.handle.paused
        then s
        else record s { reading = fetching }
    | fetching ↦ s
    | left ↦ s
    | offering r ↦
        if is_gone s.pacing
        then record s { reading = left }
        else if ltb (length s.channel) capacity
        then record s {
          channel = s.channel ++ (r ∷ []);
          reading = if is_err r then left else at_head;
        }
        else s
  ]

  unfoldable pub fetch : Result Sample → System Stack Reader → System Stack Reader
  fetch r s = elim s.reading [
    | fetching ↦ record s { reading = offering r; fetched = s.fetched ++ (r ∷ []) }
    | at_head ↦ s
    | left ↦ s
    | offering q ↦ s
  ]

-- `send_rtp_bytes` of the stack: the payload type, the payload and its duration.
module _ {Stack Reader : Type 0} (send : ℕ → List ℕ → ℕ → Stack → Stack × Result (Unit {0})) where
  unfoldable pub play : Sample → System Stack Reader → System Stack Reader
  play sample s =
      if s.handle.muted
      then after_send sample false s
      else let (stack, r) = send s.handle.payload_type sample.payload sample.duration s.stack in
        let s' = record s { stack = stack } in
        elim r [
          | err e ↦ record s' { pacing = finishing (some e) }
          | ok _ ↦ after_send sample true s'
        ]

  -- The pacing task. A frame that begins a slot waits at the barrier.
  unfoldable pub pace : System Stack Reader → System Stack Reader
  unfolding at_loop play receive
  pace s = elim s.pacing [
    | waiting wake ↦ receive wake s
    | looping next ↦ at_loop next s
    | holding sample ↦
        if s.first_sample
        then if s.handle.barrier then s else begin_slot sample s
        else record s { pacing = due sample }
    | due sample ↦ play sample s
    | finishing e ↦ finish e s
    | calling f e ↦ call f e s
    | gone ↦ s
  ]

  unfoldable pub step : Event → System Stack Reader → System Stack Reader
  step reads s = read s
  step paces s = pace s
  step opens s = open_barrier s
  step (fetches r) s = fetch r s
  step (passes n) s = record s { now = s.now + n }
  step starts s = record s { handle = Streamer.start s.handle }
  step pauses s = record s { handle = Streamer.pause s.handle }
  step resumes s = record s { handle = Streamer.resume s.handle }
  step stops s = record s { handle = Streamer.stop s.handle }
  step (mutes b) s = record s { handle = Streamer.set_muted b s.handle }
  step (sets_on_end f) s = record s { handle = Streamer.set_on_end f s.handle }

  unfoldable pub run : List Event → System Stack Reader → System Stack Reader
  run [] s = s
  run (e ∷ l) s = run l (step e s)

-- A streamer that has just been made.
unfoldable pub spawn : {Stack Reader : Type 0} → Streamer Reader → Stack → ℕ → System Stack Reader
spawn handle stack now = record {
  handle = handle;
  stack = stack;
  now = now;
  reading = at_head;
  channel = [];
  pacing = waiting now;
  first_sample = true;
  next_deadline = now;
  fetched = [];
  played = [];
  ended = [];
}

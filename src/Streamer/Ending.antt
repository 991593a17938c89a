-- ===== src/Streamer/Ending.antt =====
-- The end of a streamer: what a stop leaves to be played, and the calls of the completion callback.
use rusttgcalls.Prelude.{
  ℕ, ◌+◌, ◌≤◌, Bool, true, false, List, [], none, some, ◌≡◌, refl, arith, Every, length,
}
use rusttgcalls.Models.{Result}
use rusttgcalls.Streamer
use rusttgcalls.Streamer.{OnEnd, Streamer}
use rusttgcalls.Streamer.Cases.{
  run_inv, Any, Every-Any, waits, loops, holds, is_due, ends, pacing_view, unsent, sends, fails,
  play_view,
}
use rusttgcalls.Streamer.Tasks.{
  Pacing, holding, due, calling, System, Event, reads, paces, opens, fetches, passes, starts,
  pauses, resumes, stops, mutes, sets_on_end, is_gone, at_loop, receive, pace, open_barrier, read,
  fetch, step, run, spawn,
}

-- The frames that are past the tests of the loop.
abbrev pub past_tests : Pacing → ℕ
past_tests (holding sample) = 1
past_tests (due sample) = 1
past_tests p = 0

-- The calls of the callback that are on their way.
abbrev pub on_way : Pacing → ℕ
on_way (calling (some f) e) = 1
on_way p = 0

-- The events that start a stopped streamer again or give it a callback.
abbrev pub revives : Event → Bool
revives starts = true
revives (sets_on_end f) = true
revives e = false

module _ {Stack Reader : Type 0} where
  -- Stopped, with at most so many frames to be played in all, and calls to be made.
  pub record IsStopped (frames calls : ℕ) (s : System Stack Reader) : Type 0 where
    pub not_running : s.handle.running ≡ false
    pub no_callback : s.handle.on_end ≡ none
    pub few_frames : length s.played + past_tests s.pacing ≤ frames
    pub few_calls : length s.ended + on_way s.pacing ≤ calls

  -- The callback is called at the end only, and once.
  pub record IsOnce (s : System Stack Reader) : Type 0 where
    pub at_end : is_gone s.pacing ≡ false → s.ended ≡ []
    pub once : length s.ended ≤ 1

module _ {Stack Reader : Type 0} (send : ℕ → List ℕ → ℕ → Stack → Stack × Result (Unit {0})) where
  pace-IsStopped :
      (frames calls : ℕ) (s : System Stack Reader)
      → IsStopped frames calls s
      → IsStopped frames calls (pace send s)
  unfolding pace at_loop receive
  pace-IsStopped frames calls s v = elim (pacing_view s.pacing) [
    | is_due sample e ↦ elim (play_view send sample s) [
      | unsent m q ↦ ground (arith, e, q)
      | sends stack m q ↦ ground (arith, e, q)
      | fails stack x m q ↦ ground (arith, e, q)
    ]
    | waits wake e ↦ ground (arith, e)
    | loops next e ↦ ground (arith, e)
    | holds sample e ↦ ground (arith, e)
    | ends e ↦ ground (arith, e)
  ]

  step-IsStopped :
      (frames calls : ℕ) (e : Event) (s : System Stack Reader)
      → revives e ≡ false
      → IsStopped frames calls s
      → IsStopped frames calls (step send e s)
  unfolding step read fetch open_barrier Streamer.pause Streamer.resume Streamer.stop
      Streamer.set_muted
  step-IsStopped frames calls reads s r v = ground arith
  step-IsStopped frames calls paces s r v = pace-IsStopped frames calls s v
  step-IsStopped frames calls opens s r v = ground arith
  step-IsStopped frames calls (fetches x) s r v = ground arith
  step-IsStopped frames calls (passes n) s r v = ground arith
  step-IsStopped frames calls starts s r v = ground arith
  step-IsStopped frames calls pauses s r v = ground arith
  step-IsStopped frames calls resumes s r v = ground arith
  step-IsStopped frames calls stops s r v = ground arith
  step-IsStopped frames calls (mutes b) s r v = ground arith
  step-IsStopped frames calls (sets_on_end f) s r v = ground arith

  -- After a stop, unless the streamer is started again or gets a new callback, at most the one frame is
  -- played that was past the tests of the loop, and the callback is called only if the task had it in
  -- hand already.
  pub stops-silences :
      (l : List Event) (s : System Stack Reader)
      → Every (λ e. revives e ≡ false) l
      → let t = run send l (step send stops s) in
        (length t.played ≤ length s.played + past_tests s.pacing)
        × (length t.ended ≤ length s.ended + on_way s.pacing)
  unfolding step Streamer.stop
  stops-silences l s h =
      let frames = length s.played + past_tests s.pacing in
      let calls = length s.ended + on_way s.pacing in
      let begin : IsStopped frames calls (step send stops s) = ground arith in
      let v =
        run_inv send (IsStopped frames calls) (λ e. revives e ≡ false) (step-IsStopped frames calls)
          l (step send stops s) h begin in
      (omega (arith, v.few_frames), omega (arith, v.few_calls))

  pace-IsOnce : (s : System Stack Reader) → IsOnce s → IsOnce (pace send s)
  unfolding pace at_loop receive
  pace-IsOnce s v = elim (pacing_view s.pacing) [
    | is_due sample e ↦ elim (play_view send sample s) [
      | unsent m q ↦ ground (arith, e, q, v.at_end)
      | sends stack m q ↦ ground (arith, e, q, v.at_end)
      | fails stack x m q ↦ ground (arith, e, q, v.at_end)
    ]
    | waits wake e ↦ ground (arith, e, v.at_end)
    | loops next e ↦ ground (arith, e, v.at_end)
    | holds sample e ↦ ground (arith, e, v.at_end)
    | ends e ↦ ground (arith, e, v.at_end)
  ]

  step-IsOnce : (e : Event) (s : System Stack Reader) → IsOnce s → IsOnce (step send e s)
  unfolding step read fetch open_barrier
  step-IsOnce reads s v = ground (arith, v.at_end)
  step-IsOnce paces s v = pace-IsOnce s v
  step-IsOnce opens s v = ground (arith, v.at_end)
  step-IsOnce (fetches x) s v = ground (arith, v.at_end)
  step-IsOnce (passes n) s v = ground (arith, v.at_end)
  step-IsOnce starts s v = ground (arith, v.at_end)
  step-IsOnce pauses s v = ground (arith, v.at_end)
  step-IsOnce resumes s v = ground (arith, v.at_end)
  step-IsOnce stops s v = ground (arith, v.at_end)
  step-IsOnce (mutes b) s v = ground (arith, v.at_end)
  step-IsOnce (sets_on_end f) s v = ground (arith, v.at_end)

  -- Whatever happens to a new streamer, its completion callback is called at most once, and not before
  -- the pacing task ends.
  pub run-IsOnce :
      (l : List Event) (handle : Streamer Reader) (stack : Stack) (now : ℕ)
      → IsOnce (run send l (spawn handle stack now))
  unfolding spawn
  run-IsOnce l handle stack now =
      run_inv send IsOnce Any (λ e s _. step-IsOnce e s) l (spawn handle stack now) (Every-Any l)
        (record { at_end = λ _. refl; once = omega arith })

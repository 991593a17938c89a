-- ===== src/Streamer/Barrier.antt =====
-- Two streamers behind one barrier, `tokio::sync::Barrier::new(2)`, as a group call makes them.
use rusttgcalls.Prelude.{
  ℕ, Bool, true, false, ◌&&◌, List, [], ◌∷◌, ◌≡◌, refl, arith, if◌then◌else◌, Bool-cases, inl, inr,
}
use rusttgcalls.Models.{Result}
use rusttgcalls.Streamer
use rusttgcalls.Streamer.{OnEnd, Streamer}
use rusttgcalls.Streamer.Tasks.{
  Pacing, waiting, looping, holding, due, finishing, calling, gone, System, Event, reads, paces,
  opens, fetches, passes, starts, pauses, resumes, stops, mutes, sets_on_end, is_over, pace,
  open_barrier, read, fetch, step,
}

-- The streamers of a call that has both.
pub record Pair (Stack Reader : Type 0) : Type 0 where
  pub audio : System Stack Reader
  pub video : System Stack Reader

-- An event of one of them, or the barrier.
pub data PairEvent : Type 0 where
  audio video : Event → PairEvent
  meet : PairEvent

abbrev pub opens_barrier : Event → Bool
opens_barrier opens = true
opens_barrier e = false

abbrev pub is_holding : Pacing → Bool
is_holding (holding sample) = true
is_holding p = false

over-at_barrier : (p : Pacing) → is_over p ≡ true → is_holding p ≡ false
over-at_barrier (waiting wake) h = refl
over-at_barrier (looping next) h = refl
over-at_barrier (holding sample) h = cc
over-at_barrier (due sample) h = refl
over-at_barrier (finishing e) h = refl
over-at_barrier (calling f e) h = refl
over-at_barrier gone h = refl

module _ {Stack Reader : Type 0} where
  -- A task that waits at the barrier.
  abbrev pub at_barrier : System Stack Reader → Bool
  at_barrier s = is_holding s.pacing && (s.first_sample && s.handle.barrier)

  -- What stays while a task waits at the barrier.
  pub record IsStuck (s t : System Stack Reader) : Type 0 where
    pub waits_there : at_barrier t ≡ true
    pub plays_nothing : t.played ≡ s.played
    pub reports_nothing : t.ended ≡ s.ended
    pub not_done : t.handle.done_flag ≡ s.handle.done_flag

module _ {Stack Reader : Type 0} (send : ℕ → List ℕ → ℕ → Stack → Stack × Result (Unit {0})) where
  -- The barrier opens for both when both wait at it, and for none else.
  unfoldable pub pair_step : PairEvent → Pair Stack Reader → Pair Stack Reader
  pair_step (audio e) p = if opens_barrier e then p else record p { audio = step send e p.audio }
  pair_step (video e) p = if opens_barrier e then p else record p { video = step send e p.video }
  pair_step meet p =
      if at_barrier p.audio && at_barrier p.video
      then record { audio = step send opens p.audio; video = step send opens p.video }
      else p

  pub pair_run : List PairEvent → Pair Stack Reader → Pair Stack Reader
  pair_run [] p = p
  pair_run (e ∷ l) p = pair_run l (pair_step e p)

  step-is_over :
      (e : Event) (s : System Stack Reader)
      → is_over s.pacing ≡ true
      → is_over (step send e s).pacing ≡ true
  unfolding step read fetch open_barrier pace
  step-is_over reads s h = ground arith
  step-is_over paces s h = ground arith
  step-is_over opens s h = ground arith
  step-is_over (fetches r) s h = ground arith
  step-is_over (passes n) s h = h
  step-is_over starts s h = h
  step-is_over pauses s h = h
  step-is_over resumes s h = h
  step-is_over stops s h = h
  step-is_over (mutes b) s h = h
  step-is_over (sets_on_end f) s h = h

  step-IsStuck :
      (e : Event) (s t : System Stack Reader)
      → opens_barrier e ≡ false
      → IsStuck s t
      → IsStuck s (step send e t)
  unfolding step read fetch pace Streamer.start Streamer.pause Streamer.resume Streamer.stop
      Streamer.set_muted Streamer.set_on_end
  step-IsStuck reads s t h v = ground arith
  step-IsStuck paces s t h v = ground arith
  step-IsStuck opens s t h v = ground arith
  step-IsStuck (fetches r) s t h v = ground arith
  step-IsStuck (passes n) s t h v = ground arith
  step-IsStuck starts s t h v = ground arith
  step-IsStuck pauses s t h v = ground arith
  step-IsStuck resumes s t h v = ground arith
  step-IsStuck stops s t h v = ground arith
  step-IsStuck (mutes b) s t h v = ground arith
  step-IsStuck (sets_on_end f) s t h v = ground arith

  pair_step-IsStuck :
      (e : PairEvent) (s : System Stack Reader) (p : Pair Stack Reader)
      → is_over p.audio.pacing ≡ true
      → IsStuck s p.video
      → (is_over (pair_step e p).audio.pacing ≡ true) × IsStuck s (pair_step e p).video
  unfolding pair_step
  pair_step-IsStuck (audio e) s p h v = ground (arith, step-is_over e p.audio h, v)
  pair_step-IsStuck (video e) s p h v = elim (Bool-cases (opens_barrier e)) [
    | inl q ↦ ground (arith, q, v)
    | inr q ↦ ground (arith, q, step-IsStuck e s p.video q v)
  ]
  pair_step-IsStuck meet s p h v = ground (arith, over-at_barrier p.audio.pacing h, v)

  blocks :
      (l : List PairEvent) (s : System Stack Reader) (p : Pair Stack Reader)
      → is_over p.audio.pacing ≡ true
      → IsStuck s p.video
      → IsStuck s (pair_run l p).video
  unfolding pair_run
  blocks [] s p h v = v
  blocks (e ∷ l) s p h v =
      let (h', v') = pair_step-IsStuck e s p h v in blocks l s (pair_step e p) h' v'

  -- When the audio of a call has ended while its video waits at their barrier, the video waits there for
  -- ever, whatever happens: it plays nothing more, is never done and never reports its end, not even
  -- when it is stopped.
  pub ended-blocks :
      (l : List PairEvent) (p : Pair Stack Reader)
      → is_over p.audio.pacing ≡ true
      → at_barrier p.video ≡ true
      → IsStuck p.video (pair_run l p).video
  ended-blocks l p h w =
      blocks l p.video p h
        (record { waits_there = w; plays_nothing = refl; reports_nothing = refl; not_done = refl })

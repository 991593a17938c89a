-- ===== src/Streamer/Pace.antt =====
-- Frames are played no faster than they last, and the count of what was sent.
use rusttgcalls.Prelude.{
  ℕ, ◌+◌, ◌%◌, ◌^◌, ◌≤◌, Bool, true, false, List, [], ◌∷◌, Option, ◌≡◌, ◌⊎◌, inl, refl, sym, subst,
  ◌∙◌, arith,
}
use rusttgcalls.Models.{Result}
use rusttgcalls.FrameReader.{Sample}
use rusttgcalls.Streamer
use rusttgcalls.Streamer.{Streamer}
use rusttgcalls.Streamer.Cases.{
  run_inv, Any, Every-Any, waits, loops, holds, is_due, ends, pacing_view, unsent, sends, fails,
  play_view,
}
use rusttgcalls.Streamer.Tasks.{
  Pacing, waiting, looping, due, Played, System, Event, reads, paces, opens, fetches, passes,
  starts, pauses, resumes, stops, mutes, sets_on_end, after_send, at_loop, play, receive, pace,
  open_barrier, read, fetch, step, run, spawn,
}

-- How long frames last together, and when the slot of the first of them began, or `now` if there is none.
pub total : List Played → ℕ
total [] = 0
total (p ∷ l) = p.sample.duration + total l

pub first_slot : List Played → ℕ → ℕ
first_slot [] now = now
first_slot (p ∷ l) now = first_slot l p.slot

-- Each frame is played at or behind its slot, which begins when the frames before it are over, counted
-- from the slot of the first.
pub Paced : List Played → Type 0
Paced [] = Unit {0}
Paced (p ∷ l) = (p.slot ≤ p.time) × (first_slot l p.slot + total l ≤ p.slot) × Paced l

-- A later slot for the next frame does no harm.
first_slot-later :
    (l : List Played) (a b : ℕ)
    → a ≤ b
    → first_slot l a + total l ≤ a
    → first_slot l b + total l ≤ b
unfolding first_slot total
first_slot-later [] a b h k = omega arith
first_slot-later (p ∷ l) a b h k = omega (arith, h, k)

-- The deadline is not before the time at which the pacing task goes on.
abbrev Awaits : Pacing → ℕ → ℕ → Type 0
Awaits (waiting wake) deadline now = (deadline ≤ wake) ⊎ (deadline ≤ now)
Awaits p deadline now = deadline ≤ now

module _ {Stack Reader : Type 0} where
  pub record IsPaced (s : System Stack Reader) : Type 0 where
    pub paced : Paced s.played
    pub ahead : first_slot s.played s.next_deadline + total s.played ≤ s.next_deadline
    pub awaits : Awaits s.pacing s.next_deadline s.now
    pub counted : s.handle.ns_sent ≡ total s.played % 2 ^ 64

  after_send-IsPaced :
      (sample : Sample) (sent : Bool) (s : System Stack Reader)
      → s.pacing ≡ due sample
      → IsPaced s
      → IsPaced (after_send sample sent s)
  unfolding Paced first_slot total
  after_send-IsPaced sample sent s e v =
      let d = s.next_deadline in
      let on : d ≤ s.now = ground (arith, e, v.awaits) in
      let kept : first_slot s.played d + (sample.duration + total s.played) ≤ d + sample.duration =
        omega (arith, v.ahead) in
      record {
        paced = (on, v.ahead, v.paced);
        ahead = ground (arith, kept);
        awaits = ground (arith, kept);
        counted = omega (arith, v.counted);
      }

  receive-IsPaced :
      (wake : ℕ) (s : System Stack Reader)
      → s.pacing ≡ waiting wake
      → IsPaced s
      → IsPaced (receive wake s)
  unfolding receive
  receive-IsPaced wake s e v = ground (arith, e)

  at_loop-IsPaced :
      (next : Option (Result Sample)) (s : System Stack Reader)
      → s.pacing ≡ looping next
      → IsPaced s
      → IsPaced (at_loop next s)
  unfolding at_loop
  at_loop-IsPaced next s e v = ground (arith, e)

  open-IsPaced : (s : System Stack Reader) → IsPaced s → IsPaced (open_barrier s)
  unfolding open_barrier
  open-IsPaced s v = ground (arith, first_slot-later s.played s.next_deadline s.now)

  read-IsPaced : (s : System Stack Reader) → IsPaced s → IsPaced (read s)
  unfolding read
  read-IsPaced s v = ground arith

  fetch-IsPaced : (r : Result Sample) (s : System Stack Reader) → IsPaced s → IsPaced (fetch r s)
  unfolding fetch
  fetch-IsPaced r s v = ground arith

  handle-IsPaced :
      (h : Streamer Reader) (s : System Stack Reader)
      → h.ns_sent ≡ s.handle.ns_sent
      → IsPaced s
      → IsPaced (record s { handle = h })
  handle-IsPaced h s e v = record {
    paced = v.paced;
    ahead = v.ahead;
    awaits = v.awaits;
    counted = e ∙ v.counted;
  }

  passes-IsPaced :
      (n : ℕ) (s : System Stack Reader) → IsPaced s → IsPaced (record s { now = s.now + n })
  passes-IsPaced n s v = ground arith

module _ {Stack Reader : Type 0} (send : ℕ → List ℕ → ℕ → Stack → Stack × Result (Unit {0})) where
  play-IsPaced :
      (sample : Sample) (s : System Stack Reader)
      → s.pacing ≡ due sample
      → IsPaced s
      → IsPaced (play send sample s)
  play-IsPaced sample s e v = elim (play_view send sample s) [
    | unsent m q ↦ subst IsPaced (sym q) (after_send-IsPaced sample false s e v)
    | sends stack m q ↦
        let s' = record s { stack = stack } in
        let v' : IsPaced s' = record {
          paced = v.paced;
          ahead = v.ahead;
          awaits = v.awaits;
          counted = v.counted;
        } in
        subst IsPaced (sym q) (after_send-IsPaced sample true s' e v')
    | fails stack x m q ↦
        let on : s.next_deadline ≤ s.now = ground (arith, e, v.awaits) in
        subst IsPaced (sym q)
          (record { paced = v.paced; ahead = v.ahead; awaits = on; counted = v.counted })
  ]

  pace-IsPaced : (s : System Stack Reader) → IsPaced s → IsPaced (pace send s)
  unfolding pace
  pace-IsPaced s v = elim (pacing_view s.pacing) [
    | waits wake e ↦ ground (arith, e, receive-IsPaced wake s e v)
    | loops next e ↦ ground (arith, e, at_loop-IsPaced next s e v)
    | holds sample e ↦ ground (arith, e, first_slot-later s.played s.next_deadline s.now)
    | is_due sample e ↦ ground (arith, e, play-IsPaced sample s e v)
    | ends e ↦ ground (arith, e)
  ]

  step-IsPaced : (e : Event) (s : System Stack Reader) → IsPaced s → IsPaced (step send e s)
  unfolding step Streamer.start Streamer.pause Streamer.resume Streamer.stop Streamer.set_muted
      Streamer.set_on_end
  step-IsPaced reads s v = read-IsPaced s v
  step-IsPaced paces s v = pace-IsPaced s v
  step-IsPaced opens s v = open-IsPaced s v
  step-IsPaced (fetches r) s v = fetch-IsPaced r s v
  step-IsPaced (passes n) s v = passes-IsPaced n s v
  step-IsPaced starts s v = handle-IsPaced (Streamer.start s.handle) s refl v
  step-IsPaced pauses s v = handle-IsPaced (Streamer.pause s.handle) s refl v
  step-IsPaced resumes s v = handle-IsPaced (Streamer.resume s.handle) s refl v
  step-IsPaced stops s v = handle-IsPaced (Streamer.stop s.handle) s refl v
  step-IsPaced (mutes b) s v = handle-IsPaced (Streamer.set_muted b s.handle) s refl v
  step-IsPaced (sets_on_end f) s v = handle-IsPaced (Streamer.set_on_end f s.handle) s refl v

  -- Whatever happens to a new streamer, each frame is played in its slot or later, which begins no
  -- earlier than the frames before it last, counted from the slot of the first; and `ns_sent` is how
  -- long the frames that were played last, modulo 2 ^ 64.
  pub run-Paced :
      (l : List Event) (handle : Streamer Reader) (stack : Stack) (now : ℕ)
      → handle.ns_sent ≡ 0
      → let s = run send l (spawn handle stack now) in
        Paced s.played × (s.handle.ns_sent ≡ total s.played % 2 ^ 64)
  unfolding spawn Paced first_slot total
  run-Paced l handle stack now none_sent =
      let start = spawn handle stack now in
      let begin : IsPaced start = record {
        paced = tt;
        ahead = omega arith;
        awaits = inl (omega arith);
        counted = none_sent;
      } in
      let v = run_inv send IsPaced Any (λ e s _. step-IsPaced e s) l start (Every-Any l) begin in
      (v.paced, v.counted)

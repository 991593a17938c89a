-- ===== src/Streamer/Order.antt =====
-- The frames go through the channel in order, and none is lost on the way.
use rusttgcalls.Prelude.{
  ◌+◌, ◌≤◌, length, length-append, ℕ, Bool, true, false, List, [], ◌∷◌, ◌++◌, Option, some, ◌≡◌,
  refl, sym, subst, ◌∙◌, ap, arith, append_assoc, append-nil, ◌⊎◌, inl, inr, Bool-cases,
}
use rusttgcalls.Models.{Result, ok}
use rusttgcalls.FrameReader.{Sample}
use rusttgcalls.Streamer
use rusttgcalls.Streamer.{OnEnd, Streamer}
use rusttgcalls.Streamer.Cases.{
  Reading-cases, waits, loops, holds, is_due, ends, pacing_view, run_inv, Any, Every-Any,
}
use rusttgcalls.Streamer.Tasks.{
  after_send, Reading, offering, Pacing, waiting, looping, holding, due, Played, System, Event,
  reads, paces, opens, fetches, passes, starts, pauses, resumes, stops, mutes, sets_on_end,
  capacity, is_over, at_loop, play, receive, pace, open_barrier, read, fetch, step, run, spawn,
}

-- The frames played, the oldest first.
pub frames : List Played → List (Result Sample)
frames [] = []
frames (p ∷ l) = frames l ++ (ok p.sample ∷ [])

-- What the tasks have in hand.
pub held : Pacing → List (Result Sample)
held (looping (some r)) = r ∷ []
held (holding sample) = ok sample ∷ []
held (due sample) = ok sample ∷ []
held p = []

pub offered : Reading → List (Result Sample)
offered (offering r) = r ∷ []
offered r = []

append_behind {ℓ} :
    {A : Type ℓ} (a b c x : List A) → (a ++ (b ++ (c ++ []))) ++ x ≡ a ++ (b ++ (c ++ x))
append_behind a b c x = simp (append_assoc, append-nil)

module _ {Stack Reader : Type 0} where
  pub pending : System Stack Reader → List (Result Sample)
  unfolding held offered
  pending s = held s.pacing ++ (s.channel ++ offered s.reading)

  -- What was played and what is on the way is what was fetched, until the loop is left; what was played is
  -- always the beginning of what was fetched.
  pub record IsOrdered (s : System Stack Reader) : Type 0 where
    pub exact : is_over s.pacing ≡ false → frames s.played ++ pending s ≡ s.fetched
    pub begins : (rest : List (Result Sample)) × (frames s.played ++ rest ≡ s.fetched)

  read-IsOrdered : (s : System Stack Reader) → IsOrdered s → IsOrdered (read s)
  unfolding read pending
  read-IsOrdered s v = elim (Reading-cases s.reading) [
    | inl e ↦ record { exact = ground (arith, e, v.exact); begins = ground (arith, e, v.begins) }
    | inr (inl e) ↦ record {
      exact = ground (arith, e, v.exact);
      begins = ground (arith, e, v.begins);
    }
    | inr (inr (inl e)) ↦ record {
      exact = ground (arith, e, v.exact);
      begins = ground (arith, e, v.begins);
    }
    | inr (inr (inr (q, e))) ↦ record {
      exact = ground (arith, e, v.exact, append_assoc s.channel (q ∷ []) []);
      begins = ground (arith, e, v.begins);
    }
  ]

  fetch-IsOrdered :
      (r : Result Sample) (s : System Stack Reader) → IsOrdered s → IsOrdered (fetch r s)
  unfolding fetch pending
  fetch-IsOrdered r s v = elim (Reading-cases s.reading) [
    | inl e ↦ ground (arith, e, v.exact, v.begins)
    | inr (inl e) ↦
        let s' = record s { reading = offering r; fetched = s.fetched ++ (r ∷ []) } in
        let e' : fetch r s ≡ s' = ground (arith, e) in
        subst IsOrdered (sym e') (record {
          exact = λ h.
              sym (append_behind (frames s.played) (held s.pacing) s.channel (r ∷ []))
              ∙ ap (λ l. l ++ (r ∷ [])) (ground (arith, e, v.exact h));
          begins = (
            v.begins.0 ++ (r ∷ []),
            sym (append_assoc (frames s.played) v.begins.0 (r ∷ []))
                ∙ ap (λ l. l ++ (r ∷ [])) v.begins.1,
          );
        })
    | inr (inr (inl e)) ↦ ground (arith, e)
    | inr (inr (inr (q, e))) ↦ ground (arith, e)
  ]

  -- A frame that is due is played last.
  played-IsOrdered :
      (sample : Sample) (sent : Bool) (s : System Stack Reader)
      → s.pacing ≡ due sample
      → IsOrdered s
      → IsOrdered (after_send sample sent s)
  unfolding pending frames
  played-IsOrdered sample sent s e v =
      let all : frames s.played ++ (ok sample ∷ (s.channel ++ offered s.reading)) ≡ s.fetched =
        ground (arith, e, v.exact) in
      let moved : (frames s.played ++ (ok sample ∷ [])) ++ (s.channel ++ offered s.reading)
          ≡ s.fetched =
        append_assoc (frames s.played) (ok sample ∷ []) (s.channel ++ offered s.reading) ∙ all in
      record { exact = λ _. moved; begins = (s.channel ++ offered s.reading, moved) }

  -- Leaving the loop keeps the beginning.
  over-IsOrdered :
      (s t : System Stack Reader)
      → is_over t.pacing ≡ true
      → t.played ≡ s.played
      → t.fetched ≡ s.fetched
      → IsOrdered s
      → IsOrdered t
  over-IsOrdered s t over same same' v = record {
    exact = λ h. ground (arith, over, h);
    begins = (v.begins.0, ground (arith, same, same', v.begins.1));
  }

  -- Going on in the loop with the same in hand.
  moved-IsOrdered :
      (s t : System Stack Reader)
      → is_over s.pacing ≡ false
      → t.played ≡ s.played
      → t.fetched ≡ s.fetched
      → pending t ≡ pending s
      → IsOrdered s
      → IsOrdered t
  moved-IsOrdered s t alive same same' on v = record {
    exact = λ _. ground (arith, same, same', on, v.exact alive);
    begins = (v.begins.0, ground (arith, same, same', v.begins.1));
  }

  receive-IsOrdered :
      (wake : ℕ) (s : System Stack Reader)
      → s.pacing ≡ waiting wake
      → IsOrdered s
      → IsOrdered (receive wake s)
  unfolding receive pending
  receive-IsOrdered wake s e v = ground (arith, e, v, moved-IsOrdered s (receive wake s))

  at_loop-IsOrdered :
      (next : Option (Result Sample)) (s : System Stack Reader)
      → s.pacing ≡ looping next
      → IsOrdered s
      → IsOrdered (at_loop next s)
  unfolding at_loop pending
  at_loop-IsOrdered next s e v = ground (arith, e, v)

  open-IsOrdered : (s : System Stack Reader) → IsOrdered s → IsOrdered (open_barrier s)
  unfolding open_barrier pending
  open-IsOrdered s v = record { exact = ground (arith, v.exact); begins = ground (arith, v.begins) }

  -- The handle's operations touch neither the frames nor the tasks.
  handle-IsOrdered :
      (h : Streamer Reader) (now : ℕ) (s : System Stack Reader)
      → IsOrdered s
      → IsOrdered (record s { handle = h; now = now })
  unfolding pending
  handle-IsOrdered h now s v = record { exact = v.exact; begins = v.begins }

module _ {Stack Reader : Type 0} (send : ℕ → List ℕ → ℕ → Stack → Stack × Result (Unit {0})) where
  play-IsOrdered :
      (sample : Sample) (s : System Stack Reader)
      → s.pacing ≡ due sample
      → IsOrdered s
      → IsOrdered (play send sample s)
  unfolding play pending
  play-IsOrdered sample s e v =
      let r = send s.handle.payload_type sample.payload sample.duration s.stack in
      let s' = record s { stack = r.0 } in
      let v' : IsOrdered s' = record { exact = v.exact; begins = v.begins } in
      ground (
        arith,
        e,
        played-IsOrdered sample false s e v,
        played-IsOrdered sample true s' e v',
        over-IsOrdered s (play send sample s),
      )

  pace-IsOrdered : (s : System Stack Reader) → IsOrdered s → IsOrdered (pace send s)
  unfolding pace pending
  pace-IsOrdered s v = elim (pacing_view s.pacing) [
    | waits wake e ↦ ground (arith, e, receive-IsOrdered wake s e v)
    | loops next e ↦ ground (arith, e, at_loop-IsOrdered next s e v)
    | holds sample e ↦ record {
      exact = ground (arith, e, v.exact);
      begins = (v.begins.0, ground (arith, e, v.begins.1));
    }
    | is_due sample e ↦ ground (arith, e, play-IsOrdered sample s e v)
    | ends e ↦
        over-IsOrdered s (pace send s) (ground (arith, e)) (ground (arith, e)) (ground (arith, e)) v
  ]

  step-IsOrdered : (e : Event) (s : System Stack Reader) → IsOrdered s → IsOrdered (step send e s)
  unfolding step
  step-IsOrdered reads s v = read-IsOrdered s v
  step-IsOrdered paces s v = pace-IsOrdered s v
  step-IsOrdered opens s v = open-IsOrdered s v
  step-IsOrdered (fetches r) s v = fetch-IsOrdered r s v
  step-IsOrdered (passes n) s v = handle-IsOrdered s.handle (s.now + n) s v
  step-IsOrdered starts s v = handle-IsOrdered (Streamer.start s.handle) s.now s v
  step-IsOrdered pauses s v = handle-IsOrdered (Streamer.pause s.handle) s.now s v
  step-IsOrdered resumes s v = handle-IsOrdered (Streamer.resume s.handle) s.now s v
  step-IsOrdered stops s v = handle-IsOrdered (Streamer.stop s.handle) s.now s v
  step-IsOrdered (mutes b) s v = handle-IsOrdered (Streamer.set_muted b s.handle) s.now s v
  step-IsOrdered (sets_on_end f) s v = handle-IsOrdered (Streamer.set_on_end f s.handle) s.now s v

  read-bounded :
      (s : System Stack Reader) → length s.channel ≤ capacity → length (read s).channel ≤ capacity
  unfolding read
  read-bounded s h = elim (Reading-cases s.reading) [
    | inl e ↦ ground (arith, e)
    | inr (inl e) ↦ ground (arith, e)
    | inr (inr (inl e)) ↦ ground (arith, e)
    | inr (inr (inr (q, e))) ↦ ground (arith, e, length-append s.channel (q ∷ []))
  ]

  step-bounded :
      (e : Event) (s : System Stack Reader)
      → length s.channel ≤ capacity
      → length (step send e s).channel ≤ capacity
  unfolding step fetch open_barrier pace at_loop play receive
  step-bounded reads s h = read-bounded s h
  step-bounded paces s h = ground arith
  step-bounded opens s h = ground arith
  step-bounded (fetches r) s h = ground arith
  step-bounded (passes n) s h = h
  step-bounded starts s h = h
  step-bounded pauses s h = h
  step-bounded resumes s h = h
  step-bounded stops s h = h
  step-bounded (mutes b) s h = h
  step-bounded (sets_on_end f) s h = h

  spawn-IsOrdered :
      (handle : Streamer Reader) (stack : Stack) (now : ℕ) → IsOrdered (spawn handle stack now)
  unfolding spawn pending frames
  spawn-IsOrdered handle stack now = record { exact = λ _. refl; begins = ([], refl) }

  -- Whatever happens to a new streamer and whenever its tasks run, the frames that it has played are the
  -- first of those that it was given, in order and none left out. While its loop goes on, all others
  -- are on the way, of which the channel holds at most 256.
  pub run-in_order :
      (l : List Event) (handle : Streamer Reader) (stack : Stack) (now : ℕ)
      → let s = run send l (spawn handle stack now) in
        ((rest : List (Result Sample)) × (frames s.played ++ rest ≡ s.fetched))
        × ((is_over s.pacing ≡ true) ⊎ (frames s.played ++ pending s ≡ s.fetched))
        × (length s.channel ≤ capacity)
  unfolding spawn
  run-in_order l handle stack now =
      let s = run send l (spawn handle stack now) in
      let start = spawn handle stack now in
      let v =
        run_inv send IsOrdered Any (λ e s _. step-IsOrdered e s) l start (Every-Any l)
          (spawn-IsOrdered handle stack now) in
      (
        v.begins,
        elim (Bool-cases (is_over s.pacing)) [ inl e ↦ inl e | inr e ↦ inr (v.exact e) ],
        run_inv send (λ s. length s.channel ≤ capacity) Any (λ e s _. step-bounded e s) l start
            (Every-Any l) (omega arith),
      )

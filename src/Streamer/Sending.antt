-- ===== src/Streamer/Sending.antt =====
-- What a streamer makes of the transport that it sends on.
use rusttgcalls.Prelude.{
  ℕ, true, false, List, [], ◌∷◌, ◌++◌, some, ◌≡◌, refl, sym, subst, ◌∙◌, arith, if◌then◌else◌, Bool,
  ap, append-nil, append_assoc, ltb, length, Bool-cases, inl, inr,
}
use rusttgcalls.Models.{Error, Result, ok, err, Result-cases}
use rusttgcalls.FrameReader.{Sample}
use rusttgcalls.Streamer
use rusttgcalls.Streamer.{Streamer}
use rusttgcalls.Streamer.Cases.{
  waits, loops, holds, is_due, ends, pacing_view, run_inv, play_view, unsent, sends, fails, Any,
  Every-Any,
}
use rusttgcalls.Streamer.Tasks.{
  finishing, Played, System, Event, reads, paces, opens, fetches, passes, starts, pauses, resumes,
  stops, mutes, sets_on_end, after_send, at_loop, play, receive, pace, open_barrier, read, fetch,
  step, run,
}

-- The frames that were sent, the oldest first, with their durations.
unfoldable pub sent_frames : List Played → List (List ℕ × ℕ)
sent_frames [] = []
sent_frames (p ∷ l) =
    let rest = sent_frames l in
    if p.sent then rest ++ ((p.sample.payload, p.sample.duration) ∷ []) else rest

-- What an event makes of the switch for muting.
abbrev pub muted_by : Event → Bool → Bool
muted_by (mutes b) muted = b
muted_by e muted = muted

-- The frame that a step has played, if it has played one.
abbrev pub new_frame : List Played → List Played → List (List ℕ × ℕ)
new_frame before [] = []
new_frame before (p ∷ l) =
    if ltb (length before) (length (p ∷ l)) then (p.sample.payload, p.sample.duration) ∷ [] else []

new_frame-same : (l : List Played) → new_frame l l ≡ []
new_frame-same [] = refl
new_frame-same (p ∷ l) = ground arith

append_if {ℓ} :
    {A : Type ℓ} (b : Bool) (x y z : List A)
    → (if b then x else x ++ y) ++ z ≡ x ++ (if b then z else y ++ z)
append_if true x y z = refl
append_if false x y z = append_assoc x y z

module _ {Stack Reader : Type 0} (send : ℕ → List ℕ → ℕ → Stack → Stack × Result (Unit {0})) where
  -- The frames that a streamer plays while it is not muted, the oldest first.
  unfoldable pub heard : List Event → Bool → System Stack Reader → List (List ℕ × ℕ)
  heard [] muted s = []
  heard (e ∷ l) muted s =
      let t = step send e s in
      let rest = heard l (muted_by e muted) t in
      if muted then rest else new_frame s.played t.played ++ rest

  -- What a step adds to the frames sent.
  record Adds (muted : Bool) (s t : System Stack Reader) : Type 0 where
    adds : sent_frames t.played ≡ (
        if muted then sent_frames s.played else sent_frames s.played ++ new_frame s.played t.played)

  same-Adds : (muted : Bool) (s t : System Stack Reader) → t.played ≡ s.played → Adds muted s t
  same-Adds muted s t e = record {
    adds = elim (Bool-cases muted) [
      | inl m ↦ ground (arith, m, e)
      | inr m ↦ ground (arith, m, e, new_frame-same s.played, append-nil (sent_frames s.played))
    ];
  }

  play-Adds :
      (sample : Sample) (s : System Stack Reader) → Adds s.handle.muted s (play send sample s)
  unfolding sent_frames
  play-Adds sample s = elim (play_view send sample s) [
    | unsent m q ↦ record { adds = ground (arith, m, q) }
    | sends stack m q ↦ record { adds = ground (arith, m, q) }
    | fails stack x m q ↦
        same-Adds s.handle.muted s (play send sample s)
          (ap (λ (t : System Stack Reader). t.played) q)
  ]

  pace-Adds : (s : System Stack Reader) → Adds s.handle.muted s (pace send s)
  unfolding pace receive at_loop
  pace-Adds s = elim (pacing_view s.pacing) [
    | waits wake e ↦ same-Adds s.handle.muted s (pace send s) (ground (arith, e))
    | loops next e ↦ same-Adds s.handle.muted s (pace send s) (ground (arith, e))
    | holds sample e ↦ same-Adds s.handle.muted s (pace send s) (ground (arith, e))
    | is_due sample e ↦
        let same : pace send s ≡ play send sample s = ground (arith, e) in
        subst (Adds s.handle.muted s) (sym same) (play-Adds sample s)
    | ends e ↦ same-Adds s.handle.muted s (pace send s) (ground (arith, e))
  ]

  step-Adds : (e : Event) (s : System Stack Reader) → Adds s.handle.muted s (step send e s)
  unfolding step read fetch open_barrier Streamer.start Streamer.pause Streamer.resume Streamer.stop
      Streamer.set_muted Streamer.set_on_end
  step-Adds paces s = pace-Adds s
  step-Adds reads s = same-Adds s.handle.muted s (read s) (ground arith)
  step-Adds opens s = same-Adds s.handle.muted s (open_barrier s) (ground arith)
  step-Adds (fetches r) s = same-Adds s.handle.muted s (fetch r s) (ground arith)
  step-Adds (passes n) s = same-Adds s.handle.muted s (step send (passes n) s) refl
  step-Adds starts s = same-Adds s.handle.muted s (step send starts s) refl
  step-Adds pauses s = same-Adds s.handle.muted s (step send pauses s) refl
  step-Adds resumes s = same-Adds s.handle.muted s (step send resumes s) refl
  step-Adds stops s = same-Adds s.handle.muted s (step send stops s) refl
  step-Adds (mutes b) s = same-Adds s.handle.muted s (step send (mutes b) s) refl
  step-Adds (sets_on_end f) s = same-Adds s.handle.muted s (step send (sets_on_end f) s) refl

  step-muted :
      (e : Event) (s : System Stack Reader)
      → (step send e s).handle.muted ≡ muted_by e s.handle.muted
  unfolding step read fetch open_barrier pace play receive at_loop Streamer.start Streamer.pause
      Streamer.resume Streamer.stop Streamer.set_muted Streamer.set_on_end
  step-muted paces s = ground arith
  step-muted reads s = ground arith
  step-muted opens s = ground arith
  step-muted (fetches r) s = ground arith
  step-muted (passes n) s = refl
  step-muted starts s = refl
  step-muted pauses s = refl
  step-muted resumes s = refl
  step-muted stops s = refl
  step-muted (mutes b) s = refl
  step-muted (sets_on_end f) s = refl

  -- The frames sent are those that were played while the streamer was not muted.
  pub run-heard :
      (l : List Event) (s : System Stack Reader)
      → sent_frames (run send l s).played ≡ sent_frames s.played ++ heard l s.handle.muted s
  unfolding run heard
  run-heard [] s = sym (append-nil (sent_frames s.played))
  run-heard (e ∷ l) s =
      let t = step send e s in
      let muted = s.handle.muted in
      run-heard l t
      ∙ ap (λ m. sent_frames t.played ++ heard l m t) (step-muted e s)
      ∙ ap (λ f. f ++ heard l (muted_by e muted) t) (step-Adds e s).adds
      ∙ append_if muted (sent_frames s.played) (new_frame s.played t.played)
          (heard l (muted_by e muted) t)

module _ {Stack : Type 0} (send : ℕ → List ℕ → ℕ → Stack → Stack × Result (Unit {0}))
    (payload_type : ℕ) (P : List (List ℕ × ℕ) → Stack → Type 0) where
  -- What sending a frame keeps of the frames sent so far and the transport.
  pub record Keeps (payload : List ℕ) (duration : ℕ) (l : List (List ℕ × ℕ)) (stack : Stack)
      : Type 0 where
    pub on_ok :
        (send payload_type payload duration stack).1 ≡ ok tt
        → P (l ++ ((payload, duration) ∷ [])) (send payload_type payload duration stack).0
    pub on_err :
        (e : Error)
        → (send payload_type payload duration stack).1 ≡ err e
        → P l (send payload_type payload duration stack).0

module _ {Stack Reader : Type 0} (send : ℕ → List ℕ → ℕ → Stack → Stack × Result (Unit {0}))
    (payload_type : ℕ) (P : List (List ℕ × ℕ) → Stack → Type 0) where
  record IsSent (s : System Stack Reader) : Type 0 where
    type_kept : s.handle.payload_type ≡ payload_type
    sent_so : P (sent_frames s.played) s.stack

  -- A step that touches neither the transport nor the frames.
  same-IsSent :
      (s t : System Stack Reader)
      → t.handle.payload_type ≡ s.handle.payload_type
      → sent_frames t.played ≡ sent_frames s.played
      → t.stack ≡ s.stack
      → IsSent s
      → IsSent t
  same-IsSent s t a b c v = record {
    type_kept = a ∙ v.type_kept;
    sent_so = subst (λ l. P l t.stack) (sym b) (subst (P (sent_frames s.played)) (sym c) v.sent_so);
  }

  module _
      (keeps : (payload : List ℕ) (duration : ℕ) (l : List (List ℕ × ℕ)) (stack : Stack)
        → P l stack
        → Keeps send payload_type P payload duration l stack) where
    play-IsSent :
        (sample : Sample) (s : System Stack Reader) → IsSent s → IsSent (play send sample s)
    unfolding play sent_frames
    play-IsSent sample s v =
        let (stack, r) = send payload_type sample.payload sample.duration s.stack in
        let kept = keeps sample.payload sample.duration (sent_frames s.played) s.stack v.sent_so in
        elim (Bool-cases s.handle.muted) [
          | inl m ↦
              same-IsSent s (play send sample s) (ground (arith, m)) (ground (arith, m))
                (ground (arith, m)) v
          | inr m ↦ elim (Result-cases r) [
            | inl (u, q) ↦
                let t = after_send sample true (record s { stack = stack }) in
                let same : play send sample s ≡ t = ground (arith, m, q, v.type_kept) in
                subst IsSent (sym same) (record { type_kept = v.type_kept; sent_so = kept.on_ok q })
            | inr (e, q) ↦
                let t = record s { stack = stack; pacing = finishing (some e) } in
                let same : play send sample s ≡ t = ground (arith, m, q, v.type_kept) in
                subst IsSent (sym same)
                  (record { type_kept = v.type_kept; sent_so = kept.on_err e q })
          ]
        ]

    pace-IsSent : (s : System Stack Reader) → IsSent s → IsSent (pace send s)
    unfolding pace receive at_loop
    pace-IsSent s v = elim (pacing_view s.pacing) [
      | waits wake e ↦
          same-IsSent s (pace send s) (ground (arith, e)) (ground (arith, e)) (ground (arith, e)) v
      | loops next e ↦
          same-IsSent s (pace send s) (ground (arith, e)) (ground (arith, e)) (ground (arith, e)) v
      | holds sample e ↦
          same-IsSent s (pace send s) (ground (arith, e)) (ground (arith, e)) (ground (arith, e)) v
      | is_due sample e ↦ rw (e, pace) (play-IsSent sample s v)
      | ends e ↦
          same-IsSent s (pace send s) (ground (arith, e)) (ground (arith, e)) (ground (arith, e)) v
    ]

    step-IsSent : (e : Event) (s : System Stack Reader) → IsSent s → IsSent (step send e s)
    unfolding step read fetch open_barrier Streamer.start Streamer.pause Streamer.resume
        Streamer.stop Streamer.set_muted Streamer.set_on_end
    step-IsSent paces s v = pace-IsSent s v
    step-IsSent reads s v = same-IsSent s (read s) (ground arith) (ground arith) (ground arith) v
    step-IsSent opens s v =
        same-IsSent s (open_barrier s) (ground arith) (ground arith) (ground arith) v
    step-IsSent (fetches r) s v =
        same-IsSent s (fetch r s) (ground arith) (ground arith) (ground arith) v
    step-IsSent (passes n) s v = same-IsSent s _ refl refl refl v
    step-IsSent starts s v = same-IsSent s (step send starts s) (ground arith) refl refl v
    step-IsSent pauses s v = same-IsSent s (step send pauses s) (ground arith) refl refl v
    step-IsSent resumes s v = same-IsSent s (step send resumes s) (ground arith) refl refl v
    step-IsSent stops s v = same-IsSent s (step send stops s) (ground arith) refl refl v
    step-IsSent (mutes b) s v = same-IsSent s (step send (mutes b) s) (ground arith) refl refl v
    step-IsSent (sets_on_end f) s v =
        same-IsSent s (step send (sets_on_end f) s) (ground arith) refl refl v

    -- What each send keeps of the frames sent and the transport, a streamer keeps.
    pub run-sent :
        (l : List Event) (s : System Stack Reader)
        → s.handle.payload_type ≡ payload_type
        → P (sent_frames s.played) s.stack
        → P (sent_frames (run send l s).played) (run send l s).stack
    run-sent l s h p =
        (run_inv send IsSent Any (λ e s _. step-IsSent e s) l s (Every-Any l)
          (record { type_kept = h; sent_so = p })).sent_so

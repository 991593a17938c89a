-- ===== src/RtmpCall/Laws.antt =====
-- Seeking in an RTMP call, and what is left of a stopped one.
use rusttgcalls.Prelude.{
  ℕ, ◌+◌, ◌-◌, ◌%◌, ◌^◌, ◌<◌, ◌≤◌, Text, true, false, none, some, if◌then◌else◌, ◌≡◌, ◌⊎◌, inl, inr,
  refl, arith, ◌∙◌, dec_le,
}
use rusttgcalls.Models.{Error, Result, ok, err, ConnState}
use rusttgcalls.Process.{Command}
use rusttgcalls.Source.{Streams}
use rusttgcalls.RtmpCall.{
  RtmpCall, is_negative, elapsed_ms, seek_by, stop, pause, resume, mute, unmute, set_source,
  net_state,
}

module _ {Reader : Type 0} where
  seek_by-target :
      (now d target : ℕ) (c : RtmpCall Reader)
      → c.closed ≡ false
      → (elapsed_ms now c + d) % 2 ^ 64 ≡ target
      → seek_by now d c
        ≡ (if is_negative target then stop c else (record c { resume_ms = target }, ok tt))
  unfolding seek_by
  seek_by-target now d target c is_open e = rw (is_open, e) refl

  seek_kept :
      (now d target : ℕ) (c : RtmpCall Reader)
      → c.closed ≡ false
      → (elapsed_ms now c + d) % 2 ^ 64 ≡ target
      → target < 2 ^ 63
      → seek_by now d c ≡ (record c { resume_ms = target }, ok tt)
  seek_kept now d target c is_open e h =
      let n : is_negative target ≡ false = ground arith in
      seek_by-target now d target c is_open e ∙ rw n refl

  seek_stops :
      (now d target : ℕ) (c : RtmpCall Reader)
      → c.closed ≡ false
      → (elapsed_ms now c + d) % 2 ^ 64 ≡ target
      → 2 ^ 63 ≤ target
      → seek_by now d c ≡ stop c
  seek_stops now d target c is_open e h =
      let n : is_negative target ≡ true = ground arith in
      seek_by-target now d target c is_open e ∙ rw n refl

  -- For an elapsed time and a distance below 2 ^ 63 on an open call: a forward seek sets the offset to
  -- their sum, but stops the call if the sum leaves the `i64`; a seek back, whose distance is the two's
  -- complement, sets the offset to what is left of the elapsed time, but stops the call if it goes
  -- beyond the start.
  pub seek_by_lem :
      (now : ℕ) (d : ℕ) (c : RtmpCall Reader)
      → c.closed ≡ false
      → elapsed_ms now c < 2 ^ 63
      → d < 2 ^ 63
      → ((elapsed_ms now c + d < 2 ^ 63
            × seek_by now d c ≡ (record c { resume_ms = elapsed_ms now c + d }, ok tt))
          ⊎ (2 ^ 63 ≤ elapsed_ms now c + d × seek_by now d c ≡ stop c))
        × ((d ≤ elapsed_ms now c
              × seek_by now ((2 ^ 64 - d) % 2 ^ 64) c
                ≡ (record c { resume_ms = elapsed_ms now c - d }, ok tt))
            ⊎ (elapsed_ms now c < d × seek_by now ((2 ^ 64 - d) % 2 ^ 64) c ≡ stop c))
  unfolding seek_by
  seek_by_lem now d c is_open small d_small = (forward, back)
    where
      e : ℕ
      e = elapsed_ms now c

      forward :
          (e + d < 2 ^ 63 × seek_by now d c ≡ (record c { resume_ms = e + d }, ok tt))
          ⊎ (2 ^ 63 ≤ e + d × seek_by now d c ≡ stop c)
      forward = elim (dec_le (2 ^ 63) (e + d)) [
        | yes h ↦ inr (h, seek_stops now d (e + d) c is_open (omega arith) h)
        | no h ↦ inl (omega arith, seek_kept now d (e + d) c is_open (omega arith) (omega arith))
      ]

      back :
          (d ≤ e × seek_by now ((2 ^ 64 - d) % 2 ^ 64) c ≡ (record c { resume_ms = e - d }, ok tt))
          ⊎ (e < d × seek_by now ((2 ^ 64 - d) % 2 ^ 64) c ≡ stop c)
      back = elim (dec_le d e) [
        | yes h ↦
            inl (
              h,
              seek_kept now ((2 ^ 64 - d) % 2 ^ 64) (e - d) c is_open (omega arith) (omega arith),
            )
        | no h ↦ inr (
          omega arith,
          seek_stops now ((2 ^ 64 - d) % 2 ^ 64) (e + (2 ^ 64 - d)) c is_open (omega arith)
              (omega arith),
        )
      ]

  -- After a seek that sets a new offset on a call that has played since `t`, the call says that it
  -- is the offset and the time since `t` on: the time since `t`, which the offset holds
  -- already, counts twice.
  pub seek_by-elapsed :
      (t : ℕ) (now : ℕ) (d : ℕ) (c : RtmpCall Reader)
      → c.closed ≡ false
      → c.paused ≡ false
      → c.started_at ≡ some t
      → t ≤ now
      → c.resume_ms + (now - t) + (now - t) + d < 2 ^ 63
      → elapsed_ms now (seek_by now d c).0 ≡ elapsed_ms now c + d + (now - t)
  unfolding seek_by elapsed_ms
  seek_by-elapsed t now d c is_open playing started h small = ground arith

  -- A call that is open plays nothing after `stop`, is closed, and refuses every operation but a second
  -- `stop`, which leaves it as it is.
  pub stop_refuses :
      (start : Command → Result Reader) (seconds : ℕ → Text) (now : ℕ) (d : ℕ)
      → (streams : Streams Reader) (c : RtmpCall Reader) → c.closed ≡ false
      → let c' = (stop c).0 in
        (c'.cmd ≡ none)
        × (net_state c' ≡ ConnState.closed)
        × (set_source start seconds now streams c' ≡ (c', err Error.closed))
        × (pause now c' ≡ (c', err Error.closed))
        × (resume start seconds now c' ≡ (c', err Error.closed))
        × (mute c' ≡ (c', err Error.closed))
        × (unmute c' ≡ (c', err Error.closed))
        × (seek_by now d c' ≡ (c', err Error.closed))
        × (stop c' ≡ (c', ok tt))
  unfolding stop set_source pause resume mute unmute seek_by net_state
  stop_refuses start seconds now d streams c is_open = (
    ground arith,
    ground arith,
    ground arith,
    ground arith,
    ground arith,
    ground arith,
    ground arith,
    ground arith,
    ground arith,
  )

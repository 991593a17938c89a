-- ===== src/RtmpCall/Position.antt =====
-- Where an RTMP call goes on after a pause.
use rusttgcalls.Prelude.{ℕ, Text, false, [], ◌∷◌, ◌++◌, ◌≡◌, arith}
use rusttgcalls.Models.{Result}
use rusttgcalls.Process.{Command}
use rusttgcalls.RtmpCall.{RtmpCall, elapsed_ms, pause, resume, ffmpeg_command}
use rusttgcalls.Source.{default_options}

module _ {Reader : Type 0} where
  -- A pause does not record how long the call has played: at any time after it the call says that it
  -- is where it was when the process started.
  pub pause-elapsed :
      (now : ℕ) (later : ℕ) (c : RtmpCall Reader)
      → c.closed ≡ false
      → c.paused ≡ false
      → elapsed_ms later (pause now c).0 ≡ c.resume_ms
  unfolding pause elapsed_ms
  pause-elapsed now later c is_open playing = ground arith

  -- So a call that is paused and resumed starts ffmpeg again at the offset that it held before the pause,
  -- however long it has played since: the time played is not recorded.
  pub resume-pause :
      (start : Command → Result Reader) (seconds : ℕ → Text) (now : ℕ) (later : ℕ)
      → (c : RtmpCall Reader) → c.closed ≡ false
      → c.paused ≡ false
      → (resume start seconds later (pause now c).0).0.tried
        ≡ c.tried ++ (ffmpeg_command start seconds c.resume_ms c default_options ∷ [])
  unfolding pause resume elapsed_ms
  resume-pause start seconds now later c is_open playing = ground arith

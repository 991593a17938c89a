-- ===== src/StackApi.antt =====
-- What a call uses of `Stack` of wrtc/native/stack.rs, and what it relies on.
use rusttgcalls.Prelude.{ℕ, Text, ◌≡◌}
use rusttgcalls.Models.{Result, ConnState}

-- The transport behind a call. `connect` and `close` also run the state callback, with `Connected`
-- after a connection and with `Closed`.
pub record StackApi : Type 1 where
  pub Stack : Type 0
  pub state : Stack → ConnState
  pub audio_ssrc : Stack → ℕ
  pub get_local_params_json : Stack → Result Text
  pub connect : Text → Stack → Stack × Result (Unit {0})
  pub reset_media_track_state : Stack → Stack
  pub close : Stack → Stack
  pub state-reset : (s : Stack) → state (reset_media_track_state s) ≡ state s
  pub state-close : (s : Stack) → state (close s) ≡ ConnState.closed

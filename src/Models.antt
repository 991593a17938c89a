-- ===== src/Models.antt =====
-- models/errors.rs, models/media_state.rs, models/media_description.rs.
use rusttgcalls.Prelude.{
  ℕ, Text, Bool, true, false, lit, text_eq, Option, some, none, if◌then◌else◌, ◌++◌, ◌≡◌, ◌⊎◌, inl,
  inr, refl,
}

-- `RustTgCallsError`.
pub data Error : Type 0 where
  connection_exists connection_not_found connection_failed unsupported_call_mode : Error
  file closed not_connected wrong_mode no_source seek_unsupported : Error
  invalid_params ffmpeg_spawn ffmpeg_crashed webrtc internal : Text → Error

-- The `Display` that the `#[error]` attributes derive.
unfoldable pub display : Error → Text
display connection_exists = lit "rusttgcalls: call already exists for chat"
display connection_not_found = lit "rusttgcalls: no call for chat"
display connection_failed = lit "rusttgcalls: ICE failed permanently"
display (invalid_params s) = lit "rusttgcalls: malformed telegram params: " ++ s
display unsupported_call_mode = lit "rusttgcalls: call mode not supported"
display (ffmpeg_spawn s) = lit "rusttgcalls: ffmpeg failed to start: " ++ s
display (ffmpeg_crashed s) = lit "rusttgcalls: ffmpeg exited non-zero: " ++ s
display (webrtc s) = lit "rusttgcalls: webrtc error: " ++ s
display file = lit "rusttgcalls: input file unreadable"
display closed = lit "rusttgcalls: client closed"
display (internal s) = lit "rusttgcalls: internal error: " ++ s
display not_connected = lit "rusttgcalls: call not connected"
display wrong_mode = lit "rusttgcalls: operation not valid for call mode"
display no_source = lit "rusttgcalls: no source currently playing"
display seek_unsupported = lit "rusttgcalls: source is not seekable"

-- `Result<A, RustTgCallsError>`.
pub data Result {ℓ} (A : Type ℓ) : Type ℓ where
  err : Error → Result A
  ok : A → Result A

pub Result-cases {ℓ} :
    {A : Type ℓ} (r : Result A) → ((a : A) × (r ≡ ok a)) ⊎ ((e : Error) × (r ≡ err e))
Result-cases (ok a) = inl (a, refl)
Result-cases (err e) = inr (e, refl)

-- `Device` and `StreamType`.
pub data Device : Type 0 where
  microphone camera : Device

pub data StreamType : Type 0 where
  audio video : StreamType

-- The `Display` of both.
unfoldable display_device : Device → Text
display_device microphone = lit "microphone"
display_device camera = lit "camera"

unfoldable display_stream_type : StreamType → Text
display_stream_type audio = lit "audio"
display_stream_type video = lit "video"

abbrev pub opus_payload_type : ℕ
opus_payload_type = 111

abbrev pub vp8_payload_type : ℕ
vp8_payload_type = 100

abbrev pub default_channel_count : ℕ
default_channel_count = 2

abbrev pub opus_sample_rate : ℕ
opus_sample_rate = 48000

abbrev pub opus_frame_duration_ms : ℕ
opus_frame_duration_ms = 20

-- `MediaState`.
pub record MediaState : Type 0 where
  pub muted : Bool
  pub paused : Bool
  pub video_stopped : Bool
  pub presentation_paused : Bool

abbrev bool_eq : Bool → Bool → Bool
bool_eq true b = b
bool_eq false true = false
bool_eq false false = true

-- The derived `==` of `MediaState`.
unfoldable pub media_state_eq : MediaState → MediaState → Bool
media_state_eq s t = elim (bool_eq s.muted t.muted) [
  | false ↦ false
  | true ↦ elim (bool_eq s.paused t.paused) [
    | false ↦ false
    | true ↦ elim (bool_eq s.video_stopped t.video_stopped) [
      | false ↦ false
      | true ↦ bool_eq s.presentation_paused t.presentation_paused
    ]
  ]
]

-- `ConnState`, with the discriminants that `as i32` gives.
pub data ConnState : Type 0 where
  connecting connected disconnected failed closed : ConnState

abbrev pub conn_code : ConnState → ℕ
conn_code connecting = 0
conn_code connected = 1
conn_code disconnected = 2
conn_code failed = 3
conn_code ConnState.closed = 4

unfoldable display_state : ConnState → Text
display_state connecting = lit "connecting"
display_state connected = lit "connected"
display_state disconnected = lit "disconnected"
display_state failed = lit "failed"
display_state ConnState.closed = lit "closed"

-- The state whose text it is.
abbrev state_of : Text → Option ConnState
state_of s =
    if text_eq s (lit "connecting")
    then some connecting
    else if text_eq s (lit "connected")
    then some connected
    else if text_eq s (lit "disconnected")
    then some disconnected
    else if text_eq s (lit "failed")
    then some failed
    else if text_eq s (lit "closed")
    then some ConnState.closed
    else none

-- The texts tell the states apart.
state_of-display_state : (state : ConnState) → state_of (display_state state) ≡ some state
unfolding display_state text_eq lit
state_of-display_state connecting = refl
state_of-display_state connected = refl
state_of-display_state disconnected = refl
state_of-display_state failed = refl
state_of-display_state ConnState.closed = refl

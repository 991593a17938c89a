-- ===== src/RtmpCall.antt =====
-- instances/rtmp_call.rs: a call that pushes to an RTMP address with one ffmpeg process.
use rusttgcalls.Prelude.{
  ℕ, ◌+◌, ◌-◌, ◌*◌, ◌%◌, ◌^◌, Text, Bool, true, false, not, ◌||◌, List, [], ◌∷◌, ◌++◌, Option, none,
  some, if◌then◌else◌, lit, decimal, ltb,
}
use rusttgcalls.Models.{
  Error, Result, ok, err, MediaState, media_state_eq, ConnState, connecting, connected,
}
use rusttgcalls.Process.{Command}
use rusttgcalls.Source.{Streams, EncodeOptions, default_options}
use rusttgcalls.GroupCall.Base.{Event, upgrade, Task}
pub mod Laws
pub mod Position
mod Tests

-- `RTMPCall`, without the chat it is for. `called` are the callbacks run directly, `submitted` the
-- tasks given to the dispatcher, `tried` the commands of the processes that it tried to start, and
-- `closing` the processes that a task of their own closes. Times are milliseconds.
pub record RtmpCall (Reader : Type 0) : Type 0 where
  pub rtmp_url : Text
  pub on_upgrade : Bool
  pub has_dispatcher : Bool
  pub cmd : Option Reader
  pub started_at : Option ℕ
  pub closed : Bool
  pub paused : Bool
  pub muted : Bool
  pub resume_ms : ℕ
  pub called : List Event
  pub submitted : List Task
  pub tried : List Command
  pub closing : List Reader

abbrev millis_flags : (ℕ → Text) → ℕ → List Text
millis_flags seconds seek_ms = if ltb 0 seek_ms then lit "-ss" ∷ seconds seek_ms ∷ [] else []

-- `build_rtmp_args`. `seconds` writes milliseconds as `format!("{:.3}", seek_ms as f64 / 1000.0)`.
unfoldable pub build_rtmp_args : (ℕ → Text) → Text → ℕ → EncodeOptions → Text → List Text
build_rtmp_args seconds input_path seek_ms opt rtmp_url =
    (lit "-hide_banner" ∷ lit "-loglevel" ∷ lit "error" ∷ lit "-nostdin" ∷ lit "-re" ∷ [])
    ++ (millis_flags seconds seek_ms
        ++ (lit "-i"
            ∷ input_path
            ∷ lit "-c:v"
            ∷ lit "libx264"
            ∷ lit "-preset"
            ∷ lit "veryfast"
            ∷ lit "-tune"
            ∷ lit "zerolatency"
            ∷ lit "-b:v"
            ∷ (decimal opt.video_bitrate_kbps ++ lit "k")
            ∷ lit "-r"
            ∷ decimal opt.video_fps
            ∷ lit "-vf"
            ∷ (lit "scale=" ++ (decimal opt.video_width ++ (lit ":" ++ decimal opt.video_height)))
            ∷ lit "-pix_fmt"
            ∷ lit "yuv420p"
            ∷ lit "-g"
            ∷ decimal (opt.video_fps * 2 % 2 ^ 32)
            ∷ lit "-c:a"
            ∷ lit "aac"
            ∷ lit "-b:a"
            ∷ (decimal opt.audio_bitrate_kbps ++ lit "k")
            ∷ lit "-ar"
            ∷ lit "44100"
            ∷ lit "-ac"
            ∷ decimal opt.audio_channels
            ∷ lit "-f"
            ∷ lit "flv"
            ∷ rtmp_url
            ∷ []))

-- An `i64` is its 64 bits.
abbrev pub is_negative : ℕ → Bool
is_negative n = not (ltb n (2 ^ 63))

abbrev add_i64 : ℕ → ℕ → ℕ
add_i64 a b = (a + b) % 2 ^ 64

module _ {Reader : Type 0} where
  unfoldable pub new_with_events : Text → Bool → Bool → RtmpCall Reader
  new_with_events rtmp_url has_dispatcher on_upgrade = record {
    rtmp_url = rtmp_url;
    on_upgrade = on_upgrade;
    has_dispatcher = has_dispatcher;
    cmd = none;
    started_at = none;
    closed = false;
    paused = false;
    muted = false;
    resume_ms = 0;
    called = [];
    submitted = [];
    tried = [];
    closing = [];
  }

  unfoldable pub current_state : RtmpCall Reader → MediaState
  current_state c =
      let silent = c.muted || c.paused in
      record {
        muted = c.muted;
        paused = silent;
        video_stopped = false;
        presentation_paused = silent;
      }

  unfoldable pub fire_upgrade_if_changed : MediaState → RtmpCall Reader → RtmpCall Reader
  unfolding current_state media_state_eq
  fire_upgrade_if_changed prev c =
      let cur = current_state c in
      if media_state_eq prev cur
      then c
      else if not c.on_upgrade
      then c
      else if c.has_dispatcher
      then record c { submitted = c.submitted ++ ((upgrade cur ∷ []) ∷ []) }
      else record c { called = c.called ++ (upgrade cur ∷ []) }

  -- `elapsed_ms` at the time `now`.
  unfoldable pub elapsed_ms : ℕ → RtmpCall Reader → ℕ
  elapsed_ms now c =
      if c.paused
      then c.resume_ms
      else elim c.started_at [ none ↦ 0 | some t ↦ (c.resume_ms + (now - t) % 2 ^ 64) % 2 ^ 64 ]

  unfoldable pub net_state : RtmpCall Reader → ConnState
  net_state c =
      if c.closed then ConnState.closed else elim c.cmd [ none ↦ connecting | some _ ↦ connected ]

  -- `cmd.lock().take()` and the task that closes the process.
  abbrev pub take_cmd : RtmpCall Reader → RtmpCall Reader
  take_cmd c = elim c.cmd [
    | none ↦ c
    | some cmd ↦ record c { cmd = none; closing = c.closing ++ (cmd ∷ []) }
  ]

  unfoldable pub pause : ℕ → RtmpCall Reader → RtmpCall Reader × Result Bool
  unfolding elapsed_ms current_state fire_upgrade_if_changed
  pause now c =
      if c.closed
      then (c, err Error.closed)
      else if c.paused
      then (c, ok false)
      else let c1 = record c { paused = true } in
        let prev = current_state c1 in
        let cur = elapsed_ms now c1 in
        (fire_upgrade_if_changed prev (take_cmd (record c1 { resume_ms = cur })), ok true)

  unfoldable pub mute : RtmpCall Reader → RtmpCall Reader × Result Bool
  unfolding current_state fire_upgrade_if_changed
  mute c =
      if c.closed
      then (c, err Error.closed)
      else if c.muted
      then (c, ok false)
      else let c1 = record c { muted = true } in
        (fire_upgrade_if_changed (current_state c1) c1, ok true)

  unfoldable pub unmute : RtmpCall Reader → RtmpCall Reader × Result Bool
  unfolding current_state fire_upgrade_if_changed
  unmute c =
      if c.closed
      then (c, err Error.closed)
      else if not c.muted
      then (c, ok false)
      else let c1 = record c { muted = false } in
        (fire_upgrade_if_changed (current_state c1) c1, ok true)

  unfoldable pub stop : RtmpCall Reader → RtmpCall Reader × Result (Unit {0})
  stop c = if c.closed then (c, ok tt) else (
    record (take_cmd (record c { closed = true })) { resume_ms = 0; paused = false; muted = false },
    ok tt,
  )

  -- `seek_by` with the bits of an `i64`; a release build wraps the sum.
  unfoldable pub seek_by : ℕ → ℕ → RtmpCall Reader → RtmpCall Reader × Result (Unit {0})
  unfolding elapsed_ms stop
  seek_by now delta_ms c =
      if c.closed
      then (c, err Error.closed)
      else let target = add_i64 (elapsed_ms now c) delta_ms in
        if is_negative target then stop c else (record c { resume_ms = target }, ok tt)

  unfoldable pub create_local_params : RtmpCall Reader → Result Text
  create_local_params c = err Error.wrong_mode

  unfoldable pub connect : Text → RtmpCall Reader → RtmpCall Reader × Result (Unit {0})
  connect remote_json c = (c, err Error.wrong_mode)

  unfoldable pub audio_ssrc : RtmpCall Reader → Result ℕ
  audio_ssrc c = err Error.wrong_mode

-- `start` starts a process.
module _ {Reader : Type 0} (start : Command → Result Reader) (seconds : ℕ → Text) where
  abbrev pub ffmpeg_command : ℕ → RtmpCall Reader → EncodeOptions → Command
  ffmpeg_command seek_ms c opt = record {
    program = lit "ffmpeg";
    args = build_rtmp_args seconds (lit "input.mp4") seek_ms opt c.rtmp_url;
    stream_stderr = false;
  }

  unfoldable pub set_source :
      ℕ → Streams Reader → RtmpCall Reader → RtmpCall Reader × Result (Unit {0})
  unfolding build_rtmp_args
  set_source now streams c =
      if c.closed
      then (c, err Error.closed)
      else let command = ffmpeg_command 0 c default_options in
        let c' = record c { tried = c.tried ++ (command ∷ []) } in
        elim (start command) [
          | err e ↦ (c', err e)
          | ok cmd ↦ (record c' { started_at = some now; cmd = some cmd; resume_ms = 0 }, ok tt)
        ]

  unfoldable pub resume : ℕ → RtmpCall Reader → RtmpCall Reader × Result Bool
  unfolding build_rtmp_args current_state fire_upgrade_if_changed
  resume now c =
      if c.closed
      then (c, err Error.closed)
      else if not c.paused
      then (c, ok false)
      else let c1 = record c { paused = false } in
        let prev = current_state c1 in
        let command = ffmpeg_command c.resume_ms c default_options in
        let c2 = record c1 { tried = c.tried ++ (command ∷ []) } in
        elim (start command) [
          | err e ↦ (c2, err e)
          | ok cmd ↦ (
            fire_upgrade_if_changed prev (record c2 { started_at = some now; cmd = some cmd }),
            ok true,
          )
        ]

-- ===== src/Transcode.antt =====
-- media/transcode.rs: the ffmpeg commands that turn a file or an address into streams.
use rusttgcalls.Prelude.{
  ℕ, ◌*◌, ◌/◌, ◌%◌, ◌^◌, ◌-◌, min, Text, Bool, true, false, ◌||◌, List, [], ◌∷◌, ◌++◌, Option, none,
  some, if◌then◌else◌, lit, decimal, starts_with, contains, ◌==◌, ltb,
}
use rusttgcalls.Models.{
  Result, ok, err, Error, ffmpeg_spawn, seek_unsupported, display, opus_frame_duration_ms,
  opus_sample_rate,
}
use rusttgcalls.Track.{Track, has, track_audio, track_video}
use rusttgcalls.Process.{Command, Io, ◌>>=◌, pure, lift, spawn}
use rusttgcalls.Source.{Streams, EncodeOptions, with_defaults}
pub mod Laws
mod Tests

abbrev kilo : ℕ → Text
kilo n = decimal n ++ lit "k"

abbrev common_flags : List Text
common_flags =
    lit "-hide_banner"
    ∷ lit "-loglevel"
    ∷ lit "error"
    ∷ lit "-nostdin"
    ∷ lit "-fflags"
    ∷ lit "+discardcorrupt+genpts"
    ∷ lit "-err_detect"
    ∷ lit "ignore_err"
    ∷ []

unfoldable pub audio_ff_args : List Text → EncodeOptions → List Text
audio_ff_args input o =
    common_flags
    ++ (input
        ++ (lit "-map"
            ∷ lit "0:a?"
            ∷ lit "-vn"
            ∷ lit "-sn"
            ∷ lit "-dn"
            ∷ lit "-c:a"
            ∷ lit "libopus"
            ∷ lit "-b:a"
            ∷ kilo o.audio_bitrate_kbps
            ∷ lit "-vbr"
            ∷ lit "on"
            ∷ lit "-compression_level"
            ∷ lit "10"
            ∷ lit "-frame_duration"
            ∷ decimal opus_frame_duration_ms
            ∷ lit "-page_duration"
            ∷ decimal (opus_frame_duration_ms * 1000)
            ∷ lit "-application"
            ∷ lit "audio"
            ∷ lit "-mapping_family"
            ∷ lit "0"
            ∷ lit "-ar"
            ∷ decimal opus_sample_rate
            ∷ lit "-ac"
            ∷ decimal o.audio_channels
            ∷ lit "-f"
            ∷ lit "ogg"
            ∷ lit "pipe:1"
            ∷ []))

-- `(kbps as f64 * 1.5) as u32`: exact below 2 ^ 53, cut to a whole number, and held at the largest
-- `u32`.
abbrev pub max_rate : ℕ → ℕ
max_rate kbps = min (kbps * 3 / 2) (2 ^ 32 - 1)

-- `kbps * 2` in `u32`, as a release build wraps it.
abbrev pub buf_size : ℕ → ℕ
buf_size kbps = kbps * 2 % 2 ^ 32

abbrev scale : ℕ → ℕ → Text
scale width height = lit "scale=" ++ (decimal width ++ (lit ":" ++ decimal height))

unfoldable pub video_ff_args : List Text → EncodeOptions → List Text
video_ff_args input o =
    common_flags
    ++ (input
        ++ (lit "-map"
            ∷ lit "0:v?"
            ∷ lit "-an"
            ∷ lit "-sn"
            ∷ lit "-dn"
            ∷ lit "-c:v"
            ∷ lit "libvpx"
            ∷ lit "-b:v"
            ∷ kilo o.video_bitrate_kbps
            ∷ lit "-maxrate"
            ∷ kilo (max_rate o.video_bitrate_kbps)
            ∷ lit "-bufsize"
            ∷ kilo (buf_size o.video_bitrate_kbps)
            ∷ lit "-quality"
            ∷ lit "realtime"
            ∷ lit "-deadline"
            ∷ lit "realtime"
            ∷ lit "-cpu-used"
            ∷ lit "16"
            ∷ lit "-threads"
            ∷ lit "4"
            ∷ lit "-slices"
            ∷ lit "4"
            ∷ lit "-arnr-maxframes"
            ∷ lit "0"
            ∷ lit "-rc_lookahead"
            ∷ lit "0"
            ∷ lit "-lag-in-frames"
            ∷ lit "0"
            ∷ lit "-vf"
            ∷ scale o.video_width o.video_height
            ∷ lit "-r"
            ∷ decimal o.video_fps
            ∷ lit "-g"
            ∷ decimal o.video_fps
            ∷ lit "-keyint_min"
            ∷ decimal o.video_fps
            ∷ lit "-auto-alt-ref"
            ∷ lit "0"
            ∷ lit "-error-resilient"
            ∷ lit "1"
            ∷ lit "-f"
            ∷ lit "ivf"
            ∷ lit "pipe:1"
            ∷ []))

abbrev user_agent : Text
user_agent =
    lit
      "Mozilla/5.0 (X11; Linux x86_64) AppleWebKit/537.36 (KHTML, like Gecko) Chrome/145.0.0.0 Safari/537.36"

unfoldable pub ffmpeg_input_prefix : Text → List Text
ffmpeg_input_prefix input =
    if contains input (lit ".m3u8")
    then lit "-user_agent"
      ∷ user_agent
      ∷ lit "-protocol_whitelist"
      ∷ lit "file,http,https,tcp,tls"
      ∷ lit "-rw_timeout"
      ∷ lit "10000000"
      ∷ lit "-http_persistent"
      ∷ lit "1"
      ∷ lit "-analyzeduration"
      ∷ lit "0"
      ∷ lit "-probesize"
      ∷ lit "32k"
      ∷ []
    else if starts_with input (lit "http://") || starts_with input (lit "https://")
    then lit "-user_agent"
      ∷ user_agent
      ∷ lit "-reconnect"
      ∷ lit "1"
      ∷ lit "-reconnect_at_eof"
      ∷ lit "1"
      ∷ lit "-reconnect_streamed"
      ∷ lit "1"
      ∷ lit "-reconnect_on_network_error"
      ∷ lit "1"
      ∷ lit "-reconnect_on_http_error"
      ∷ lit "4xx,5xx"
      ∷ lit "-reconnect_delay_max"
      ∷ lit "5"
      ∷ lit "-rw_timeout"
      ∷ lit "15000000"
      ∷ lit "-timeout"
      ∷ lit "15000000"
      ∷ lit "-analyzeduration"
      ∷ lit "0"
      ∷ lit "-probesize"
      ∷ lit "128k"
      ∷ []
    else lit "-analyzeduration" ∷ lit "0" ∷ lit "-probesize" ∷ lit "64k" ∷ []

-- A `Duration` is a number of nanoseconds.
abbrev pub Duration : Type 0
Duration = ℕ

abbrev pub as_millis : Duration → ℕ
as_millis d = d / 1_000_000

-- `TranscodeSource`.
pub record TranscodeSource : Type 0 where
  pub path : Text
  pub input_args : List Text
  pub opt : EncodeOptions

-- `map_err(|e| FFmpegSpawn(format!("… ffmpeg: {}", e)))`.
abbrev pub label_error : {A : Type 0} → Text → Io A → Io A
label_error label (tried, ok a) = (tried, ok a)
label_error label (tried, err e) = (tried, err (ffmpeg_spawn (label ++ display e)))

-- The globals of media/source.rs that `open_with` reads: the program and the logging of stderr.
pub record Settings : Type 0 where
  pub ffmpeg : Text
  pub stderr_log : Bool

-- `set_ffmpeg_path`.
unfoldable pub set_ffmpeg_path : Text → Settings → Settings
set_ffmpeg_path [] g = record g { ffmpeg = lit "ffmpeg" }
set_ffmpeg_path (c ∷ path) g = record g { ffmpeg = c ∷ path }

-- `set_stderr_log`.
unfoldable pub set_stderr_log : Bool → Settings → Settings
set_stderr_log on g = record g { stderr_log = on }

-- `start` starts a process, and `seconds` writes a duration as `format!("{:.3}", d.as_secs_f64())`.
module _ {Reader : Type 0} (start : Command → Result Reader) (seconds : Duration → Text) where
  -- A leg that is not asked for is not started.
  pub open_leg : Bool → Text → Command → Io (Option Reader)
  open_leg false label c = pure none
  open_leg true label c = do r ← label_error label (spawn start c); pure (some r)

  unfoldable pub open_with : Settings → TranscodeSource → List Text → Io (Streams Reader)
  unfolding open_leg
  open_with g s input =
      let o = with_defaults s.opt in
      do
        a ← open_leg (has o.tracks track_audio) (lit "audio ffmpeg: ") (record {
          program = g.ffmpeg;
          args = audio_ff_args input o;
          stream_stderr = g.stderr_log;
        })
        v ← open_leg (has o.tracks track_video) (lit "video ffmpeg: ") (record {
          program = g.ffmpeg;
          args = video_ff_args input o;
          stream_stderr = g.stderr_log;
        })
        pure (record { audio = a; video = v })

  -- The seek flags behind the input, if there is anything to skip.
  abbrev pub seek_flags : Duration → List Text
  seek_flags offset = if ltb 0 (as_millis offset) then lit "-ss" ∷ seconds offset ∷ [] else []

  abbrev pub input_at : Text → Duration → List Text
  input_at path offset = ffmpeg_input_prefix path ++ (lit "-i" ∷ path ∷ seek_flags offset)

  -- `open_at`.
  unfoldable pub open_at : Settings → TranscodeSource → Duration → Io (Streams Reader)
  unfolding open_with
  open_at g s offset = elim s.path [
    | [] ↦ lift (err seek_unsupported)
    | c ∷ path ↦ open_with g s (input_at s.path offset)
  ]

  -- `from_file_offset` and `from_url_offset`, which have one text but for their names.
  unfoldable pub from_file_offset : Settings → Text → Duration → EncodeOptions → Io (Streams Reader)
  unfolding open_with
  from_file_offset g path offset opt =
      let s : TranscodeSource = record {
        path = path;
        input_args = input_at path offset;
        opt = opt;
      } in
      open_with g s s.input_args

  -- `from_file` and `from_url`.
  unfoldable pub from_file : Settings → Text → EncodeOptions → Io (Streams Reader)
  unfolding from_file_offset
  from_file g path opt = from_file_offset g path 0 opt

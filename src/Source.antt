-- ===== src/Source.antt =====
-- media/source.rs: streams, encoding options and sources in memory.
use rusttgcalls.Prelude.{ℕ, Text, Bool, List, Option, none, some, ◌==◌, if◌then◌else◌}
use rusttgcalls.Models.{Result, ok, default_channel_count}
use rusttgcalls.Track.{Track, has, union, track_audio, track_video}
pub mod Defaults

-- `Streams`; what a reader is depends on the source. `close` is a callback that no source sets.
pub record Streams (Reader : Type 0) : Type 0 where
  pub audio : Option Reader
  pub video : Option Reader

abbrev pub no_streams : {Reader : Type 0} → Streams Reader
no_streams = record { audio = none; video = none }

-- `EncodeOptions`. The fields are `u32`, `channels` a `u16`, `tracks` a `u8`.
pub record EncodeOptions : Type 0 where
  pub video_bitrate_kbps : ℕ
  pub video_width : ℕ
  pub video_height : ℕ
  pub video_fps : ℕ
  pub audio_bitrate_kbps : ℕ
  pub audio_channels : ℕ
  pub tracks : Track

abbrev pub default_options : EncodeOptions
default_options = record {
  video_bitrate_kbps = 800;
  video_width = 1280;
  video_height = 720;
  video_fps = 30;
  audio_bitrate_kbps = 128;
  audio_channels = default_channel_count;
  tracks = track_audio;
}

unfoldable pub audio_only : EncodeOptions
audio_only = record default_options { tracks = track_audio }

abbrev video_preset : ℕ → ℕ → ℕ → ℕ → EncodeOptions
video_preset width height fps kbps = record default_options {
  video_width = width;
  video_height = height;
  video_fps = fps;
  video_bitrate_kbps = kbps;
  tracks = union track_audio track_video;
}

unfoldable pub video_default : EncodeOptions
video_default = video_preset 854 480 60 1200

unfoldable pub video_60fps : EncodeOptions
unfolding video_default
video_60fps = video_default

unfoldable pub video_fast : EncodeOptions
video_fast = video_preset 640 360 30 800

unfoldable pub video_720p_30fps : EncodeOptions
video_720p_30fps = video_preset 1280 720 30 1500

unfoldable pub video_720p_60fps : EncodeOptions
video_720p_60fps = video_preset 1280 720 60 2500

unfoldable pub video_1080p_60fps : EncodeOptions
video_1080p_60fps = video_preset 1920 1080 60 4000

abbrev pub or_default : ℕ → ℕ → ℕ
or_default n d = if n == 0 then d else n

-- The last two statements of `with_defaults`.
abbrev pub default_tracks : Track → Track
default_tracks t =
    let t' = or_default t track_audio in if has t' track_video then union t' track_audio else t'

unfoldable pub with_defaults : EncodeOptions → EncodeOptions
with_defaults o = record {
  video_bitrate_kbps = or_default o.video_bitrate_kbps 800;
  video_width = or_default o.video_width 1280;
  video_height = or_default o.video_height 720;
  video_fps = or_default o.video_fps 30;
  audio_bitrate_kbps = or_default o.audio_bitrate_kbps 128;
  audio_channels = or_default o.audio_channels default_channel_count;
  tracks = default_tracks o.tracks;
}

-- `RawBytesSource`: bytes in memory, read through a cursor.
pub record RawBytesSource : Type 0 where
  pub audio_data : Option (List ℕ)
  pub video_data : Option (List ℕ)
  pub tracks : Track

-- `from_raw_audio`.
unfoldable pub new_audio : List ℕ → RawBytesSource
new_audio d = record { audio_data = some d; video_data = none; tracks = track_audio }

abbrev track_of {ℓ} : {A : Type ℓ} → Option A → Track → Track → Track
track_of none bit t = t
track_of (some a) bit t = union t bit

unfoldable pub new_media : Option (List ℕ) → Option (List ℕ) → RawBytesSource
new_media audio video = record {
  audio_data = audio;
  video_data = video;
  tracks = track_of video track_video (track_of audio track_audio 0);
}

-- A cursor over the bytes is the bytes that are left.
unfoldable pub open_raw : RawBytesSource → Result (Streams (List ℕ))
open_raw s = ok (record { audio = s.audio_data; video = s.video_data })

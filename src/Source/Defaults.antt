-- ===== src/Source/Defaults.antt =====
-- The defaults of the encoding options.
use rusttgcalls.Prelude.{
  ℕ, ◌<◌, Bool, true, false, ◌==◌, ◌≡◌, ◌⊎◌, inl, inr, Bool-cases, refl, passes, passes-below,
  arith, if◌then◌else◌, Option, none, some, List, ==_iff,
}
use rusttgcalls.Models.{ok}
use rusttgcalls.Track.{Track, has, union, track_audio, track_video}
use rusttgcalls.Source.{
  EncodeOptions, or_default, default_tracks, with_defaults, new_media, open_raw,
}

tracks_table : passes (λ t. default_tracks (default_tracks t) == default_tracks t) 256 ≡ true
unfolding passes has union
tracks_table = refl

video_table :
    passes
      (λ t. if has (default_tracks t) track_video then has (default_tracks t) track_audio else true)
      256
    ≡ true
unfolding passes has union
video_table = refl

default_tracks_idem : (t : Track) → t < 256 → default_tracks (default_tracks t) ≡ default_tracks t
default_tracks_idem t h = (==_iff _ _).0 (passes-below _ 256 t h tracks_table)

video_with_audio :
    (t : Track)
    → t < 256
    → has (default_tracks t) track_video ≡ true
    → has (default_tracks t) track_audio ≡ true
video_with_audio t h v = rw v at (passes-below _ 256 t h video_table)

or_default_idem : (n d : ℕ) → or_default (or_default n d) d ≡ or_default n d
or_default_idem n d = ground arith

-- Filling in the defaults twice is filling them in once.
pub with_defaults_idem :
    (o : EncodeOptions) → o.tracks < 256 → with_defaults (with_defaults o) ≡ with_defaults o
unfolding with_defaults
with_defaults_idem o h k = record {
  video_bitrate_kbps = or_default_idem o.video_bitrate_kbps 800 k;
  video_width = or_default_idem o.video_width 1280 k;
  video_height = or_default_idem o.video_height 720 k;
  video_fps = or_default_idem o.video_fps 30 k;
  audio_bitrate_kbps = or_default_idem o.audio_bitrate_kbps 128 k;
  audio_channels = or_default_idem o.audio_channels 2 k;
  tracks = default_tracks_idem o.tracks h k;
}

-- With the defaults no number is zero, and video comes with audio.
pub with_defaults_lem :
    (o : EncodeOptions)
    → o.tracks < 256
    → let d = with_defaults o in
      (0 < d.video_bitrate_kbps)
      × (0 < d.video_width)
      × (0 < d.video_height)
      × (0 < d.video_fps)
      × (0 < d.audio_bitrate_kbps)
      × (0 < d.audio_channels)
      × ((has d.tracks track_video ≡ false) ⊎ (has d.tracks track_audio ≡ true))
unfolding with_defaults
with_defaults_lem o h = (
  ground arith,
  ground arith,
  ground arith,
  ground arith,
  ground arith,
  ground arith,
  elim (Bool-cases (has (default_tracks o.tracks) track_video)) [
    | inl v ↦ inr (video_with_audio o.tracks h v)
    | inr v ↦ inl v
  ],
)

abbrev is_some : {A : Type 0} → Option A → Bool
is_some none = false
is_some (some a) = true

-- A source in memory provides exactly the streams that its `tracks` name.
pub open_raw-new_media :
    (audio video : Option (List ℕ))
    → let s = new_media audio video in
      (open_raw s ≡ ok (record { audio = audio; video = video }))
      × (has s.tracks track_audio ≡ is_some audio)
      × (has s.tracks track_video ≡ is_some video)
unfolding new_media open_raw has union
open_raw-new_media none none = (refl, refl, refl)
open_raw-new_media none (some v) = (refl, refl, refl)
open_raw-new_media (some a) none = (refl, refl, refl)
open_raw-new_media (some a) (some v) = (refl, refl, refl)

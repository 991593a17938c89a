-- ===== src/Transcode/Laws.antt =====
-- Which processes a transcoding source starts, and what comes of them.
use rusttgcalls.Prelude.{
  Text, Bool, true, false, List, [], ◌∷◌, ◌++◌, Option, none, some, ◌≡◌, ◌≢◌, ◌⊎◌, inl, inr, refl,
  arith, lit,
}
use rusttgcalls.Models.{Result, ok, err, Error, ffmpeg_spawn, seek_unsupported, display}
use rusttgcalls.Track.{has, track_audio, track_video}
use rusttgcalls.Process.{Command}
use rusttgcalls.Source.{Streams, with_defaults}
use rusttgcalls.Transcode.{
  Duration, TranscodeSource, Settings, audio_ff_args, video_ff_args, open_leg, open_with, open_at,
  from_file_offset,
}

abbrev is_some {ℓ} : {A : Type ℓ} → Option A → Bool
is_some none = false
is_some (some a) = true

abbrev pub audio_command : Settings → TranscodeSource → List Text → Command
audio_command g s input = record {
  program = g.ffmpeg;
  args = audio_ff_args input (with_defaults s.opt);
  stream_stderr = g.stderr_log;
}

abbrev pub video_command : Settings → TranscodeSource → List Text → Command
video_command g s input = record {
  program = g.ffmpeg;
  args = video_ff_args input (with_defaults s.opt);
  stream_stderr = g.stderr_log;
}

-- The commands for a choice of tracks, audio first.
abbrev pub commands : Settings → TranscodeSource → List Text → Bool → Bool → List Command
commands g s input true true = audio_command g s input ∷ video_command g s input ∷ []
commands g s input true false = audio_command g s input ∷ []
commands g s input false true = video_command g s input ∷ []
commands g s input false false = []

module _ {Reader : Type 0} (start : Command → Result Reader) (seconds : Duration → Text) where
  abbrev wants_audio : TranscodeSource → Bool
  wants_audio s = has (with_defaults s.opt).tracks track_audio

  abbrev wants_video : TranscodeSource → Bool
  wants_video s = has (with_defaults s.opt).tracks track_video

  -- A source that opens has started one process for each track of its options, audio first, and
  -- has a stream for exactly these tracks.
  pub open_with-streams :
      (g : Settings) (s : TranscodeSource) (input : List Text) (st : Streams Reader)
      → (open_with start seconds g s input).1 ≡ ok st
      → ((open_with start seconds g s input).0
          ≡ commands g s input
              (has (with_defaults s.opt).tracks track_audio)
              (has (with_defaults s.opt).tracks track_video))
        × (is_some st.audio ≡ has (with_defaults s.opt).tracks track_audio)
        × (is_some st.video ≡ has (with_defaults s.opt).tracks track_video)
  unfolding open_with open_leg
  open_with-streams g s input st h = ground arith

  -- If the audio process does not start, the source does not open, the video process is not
  -- tried, and the error names the audio process.
  pub open_with-audio_fails :
      (g : Settings) (s : TranscodeSource) (input : List Text) (e : Error)
      → has (with_defaults s.opt).tracks track_audio ≡ true
      → start (audio_command g s input) ≡ err e
      → open_with start seconds g s input
        ≡ (audio_command g s input ∷ [], err (ffmpeg_spawn (lit "audio ffmpeg: " ++ display e)))
  unfolding open_with open_leg
  open_with-audio_fails g s input e a h = ground arith

  -- Reopening a source at an offset is opening its path there, if it has a path; a source without a
  -- path is refused and starts nothing.
  pub open_at_lem :
      (g : Settings) (s : TranscodeSource) (offset : Duration)
      → ((s.path ≢ [])
          × open_at start seconds g s offset ≡ from_file_offset start seconds g s.path offset s.opt)
        ⊎ ((s.path ≡ []) × open_at start seconds g s offset ≡ ([], err seek_unsupported))
  unfolding open_at from_file_offset
  open_at_lem g s offset = of_path s.path refl
    where
      of_path :
          (path : Text)
          → s.path ≡ path
          → ((s.path ≢ [])
              × open_at start seconds g s offset
                ≡ from_file_offset start seconds g s.path offset s.opt)
            ⊎ ((s.path ≡ []) × open_at start seconds g s offset ≡ ([], err seek_unsupported))
      of_path [] e = inr (e, ground arith)
      of_path (x ∷ xs) e = inl (ground arith, ground arith)

-- ===== src/Shell/Source.antt =====
-- `ShellSource`, `MultiShellSource`, `from_shell` and `from_shells` of media/shell_source.rs.
use rusttgcalls.Prelude.{
  ℕ, Text, Bool, true, false, List, [], ◌∷◌, ◌++◌, Option, none, some, if◌then◌else◌, lit, ◌==◌,
  utf8,
}
use rusttgcalls.Models.{Result, ok, err, Error, ffmpeg_spawn}
use rusttgcalls.Track.{Track, has, union, track_audio, track_video}
use rusttgcalls.Process.{Command, Io, ◌>>=◌, pure, lift, spawn}
use rusttgcalls.Source.{Streams, no_streams}
use rusttgcalls.Transcode.{Duration}
use rusttgcalls.Shell.Tokenize.{tokenize_shell}
use rusttgcalls.Shell.Flags.{ensure_ffmpeg_flags, validate_output_codec}
use rusttgcalls.Shell.Seek.{inject_seek}
pub mod Laws
mod Tests

-- `ShellSource`.
pub record ShellSource : Type 0 where
  pub binary : Text
  pub args : List Text
  pub track : Track

unfoldable pub tracks : ShellSource → Track
tracks s = if s.track == 0 then track_audio else s.track

-- `MultiShellSource`; `parallel` is set by `with_parallel_spawn` and read by nothing.
pub record MultiShellSource : Type 0 where
  pub audio_bin : Text
  pub video_bin : Text
  pub audio_args : List Text
  pub video_args : List Text
  pub parallel : Bool

unfoldable pub with_parallel_spawn : MultiShellSource → MultiShellSource
with_parallel_spawn s = record s { parallel = true }

abbrev pub is_empty {ℓ} : {A : Type ℓ} → List A → Bool
is_empty [] = true
is_empty (a ∷ l) = false

unfoldable pub multi_tracks : MultiShellSource → Track
multi_tracks s =
    let t = if is_empty s.audio_args then 0 else union 0 track_audio in
    if is_empty s.video_args then t else union t track_video

-- The program of a command, `ffmpeg` where none is given.
abbrev pub bin_of : Text → Text
bin_of [] = lit "ffmpeg"
bin_of (c ∷ bin) = c ∷ bin

abbrev pub shell_command : Text → List Text → Command
shell_command bin args = record { program = bin_of bin; args = args; stream_stderr = false }

module _ {Reader : Type 0} (start : Command → Result Reader) (seconds : Duration → Text) where
  -- The one stream of a shell source goes to the audio if it has audio.
  unfoldable pub open_with : ShellSource → List Text → Io (Streams Reader)
  unfolding tracks
  open_with s args = do
    r ← spawn start (shell_command s.binary args)
    pure (
        if has (tracks s) track_audio
        then record no_streams { audio = some r }
        else if has (tracks s) track_video
        then record no_streams { video = some r }
        else no_streams)

  unfoldable pub open_source : ShellSource → Io (Streams Reader)
  unfolding open_with
  open_source s = open_with s s.args

  unfoldable pub open_at : ShellSource → Duration → Io (Streams Reader)
  unfolding open_with
  open_at s offset =
      if offset == 0 then open_with s s.args else open_with s (inject_seek s.args (seconds offset))

  -- One leg of a multi-source: nothing is started for an empty argument list.
  unfoldable pub open_leg : Text → List Text → Io (Option Reader)
  open_leg bin [] = pure none
  open_leg bin (a ∷ args) = do r ← spawn start (shell_command bin (a ∷ args)); pure (some r)

  unfoldable pub open_multi_with : MultiShellSource → List Text → List Text → Io (Streams Reader)
  unfolding open_leg
  open_multi_with s audio_args video_args = do
    a ← open_leg s.audio_bin audio_args
    v ← open_leg s.video_bin video_args
    pure (record { audio = a; video = v })

  unfoldable pub open_multi : MultiShellSource → Io (Streams Reader)
  unfolding open_multi_with
  open_multi s = open_multi_with s s.audio_args s.video_args

  -- A leg without arguments stays without.
  abbrev seek_leg : List Text → Duration → List Text
  seek_leg args offset = if is_empty args then [] else inject_seek args (seconds offset)

  unfoldable pub open_multi_at : MultiShellSource → Duration → Io (Streams Reader)
  unfolding open_multi_with
  open_multi_at s offset =
      if offset == 0
      then open_multi_with s s.audio_args s.video_args
      else open_multi_with s (seek_leg s.audio_args offset) (seek_leg s.video_args offset)

  -- `from_shell` after the tokens are found.
  unfoldable pub from_tokens : List Text → Track → Io (Streams Reader)
  unfolding open_source
  from_tokens [] track = lift (err (ffmpeg_spawn (lit "empty command")))
  from_tokens (binary ∷ args) track = do
    _ ← lift (validate_output_codec args track)
    open_source (record { binary = binary; args = ensure_ffmpeg_flags args track; track = track })

  unfoldable pub from_shell : Text → Track → Io (Streams Reader)
  from_shell cmdline track = from_tokens (tokenize_shell (utf8 cmdline)) track

  -- The program and the arguments of one leg of `from_shells`.
  abbrev pub leg_of : List Text → Track → Result (Text × List Text)
  leg_of [] track = ok ([], [])
  leg_of (binary ∷ args) track = elim (validate_output_codec args track) [
    | ok _ ↦ ok (binary, ensure_ffmpeg_flags args track)
    | err e ↦ err e
  ]

  -- A command that is empty has no tokens.
  unfoldable pub from_shells : Text → Text → Io (Streams Reader)
  unfolding open_multi
  from_shells audio_cmd video_cmd = do
    a ← lift (leg_of (tokenize_shell (utf8 audio_cmd)) track_audio)
    v ← lift (leg_of (tokenize_shell (utf8 video_cmd)) track_video)
    open_multi (record {
      audio_bin = a.0;
      video_bin = v.0;
      audio_args = a.1;
      video_args = v.1;
      parallel = false;
    })

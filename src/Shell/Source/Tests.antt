-- ===== src/Shell/Source/Tests.antt =====
-- A command line that is run.
use rusttgcalls.Prelude.{ℕ, starts_with, List, Text, ◌≡◌, refl, true, [], ◌∷◌, lit, utf8, text_eq}
use rusttgcalls.Models.{Result, ok}
use rusttgcalls.Track.{track_audio, has}
use rusttgcalls.Process.{Command}
use rusttgcalls.Transcode.{Duration}
use rusttgcalls.Shell.Tokenize.{tokenize_shell}
use rusttgcalls.Shell.Flags.{
  ensure_ffmpeg_flags, validate_output_codec, occurs, is_pcm_codec, is_pcm_container,
}
use rusttgcalls.Shell.Flags.Codec.{IsEncoded}
use rusttgcalls.Shell.Source.{shell_command, from_shell, from_tokens, open_source, open_with}
use rusttgcalls.Shell.Source.Laws.{WritesToPipe, from_shell-WritesToPipe, from_shell-IsEncoded}

abbrev works : Command → Result ℕ
works c = ok 7

abbrev seconds : Duration → Text
seconds d = []

abbrev cmdline : Text
cmdline = lit "ffmpeg -i a -c:a libopus -"

abbrev given : List Text
given = lit "-i" ∷ lit "a" ∷ lit "-c:a" ∷ lit "libopus" ∷ lit "-" ∷ []

abbrev no_more : List Command
no_more = []

abbrev started : Command
started = shell_command (lit "ffmpeg") (ensure_ffmpeg_flags given track_audio)

cmdline_tokens : tokenize_shell (utf8 cmdline) ≡ lit "ffmpeg" ∷ given
unfolding tokenize_shell utf8 lit
cmdline_tokens = refl

starts_one : (from_shell works seconds cmdline track_audio).0 ≡ started ∷ []
unfolding from_shell from_tokens open_source open_with tokenize_shell utf8 lit validate_output_codec
    is_pcm_codec is_pcm_container text_eq has starts_with occurs
starts_one = refl

from_shell-WritesToPipe_example : (no_more ≡ []) × WritesToPipe started
from_shell-WritesToPipe_example =
    from_shell-WritesToPipe works seconds cmdline track_audio started no_more starts_one

audio_wanted : has track_audio track_audio ≡ true
unfolding has
audio_wanted = refl

from_shell-IsEncoded_example : IsEncoded (lit "-c:a") (lit "libopus")
from_shell-IsEncoded_example =
    from_shell-IsEncoded works seconds cmdline track_audio started no_more (lit "-i" ∷ lit "a" ∷ [])
      (lit "-c:a") (lit "libopus") (lit "-" ∷ []) (lit "ffmpeg") starts_one audio_wanted
      cmdline_tokens

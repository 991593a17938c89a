-- ===== src/Transcode/Tests.antt =====
-- A source that is opened where processes start.
use rusttgcalls.Prelude.{ℕ, Text, none, some, ◌≡◌, refl, true, false, [], ◌∷◌, lit}
use rusttgcalls.Models.{Result, ok}
use rusttgcalls.Track.{track_audio, has, union}
use rusttgcalls.Process.{Command}
use rusttgcalls.Source.{default_options, with_defaults}
use rusttgcalls.Transcode.{Duration, TranscodeSource, Settings, open_with, open_leg}
use rusttgcalls.Transcode.Laws.{audio_command, open_with-streams}

abbrev works : Command → Result ℕ
works c = ok 7

abbrev seconds : Duration → Text
seconds d = []

abbrev settings : Settings
settings = record { ffmpeg = lit "ffmpeg"; stderr_log = false }

abbrev source : TranscodeSource
source = record { path = 0x61 ∷ []; input_args = []; opt = default_options }

open_with-streams_example :
    ((open_with works seconds settings source []).0 ≡ audio_command settings source [] ∷ [])
    × (true ≡ has (with_defaults default_options).tracks track_audio)
    × (false ≡ has (with_defaults default_options).tracks 2)
unfolding open_with open_leg with_defaults has union
open_with-streams_example =
    open_with-streams works seconds settings source [] (record { audio = some 7; video = none })
      refl

-- ===== src/Shell/Flags/Tests.antt =====
-- Argument lists completed, as a run of the program completes them.
use rusttgcalls.Prelude.{◌≡◌, refl, lit, List, Text, [], ◌∷◌, text_eq}
use rusttgcalls.Track.{track_video, has}
use rusttgcalls.Shell.Flags.{
  ensure_ffmpeg_flags, scan, look, input_inject, output_inject, retain_ne, with_input,
}

abbrev to_ivf : List Text
to_ivf = lit "-re" ∷ lit "-i" ∷ lit "a" ∷ lit "-f" ∷ lit "ivf" ∷ lit "pipe:1" ∷ []

video_flags_added :
    ensure_ffmpeg_flags to_ivf track_video
    ≡ lit "-re"
      ∷ lit "-analyzeduration"
      ∷ lit "0"
      ∷ lit "-probesize"
      ∷ lit "64k"
      ∷ lit "-err_detect"
      ∷ lit "ignore_err"
      ∷ lit "-i"
      ∷ lit "a"
      ∷ lit "-f"
      ∷ lit "ivf"
      ∷ lit "-c:v"
      ∷ lit "libvpx"
      ∷ lit "-deadline"
      ∷ lit "realtime"
      ∷ lit "pipe:1"
      ∷ []
unfolding ensure_ffmpeg_flags scan look input_inject output_inject retain_ne with_input lit text_eq
    has
video_flags_added = refl

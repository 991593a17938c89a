-- ===== src/Shell/Flags.antt =====
-- `ensure_ffmpeg_flags` and `validate_output_codec` of media/shell_source.rs.
use rusttgcalls.Prelude.{
  ℕ, zero, suc, ◌+◌, Text, Bool, true, false, not, ◌&&◌, ◌||◌, List, [], ◌∷◌, ◌++◌, Option, none,
  some, take, drop, if◌then◌else◌, lit, text_eq, starts_with,
}
use rusttgcalls.Models.{Result, ok, err, Error, invalid_params}
use rusttgcalls.Track.{Track, has, track_audio, track_video}
pub mod Scan
pub mod Layout
pub mod Pipe
pub mod Codec
mod Tests

-- What the scan of the arguments has seen.
pub record Seen : Type 0 where
  pub has_analyzeduration : Bool
  pub has_probesize : Bool
  pub has_err_detect : Bool
  pub has_ca : Bool
  pub has_cv : Bool
  pub has_f : Bool
  pub has_pipe : Bool
  pub input_idx : Option ℕ

abbrev pub is_none : Option ℕ → Bool
is_none none = true
is_none (some i) = false

-- One round of the loop: argument `a` at index `i`.
pub look : ℕ → Text → Seen → Seen
look i a s = record {
  has_analyzeduration = s.has_analyzeduration || text_eq a (lit "-analyzeduration");
  has_probesize = s.has_probesize || text_eq a (lit "-probesize");
  has_err_detect = s.has_err_detect || text_eq a (lit "-err_detect");
  has_ca = s.has_ca || (text_eq a (lit "-c:a") || text_eq a (lit "-acodec"));
  has_cv = s.has_cv || (text_eq a (lit "-c:v") || text_eq a (lit "-vcodec"));
  has_f = s.has_f || text_eq a (lit "-f");
  has_pipe = s.has_pipe || (text_eq a (lit "pipe:1") || text_eq a (lit "-"));
  input_idx = if text_eq a (lit "-i") && is_none s.input_idx then some i else s.input_idx;
}

pub scan : ℕ → List Text → Seen → Seen
scan i [] s = s
scan i (a ∷ args) s = scan (i + 1) args (look i a s)

abbrev pub nothing_seen : Seen
nothing_seen = record {
  has_analyzeduration = false;
  has_probesize = false;
  has_err_detect = false;
  has_ca = false;
  has_cv = false;
  has_f = false;
  has_pipe = false;
  input_idx = none;
}

-- `if !seen { v.extend(flags) }`.
abbrev pub unless : Bool → List Text → List Text
unless seen flags = if seen then [] else flags

pub input_inject : Bool → Bool → Bool → List Text
input_inject analyzeduration probesize err_detect =
    unless analyzeduration (lit "-analyzeduration" ∷ lit "0" ∷ [])
    ++ (unless probesize (lit "-probesize" ∷ lit "64k" ∷ [])
        ++ unless err_detect (lit "-err_detect" ∷ lit "ignore_err" ∷ []))

abbrev audio_flags : List Text
audio_flags =
    lit "-application"
    ∷ lit "audio"
    ∷ lit "-frame_duration"
    ∷ lit "20"
    ∷ lit "-page_duration"
    ∷ lit "20000"
    ∷ lit "-mapping_family"
    ∷ lit "0"
    ∷ lit "-ar"
    ∷ lit "48000"
    ∷ lit "-ac"
    ∷ lit "2"
    ∷ []

pub output_inject : Track → Bool → Bool → Bool → List Text
output_inject track ca cv f =
    if has track track_audio
    then unless ca (lit "-c:a" ∷ lit "libopus" ∷ [])
      ++ (audio_flags ++ unless f (lit "-f" ∷ lit "ogg" ∷ []))
    else if has track track_video
    then unless cv (lit "-c:v" ∷ lit "libvpx" ∷ lit "-deadline" ∷ lit "realtime" ∷ [])
      ++ unless f (lit "-f" ∷ lit "ivf" ∷ [])
    else []

-- `out.retain(|x| x != s)`.
pub retain_ne : Text → List Text → List Text
retain_ne s [] = []
retain_ne s (a ∷ args) = let rest = retain_ne s args in if text_eq a s then rest else a ∷ rest

-- The arguments with the input flags before the first `-i`.
pub with_input : Option ℕ → List Text → List Text → List Text
with_input none inject args = args
with_input (some i) inject args = take i args ++ (inject ++ drop i args)

-- The part of `ensure_ffmpeg_flags` after the scan.
pub complete : List Text → Track → Seen → List Text
complete args track s =
    let inject = input_inject s.has_analyzeduration s.has_probesize s.has_err_detect in
    let out = with_input s.input_idx inject args in
    let out = if s.has_pipe then retain_ne (lit "pipe:1") out else out in
    out ++ (output_inject track s.has_ca s.has_cv s.has_f ++ (lit "pipe:1" ∷ []))

unfoldable pub ensure_ffmpeg_flags : List Text → Track → List Text
unfolding complete
ensure_ffmpeg_flags args track = complete args track (scan 0 args nothing_seen)

-- `args.get(i + 1).map(|s| s.as_str()).unwrap_or("")` at the head of what follows.
abbrev pub next_or_empty : List Text → Text
next_or_empty [] = []
next_or_empty (a ∷ args) = a

-- `list.contains(s)`.
unfoldable pub occurs : Text → List Text → Bool
occurs s [] = false
occurs s (a ∷ args) = text_eq a s || occurs s args

abbrev raw_pcm : List Text
raw_pcm =
    lit "s16le"
    ∷ lit "s16be"
    ∷ lit "s24le"
    ∷ lit "s32le"
    ∷ lit "f32le"
    ∷ lit "f64le"
    ∷ lit "u8"
    ∷ lit "alaw"
    ∷ lit "mulaw"
    ∷ []

-- The two tests of the loop, on an argument and the one after it.
unfoldable pub is_pcm_codec : Text → Text → Bool
is_pcm_codec a next =
    (text_eq a (lit "-acodec") || text_eq a (lit "-c:a")) && starts_with next (lit "pcm_")

unfoldable pub is_pcm_container : Text → Text → Bool
is_pcm_container a next = text_eq a (lit "-f") && occurs next raw_pcm

unfoldable pub validate_output_codec : List Text → Track → Result (Unit {0})
validate_output_codec [] track = ok tt
validate_output_codec (a ∷ args) track =
    let next = next_or_empty args in
    let rest = validate_output_codec args track in
    if is_pcm_codec a next && has track track_audio
    then err (
        invalid_params
          (lit "raw PCM codec " ++ (next ++ lit " not supported; expected libopus in OGG")))
    else if is_pcm_container a next && has track track_audio
    then err (
        invalid_params
          (lit "raw PCM container " ++ (next ++ lit " not supported; expected -f ogg")))
    else rest

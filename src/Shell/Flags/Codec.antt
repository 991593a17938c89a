-- ===== src/Shell/Flags/Codec.antt =====
-- What `validate_output_codec` lets through.
use rusttgcalls.Prelude.{
  Text, Bool, ◌&&◌, ◌||◌, lit, text_eq, starts_with, true, false, List, [], ◌∷◌, ◌++◌, ◌≡◌, refl,
  arith,
}
use rusttgcalls.Models.{ok}
use rusttgcalls.Track.{Track, has, track_audio}
use rusttgcalls.Shell.Flags.{is_pcm_codec, is_pcm_container, occurs, validate_output_codec}

-- `-acodec` or `-c:a` with a codec whose name begins with `pcm_`.
abbrev pub asks_raw_codec : Text → Text → Bool
asks_raw_codec option value =
    (text_eq option (lit "-c:a") || text_eq option (lit "-acodec"))
    && starts_with value (lit "pcm_")

-- `-f` with one of nine raw formats.
abbrev pub asks_raw_container : Text → Text → Bool
asks_raw_container option value =
    text_eq option (lit "-f")
    && occurs value (
        lit "s16le"
        ∷ lit "s16be"
        ∷ lit "s24le"
        ∷ lit "s32le"
        ∷ lit "f32le"
        ∷ lit "f64le"
        ∷ lit "u8"
        ∷ lit "alaw"
        ∷ lit "mulaw"
        ∷ [])

-- An option and its value are neither.
abbrev pub IsEncoded : Text → Text → Type 0
IsEncoded option value =
    (asks_raw_codec option value ≡ false) × (asks_raw_container option value ≡ false)

-- With audio, arguments that pass have no `-c:a` or `-acodec` followed by a name that begins with
-- `pcm_`, and no `-f` followed by one of the nine raw formats, wherever they stand.
pub validate_sound :
    (front : List Text) (option value : Text) (rest : List Text) (track : Track)
    → has track track_audio ≡ true
    → validate_output_codec (front ++ (option ∷ value ∷ rest)) track ≡ ok tt
    → IsEncoded option value
unfolding validate_output_codec is_pcm_codec is_pcm_container
validate_sound [] option value rest track a h = ground arith
validate_sound (x ∷ front) option value rest track a h =
    validate_sound front option value rest track a (ground arith)

-- Without audio, all arguments pass.
pub validate-no_audio :
    (args : List Text) (track : Track)
    → has track track_audio ≡ false
    → validate_output_codec args track ≡ ok tt
unfolding validate_output_codec
validate-no_audio [] track h = refl
validate-no_audio (a ∷ args) track h = ground (arith, validate-no_audio args track h)

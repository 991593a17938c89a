-- ===== src/Shell/Flags/Layout.antt =====
-- What `ensure_ffmpeg_flags` makes of an argument list, without indices and flags.
use rusttgcalls.Prelude.{
  ℕ, ◌+◌, Text, Bool, true, false, ◌||◌, List, [], ◌∷◌, ◌++◌, Option, none, some, if◌then◌else◌,
  lit, text_eq, ◌≡◌, refl, sym, ◌∙◌, ap, ap₂, arith, Bool-cases, inl, inr, length,
  take-append_exact, drop-append_exact, append-nil,
}
use rusttgcalls.Track.{Track, has, track_audio, track_video}
use rusttgcalls.Shell.Flags.{
  nothing_seen, input_inject, output_inject, retain_ne, with_input, complete, ensure_ffmpeg_flags,
  occurs,
}
use rusttgcalls.Shell.Flags.Scan.{first_input, scan_lem, occurs_one_of}

abbrev pub Halves : Type 0
Halves = List Text × List Text

abbrev in_front : Text → Halves → Halves
in_front a (p, r) = (a ∷ p, r)

-- The arguments before the first `-i`, and those from it on.
pub split_input : List Text → Halves
split_input [] = ([], [])
split_input (a ∷ args) =
    let rest = split_input args in if text_eq a (lit "-i") then ([], a ∷ args) else in_front a rest

abbrev pub at_input : List Text → Halves → List Text
at_input inject (p, []) = p
at_input inject (p, r ∷ rs) = p ++ (inject ++ (r ∷ rs))

-- The flags, if the arguments have none of the options.
pub if_absent : List Text → List Text → List Text → List Text
if_absent [] flags args = flags
if_absent (o ∷ options) flags args =
    let rest = if_absent options flags args in if occurs o args then [] else rest

-- The input flags that the arguments lack.
abbrev pub missing_input : List Text → List Text
missing_input args =
    if_absent (lit "-analyzeduration" ∷ []) (lit "-analyzeduration" ∷ lit "0" ∷ []) args
    ++ (if_absent (lit "-probesize" ∷ []) (lit "-probesize" ∷ lit "64k" ∷ []) args
        ++ if_absent (lit "-err_detect" ∷ []) (lit "-err_detect" ∷ lit "ignore_err" ∷ []) args)

-- The flags for Opus that are put in whatever there is.
abbrev pub opus_flags : List Text
opus_flags =
    lit "-application"
    ∷ lit "audio"
    ∷ lit "-frame_duration"
    ∷ lit "20"
    ∷ lit "-page_duration"
    ∷ lit "20000"
    ∷ lit "-mapping_family"
    ∷ lit "0"
    ∷ lit "-ar"
    ∷ lit "48000"
    ∷ lit "-ac"
    ∷ lit "2"
    ∷ []

-- The output flags that the arguments lack, for audio, or else for video.
abbrev pub missing_output : List Text → Track → List Text
missing_output args track =
    if has track track_audio
    then if_absent (lit "-c:a" ∷ lit "-acodec" ∷ []) (lit "-c:a" ∷ lit "libopus" ∷ []) args
      ++ (opus_flags ++ if_absent (lit "-f" ∷ []) (lit "-f" ∷ lit "ogg" ∷ []) args)
    else if has track track_video
    then if_absent (lit "-c:v" ∷ lit "-vcodec" ∷ [])
        (lit "-c:v" ∷ lit "libvpx" ∷ lit "-deadline" ∷ lit "realtime" ∷ []) args
      ++ if_absent (lit "-f" ∷ []) (lit "-f" ∷ lit "ivf" ∷ []) args
    else []

input_inject-missing :
    (args : List Text)
    → input_inject
        (occurs (lit "-analyzeduration") args)
        (occurs (lit "-probesize") args)
        (occurs (lit "-err_detect") args)
      ≡ missing_input args
unfolding input_inject if_absent
input_inject-missing args = refl

pub output_inject-missing :
    (args : List Text) (track : Track)
    → output_inject track
        (occurs_one_of (lit "-c:a") (lit "-acodec") args)
        (occurs_one_of (lit "-c:v") (lit "-vcodec") args)
        (occurs (lit "-f") args)
      ≡ missing_output args track
unfolding output_inject if_absent
output_inject-missing args track = ground arith

abbrev index_in : ℕ → Halves → Option ℕ
index_in i (p, []) = none
index_in i (p, r ∷ rs) = some (i + length p)

first_input-some : (i j : ℕ) (args : List Text) → first_input i args (some j) ≡ some j
first_input-some i j [] = refl
first_input-some i j (a ∷ args) = ground (arith, first_input-some (i + 1) j args)

index_in-front : (i : ℕ) (a : Text) (h : Halves) → index_in (i + 1) h ≡ index_in i (in_front a h)
index_in-front i a (p, []) = refl
index_in-front i a (p, r ∷ rs) = ground arith

first_input_lem :
    (i : ℕ) (args : List Text) → first_input i args none ≡ index_in i (split_input args)
unfolding split_input
first_input_lem i [] = refl
first_input_lem i (a ∷ args) = elim (Bool-cases (text_eq a (lit "-i"))) [
  | inl e ↦ rw e (first_input-some (i + 1) i args ∙ ground arith)
  | inr e ↦ rw e (first_input_lem (i + 1) args ∙ index_in-front i a (split_input args))
]

pub split_input-join : (args : List Text) → (split_input args).0 ++ (split_input args).1 ≡ args
unfolding split_input
split_input-join [] = refl
split_input-join (a ∷ args) = ground (arith, split_input-join args)

with_input-index_in :
    (h : Halves) (inject : List Text)
    → with_input (index_in 0 h) inject (h.0 ++ h.1) ≡ at_input inject h
unfolding with_input
with_input-index_in (p, []) inject = append-nil p
with_input-index_in (p, r ∷ rs) inject =
    ap₂ (λ f l. f ++ (inject ++ l)) (take-append_exact (0 + length p) p (r ∷ rs) (omega arith))
      (drop-append_exact (0 + length p) p (r ∷ rs) (omega arith))

with_input_lem :
    (args inject : List Text)
    → with_input (first_input 0 args none) inject args ≡ at_input inject (split_input args)
with_input_lem args inject =
    ap₂ (λ i l. with_input i inject l) (first_input_lem 0 args) (sym (split_input-join args))
    ∙ with_input-index_in (split_input args) inject

pub retain_ne-append :
    (s : Text) (xs ys : List Text) → retain_ne s (xs ++ ys) ≡ retain_ne s xs ++ retain_ne s ys
unfolding retain_ne
retain_ne-append s [] ys = refl
retain_ne-append s (x ∷ xs) ys = ground (arith, retain_ne-append s xs ys)

-- Nothing is removed where nothing is found.
retain_ne-absent : (s : Text) (xs : List Text) → occurs s xs ≡ false → retain_ne s xs ≡ xs
unfolding retain_ne occurs
retain_ne-absent s [] h = refl
retain_ne-absent s (x ∷ xs) h = ground (arith, retain_ne-absent s xs)

abbrev pub pipe : Text
pipe = lit "pipe:1"

retain_ne-input_inject : (a b c : Bool) → occurs pipe (input_inject a b c) ≡ false
unfolding input_inject occurs lit text_eq
retain_ne-input_inject true true true = refl
retain_ne-input_inject true true false = refl
retain_ne-input_inject true false true = refl
retain_ne-input_inject true false false = refl
retain_ne-input_inject false true true = refl
retain_ne-input_inject false true false = refl
retain_ne-input_inject false false true = refl
retain_ne-input_inject false false false = refl

pub occurs-append :
    (s : Text) (xs ys : List Text) → occurs s (xs ++ ys) ≡ (occurs s xs || occurs s ys)
unfolding occurs
occurs-append s [] ys = refl
occurs-append s (x ∷ xs) ys = ground (arith, occurs-append s xs ys)

no_pipe_in :
    (inject : List Text) (h : Halves)
    → occurs pipe inject ≡ false
    → occurs pipe (h.0 ++ h.1) ≡ false
    → occurs pipe (at_input inject h) ≡ false
no_pipe_in inject (p, []) e h = rw append-nil at h
no_pipe_in inject (p, r ∷ rs) e h = ground (
  arith,
  occurs-append pipe p (r ∷ rs),
  occurs-append pipe p (inject ++ (r ∷ rs)),
  occurs-append pipe inject (r ∷ rs),
)

-- Removing every `pipe:1` is what the code does whether or not it has seen one.
always_retained :
    (args : List Text) (seen : Bool)
    → (occurs pipe args || seen) ≡ false
    → let out = at_input (missing_input args) (split_input args) in out ≡ retain_ne pipe out
always_retained args seen h = sym (
    retain_ne-absent pipe _ (
      no_pipe_in (missing_input args) (split_input args)
        (ap (occurs pipe) (sym (input_inject-missing args))
          ∙ retain_ne-input_inject (occurs (lit "-analyzeduration") args)
              (occurs (lit "-probesize") args) (occurs (lit "-err_detect") args))
        (ap (occurs pipe) (split_input-join args) ∙ ground arith)))

retained :
    (args : List Text) (has_pipe : Bool)
    → has_pipe ≡ occurs_one_of pipe (lit "-") args
    → (out : List Text) → out ≡ at_input (missing_input args) (split_input args)
    → (if has_pipe then retain_ne pipe out else out)
      ≡ retain_ne pipe (at_input (missing_input args) (split_input args))
retained args true h out e = ap (retain_ne pipe) e
retained args false h out e = e ∙ always_retained args (occurs (lit "-") args) (sym h)

pub ensure_ffmpeg_flags_lem :
    (args : List Text) (track : Track)
    → ensure_ffmpeg_flags args track
      ≡ retain_ne pipe (at_input (missing_input args) (split_input args))
        ++ (missing_output args track ++ (pipe ∷ []))
unfolding ensure_ffmpeg_flags complete
ensure_ffmpeg_flags_lem args track =
    ap (complete args track) (scan_lem 0 args nothing_seen)
    ∙ ap₂
        (λ i o.
          (if occurs_one_of pipe (lit "-") args
            then retain_ne pipe (with_input (first_input 0 args none) i args)
            else with_input (first_input 0 args none) i args)
          ++ (o ++ (pipe ∷ [])))
        (input_inject-missing args) (output_inject-missing args track)
    ∙ ap (λ out. out ++ (missing_output args track ++ (pipe ∷ [])))
        (retained args (occurs_one_of pipe (lit "-") args) refl
          (with_input (first_input 0 args none) (missing_input args) args)
          (with_input_lem args (missing_input args)))

-- ===== src/Shell/Flags/Pipe.antt =====
-- Where the output of a completed argument list goes.
use rusttgcalls.Prelude.{
  ℕ, suc, ◌+◌, Text, Bool, true, false, ◌||◌, List, [], ◌∷◌, ◌++◌, if◌then◌else◌, lit, text_eq, ◌≡◌,
  refl, sym, ◌∙◌, ap, arith, Bool-cases, inl, inr, text_eq_sound, text_eq_refl, append_assoc,
  append-nil,
}
use rusttgcalls.Track.{Track}
use rusttgcalls.Shell.Flags.{output_inject, retain_ne, ensure_ffmpeg_flags, occurs}
use rusttgcalls.Shell.Flags.Scan.{occurs_one_of}
use rusttgcalls.Shell.Flags.Layout.{
  Halves, at_input, split_input, split_input-join, missing_input, missing_output,
  output_inject-missing, ensure_ffmpeg_flags_lem, pipe, occurs-append,
}

abbrev pub count : Text → List Text → ℕ
count s [] = 0
count s (a ∷ args) = let rest = count s args in if text_eq a s then suc rest else rest

count-append : (s : Text) (xs ys : List Text) → count s (xs ++ ys) ≡ count s xs + count s ys
count-append s [] ys = omega arith
count-append s (x ∷ xs) ys = ground (arith, count-append s xs ys)

count-retain_ne : (s : Text) (xs : List Text) → count s (retain_ne s xs) ≡ 0
unfolding retain_ne
count-retain_ne s [] = refl
count-retain_ne s (x ∷ xs) = ground (arith, count-retain_ne s xs)

count-output_inject :
    (track : Track) (ca cv f : Bool) → count pipe (output_inject track ca cv f) ≡ 0
unfolding output_inject lit text_eq
count-output_inject track ca cv f = ground arith

-- Every completed argument list ends in `pipe:1`, which stands nowhere else in it.
pub ensure-pipe :
    (args : List Text) (track : Track)
    → (front : List Text) × (ensure_ffmpeg_flags args track ≡ front ++ (pipe ∷ []))
      × (count pipe front ≡ 0)
ensure-pipe args track =
    let kept = retain_ne pipe (at_input (missing_input args) (split_input args)) in
    (
      kept ++ missing_output args track,
      ensure_ffmpeg_flags_lem args track
          ∙ sym (append_assoc kept (missing_output args track) (pipe ∷ [])),
      omega (
        arith,
        count-append pipe kept (missing_output args track),
        count-retain_ne pipe (at_input (missing_input args) (split_input args)),
        ap (count pipe) (output_inject-missing args track),
        count-output_inject track (occurs_one_of (lit "-c:a") (lit "-acodec") args)
            (occurs_one_of (lit "-c:v") (lit "-vcodec") args) (occurs (lit "-f") args),
      ),
    )

dash_is_no_pipe : text_eq pipe (lit "-") ≡ false
unfolding text_eq lit
dash_is_no_pipe = refl

occurs-skip : (s x : Text) (xs : List Text) → text_eq x s ≡ false → occurs s (x ∷ xs) ≡ occurs s xs
unfolding occurs
occurs-skip s x xs e = rw e

dash_stays : (xs : List Text) → occurs (lit "-") (retain_ne pipe xs) ≡ occurs (lit "-") xs
unfolding retain_ne occurs
dash_stays [] = refl
dash_stays (x ∷ xs) = elim (Bool-cases (text_eq x pipe)) [
  | inl e ↦ rw e (
      dash_stays xs
      ∙ sym (
          occurs-skip (lit "-") x xs
            (ap (λ y. text_eq y (lit "-")) (text_eq_sound x pipe e) ∙ dash_is_no_pipe)))
  | inr e ↦ rw e (ap (λ b. text_eq x (lit "-") || b) (dash_stays xs))
]

occurs-at_input :
    (s : Text) (inject : List Text) (h : Halves)
    → occurs s (h.0 ++ h.1) ≡ true
    → occurs s (at_input inject h) ≡ true
occurs-at_input s inject (p, []) e = rw append-nil at e
occurs-at_input s inject (p, r ∷ rs) e = ground (
  arith,
  occurs-append s p (r ∷ rs),
  occurs-append s p (inject ++ (r ∷ rs)),
  occurs-append s inject (r ∷ rs),
)

occurs-left : (s : Text) (xs ys : List Text) → occurs s xs ≡ true → occurs s (xs ++ ys) ≡ true
occurs-left s xs ys e = ground (arith, occurs-append s xs ys)

occurs-right : (s : Text) (xs ys : List Text) → occurs s ys ≡ true → occurs s (xs ++ ys) ≡ true
occurs-right s xs ys e = ground (arith, occurs-append s xs ys)

pipe_last : occurs pipe (pipe ∷ []) ≡ true
unfolding occurs
pipe_last = ground (arith, text_eq_refl pipe)

-- An output written `-` stays in the list, beside `pipe:1` at its end.
pub ensure-keeps_dash :
    (args : List Text) (track : Track)
    → occurs (lit "-") args ≡ true
    → (occurs (lit "-") (ensure_ffmpeg_flags args track) ≡ true)
      × (occurs pipe (ensure_ffmpeg_flags args track) ≡ true)
ensure-keeps_dash args track h = rw (ensure_ffmpeg_flags_lem args track) (
  occurs-left (lit "-") _ _ (
      dash_stays (at_input (missing_input args) (split_input args))
      ∙ occurs-at_input (lit "-") (missing_input args) (split_input args)
          (ap (occurs (lit "-")) (split_input-join args) ∙ h)),
  occurs-right pipe _ _ (occurs-right pipe (missing_output args track) (pipe ∷ []) pipe_last),
)

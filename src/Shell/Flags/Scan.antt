-- ===== src/Shell/Flags/Scan.antt =====
-- The scan of `ensure_ffmpeg_flags` as tests of membership.
use rusttgcalls.Prelude.{
  ℕ, ◌+◌, Text, Bool, false, ◌&&◌, ◌||◌, List, [], ◌∷◌, Option, some, if◌then◌else◌, lit, text_eq,
  ◌≡◌, ◌∙◌, arith,
}
use rusttgcalls.Shell.Flags.{Seen, is_none, look, scan, occurs}

pub or_assoc : (p q r : Bool) → ((p || q) || r) ≡ (p || (q || r))
or_assoc p q r = ground arith

or_shuffle : (s p q r t : Bool) → ((s || (p || q)) || (r || t)) ≡ (s || ((p || r) || (q || t)))
or_shuffle s p q r t = ground arith

abbrev pub occurs_one_of : Text → Text → List Text → Bool
occurs_one_of s t args = occurs s args || occurs t args

abbrev pub first_input : ℕ → List Text → Option ℕ → Option ℕ
first_input i [] seen = seen
first_input i (a ∷ args) seen =
    first_input (i + 1) args (if text_eq a (lit "-i") && is_none seen then some i else seen)

abbrev pub seen_in : ℕ → List Text → Seen → Seen
seen_in i args s = record {
  has_analyzeduration = s.has_analyzeduration || occurs (lit "-analyzeduration") args;
  has_probesize = s.has_probesize || occurs (lit "-probesize") args;
  has_err_detect = s.has_err_detect || occurs (lit "-err_detect") args;
  has_ca = s.has_ca || occurs_one_of (lit "-c:a") (lit "-acodec") args;
  has_cv = s.has_cv || occurs_one_of (lit "-c:v") (lit "-vcodec") args;
  has_f = s.has_f || occurs (lit "-f") args;
  has_pipe = s.has_pipe || occurs_one_of (lit "pipe:1") (lit "-") args;
  input_idx = first_input i args s.input_idx;
}

or_false : (b : Bool) → (b || false) ≡ b
or_false b = ground arith

seen_in-cons :
    (i : ℕ) (a : Text) (args : List Text) (s : Seen)
    → seen_in (i + 1) args (look i a s) ≡ seen_in i (a ∷ args) s
unfolding look occurs
seen_in-cons i a args s k = record {
  has_analyzeduration =
      or_assoc s.has_analyzeduration (text_eq a (lit "-analyzeduration"))
        (occurs (lit "-analyzeduration") args) k;
  has_probesize =
      or_assoc s.has_probesize (text_eq a (lit "-probesize")) (occurs (lit "-probesize") args) k;
  has_err_detect =
      or_assoc s.has_err_detect (text_eq a (lit "-err_detect")) (occurs (lit "-err_detect") args) k;
  has_ca =
      or_shuffle s.has_ca (text_eq a (lit "-c:a")) (text_eq a (lit "-acodec"))
        (occurs (lit "-c:a") args) (occurs (lit "-acodec") args) k;
  has_cv =
      or_shuffle s.has_cv (text_eq a (lit "-c:v")) (text_eq a (lit "-vcodec"))
        (occurs (lit "-c:v") args) (occurs (lit "-vcodec") args) k;
  has_f = or_assoc s.has_f (text_eq a (lit "-f")) (occurs (lit "-f") args) k;
  has_pipe =
      or_shuffle s.has_pipe (text_eq a (lit "pipe:1")) (text_eq a (lit "-"))
        (occurs (lit "pipe:1") args) (occurs (lit "-") args) k;
  input_idx = first_input i (a ∷ args) s.input_idx;
}

pub scan_lem : (i : ℕ) (args : List Text) (s : Seen) → scan i args s ≡ seen_in i args s
unfolding scan occurs
scan_lem i [] s = ground arith
scan_lem i (a ∷ args) s = scan_lem (i + 1) args (look i a s) ∙ seen_in-cons i a args s

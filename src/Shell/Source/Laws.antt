-- ===== src/Shell/Source/Laws.antt =====
-- Which processes the shell sources start.
use rusttgcalls.Prelude.{
  Text, true, List, [], ◌∷◌, ◌++◌, utf8, ◌≡◌, refl, arith, sym, ◌∙◌, ap, ◌⊎◌, inl, inr,
}
use rusttgcalls.Models.{Result, ok, err, Error}
use rusttgcalls.Track.{Track, has, track_audio}
use rusttgcalls.Process.{Command}
use rusttgcalls.Transcode.{Duration}
use rusttgcalls.Shell.Tokenize.{tokenize_shell}
use rusttgcalls.Shell.Flags.{ensure_ffmpeg_flags, validate_output_codec}
use rusttgcalls.Shell.Flags.Layout.{pipe}
use rusttgcalls.Shell.Flags.Codec.{IsEncoded, validate_sound}
use rusttgcalls.Shell.Flags.Pipe.{count, ensure-pipe}
use rusttgcalls.Shell.Source.{shell_command, from_tokens, from_shell}

-- A command that writes its output to `pipe:1` and nowhere else to it.
abbrev pub WritesToPipe : Command → Type 0
WritesToPipe c = (front : List Text) × (c.args ≡ front ++ (pipe ∷ [])) × (count pipe front ≡ 0)

abbrev StartedFor : List Text → Track → Command → Type 0
StartedFor words track c =
    (binary : Text) × (given : List Text) × (words ≡ binary ∷ given)
    × (c ≡ shell_command binary (ensure_ffmpeg_flags given track))
    × (validate_output_codec given track ≡ ok tt)

Unit-cases : (r : Result (Unit {0})) → (r ≡ ok tt) ⊎ ((e : Error) × (r ≡ err e))
Unit-cases (ok tt) = inl refl
Unit-cases (err e) = inr (e, refl)

tails : {x y : Text} {xs ys : List Text} → x ∷ xs ≡ y ∷ ys → xs ≡ ys
tails p = cc

module _ {Reader : Type 0} (start : Command → Result Reader) (seconds : Duration → Text) where
  from_tokens-Started :
      (words : List Text) (track : Track) (c : Command) (more : List Command)
      → (from_tokens start seconds words track).0 ≡ c ∷ more
      → (more ≡ []) × StartedFor words track c
  unfolding from_tokens
  from_tokens-Started [] track c more h = cc
  from_tokens-Started (binary ∷ given) track c more h =
      elim (Unit-cases (validate_output_codec given track)) [
        | inl e ↦ (ground arith, (binary, given, refl, ground arith, e))
        | inr (e, p) ↦ absurd (refused e p)
      ]
    where
      refused : (e : Error) → validate_output_codec given track ≡ err e → ⊥
      refused e p = ground arith

  -- A command line starts at most one process, whose output goes to `pipe:1` and only there.
  pub from_shell-WritesToPipe :
      (cmdline : Text) (track : Track) (c : Command) (more : List Command)
      → (from_shell start seconds cmdline track).0 ≡ c ∷ more
      → (more ≡ []) × WritesToPipe c
  unfolding from_shell
  from_shell-WritesToPipe cmdline track c more h =
      let (alone, started) = from_tokens-Started (tokenize_shell (utf8 cmdline)) track c more h in
      let (front, ends, nowhere_else) = ensure-pipe started.1 track in
      (alone, (front, ap (λ (d : Command). d.args) started.3 ∙ ends, nowhere_else))

  -- With audio, a command line that starts a process has, among its words after the first, no `-c:a` or
  -- `-acodec` followed by a name that begins with `pcm_`, and no `-f` followed by s16le, s16be, s24le,
  -- s32le, f32le, f64le, u8, alaw or mulaw.
  pub from_shell-IsEncoded :
      (cmdline : Text) (track : Track) (c : Command) (more : List Command)
      → (front : List Text) (option value : Text) (rest : List Text) (binary : Text)
      → (from_shell start seconds cmdline track).0 ≡ c ∷ more
      → has track track_audio ≡ true
      → tokenize_shell (utf8 cmdline) ≡ binary ∷ (front ++ (option ∷ value ∷ rest))
      → IsEncoded option value
  unfolding from_shell
  from_shell-IsEncoded cmdline track c more front option value rest binary h a e =
      let (alone, started) = from_tokens-Started (tokenize_shell (utf8 cmdline)) track c more h in
      let same : started.1 ≡ front ++ (option ∷ value ∷ rest) = tails (sym started.2 ∙ e) in
      validate_sound front option value rest track a
        (ap (λ l. validate_output_codec l track) (sym same) ∙ started.4)

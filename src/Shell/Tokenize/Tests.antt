-- ===== src/Shell/Tokenize/Tests.antt =====
-- Command lines of the documentation, tokenized.
use rusttgcalls.Prelude.{◌≡◌, refl, utf8, lit, [], ◌∷◌, Text, arith}
use rusttgcalls.Shell.Tokenize.{tokenize_shell}
use rusttgcalls.Shell.Tokenize.RoundTrip.{quote_all, utf8_all, tokenize_shell-quote_all}

tokens_of_command :
    tokenize_shell (lit "ffmpeg -i \"a b.mp3\"  -f ogg -")
    ≡ lit "ffmpeg" ∷ lit "-i" ∷ lit "a b.mp3" ∷ lit "-f" ∷ lit "ogg" ∷ lit "-" ∷ []
unfolding tokenize_shell lit
tokens_of_command = refl

-- `a "b`, with a blank and a quotation mark.
abbrev awkward : Text
awkward = 0x61 ∷ 0x20 ∷ 0x22 ∷ 0x62 ∷ []

tokenize_shell-quote_all_example :
    tokenize_shell (utf8 (quote_all (awkward ∷ (0xe9 ∷ []) ∷ [])))
    ≡ utf8_all (awkward ∷ (0xe9 ∷ []) ∷ [])
tokenize_shell-quote_all_example =
    tokenize_shell-quote_all (awkward ∷ (0xe9 ∷ []) ∷ []) (ground arith, (ground arith, tt))

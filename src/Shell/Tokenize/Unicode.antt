-- ===== src/Shell/Tokenize/Unicode.antt =====
-- `bytes[i] as char` takes each byte of the command line for a character.
use rusttgcalls.Prelude.{
  ℕ, ◌↔◌, Text, false, ◌||◌, List, [], ◌∷◌, ◌++◌, ◌≡◌, ◌≢◌, refl, sym, ◌∙◌, ap, arith, append_assoc,
  append-nil, IsAscii, utf8, utf8_fixed, utf8-ascii, length, length-utf8,
}
use rusttgcalls.Shell.Tokenize.{is_blank, is_special, plain, tokens_from, tokenize_shell}
use rusttgcalls.Shell.Tokenize.RoundTrip.{tokens_from-plain}

-- No blank, quotation mark or backslash.
abbrev pub IsWord : Text → Type 0
IsWord [] = Unit
IsWord (c ∷ s) = ((is_blank c || is_special c) ≡ false) × IsWord s

tokens_from-word :
    (w : List ℕ) (cur : Text)
    → IsWord w
    → tokens_from w (record { out = []; cur = cur; in_quote = false })
      ≡ tokens_from [] (record { out = []; cur = cur ++ w; in_quote = false })
tokens_from-word [] cur h =
    ap (λ s. tokens_from [] (record { out = []; cur = s; in_quote = false })) (sym (append-nil cur))
tokens_from-word (c ∷ w) cur h =
    tokens_from-plain c w (record { out = []; cur = cur; in_quote = false }) (ground arith)
    ∙ ap (tokens_from w) (plain_word c cur h.0)
    ∙ tokens_from-word w (cur ++ (c ∷ [])) h.1
    ∙ ap (λ s. tokens_from [] (record { out = []; cur = s; in_quote = false }))
        (append_assoc cur (c ∷ []) w)
  where
    plain_word :
        (c : ℕ) (cur : Text)
        → (is_blank c || is_special c) ≡ false
        → plain c (record { out = []; cur = cur; in_quote = false })
          ≡ record { out = []; cur = cur ++ (c ∷ []); in_quote = false }
    plain_word c cur h = ground arith

word_token : (w : List ℕ) → IsWord w → w ≢ [] → tokenize_shell w ≡ w ∷ []
unfolding tokenize_shell
word_token [] h ne = absurd (ne refl)
word_token (c ∷ w) h ne = tokens_from-word (c ∷ w) [] h

utf8-IsWord : (s : Text) → IsWord s → IsWord (utf8 s)
unfolding utf8
utf8-IsWord [] h = tt
utf8-IsWord (c ∷ s) h = ground (arith, utf8-IsWord s)

-- A command line of one word comes out as one argument that equals the word exactly when the word
-- is ASCII: any other word, a file name say, is changed.
pub tokenize_shell-word :
    (w : Text) → IsWord w → w ≢ [] → (tokenize_shell (utf8 w) ≡ w ∷ []) ↔ IsAscii w
tokenize_shell-word w h ne = (changed, kept)
  where
    token : tokenize_shell (utf8 w) ≡ utf8 w ∷ []
    token =
        word_token (utf8 w) (utf8-IsWord w h)
          λ e. ne (empty w (omega (arith, length-utf8 w, ap length e)))
      where
        empty : (w : Text) → length w ≡ 0 → w ≡ []
        empty [] e = refl
        empty (c ∷ w) e = absurd (omega arith)

    changed : tokenize_shell (utf8 w) ≡ w ∷ [] → IsAscii w
    changed e = utf8_fixed w (ap length (injective (sym token ∙ e)))
      where
        injective : utf8 w ∷ [] ≡ w ∷ [] → utf8 w ≡ w
        injective p = cc

    kept : IsAscii w → tokenize_shell (utf8 w) ≡ w ∷ []
    kept a = token ∙ ap (λ s. s ∷ []) (utf8-ascii w a)

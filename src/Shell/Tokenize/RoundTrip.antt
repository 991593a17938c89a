-- ===== src/Shell/Tokenize/RoundTrip.antt =====
-- Quoting and tokenizing: a quoted argument comes back byte by byte.
use rusttgcalls.Prelude.{
  ℕ, Text, true, false, List, [], ◌∷◌, ◌++◌, ◌==◌, if◌then◌else◌, ◌≡◌, ◌≢◌, refl, ◌∙◌, ap, ap₂,
  arith, utf8, length-utf8, length, append_assoc, append-nil, Bool-cases, inl, inr,
}
use rusttgcalls.Shell.Tokenize.{
  Tokenizer, backslash, quote_mark, is_special, push, plain, tokens_from, tokenize_shell,
}

-- A backslash before each quotation mark and each backslash.
pub escape : Text → List ℕ
escape [] = []
escape (c ∷ s) = if is_special c then backslash ∷ c ∷ escape s else c ∷ escape s

pub quote : Text → List ℕ
quote a = quote_mark ∷ (escape a ++ (quote_mark ∷ []))

-- The quoted arguments, each followed by a blank.
pub quote_all : List Text → List ℕ
quote_all [] = []
quote_all (a ∷ args) = quote a ++ (0x20 ∷ quote_all args)

abbrev within : List Text → Text → Tokenizer
within out cur = record { out = out; cur = cur; in_quote = true }

abbrev outside : List Text → Text → Tokenizer
outside out cur = record { out = out; cur = cur; in_quote = false }

-- A character that is no backslash takes one round whatever follows.
pub tokens_from-plain :
    (c : ℕ) (rest : List ℕ) (t : Tokenizer)
    → (c == backslash) ≡ false
    → tokens_from (c ∷ rest) t ≡ tokens_from rest (plain c t)
unfolding tokens_from
tokens_from-plain c [] t e = refl
tokens_from-plain c (d ∷ rest) t e = ground arith

-- An escaped character is taken as it stands.
tokens_from-escaped :
    (c : ℕ) (rest : List ℕ) (t : Tokenizer)
    → is_special c ≡ true
    → tokens_from (backslash ∷ c ∷ rest) t ≡ tokens_from rest (push c t)
unfolding tokens_from
tokens_from-escaped c rest t e = rw (e, tokens_from)

plain-within :
    (c : ℕ) (out : List Text) (cur : Text)
    → is_special c ≡ false
    → plain c (within out cur) ≡ within out (cur ++ (c ∷ []))
plain-within c out cur e = ground arith

-- The inside of a quoted argument, up to the closing mark.
tokens_from-escape :
    (a : Text) (rest : List ℕ) (out : List Text) (cur : Text)
    → tokens_from (escape a ++ (quote_mark ∷ rest)) (within out cur)
      ≡ tokens_from rest (outside out (cur ++ a))
unfolding escape
tokens_from-escape [] rest out cur =
    rw append-nil (tokens_from-plain quote_mark rest (within out cur) refl)
tokens_from-escape (c ∷ a) rest out cur = elim (Bool-cases (is_special c)) [
  | inl e ↦ rw e (
      tokens_from-escaped c (escape a ++ (quote_mark ∷ rest)) (within out cur) e
      ∙ tokens_from-escape a rest out (cur ++ (c ∷ []))
      ∙ ap (λ s. tokens_from rest (outside out s)) (append_assoc cur (c ∷ []) a))
  | inr e ↦ rw e (
      tokens_from-plain c (escape a ++ (quote_mark ∷ rest)) (within out cur) (ground arith)
      ∙ ap (tokens_from (escape a ++ (quote_mark ∷ rest))) (plain-within c out cur e)
      ∙ tokens_from-escape a rest out (cur ++ (c ∷ []))
      ∙ ap (λ s. tokens_from rest (outside out s)) (append_assoc cur (c ∷ []) a))
]

-- No argument is empty: the loop drops an empty one.
abbrev pub NonEmpty : List Text → Type 0
NonEmpty [] = Unit
NonEmpty (a ∷ args) = (a ≢ []) × NonEmpty args

quoted_argument :
    (a : Text) (rest : List ℕ) (out : List Text)
    → a ≢ []
    → tokens_from (quote a ++ (0x20 ∷ rest)) (outside out [])
      ≡ tokens_from rest (outside (out ++ (a ∷ [])) [])
unfolding quote
quoted_argument [] rest out ne = absurd (ne refl)
quoted_argument (c ∷ a) rest out ne =
    tokens_from-plain quote_mark ((escape (c ∷ a) ++ (quote_mark ∷ [])) ++ (0x20 ∷ rest))
      (outside out []) refl
    ∙ ap (λ s. tokens_from s (within out []))
        (append_assoc (escape (c ∷ a)) (quote_mark ∷ []) (0x20 ∷ rest))
    ∙ tokens_from-escape (c ∷ a) (0x20 ∷ rest) out []
    ∙ tokens_from-plain 0x20 rest (outside out (c ∷ a)) refl

quoted_arguments :
    (args : List Text) (out : List Text)
    → NonEmpty args
    → tokens_from (quote_all args) (outside out []) ≡ out ++ args
unfolding quote_all
quoted_arguments [] out h = end_of_input out
  where
    end_of_input : (out : List Text) → tokens_from [] (outside out []) ≡ out ++ []
    end_of_input out = rw append-nil (unfold tokens_from in refl)
quoted_arguments (a ∷ args) out h =
    quoted_argument a (quote_all args) out h.0
    ∙ quoted_arguments args (out ++ (a ∷ [])) h.1
    ∙ append_assoc out (a ∷ []) args

-- The encodings of the arguments.
pub utf8_all : List Text → List Text
utf8_all [] = []
utf8_all (a ∷ args) = utf8 a ∷ utf8_all args

utf8-append : (s t : Text) → utf8 (s ++ t) ≡ utf8 s ++ utf8 t
unfolding utf8
utf8-append [] t = refl
utf8-append (c ∷ s) t = ground (arith, utf8-append s t)

-- A character beyond ASCII has no byte that is a quotation mark or a backslash.
utf8-escape : (s : Text) → utf8 (escape s) ≡ escape (utf8 s)
unfolding utf8 escape
utf8-escape [] = refl
utf8-escape (c ∷ s) = ground (arith, utf8-escape s)

utf8-quote_all : (args : List Text) → utf8 (quote_all args) ≡ quote_all (utf8_all args)
unfolding quote_all utf8_all quote utf8
utf8-quote_all [] = refl
utf8-quote_all (a ∷ args) =
    ap (λ s. quote_mark ∷ s)
      (utf8-append (escape a ++ (quote_mark ∷ [])) (0x20 ∷ quote_all args)
        ∙ ap₂ (λ s t. s ++ (0x20 ∷ t))
            (utf8-append (escape a) (quote_mark ∷ [])
              ∙ ap (λ s. s ++ (quote_mark ∷ [])) (utf8-escape a))
            (utf8-quote_all args))

utf8_all-NonEmpty : (args : List Text) → NonEmpty args → NonEmpty (utf8_all args)
unfolding utf8_all
utf8_all-NonEmpty [] h = tt
utf8_all-NonEmpty (a ∷ args) (ne, h) = (kept a ne, utf8_all-NonEmpty args h)
  where
    kept : (a : Text) → a ≢ [] → utf8 a ≢ []
    kept [] ne e = ne refl
    kept (c ∷ a) ne e = absurd (omega (arith, length-utf8 (c ∷ a), ap length e))

-- Tokenizing the UTF-8 text of a command line of quoted arguments gives the UTF-8 of each argument, byte by
-- byte, whatever quotation marks, backslashes and blanks they hold, if none of them is empty.
pub tokenize_shell-quote_all :
    (args : List Text) → NonEmpty args → tokenize_shell (utf8 (quote_all args)) ≡ utf8_all args
unfolding tokenize_shell
tokenize_shell-quote_all args h =
    ap (λ s. tokens_from s (outside [] [])) (utf8-quote_all args)
    ∙ quoted_arguments (utf8_all args) [] (utf8_all-NonEmpty args h)

-- A quoted empty argument is lost.
pub tokenize_shell-quote_empty :
    (args : List Text)
    → tokenize_shell (quote [] ++ (0x20 ∷ quote_all args)) ≡ tokenize_shell (quote_all args)
unfolding tokenize_shell quote escape
tokenize_shell-quote_empty args = tokens_from-plain 0x20 (quote_all args) (outside [] []) refl

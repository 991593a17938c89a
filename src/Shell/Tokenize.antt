-- ===== src/Shell/Tokenize.antt =====
-- `tokenize_shell` of media/shell_source.rs: a command line to its arguments.
use rusttgcalls.Prelude.{
  ℕ, Text, Bool, true, false, not, ◌&&◌, ◌||◌, List, [], ◌∷◌, ◌++◌, ◌==◌, if◌then◌else◌,
}
pub mod RoundTrip
pub mod Unicode
mod Tests

-- The loop's variables. `out` and `cur` grow at the end.
pub record Tokenizer : Type 0 where
  pub out : List Text
  pub cur : Text
  pub in_quote : Bool

abbrev pub backslash : ℕ
backslash = 0x5c

abbrev pub quote_mark : ℕ
quote_mark = 0x22

abbrev pub is_blank : ℕ → Bool
is_blank c = (c == 0x20) || (c == 0x09) || (c == 0x0a)

abbrev pub is_special : ℕ → Bool
is_special c = (c == quote_mark) || (c == backslash)

-- `if !cur.is_empty() { out.push(cur) }`.
abbrev flushed : List Text → Text → List Text
flushed out [] = out
flushed out (c ∷ s) = out ++ ((c ∷ s) ∷ [])

-- `bytes[i] as char`: the byte is taken for a code point.
abbrev pub push : ℕ → Tokenizer → Tokenizer
push c t = record t { cur = t.cur ++ (c ∷ []) }

-- The `match c` of the loop.
abbrev pub plain : ℕ → Tokenizer → Tokenizer
plain c t =
    if c == quote_mark
    then record t { in_quote = not t.in_quote }
    else if is_blank c && not t.in_quote
    then record t { out = flushed t.out t.cur; cur = [] }
    else push c t

pub tokens_from : List ℕ → Tokenizer → List Text
tokens_from [] t = flushed t.out t.cur
tokens_from (c ∷ []) t = tokens_from [] (plain c t)
tokens_from (c ∷ d ∷ rest) t = elim ((c == backslash) && is_special d) [
  | true ↦ tokens_from rest (push d t)
  | false ↦ tokens_from (d ∷ rest) (plain c t)
]

-- The argument is `s.as_bytes()`.
unfoldable pub tokenize_shell : List ℕ → List Text
unfolding tokens_from
tokenize_shell bytes = tokens_from bytes (record { out = []; cur = []; in_quote = false })

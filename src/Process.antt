-- ===== src/Process.antt =====
-- The child processes that the sources start: `ShellReader::new` of io/shell_reader.rs as the other
-- files use it. Starting a program is the operating system's: a parameter of the model.
use rusttgcalls.Prelude.{Text, Bool, List, [], ◌∷◌, ◌++◌}
use rusttgcalls.Models.{Result, ok, err}

-- The arguments of `ShellReader::new`.
pub record Command : Type 0 where
  pub program : Text
  pub args : List Text
  pub stream_stderr : Bool

-- A computation that starts processes: the commands tried, in order, and its result.
abbrev pub Io : Type 0 → Type 0
Io A = List Command × Result A

infixl 5 ◌>>=◌
abbrev pub ◌>>=◌ : {A B : Type 0} → Io A → (A → Io B) → Io B
(tried, ok a) >>= f = let (more, r) = f a in (tried ++ more, r)
(tried, err e) >>= f = (tried, err e)

abbrev pub pure : {A : Type 0} → A → Io A
pure a = ([], ok a)

-- `?` on a result that starts nothing.
abbrev pub lift : {A : Type 0} → Result A → Io A
lift r = ([], r)

abbrev pub spawn : {Reader : Type 0} → (Command → Result Reader) → Command → Io Reader
spawn start c = (c ∷ [], start c)

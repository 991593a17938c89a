-- ===== src/Shell/Seek.antt =====
-- `inject_seek` of media/shell_source.rs.
use rusttgcalls.Prelude.{
  ℕ, zero, suc, ◌+◌, ◌<◌, Text, Bool, true, false, not, ◌&&◌, ◌||◌, List, [], ◌∷◌, ◌++◌, Option,
  none, some, take, drop, length, if◌then◌else◌, lit, text_eq,
}
use rusttgcalls.Shell.Flags.{is_none}
pub mod Again
mod Tests

-- The loop's variables. `cleaned` grows at the end.
pub record Cleaner : Type 0 where
  pub cleaned : List Text
  pub input_idx : Option ℕ

-- The round for an argument that is not skipped and no `-ss` to drop.
pub keep : Text → Cleaner → Cleaner
keep a t = record {
  cleaned = t.cleaned ++ (a ∷ []);
  input_idx =
      if text_eq a (lit "-i") && is_none t.input_idx then some (length t.cleaned) else t.input_idx;
}

-- `skip_next` drops the argument after a dropped `-ss`; the last argument is never dropped so.
pub clean : List Text → Cleaner → Cleaner
clean [] t = t
clean (a ∷ []) t = keep a t
clean (a ∷ b ∷ args) t = elim (text_eq a (lit "-ss") && is_none t.input_idx) [
  | true ↦ clean args t
  | false ↦ clean (b ∷ args) (keep a t)
]

pub insert_seek : Text → Cleaner → List Text
insert_seek offset t = elim t.input_idx [
  | none ↦ lit "-ss" ∷ offset ∷ t.cleaned
  | some i ↦ take i t.cleaned ++ (lit "-ss" ∷ offset ∷ drop i t.cleaned)
]

-- The offset is the text that `format!("{:.3}", offset.as_secs_f64())` gives.
unfoldable pub inject_seek : List Text → Text → List Text
inject_seek args offset =
    insert_seek offset (clean args (record { cleaned = []; input_idx = none }))

-- ===== src/Prelude/Strings.antt =====
-- Text: a `String` of the source is the list of its code points. A literal is written `lit "…"`.
use Prim.Native.Char.{code}
use Prim.Native.String.{String}
use Prim.Native.Nat.{ℕ, zero, suc, ◌+◌, ◌/◌, ◌%◌, ◌≤◌, ◌<◌}
use mathlib.Core.Path.{◌≡◌, refl}
use mathlib.Core.Bool.{Bool, true, false, ◌&&◌, ◌||◌}
use mathlib.Core.List.{List, [], ◌∷◌}
use native.Mathlib.Omega.{arith}
use rusttgcalls.Prelude.Lists.{length}
use rusttgcalls.Prelude.Tests.{◌==◌, ltb, if◌then◌else◌, ==_refl}

abbrev pub Text : Type 0
Text = List ℕ

unfoldable pub lit : String → Text
lit String.[] = []
lit (String.◌∷◌ c s) = code c ∷ lit s

-- `==` on strings.
unfoldable pub text_eq : Text → Text → Bool
text_eq [] [] = true
text_eq [] (y ∷ ys) = false
text_eq (x ∷ xs) [] = false
text_eq (x ∷ xs) (y ∷ ys) = (x == y) && text_eq xs ys

pub text_eq_refl : (s : Text) → text_eq s s ≡ true
unfolding text_eq
text_eq_refl [] = refl
text_eq_refl (x ∷ xs) = ground (arith, ==_refl x, text_eq_refl xs)

pub text_eq_sound : (s t : Text) → text_eq s t ≡ true → s ≡ t
unfolding text_eq
text_eq_sound [] [] h = refl
text_eq_sound [] (y ∷ ys) h = ground arith
text_eq_sound (x ∷ xs) [] h = ground arith
text_eq_sound (x ∷ xs) (y ∷ ys) h = ground (arith, text_eq_sound xs ys)

-- `s.starts_with(p)`, as `starts_with s p`.
unfoldable pub starts_with : Text → Text → Bool
starts_with s [] = true
starts_with [] (y ∷ ys) = false
starts_with (x ∷ xs) (y ∷ ys) = (x == y) && starts_with xs ys

-- `s.contains(p)`, as `contains s p`.
unfoldable pub contains : Text → Text → Bool
unfolding starts_with
contains [] p = starts_with [] p
contains (x ∷ xs) p = starts_with (x ∷ xs) p || contains xs p

-- The decimal digits of `n`, most significant first, in front of `out`. A number below
-- 10 ^ fuel needs no more than `fuel` rounds.
unfoldable pub digits_from : ℕ → ℕ → Text → Text
digits_from zero n out = out
digits_from (suc fuel) n out =
    let rest = digits_from fuel (n / 10) ((b'0' + n % 10) ∷ out) in
    if ltb n 10 then (b'0' + n) ∷ out else rest

-- `n.to_string()` of an unsigned integer of at most 64 bits: below 10 ^ 20.
unfoldable pub decimal : ℕ → Text
unfolding digits_from
decimal n = digits_from 20 n []

-- Every code point is ASCII, so the text is its own UTF-8 encoding.
abbrev pub IsAscii : Text → Type 0
IsAscii [] = Unit
IsAscii (c ∷ s) = (c < 128) × IsAscii s

-- The UTF-8 encoding of a text.
unfoldable pub utf8 : Text → List ℕ
utf8 [] = []
utf8 (c ∷ s) =
    if ltb c 0x80
    then c ∷ utf8 s
    else if ltb c 0x800
    then (0xc0 + c / 64) ∷ (0x80 + c % 64) ∷ utf8 s
    else if ltb c 0x10000
    then (0xe0 + c / 4096) ∷ (0x80 + c / 64 % 64) ∷ (0x80 + c % 64) ∷ utf8 s
    else (0xf0 + c / 262144)
      ∷ (0x80 + c / 4096 % 64)
      ∷ (0x80 + c / 64 % 64)
      ∷ (0x80 + c % 64)
      ∷ utf8 s

pub length-utf8 : (s : Text) → length s ≤ length (utf8 s)
unfolding utf8
length-utf8 [] = omega arith
length-utf8 (c ∷ s) = ground (arith, length-utf8 s)

-- Only ASCII text is its own encoding.
pub utf8_fixed : (s : Text) → length (utf8 s) ≡ length s → IsAscii s
unfolding utf8
utf8_fixed [] h = tt
utf8_fixed (c ∷ s) h = ground (arith, length-utf8 s, utf8_fixed s)

pub utf8-ascii : (s : Text) → IsAscii s → utf8 s ≡ s
unfolding utf8
utf8-ascii [] h = refl
utf8-ascii (c ∷ s) h = ground (arith, utf8-ascii s)

-- ===== src/Shell/Seek/Again.antt =====
-- Where the offset goes, and that a later seek replaces an earlier one.
use rusttgcalls.Prelude.{
  ℕ, ◌+◌, Text, Bool, true, false, List, [], ◌∷◌, ◌++◌, Option, none, some, length, if◌then◌else◌,
  lit, text_eq, ◌≡◌, refl, sym, ◌∙◌, ap, ap₂, arith, append_assoc, append-nil, take-append_exact,
  drop-append_exact, Bool-cases, inl, inr, length-append,
}
use rusttgcalls.Shell.Seek.{Cleaner, keep, clean, insert_seek, inject_seek}

abbrev is_seek : Text → Bool
is_seek a = text_eq a (lit "-ss")

abbrev is_input : Text → Bool
is_input a = text_eq a (lit "-i")

abbrev Halves : Type 0
Halves = List Text × List Text

abbrev in_front : Text → Halves → Halves
in_front a (p, r) = (a ∷ p, r)

-- The arguments before the first `-i`, without their seeks, and those from it on.
pub halves : List Text → Halves
halves [] = ([], [])
halves (a ∷ []) = if is_input a then ([], a ∷ []) else (a ∷ [], [])
halves (a ∷ b ∷ args) = elim (is_seek a) [
  | true ↦ halves args
  | false ↦ elim (is_input a) [ true ↦ ([], a ∷ b ∷ args) | false ↦ in_front a (halves (b ∷ args)) ]
]

-- The offset before the input, or at the very front where there is none.
pub with_seek : Text → Halves → List Text
with_seek offset (p, []) = lit "-ss" ∷ offset ∷ p
with_seek offset (p, r ∷ rs) = p ++ (lit "-ss" ∷ offset ∷ r ∷ rs)

abbrev index_of : ℕ → List Text → Option ℕ
index_of i [] = none
index_of i (r ∷ rs) = some i

clean-seen :
    (args c : List Text) (i : ℕ)
    → clean args (record { cleaned = c; input_idx = some i })
      ≡ record { cleaned = c ++ args; input_idx = some i }
unfolding clean keep
clean-seen [] c i = ap (λ l. record { cleaned = l; input_idx = some i }) (sym (append-nil c))
clean-seen (a ∷ []) c i = ground arith
clean-seen (a ∷ b ∷ args) c i =
    ground (arith, clean-seen (b ∷ args) (c ++ (a ∷ [])) i, append_assoc c (a ∷ []) (b ∷ args))

-- The rounds of the two functions, one lemma for each.
module _ (a b : Text) (args : List Text) where
  clean_skip :
      (c : List Text)
      → is_seek a ≡ true
      → clean (a ∷ b ∷ args) (record { cleaned = c; input_idx = none })
        ≡ clean args (record { cleaned = c; input_idx = none })
  unfolding clean
  clean_skip c e = rw (e, clean)

  clean-keep :
      (c : List Text)
      → is_seek a ≡ false
      → clean (a ∷ b ∷ args) (record { cleaned = c; input_idx = none })
        ≡ clean (b ∷ args) (keep a (record { cleaned = c; input_idx = none }))
  unfolding clean
  clean-keep c e = rw (e, clean)

  halves_skip : is_seek a ≡ true → halves (a ∷ b ∷ args) ≡ halves args
  unfolding halves
  halves_skip e = rw (e, halves)

  halves_input : is_seek a ≡ false → is_input a ≡ true → halves (a ∷ b ∷ args) ≡ ([], a ∷ b ∷ args)
  unfolding halves
  halves_input e i = rw (e, i, halves)

  halves_front :
      is_seek a ≡ false
      → is_input a ≡ false
      → halves (a ∷ b ∷ args) ≡ in_front a (halves (b ∷ args))
  unfolding halves
  halves_front e i = rw (e, i, halves)

keep_front :
    (a : Text) (c : List Text)
    → is_input a ≡ false
    → keep a (record { cleaned = c; input_idx = none })
      ≡ record { cleaned = c ++ (a ∷ []); input_idx = none }
unfolding keep
keep_front a c i = ground arith

keep_input :
    (a : Text) (c : List Text)
    → is_input a ≡ true
    → keep a (record { cleaned = c; input_idx = none })
      ≡ record { cleaned = c ++ (a ∷ []); input_idx = some (length c) }
unfolding keep
keep_input a c i = ground arith

abbrev cleaned_to : List Text → Halves → Cleaner
cleaned_to c (p, r) = record {
  cleaned = c ++ (p ++ r);
  input_idx = index_of (length c + length p) r;
}

cleaned_to-in_front :
    (c : List Text) (a : Text) (h : Halves)
    → cleaned_to (c ++ (a ∷ [])) h ≡ cleaned_to c (in_front a h)
cleaned_to-in_front c a (p, r) =
    ap₂ (λ l i. record { cleaned = l; input_idx = index_of i r }) (append_assoc c (a ∷ []) (p ++ r))
      (omega (arith, length-append c (a ∷ [])))

clean-halves :
    (args c : List Text)
    → clean args (record { cleaned = c; input_idx = none }) ≡ cleaned_to c (halves args)
unfolding clean keep halves
clean-halves [] c = ap (λ l. record { cleaned = l; input_idx = none }) (sym (append-nil c))
clean-halves (a ∷ []) c = elim (Bool-cases (is_input a)) [
  | inl e ↦ rw (e, keep) (let z : length c ≡ length c + 0 = omega arith in rw (← z))
  | inr e ↦ rw (e, keep)
]
clean-halves (a ∷ b ∷ args) c = elim (Bool-cases (is_seek a)) [
  | inl e ↦
      clean_skip a b args c e
      ∙ clean-halves args c
      ∙ ap (cleaned_to c) (sym (halves_skip a b args e))
  | inr e ↦ elim (Bool-cases (is_input a)) [
    | inl i ↦
        clean-keep a b args c e
        ∙ ap (clean (b ∷ args)) (keep_input a c i)
        ∙ clean-seen (b ∷ args) (c ++ (a ∷ [])) (length c)
        ∙ ap₂ (λ l k. record { cleaned = l; input_idx = some k })
            (append_assoc c (a ∷ []) (b ∷ args)) (omega arith)
        ∙ ap (cleaned_to c) (sym (halves_input a b args e i))
    | inr i ↦
        clean-keep a b args c e
        ∙ ap (clean (b ∷ args)) (keep_front a c i)
        ∙ clean-halves (b ∷ args) (c ++ (a ∷ []))
        ∙ cleaned_to-in_front c a (halves (b ∷ args))
        ∙ ap (cleaned_to c) (sym (halves_front a b args e i))
  ]
]

insert_seek-cleaned_to :
    (offset : Text) (h : Halves) → insert_seek offset (cleaned_to [] h) ≡ with_seek offset h
unfolding insert_seek with_seek
insert_seek-cleaned_to offset (p, []) = ap (λ l. lit "-ss" ∷ offset ∷ l) (append-nil p)
insert_seek-cleaned_to offset (p, r ∷ rs) =
    ap₂ (λ f l. f ++ (lit "-ss" ∷ offset ∷ l))
      (take-append_exact (0 + length p) p (r ∷ rs) (omega arith))
      (drop-append_exact (0 + length p) p (r ∷ rs) (omega arith))

-- The offset is put before the first `-i`, or at the front where there is none; each `-ss` before
-- that place is dropped with its value, and all else stays in order.
pub inject_seek_lem :
    (args : List Text) (offset : Text) → inject_seek args offset ≡ with_seek offset (halves args)
unfolding inject_seek
inject_seek_lem args offset =
    ap (insert_seek offset) (clean-halves args []) ∙ insert_seek-cleaned_to offset (halves args)

seek_is_seek : is_seek (lit "-ss") ≡ true
unfolding text_eq lit
seek_is_seek = refl

halves_one : (a : Text) → is_input a ≡ false → halves (a ∷ []) ≡ (a ∷ [], [])
unfolding halves
halves_one a i = rw (i, halves)

halves_one_input : (a : Text) → is_input a ≡ true → halves (a ∷ []) ≡ ([], a ∷ [])
unfolding halves
halves_one_input a i = rw (i, halves)

halves_none : halves [] ≡ ([], [])
unfolding halves
halves_none = refl

-- To prove it of the halves that are known.
again_of :
    (args : List Text) (offset : Text) (h : Halves)
    → halves args ≡ h
    → halves (with_seek offset h) ≡ h
    → halves (with_seek offset (halves args)) ≡ halves args
again_of args offset h e p = rw e p

-- An argument that is neither a seek nor the input stays in front.
front_again :
    (a offset : Text) (h : Halves)
    → is_seek a ≡ false
    → is_input a ≡ false
    → halves (with_seek offset h) ≡ h
    → halves (with_seek offset (in_front a h)) ≡ in_front a h
unfolding with_seek
front_again a offset ([], []) e i ih =
    halves_skip (lit "-ss") offset (a ∷ []) seek_is_seek ∙ halves_one a i
front_again a offset (p ∷ ps, []) e i ih =
    halves_skip (lit "-ss") offset (a ∷ p ∷ ps) seek_is_seek
    ∙ halves_front a p ps e i
    ∙ ap (in_front a) (sym (halves_skip (lit "-ss") offset (p ∷ ps) seek_is_seek) ∙ ih)
front_again a offset ([], r ∷ rs) e i ih =
    halves_front a (lit "-ss") (offset ∷ r ∷ rs) e i ∙ ap (in_front a) ih
front_again a offset (p ∷ ps, r ∷ rs) e i ih =
    halves_front a p (ps ++ (lit "-ss" ∷ offset ∷ r ∷ rs)) e i ∙ ap (in_front a) ih

halves-with_seek :
    (args : List Text) (offset : Text) → halves (with_seek offset (halves args)) ≡ halves args
unfolding with_seek
halves-with_seek [] offset =
    again_of [] offset ([], []) halves_none
      (halves_skip (lit "-ss") offset [] seek_is_seek ∙ halves_none)
halves-with_seek (a ∷ []) offset = elim (Bool-cases (is_input a)) [
  | inl i ↦
      again_of (a ∷ []) offset ([], a ∷ []) (halves_one_input a i)
        (halves_skip (lit "-ss") offset (a ∷ []) seek_is_seek ∙ halves_one_input a i)
  | inr i ↦
      again_of (a ∷ []) offset (a ∷ [], []) (halves_one a i)
        (halves_skip (lit "-ss") offset (a ∷ []) seek_is_seek ∙ halves_one a i)
]
halves-with_seek (a ∷ b ∷ args) offset = elim (Bool-cases (is_seek a)) [
  | inl e ↦
      again_of (a ∷ b ∷ args) offset (halves args) (halves_skip a b args e)
        (halves-with_seek args offset)
  | inr e ↦ elim (Bool-cases (is_input a)) [
    | inl i ↦
        again_of (a ∷ b ∷ args) offset ([], a ∷ b ∷ args) (halves_input a b args e i)
          (halves_skip (lit "-ss") offset (a ∷ b ∷ args) seek_is_seek ∙ halves_input a b args e i)
    | inr i ↦
        again_of (a ∷ b ∷ args) offset (in_front a (halves (b ∷ args))) (halves_front a b args e i)
          (front_again a offset (halves (b ∷ args)) e i (halves-with_seek (b ∷ args) offset))
  ]
]

-- Seeking again replaces the offset of the earlier seek, and changes nothing else.
pub inject_seek_again :
    (args : List Text) (first second : Text)
    → inject_seek (inject_seek args first) second ≡ inject_seek args second
inject_seek_again args first second =
    inject_seek_lem (inject_seek args first) second
    ∙ ap (λ l. with_seek second (halves l)) (inject_seek_lem args first)
    ∙ ap (with_seek second) (halves-with_seek args first)
    ∙ sym (inject_seek_lem args second)

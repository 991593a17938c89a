-- ===== src/FrameReader/Duration.antt =====
-- The duration of an Opus packet, against the tables of RFC 6716.
use rusttgcalls.Prelude.{
  ℕ, ◌+◌, ◌*◌, ◌/◌, ◌%◌, ◌^◌, ◌≤◌, ◌<◌, true, false, List, [], ◌∷◌, if◌then◌else◌, ◌==◌, ltb, ◌≡◌,
  refl, ap, ◌∙◌, arith, passes, passes-below, ==_iff,
}
use native.Mathlib.Nat.{mul-le-mul_left}
use rusttgcalls.FrameReader.{base_samples, frame_count, parse_opus_packet_duration}

-- SILK frames of 10, 20, 40 and 60 ms, hybrid ones of 10 and 20 ms, CELT ones of 2.5, 5, 10 and 20 ms, as
-- samples at 48 kHz.
abbrev pub rfc_samples : ℕ → ℕ
rfc_samples config =
    if ltb config 12
    then (if config % 4 == 0
        then 480
        else if config % 4 == 1
        then 960
        else if config % 4 == 2
        then 1920
        else 2880)
    else if ltb config 16
    then 480 * (1 + config % 2)
    else 120 * 2 ^ (config % 4)

-- The frames of a packet by its code: one, two of the same size, two of different sizes, or as many as the
-- low six bits of the byte behind tell. A packet without that byte, or with the number 0, which RFC 6716
-- does not allow, counts as one frame.
abbrev pub rfc_frames : ℕ → List ℕ → ℕ
rfc_frames toc more =
    if ltb (toc % 4) 3
    then (if toc % 4 == 0 then 1 else 2)
    else elim more [ [] ↦ 1 | b ∷ _ ↦ if b % 64 == 0 then 1 else b % 64 ]

frame_count-rfc : (toc : ℕ) (more : List ℕ) → frame_count toc more ≡ rfc_frames toc more
unfolding frame_count
frame_count-rfc toc [] = ground arith
frame_count-rfc toc (b ∷ more) = ground arith

same_samples : passes (λ c. base_samples c == rfc_samples c) 32 ≡ true
unfolding passes base_samples
same_samples = refl

samples_in_range :
    passes (λ c. if ltb (base_samples c) 120 then false else ltb (base_samples c) 2881) 32 ≡ true
unfolding passes base_samples
samples_in_range = refl

base_samples-rfc : (c : ℕ) → c < 32 → base_samples c ≡ rfc_samples c
base_samples-rfc c h = (==_iff _ _).0 (passes-below _ 32 c h same_samples)

base_samples-bounds : (c : ℕ) → c < 32 → (120 ≤ base_samples c) × (base_samples c ≤ 2880)
base_samples-bounds c h =
    let t =
      passes-below (λ c. if ltb (base_samples c) 120 then false else ltb (base_samples c) 2881) 32 c
        h samples_in_range in
    (ground (arith, t), ground (arith, t))

frame_count-bounds :
    (toc : ℕ) (more : List ℕ) → (1 ≤ frame_count toc more) × (frame_count toc more ≤ 63)
unfolding frame_count
frame_count-bounds toc [] = (ground arith, ground arith)
frame_count-bounds toc (b ∷ more) = (ground arith, ground arith)

product_bounds :
    (s n : ℕ) → 120 ≤ s → s ≤ 2880 → 1 ≤ n → n ≤ 63 → (120 ≤ s * n) × (s * n ≤ 2880 * 63)
product_bounds s n a b c d =
    (omega (arith, a, mul-le-mul_left s c), omega (arith, mul-le-mul_left s d, b))

-- A packet lasts as long as RFC 6716 says for its configuration and its number of frames, where one that
-- leaves the number out or has 0 for it counts as one frame; this is between 2.5 ms and 63 frames of
-- 60 ms.
pub parse_opus_packet_duration_lem :
    (toc : ℕ) (more : List ℕ)
    → let d = parse_opus_packet_duration (toc ∷ more) in
      (d ≡ rfc_samples (toc / 8 % 32) * rfc_frames toc more * 1_000_000_000 / 48000)
      × (2_500_000 ≤ d)
      × (d ≤ 3_780_000_000)
unfolding parse_opus_packet_duration
parse_opus_packet_duration_lem toc more =
    let c = toc / 8 % 32 in
    let small : c < 32 = omega arith in
    let (low, high) = base_samples-bounds c small in
    let (one, most) = frame_count-bounds toc more in
    let (a, b) = product_bounds (base_samples c) (frame_count toc more) low high one most in
    (
      ap (λ s. s * frame_count toc more * 1_000_000_000 / 48000) (base_samples-rfc c small)
          ∙ ap (λ n. rfc_samples c * n * 1_000_000_000 / 48000) (frame_count-rfc toc more),
      omega (arith, a),
      omega (arith, b),
    )

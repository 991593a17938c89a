-- ===== src/Factory/Ssrc.antt =====
-- The SSRCs of a stack are apart from each other.
use rusttgcalls.Prelude.{
  ℕ, ◌+◌, ◌%◌, ◌^◌, ◌<◌, true, some, if◌then◌else◌, ◌==◌, ◌≡◌, ◌≢◌, arith, Bool-cases, ◌⊎◌, inl,
  inr,
}
use rusttgcalls.Factory.{Factory, allocate_on, allocate_ssrc, stack_ssrcs}

-- The SSRC that is given for a value of the counter.
abbrev pub given : ℕ → ℕ
given c = if c == 0 then 1 else c

abbrev next : ℕ → ℕ
next c = (given c + 1) % 2 ^ 32

abbrev after : Factory → Factory
after f = record f { ssrc_counter = next f.ssrc_counter }

-- An SSRC is given, whatever the counter is: the next number of 32 bits that is not zero.
pub allocate_ssrc_lem : (f : Factory) → allocate_ssrc f ≡ some (given f.ssrc_counter, after f)
unfolding allocate_ssrc allocate_on
allocate_ssrc_lem f = ground arith

-- A stack with video gets its SSRCs, whatever the counter of 32 bits is. None is zero, and neither the
-- video's nor the successor of the video's is the audio's. The SSRCs of later stacks begin behind that
-- successor, unless the video's is the last of 32 bits.
pub stack_ssrcs-apart :
    (f : Factory)
    → f.ssrc_counter < 2 ^ 32
    → (audio_ssrc video_ssrc : ℕ) × (f' : Factory) × (stack_ssrcs true f
        ≡ some ((audio_ssrc, video_ssrc), f'))
      × (audio_ssrc ≢ 0)
      × (video_ssrc ≢ 0)
      × (audio_ssrc ≢ video_ssrc)
      × (audio_ssrc ≢ (video_ssrc + 1) % 2 ^ 32)
      × ((video_ssrc ≡ 4294967295) ⊎ (f'.ssrc_counter ≡ (video_ssrc + 2) % 2 ^ 32))
unfolding stack_ssrcs
stack_ssrcs-apart f small =
    let c = f.ssrc_counter in
    let a = given c in
    let v = given (next c) in
    (
      a,
      v,
      after (after (after f)),
      ground (
        arith,
        allocate_ssrc_lem f,
        allocate_ssrc_lem (after f),
        allocate_ssrc_lem (after (after f)),
      ),
      ground arith,
      ground arith,
      ground arith,
      ground arith,
      elim (Bool-cases (v == 4294967295)) [
        | inl e ↦ inl (ground (arith, e))
        | inr e ↦ inr (ground (arith, e))
      ],
    )

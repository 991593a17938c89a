-- ===== src/Factory.antt =====
-- wrtc/native/factory.rs: the SSRCs that the factory gives its stacks.
use rusttgcalls.Prelude.{
  ℕ, zero, suc, ◌+◌, ◌%◌, ◌^◌, Bool, true, false, Option, none, some, if◌then◌else◌, ◌==◌,
}
use rusttgcalls.Models.{Error, Result, ok, err}
pub mod Ssrc
mod Tests

-- `Factory`, without its certificates.
pub record Factory : Type 0 where
  pub ssrc_counter : ℕ
  pub closed : Bool

-- `new`, with the random seed: `seed | 1`.
unfoldable pub new : ℕ → Factory
new seed = record { ssrc_counter = if seed % 2 == 0 then seed + 1 else seed; closed = false }

unfoldable pub close : Factory → Factory
close f = record f { closed = true }

-- The loop of `allocate_ssrc` on fuel.
unfoldable pub allocate_on : ℕ → Factory → Option (ℕ × Factory)
allocate_on zero f = none
allocate_on (suc fuel) f =
    let v = f.ssrc_counter in
    let f' = record f { ssrc_counter = (f.ssrc_counter + 1) % 2 ^ 32 } in
    let rest = allocate_on fuel f' in if v == 0 then rest else some (v, f')

-- `allocate_ssrc`: behind a zero the counter is one, so that two rounds are enough.
unfoldable pub allocate_ssrc : Factory → Option (ℕ × Factory)
unfolding allocate_on
allocate_ssrc f = allocate_on 2 f

-- The SSRCs that `new_stack` takes, of audio and of video.
unfoldable pub stack_ssrcs : Bool → Factory → Option ((ℕ × ℕ) × Factory)
unfolding allocate_ssrc
stack_ssrcs with_video f = elim (allocate_ssrc f) [
  | none ↦ none
  | some (audio_ssrc, f1) ↦
      if with_video
      then elim (allocate_ssrc f1) [
        | none ↦ none
        | some (v, f2) ↦ elim (allocate_ssrc f2) [
          | none ↦ none
          | some (_, f3) ↦ some ((audio_ssrc, v), f3)
        ]
      ]
      else some ((audio_ssrc, 0), f1)
]

-- `new_stack` up to the transport, which gets the SSRCs. `certified` is the certificate that is taken.
unfoldable pub new_stack : Result (Unit {0}) → Bool → Factory → Option (Factory × Result (ℕ × ℕ))
unfolding stack_ssrcs
new_stack certified with_video f = if f.closed then some (f, err Error.closed) else elim certified [
  | err e ↦ some (f, err e)
  | ok _ ↦ elim (stack_ssrcs with_video f) [ none ↦ none | some (ssrcs, f') ↦ some (f', ok ssrcs) ]
]

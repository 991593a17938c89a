-- ===== src/Factory/Tests.antt =====
-- A factory whose counter is about to wrap around.
use rusttgcalls.Prelude.{ℕ, ◌+◌, ◌%◌, ◌^◌, true, some, ◌≡◌, ◌≢◌, ◌⊎◌, arith}
use rusttgcalls.Factory.{Factory, new, stack_ssrcs}
use rusttgcalls.Factory.Ssrc.{stack_ssrcs-apart}

abbrev factory : Factory
factory = new 4294967295

stack_ssrcs-apart_example :
    (audio_ssrc video_ssrc : ℕ) × (f' : Factory) × (stack_ssrcs true factory
      ≡ some ((audio_ssrc, video_ssrc), f'))
    × (audio_ssrc ≢ 0)
    × (video_ssrc ≢ 0)
    × (audio_ssrc ≢ video_ssrc)
    × (audio_ssrc ≢ (video_ssrc + 1) % 2 ^ 32)
    × ((video_ssrc ≡ 4294967295) ⊎ (f'.ssrc_counter ≡ (video_ssrc + 2) % 2 ^ 32))
unfolding new
stack_ssrcs-apart_example = stack_ssrcs-apart factory (ground arith)

-- ===== src/FrameReader.antt =====
-- media/frame_reader.rs: the readers of the two containers, over the bytes that the source still has.
use rusttgcalls.Prelude.{
  ℕ, ◌+◌, ◌*◌, ◌/◌, ◌%◌, Bool, true, false, ◌||◌, List, [], ◌∷◌, Option, none, some, if◌then◌else◌,
  ◌==◌, ltb, leb, length, take, drop,
}
use rusttgcalls.Models.{opus_frame_duration_ms}
pub mod Exact
pub mod Duration
pub mod Opus
pub mod Vp8
mod Tests

-- `Sample`; `payload` is its field `data`. The duration is in nanoseconds.
pub record Sample : Type 0 where
  pub payload : List ℕ
  pub duration : ℕ

-- `read_exact` into a buffer of `n` bytes: the bytes read and those left, or the end of the source.
unfoldable pub read_exact : ℕ → List ℕ → Option (List ℕ × List ℕ)
read_exact n bytes = if leb n (length bytes) then some (take n bytes, drop n bytes) else none

-- The samples of a frame of the configuration, at 48 kHz.
unfoldable pub base_samples : ℕ → ℕ
base_samples config =
    if (config == 0) || (config == 4) || (config == 8)
    then 480
    else if (config == 1) || (config == 5) || (config == 9)
    then 960
    else if (config == 2) || (config == 6) || (config == 10)
    then 1920
    else if (config == 3) || (config == 7) || (config == 11)
    then 2880
    else if (config == 12) || (config == 14)
    then 480
    else if (config == 13) || (config == 15)
    then 960
    else if (config == 16) || (config == 20) || (config == 24) || (config == 28)
    then 120
    else if (config == 17) || (config == 21) || (config == 25) || (config == 29)
    then 240
    else if (config == 18) || (config == 22) || (config == 26) || (config == 30)
    then 480
    else 960

-- The number of frames, from the first byte and what follows it.
unfoldable pub frame_count : ℕ → List ℕ → ℕ
frame_count toc more =
    if toc % 4 == 0
    then 1
    else if (toc % 4 == 1) || (toc % 4 == 2)
    then 2
    else elim more [ [] ↦ 1 | b ∷ _ ↦ let c = b % 64 in if ltb 0 c then c else 1 ]

-- `parse_opus_packet_duration`, on bytes.
unfoldable pub parse_opus_packet_duration : List ℕ → ℕ
unfolding base_samples frame_count
parse_opus_packet_duration [] = opus_frame_duration_ms * 1_000_000
parse_opus_packet_duration (toc ∷ more) =
    base_samples (toc / 8 % 32) * frame_count toc more * 1_000_000_000 / 48000

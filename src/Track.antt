-- ===== src/Track.antt =====
-- `Track` of media/source.rs: a bit mask of the media that a source provides.
use Prim.Native.Nat.{bit_and, bit_or}
use rusttgcalls.Prelude.{ℕ, Bool, not, ◌==◌, ◌≡◌, refl}

-- The `u8` inside `Track`.
abbrev pub Track : Type 0
Track = ℕ

abbrev pub track_audio : Track
track_audio = 1

abbrev pub track_video : Track
track_video = 2

abbrev pub track_both : Track
track_both = 3

unfoldable pub has : Track → Track → Bool
has t other = not (bit_and t other == 0)

-- `a | b`.
unfoldable pub union : Track → Track → Track
union a b = bit_or a b

both : union track_audio track_video ≡ track_both
unfolding union
both = refl

-- ===== src/Streamer.antt =====
-- media/streamer.rs: the handle of a streamer, which a call holds while its tasks run.
use rusttgcalls.Prelude.{ℕ, Bool, true, false, Option, none, some}
use rusttgcalls.Models.{Device, StreamType}
pub mod Tasks
pub mod Cases
pub mod Order
pub mod Pace
pub mod Ending
pub mod Barrier
pub mod Sending
mod Tests

-- What the completion callback that a call installs reports.
pub record OnEnd : Type 0 where
  pub stream_type : StreamType
  pub device : Device

-- `Streamer`, with the arguments of `new_with_barrier` that its tasks keep.
pub record Streamer (Reader : Type 0) : Type 0 where
  pub reader : Reader
  pub payload_type : ℕ
  pub barrier : Bool
  pub muted : Bool
  pub paused : Bool
  pub running : Bool
  pub done_flag : Bool
  pub ns_sent : ℕ
  pub on_end : Option OnEnd

module _ {Reader : Type 0} where
  unfoldable pub new_with_barrier : Reader → ℕ → Bool → Streamer Reader
  new_with_barrier reader payload_type barrier = record {
    reader = reader;
    payload_type = payload_type;
    barrier = barrier;
    muted = false;
    paused = false;
    running = true;
    done_flag = false;
    ns_sent = 0;
    on_end = none;
  }

  unfoldable pub new : Reader → ℕ → Streamer Reader
  unfolding new_with_barrier
  new reader payload_type = new_with_barrier reader payload_type false

  unfoldable pub start : Streamer Reader → Streamer Reader
  start s = record s { running = true }

  unfoldable pub pause : Streamer Reader → Streamer Reader
  pause s = record s { paused = true }

  unfoldable pub resume : Streamer Reader → Streamer Reader
  resume s = record s { paused = false }

  unfoldable pub set_muted : Bool → Streamer Reader → Streamer Reader
  set_muted muted s = record s { muted = muted }

  -- Clears the callback, then ends the loops.
  unfoldable pub stop : Streamer Reader → Streamer Reader
  stop s = record s { on_end = none; running = false }

  unfoldable pub set_on_end : OnEnd → Streamer Reader → Streamer Reader
  set_on_end f s = record s { on_end = some f }

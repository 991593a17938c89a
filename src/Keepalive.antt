-- ===== src/Keepalive.antt =====
-- wrtc/keepalive.rs: the monitor of the stacks, which looks at each of them every second.
use rusttgcalls.Prelude.{
  ℕ, ◌+◌, ◌-◌, ◌%◌, ◌^◌, Bool, true, false, not, ◌&&◌, List, [], ◌∷◌, ◌++◌, if◌then◌else◌, ◌==◌,
  ltb,
}
use rusttgcalls.Models.{ConnState}
use rusttgcalls.GroupCall.Base.{is_connected}
use rusttgcalls.Client.Calls.{insert, remove}
pub mod Laws
pub mod Polls
mod Tests

-- `ICE_CHECKING_TIMEOUT` in nanoseconds.
abbrev pub ice_checking_timeout : ℕ
ice_checking_timeout = 35_000_000_000

-- What a tick starts a task for: closing the stack, or sending it padding.
pub data Task : Type 0 where
  closes pads : Task

-- `PcMonitorEntry`. Of the stack the SSRC of its video; `tasks` are the tasks that were started.
pub record PcMonitorEntry : Type 0 where
  pub video_ssrc : ℕ
  pub checking_ns : ℕ
  pub ever_connected : Bool
  pub tasks : List Task

unfoldable pub new : ℕ → PcMonitorEntry
new video_ssrc = record {
  video_ssrc = video_ssrc;
  checking_ns = 0;
  ever_connected = false;
  tasks = [];
}

-- `(now - start).unsigned_abs()` for times that an `i64` holds.
abbrev pub distance : ℕ → ℕ → ℕ
distance a b = (a - b) + (b - a)

abbrev start_task : Task → PcMonitorEntry → PcMonitorEntry
start_task task e = record e { tasks = e.tasks ++ (task ∷ []) }

-- `tick`, with the state of the stack and the time.
unfoldable pub tick : Bool → ConnState → ℕ → PcMonitorEntry → PcMonitorEntry
tick do_keepalive state now e =
    if not (is_connected state)
    then if e.ever_connected
      then e
      else if e.checking_ns == 0
      then record e { checking_ns = now }
      else if ltb ice_checking_timeout (distance now e.checking_ns)
      then start_task closes e
      else e
    else let e' = record e { ever_connected = true; checking_ns = 0 } in
      if do_keepalive && not (e.video_ssrc == 0) then start_task pads e' else e'

-- A look at a stack: whether it is the time for a padding packet, the state, and the time.
abbrev pub Look : Type 0
Look = Bool × ConnState × ℕ

-- The loop of the monitor on one stack.
unfoldable pub ticks : List Look → PcMonitorEntry → PcMonitorEntry
ticks [] e = e
ticks ((do_keepalive, state, now) ∷ l) e = ticks l (tick do_keepalive state now e)

-- `FactoryMonitor`: an entry for each stack, by its address. `running` tells whether the task runs and
-- can still be cancelled, as the receiver that it has made has seen nothing yet.
pub record FactoryMonitor : Type 0 where
  pub entries : List (ℕ × PcMonitorEntry)
  pub started : Bool
  pub stopped : Bool
  pub running : Bool
  pub tick_count : ℕ

unfoldable pub new_monitor : FactoryMonitor
new_monitor = record {
  entries = [];
  started = false;
  stopped = false;
  running = false;
  tick_count = 0;
}

unfoldable pub start : FactoryMonitor → FactoryMonitor
start m = if m.started then m else record m { started = true; running = true }

unfoldable pub stop : FactoryMonitor → FactoryMonitor
stop m = if m.stopped then m else record m { stopped = true; running = false }

unfoldable pub register : ℕ → ℕ → FactoryMonitor → FactoryMonitor
unfolding new
register key video_ssrc m = record m { entries = insert key (new video_ssrc) m.entries }

unfoldable pub unregister : ℕ → FactoryMonitor → FactoryMonitor
unregister key m = record m { entries = remove key m.entries }

-- What a poll sees: the states of the stacks, and the time.
abbrev pub View : Type 0
View = (ℕ → ConnState) × ℕ

-- Every second poll is one for padding.
abbrev pub is_keepalive : ℕ → Bool
is_keepalive n = n % 2 == 0

unfoldable pub tick_all : Bool → View → List (ℕ × PcMonitorEntry) → List (ℕ × PcMonitorEntry)
tick_all do_keepalive v [] = []
tick_all do_keepalive v ((key, e) ∷ l) =
    (key, tick do_keepalive (v.0 key) v.1 e) ∷ tick_all do_keepalive v l

-- A round of the task's loop.
unfoldable pub poll : View → FactoryMonitor → FactoryMonitor
unfolding tick_all
poll v m =
    let n = (m.tick_count + 1) % 2 ^ 64 in
    if m.running
    then record m { tick_count = n; entries = tick_all (is_keepalive n) v m.entries }
    else m

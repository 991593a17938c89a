-- ===== src/Stack.antt =====
-- wrtc/native/stack.rs and wrtc/peer_connection.rs: the transport of a call with its state callback, and the
-- wrapper that hands the states on by tasks of its own.
use rusttgcalls.Prelude.{
  ℕ, zero, suc, Text, Bool, true, false, List, [], ◌∷◌, ◌++◌, Option, none, some, if◌then◌else◌,
}
use rusttgcalls.Models.{Result, ok, err, ConnState, connected}
use rusttgcalls.DirectTransport
use rusttgcalls.DirectTransport.{MediaApi, DirectTransport}
pub mod Reports
mod Tests

-- `Stack`. `reported` are the calls of the callback, the oldest first.
pub record Stack (media : MediaApi) : Type 0 where
  pub direct : DirectTransport media
  pub on_state_change : Bool
  pub reported : List ConnState

module _ {media : MediaApi} where
  unfoldable pub from_direct : DirectTransport media → Stack media
  from_direct direct = record { direct = direct; on_state_change = false; reported = [] }

  unfoldable pub set_on_state_change : Stack media → Stack media
  set_on_state_change s = record s { on_state_change = true }

  -- Running the callback, if there is one.
  abbrev pub report : ConnState → Stack media → Stack media
  report state s =
      if s.on_state_change then record s { reported = s.reported ++ (state ∷ []) } else s

  -- `connect`, on that of the transport.
  unfoldable pub connect :
      (Text → DirectTransport media → DirectTransport media × Result (Unit {0}))
      → Text
      → Stack media
      → Stack media × Result (Unit {0})
  connect connect_direct remote_json s =
      let (direct, r) = connect_direct remote_json s.direct in
      let s' = record s { direct = direct } in
      elim r [ err e ↦ (s', err e) | ok _ ↦ (report connected s', ok tt) ]

  unfoldable pub send_rtp_bytes : ℕ → List ℕ → ℕ → Stack media → Stack media × Result (Unit {0})
  send_rtp_bytes payload_type payload duration s =
      let (direct, r) = DirectTransport.send_rtp_bytes payload_type payload duration s.direct in
      (record s { direct = direct }, r)

  -- The increment of the timestamp is not looked at: a frame lasts 20 ms.
  unfoldable pub write_rtp_frame : ℕ → List ℕ → ℕ → Stack media → Stack media × Result (Unit {0})
  unfolding send_rtp_bytes
  write_rtp_frame payload_type payload timestamp_increment s =
      send_rtp_bytes payload_type payload 20_000_000 s

  unfoldable pub reset_media_track_state : Stack media → Stack media
  reset_media_track_state s = record s { direct = DirectTransport.reset_media_track_state s.direct }

  abbrev pub state : Stack media → ConnState
  state s = s.direct.state

  unfoldable pub close : Stack media → Stack media × Result (Unit {0})
  close s =
      let (direct, r) = DirectTransport.close s.direct in
      let s' = record s { direct = direct } in
      elim r [ err e ↦ (s', err e) | ok _ ↦ (report ConnState.closed s', ok tt) ]

-- A task that a `PeerConnection` has spawned: it sets the callback, or runs it with a state.
pub data Task : Type 0 where
  sets_callback : Task
  tells : ConnState → Task

-- `PeerConnection`, with the tasks that have not run, the oldest first, and the calls of its callback.
pub record PeerConnection (media : MediaApi) : Type 0 where
  pub stack : Stack media
  pub has_callback : Bool
  pub tasks : List Task
  pub told : List ConnState

-- The task at a place, and the others.
abbrev pub pick : ℕ → List Task → Option (Task × List Task)
pick n [] = none
pick zero (t ∷ l) = some (t, l)
pick (suc n) (t ∷ l) = elim (pick n l) [ none ↦ none | some (u, rest) ↦ some (u, t ∷ rest) ]

module _ {media : MediaApi} where
  -- `PeerConnection::new`, on the transport that the stack gets.
  unfoldable pub new : DirectTransport media → PeerConnection media
  new direct = record {
    stack = record (from_direct direct) { on_state_change = true };
    has_callback = false;
    tasks = [];
    told = [];
  }

  unfoldable pub on_connection_state_change : PeerConnection media → PeerConnection media
  on_connection_state_change p = record p { tasks = p.tasks ++ (sets_callback ∷ []) }

  -- `connect` and `close` of the stack, each of whose reports spawns a task.
  unfoldable pub pc_connect :
      (Text → DirectTransport media → DirectTransport media × Result (Unit {0}))
      → Text
      → PeerConnection media
      → PeerConnection media × Result (Unit {0})
  unfolding connect
  pc_connect connect_direct remote_json p =
      let (stack, r) = connect connect_direct remote_json p.stack in
      elim r [
        | err e ↦ (record p { stack = stack }, err e)
        | ok _ ↦ (record p { stack = stack; tasks = p.tasks ++ (tells connected ∷ []) }, ok tt)
      ]

  unfoldable pub pc_close : PeerConnection media → PeerConnection media × Result (Unit {0})
  unfolding close
  pc_close p =
      let (stack, r) = close p.stack in
      elim r [
        | err e ↦ (record p { stack = stack }, err e)
        | ok _ ↦
            (record p { stack = stack; tasks = p.tasks ++ (tells ConnState.closed ∷ []) }, ok tt)
      ]

  abbrev pub run_task : Task → PeerConnection media → PeerConnection media
  run_task sets_callback p = record p { has_callback = true }
  run_task (tells state) p =
      if p.has_callback then record p { told = p.told ++ (state ∷ []) } else p

  -- Some task that was spawned runs; which, is up to the runtime.
  unfoldable pub run_some : ℕ → PeerConnection media → PeerConnection media
  run_some n p = elim (pick n p.tasks) [
    | none ↦ p
    | some (t, rest) ↦ run_task t (record p { tasks = rest })
  ]

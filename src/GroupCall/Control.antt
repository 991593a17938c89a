-- ===== src/GroupCall/Control.antt =====
-- Pausing, muting and stopping a `GroupCall`.
use rusttgcalls.Prelude.{ℕ, Bool, true, false, not, ◌++◌, none, if◌then◌else◌, ◌==◌}
use rusttgcalls.Models.{
  Error, Result, ok, err, ConnState, connecting, connected, disconnected, failed,
}
use rusttgcalls.Streamer.{Streamer, OnEnd, new_with_barrier, set_on_end}
use rusttgcalls.Streamer
use rusttgcalls.StackApi.{StackApi}
use rusttgcalls.GroupCall.Base.{
  GroupCall, to_list, update, on_state_change, current_state, fire_upgrade_if_changed,
}

module _ {api : StackApi} {Reader : Type 0} where
  open api use {close}

  unfoldable pub pause : GroupCall api Reader → GroupCall api Reader × Result Bool
  unfolding fire_upgrade_if_changed current_state Streamer.pause
  pause c =
      if c.closed
      then (c, err Error.closed)
      else if c.paused
      then (c, ok false)
      else let c1 = record c { paused = true } in
        let prev = current_state c1 in
        (
          fire_upgrade_if_changed prev (record c1 {
            audio_streamer = update Streamer.pause c.audio_streamer;
            video_streamer = update Streamer.pause c.video_streamer;
          }),
          ok true,
        )

  unfoldable pub resume : GroupCall api Reader → GroupCall api Reader × Result Bool
  unfolding fire_upgrade_if_changed current_state Streamer.resume
  resume c =
      if c.closed
      then (c, err Error.closed)
      else if not c.paused
      then (c, ok false)
      else let c1 = record c { paused = false } in
        let prev = current_state c1 in
        (
          fire_upgrade_if_changed prev (record c1 {
            audio_streamer = update Streamer.resume c.audio_streamer;
            video_streamer = update Streamer.resume c.video_streamer;
          }),
          ok true,
        )

  unfoldable pub mute : GroupCall api Reader → GroupCall api Reader × Result Bool
  unfolding fire_upgrade_if_changed current_state Streamer.pause
  mute c =
      if c.closed
      then (c, err Error.closed)
      else if c.muted
      then (c, ok false)
      else let c1 = record c { muted = true } in
        let prev = current_state c1 in
        (
          fire_upgrade_if_changed prev
              (record c1 { audio_streamer = update Streamer.pause c.audio_streamer }),
          ok true,
        )

  unfoldable pub unmute : GroupCall api Reader → GroupCall api Reader × Result Bool
  unfolding fire_upgrade_if_changed current_state Streamer.resume
  unmute c =
      if c.closed
      then (c, err Error.closed)
      else if not c.muted
      then (c, ok false)
      else let c1 = record c { muted = false } in
        let prev = current_state c1 in
        (
          fire_upgrade_if_changed prev
              (record c1 { audio_streamer = update Streamer.resume c.audio_streamer }),
          ok true,
        )

  -- `stop`. The stack is closed by a task of its own, modelled by `close_stack`.
  unfoldable pub stop : GroupCall api Reader → GroupCall api Reader × Result (Unit {0})
  unfolding Streamer.stop
  stop c = if c.closed then (c, ok tt) else (
    record c {
      closed = true;
      retired =
          c.retired
          ++ (to_list (update Streamer.stop c.audio_streamer)
              ++ to_list (update Streamer.stop c.video_streamer));
      audio_streamer = none;
      video_streamer = none;
      resume_ms = 0;
      paused = false;
      muted = false;
    },
    ok tt,
  )

  -- The task that `stop` starts: the stack closes and runs the state callback.
  unfoldable pub close_stack : GroupCall api Reader → GroupCall api Reader
  unfolding on_state_change
  close_stack c = on_state_change ConnState.closed (record c { stack = close c.stack })

  unfoldable pub seek_by : GroupCall api Reader → Result (Unit {0})
  seek_by c = err Error.seek_unsupported

  unfoldable pub elapsed_ms : GroupCall api Reader → ℕ
  elapsed_ms c = c.resume_ms

  unfoldable pub net_state_of : GroupCall api Reader → ConnState
  net_state_of c =
      if c.net_state == 0
      then connecting
      else if c.net_state == 1
      then connected
      else if c.net_state == 2
      then disconnected
      else if c.net_state == 3
      then failed
      else if c.net_state == 4
      then ConnState.closed
      else disconnected

-- ===== src/GroupCall/Media.antt =====
-- Connecting a `GroupCall` and installing its sources.
use rusttgcalls.Prelude.{Text, Bool, true, false, ◌&&◌, ◌||◌, ◌++◌, if◌then◌else◌, ◌==◌, lit}
use mathlib.Core.Option
use rusttgcalls.Models.{
  Error, Result, ok, err, internal, connected, conn_code, microphone, camera, audio, video,
  opus_payload_type, vp8_payload_type,
}
use rusttgcalls.Source.{Streams}
use rusttgcalls.Streamer.{Streamer, OnEnd, new_with_barrier, set_on_end}
use rusttgcalls.Streamer
use rusttgcalls.StackApi.{StackApi}
use rusttgcalls.GroupCall.Base.{
  GroupCall, is_some, to_list, is_connected, update, on_state_change, current_state,
  fire_upgrade_if_changed,
}

-- A streamer for the new audio.
abbrev pub audio_streamer_for : {Reader : Type 0} → Bool → Bool → Reader → Streamer Reader
audio_streamer_for silent barrier reader =
    let s = new_with_barrier reader opus_payload_type barrier in
    set_on_end (record { stream_type = audio; device = microphone })
      (if silent then Streamer.pause s else s)

-- A streamer for the new video, which reports its end only if there is no audio.
abbrev pub video_streamer_for : {Reader : Type 0} → Bool → Bool → Bool → Reader → Streamer Reader
video_streamer_for paused has_audio barrier reader =
    let s = new_with_barrier reader vp8_payload_type barrier in
    let s' = if paused then Streamer.pause s else s in
    if has_audio then s' else set_on_end (record { stream_type = video; device = camera }) s'

module _ {api : StackApi} {Reader : Type 0} where
  open api use {state, reset_media_track_state}

  unfoldable pub create_local_params : GroupCall api Reader → Result Text
  create_local_params c = if c.closed then err Error.closed else api.get_local_params_json c.stack

  -- `connect`. On success the stack has run its state callback.
  unfoldable pub connect : Text → GroupCall api Reader → GroupCall api Reader × Result (Unit {0})
  unfolding on_state_change
  connect remote_json c =
      if c.closed
      then (c, err Error.closed)
      else let (stack, r) = api.connect remote_json c.stack in
        let c' = record c { connect_called = true; stack = stack } in
        elim r [
          | ok _ ↦
              (record (on_state_change connected c') { net_state = conn_code connected }, ok tt)
          | err e ↦ (c', err e)
        ]

  -- `set_source` after the gate.
  unfoldable pub install : Streams Reader → GroupCall api Reader → GroupCall api Reader
  unfolding new_with_barrier set_on_end Streamer.pause Streamer.stop fire_upgrade_if_changed
      current_state
  install streams c =
      let prev = current_state c in
      let has_audio = is_some streams.audio in
      let has_video = is_some streams.video in
      let barrier = has_audio && has_video in
      fire_upgrade_if_changed prev (record c {
        retired =
            c.retired
            ++ (to_list (update Streamer.stop c.audio_streamer)
                ++ to_list (update Streamer.stop c.video_streamer));
        stack = reset_media_track_state c.stack;
        had_audio = has_audio;
        had_video = has_video;
        ended_once = false;
        audio_streamer =
            Option.map (audio_streamer_for (c.muted || c.paused) barrier) streams.audio;
        video_streamer = Option.map (video_streamer_for c.paused has_audio barrier) streams.video;
        switching = false;
      })

  -- `set_source`. `wait` is what the other tasks do to the call while it waits to be connected; it
  -- waits only if `connect` was called.
  unfoldable pub set_source :
      (GroupCall api Reader → GroupCall api Reader)
      → Streams Reader
      → GroupCall api Reader
      → GroupCall api Reader × Result (Unit {0})
  unfolding install
  set_source wait streams c =
      if c.closed
      then (c, err Error.closed)
      else if is_connected (state c.stack) || (c.net_state == conn_code connected)
      then (install streams c, ok tt)
      else let c' = if c.connect_called then wait c else c in
        if is_connected (state c'.stack)
        then (install streams c', ok tt)
        else (c', err (internal (lit "WebRTC connection timed out before set_source")))

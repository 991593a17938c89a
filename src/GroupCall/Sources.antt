-- ===== src/GroupCall/Sources.antt =====
-- Installing a source.
use rusttgcalls.Prelude.{
  Bool, true, false, ◌||◌, none, some, if◌then◌else◌, ◌==◌, ◌≡◌, ◌⊎◌, arith, lit,
}
use rusttgcalls.Models.{
  Error, Result, ok, err, internal, conn_code, connected, video, camera, audio, microphone,
}
use rusttgcalls.Source.{Streams}
use rusttgcalls.Streamer
use rusttgcalls.Streamer.{Streamer, new_with_barrier, set_on_end}
use rusttgcalls.StackApi.{StackApi}
use rusttgcalls.GroupCall.Base.{GroupCall, is_some, is_connected, fire, fire_upgrade_if_changed}
use rusttgcalls.GroupCall.Media.{install, set_source}

module _ {api : StackApi} {Reader : Type 0} where
  -- What a call holds for a source: a running streamer for each stream, which reads it, sends the
  -- payload type of its kind, waits for the other at the start if there are two, and is held while
  -- the call is paused, the audio also while it is muted. The end of the audio is reported, or that of the
  -- video if there is no audio.
  pub record Holds (c : GroupCall api Reader) (streams : Streams Reader) : Type 0 where
    pub no_audio : streams.audio ≡ none → c.audio_streamer ≡ none
    pub no_video : streams.video ≡ none → c.video_streamer ≡ none
    pub some_audio :
        (r : Reader)
        → streams.audio ≡ some r
        → c.audio_streamer
          ≡ some (record {
            reader = r;
            payload_type = 111;
            barrier = is_some streams.video;
            muted = false;
            paused = c.muted || c.paused;
            running = true;
            done_flag = false;
            ns_sent = 0;
            on_end = some (record { stream_type = audio; device = microphone });
          })
    pub some_video :
        (r : Reader)
        → streams.video ≡ some r
        → c.video_streamer
          ≡ some (record {
            reader = r;
            payload_type = 100;
            barrier = is_some streams.audio;
            muted = false;
            paused = c.paused;
            running = true;
            done_flag = false;
            ns_sent = 0;
            on_end =
                if is_some streams.audio
                then none
                else some (record { stream_type = video; device = camera });
          })

  install-Holds :
      (c : GroupCall api Reader) (streams : Streams Reader) → Holds (install streams c) streams
  unfolding install fire fire_upgrade_if_changed new_with_barrier set_on_end Streamer.pause
  install-Holds c streams = ground arith

  abbrev Good : Streams Reader → GroupCall api Reader × Result (Unit {0}) → Type 0
  Good streams r = r.1 ≡ ok tt → Holds r.0 streams

  if-Good :
      (streams : Streams Reader) (up : Bool) (c : GroupCall api Reader)
      → (r : GroupCall api Reader × Result (Unit {0})) → Good streams r
      → Good streams (if up then (install streams c, ok tt) else r)
  if-Good streams true c r g h = install-Holds c streams
  if-Good streams false c r g h = g h

  err-Good :
      (streams : Streams Reader) (c : GroupCall api Reader) (e : Error) → Good streams (c, err e)
  err-Good streams c e h = ground arith

  if_closed-Good :
      (streams : Streams Reader) (closed : Bool) (c : GroupCall api Reader)
      → (r : GroupCall api Reader × Result (Unit {0})) → Good streams r
      → Good streams (if closed then (c, err Error.closed) else r)
  if_closed-Good streams true c r g = err-Good streams c Error.closed
  if_closed-Good streams false c r g = g

  -- If `set_source` succeeds the call holds the source, also if it had to wait.
  pub set_source-Holds :
      (wait : GroupCall api Reader → GroupCall api Reader) (streams : Streams Reader)
      → (c : GroupCall api Reader) → (set_source wait streams c).1 ≡ ok tt
      → Holds (set_source wait streams c).0 streams
  unfolding set_source
  set_source-Holds wait streams c =
      let late : GroupCall api Reader = if c.connect_called then wait c else c in
      if_closed-Good streams c.closed c _ (
        if-Good streams (is_connected (api.state c.stack) || (c.net_state == conn_code connected)) c
          _
          (if-Good streams (is_connected (api.state late.stack)) late _ (
            err-Good streams late
              (internal (lit "WebRTC connection timed out before set_source")))))

  -- If it fails, nothing is installed: the call is as it was, or as the wait left it.
  pub set_source-fails :
      (wait : GroupCall api Reader → GroupCall api Reader) (streams : Streams Reader)
      → (c : GroupCall api Reader) (e : Error) → (set_source wait streams c).1 ≡ err e
      → ((set_source wait streams c).0 ≡ c) ⊎ ((set_source wait streams c).0 ≡ wait c)
  unfolding set_source
  set_source-fails wait streams c e h = ground arith

  -- `set_source` does not look again whether the call is closed after its wait: a call that was
  -- connected and then stopped meanwhile gets the source, is closed, and has running streamers.
  pub set_source-after_stop :
      (wait : GroupCall api Reader → GroupCall api Reader) (streams : Streams Reader)
      → (c : GroupCall api Reader) → c.closed ≡ false
      → (is_connected (api.state c.stack) || (c.net_state == conn_code connected)) ≡ false
      → c.connect_called ≡ true
      → (wait c).closed ≡ true
      → is_connected (api.state (wait c).stack) ≡ true
      → let (c', r) = set_source wait streams c in
        (r ≡ ok tt) × (c'.closed ≡ true) × Holds c' streams
  unfolding set_source
  set_source-after_stop wait streams c h g called stopped up =
      ground (arith, install-Holds (wait c) streams)

-- ===== src/Client.antt =====
-- rusttgcalls.rs: the client, which has a call for each chat and hands its operations on to them.
use rusttgcalls.Prelude.{
  ℕ, Text, Bool, true, false, ◌&&◌, List, [], ◌∷◌, ◌++◌, Option, none, some, if◌then◌else◌,
}
use rusttgcalls.Models.{Error, Result, ok, err, MediaState}
use rusttgcalls.Process.{Command}
use rusttgcalls.Source.{Streams}
use rusttgcalls.StackApi.{StackApi}
use rusttgcalls.GroupCall.Base.{GroupCall, Callbacks}
use rusttgcalls.GroupCall.Base
use rusttgcalls.GroupCall.Media
use rusttgcalls.GroupCall.Control
use rusttgcalls.RtmpCall.{RtmpCall}
use rusttgcalls.RtmpCall
use rusttgcalls.Client.Calls.{get, insert, remove}
pub mod Calls
pub mod Chats
pub mod Lifecycle
pub mod Options
mod Tests

-- `Arc<dyn Call>`: one of the two kinds of call.
pub data Call (api : StackApi) (Reader : Type 0) : Type 0 where
  group : GroupCall api Reader → Call api Reader
  rtmp : RtmpCall Reader → Call api Reader

-- `Client`. A chat's id is the bits of its `i64`. `upgrades` are the calls of `on_upgrade`, and
-- `released` are the calls that the map has lost.
pub record Client (api : StackApi) (Reader : Type 0) : Type 0 where
  pub calls : List (ℕ × Call api Reader)
  pub on_stream_end : Bool
  pub on_connection_change : Bool
  pub on_upgrade : Bool
  pub upgrades : List (ℕ × MediaState)
  pub released : List (Call api Reader)

abbrev pub not_found : {A : Type 0} → Result A
not_found = err Error.connection_not_found

module _ {api : StackApi} {Reader : Type 0} where
  abbrev wrap {ℓ} :
      {A S : Type ℓ} → (S → Call api Reader) → S × Result A → Call api Reader × Result A
  wrap kind (s, r) = (kind s, r)

  -- The methods of the trait that the client calls.
  unfoldable pub call_connect : Text → Call api Reader → Call api Reader × Result (Unit {0})
  call_connect json (group g) = wrap group (Media.connect json g)
  call_connect json (rtmp c) = wrap rtmp (RtmpCall.connect json c)

  unfoldable pub call_pause : ℕ → Call api Reader → Call api Reader × Result Bool
  call_pause now (group g) = wrap group (Control.pause g)
  call_pause now (rtmp c) = wrap rtmp (RtmpCall.pause now c)

  unfoldable pub call_mute : Call api Reader → Call api Reader × Result Bool
  call_mute (group g) = wrap group (Control.mute g)
  call_mute (rtmp c) = wrap rtmp (RtmpCall.mute c)

  unfoldable pub call_unmute : Call api Reader → Call api Reader × Result Bool
  call_unmute (group g) = wrap group (Control.unmute g)
  call_unmute (rtmp c) = wrap rtmp (RtmpCall.unmute c)

  unfoldable pub call_stop : Call api Reader → Call api Reader × Result (Unit {0})
  call_stop (group g) = wrap group (Control.stop g)
  call_stop (rtmp c) = wrap rtmp (RtmpCall.stop c)

  unfoldable pub call_seek_by : ℕ → ℕ → Call api Reader → Call api Reader × Result (Unit {0})
  call_seek_by now delta_ms (group g) = (group g, Control.seek_by g)
  call_seek_by now delta_ms (rtmp c) = wrap rtmp (RtmpCall.seek_by now delta_ms c)

  unfoldable pub call_state : Call api Reader → MediaState
  call_state (group g) = Base.current_state g
  call_state (rtmp c) = RtmpCall.current_state c

  unfoldable pub call_elapsed_ms : ℕ → Call api Reader → ℕ
  call_elapsed_ms now (group g) = Control.elapsed_ms g
  call_elapsed_ms now (rtmp c) = RtmpCall.elapsed_ms now c

  unfoldable pub call_audio_ssrc : Call api Reader → Result ℕ
  call_audio_ssrc (group g) = ok (api.audio_ssrc g.stack)
  call_audio_ssrc (rtmp c) = RtmpCall.audio_ssrc c

  -- An operation on the call of a chat, which others may hold.
  unfoldable pub on_call :
      {A : Type 0}
      → (Call api Reader → Call api Reader × Result A)
      → ℕ
      → Client api Reader
      → Client api Reader × Result A
  on_call op chat c = elim (get chat c.calls) [
    | none ↦ (c, not_found)
    | some call ↦ let (call', r) = op call in (record c { calls = insert chat call' c.calls }, r)
  ]

  unfoldable pub ask_call :
      {A : Type 0} → (Call api Reader → Result A) → ℕ → Client api Reader → Result A
  ask_call question chat c = elim (get chat c.calls) [
    | none ↦ not_found
    | some call ↦ question call
  ]

  -- `if changed && let Some(ref cb) = … { cb(chat_id, call.state()) }`.
  unfoldable pub report : ℕ → Bool → Client api Reader → Client api Reader
  report chat changed c = elim (get chat c.calls) [
    | none ↦ c
    | some call ↦
        if changed && c.on_upgrade
        then record c { upgrades = c.upgrades ++ ((chat, call_state call) ∷ []) }
        else c
  ]

  -- `pause`, `resume`, `mute` and `unmute`, which differ in the method that they call.
  unfoldable pub switch_call :
      (Call api Reader → Call api Reader × Result Bool)
      → ℕ
      → Client api Reader
      → Client api Reader × Result Bool
  switch_call op chat c =
      let (c', r) = on_call op chat c in
      elim r [ err e ↦ (c', err e) | ok changed ↦ (report chat changed c', ok changed) ]

  unfoldable pub connect : ℕ → Text → Client api Reader → Client api Reader × Result (Unit {0})
  connect chat json = on_call (call_connect json) chat

  unfoldable pub pause : ℕ → ℕ → Client api Reader → Client api Reader × Result Bool
  pause now = switch_call (call_pause now)

  unfoldable pub mute : ℕ → Client api Reader → Client api Reader × Result Bool
  mute = switch_call call_mute

  unfoldable pub unmute : ℕ → Client api Reader → Client api Reader × Result Bool
  unmute = switch_call call_unmute

  unfoldable pub seek_by : ℕ → ℕ → ℕ → Client api Reader → Client api Reader × Result (Unit {0})
  seek_by now chat delta_ms = on_call (call_seek_by now delta_ms) chat

  unfoldable pub audio_ssrc : ℕ → Client api Reader → Result ℕ
  audio_ssrc = ask_call call_audio_ssrc

  unfoldable pub time : ℕ → ℕ → Client api Reader → Result ℕ
  time now = ask_call (λ call. ok (call_elapsed_ms now call))

  unfoldable pub state : ℕ → Client api Reader → Result MediaState
  state = ask_call (λ call. ok (call_state call))

  unfoldable pub stop : ℕ → Client api Reader → Client api Reader × Result (Unit {0})
  stop chat c = elim (get chat c.calls) [
    | none ↦ (c, ok tt)
    | some call ↦
        let (call', r) = call_stop call in
        (record c { calls = remove chat c.calls; released = c.released ++ (call' ∷ []) }, r)
  ]

  abbrev pub stop_all : List (ℕ × Call api Reader) → List (Call api Reader)
  stop_all [] = []
  stop_all ((chat, call) ∷ calls) = (call_stop call).0 ∷ stop_all calls

  unfoldable pub close : Client api Reader → Client api Reader × Result (Unit {0})
  close c = (record c { calls = []; released = c.released ++ stop_all c.calls }, ok tt)

  -- Only the end of a stream is handed on to the call's callbacks.
  abbrev pub events_for : Client api Reader → Callbacks
  events_for c = record {
    on_stream_end = c.on_stream_end;
    on_connection_change = false;
    on_upgrade = false;
  }

  abbrev has_call : ℕ → Client api Reader → Bool
  has_call chat c = elim (get chat c.calls) [ none ↦ false | some _ ↦ true ]

  -- A value that `insert` replaces leaves the map.
  abbrev replaced : Option (Call api Reader) → List (Call api Reader)
  replaced none = []
  replaced (some call) = call ∷ []

  abbrev add_call : ℕ → Call api Reader → Client api Reader → Client api Reader
  add_call chat call c = record c {
    calls = insert chat call c.calls;
    released = c.released ++ replaced (get chat c.calls);
  }

  -- `create_call`. `wait` is what the other tasks do while the stack is made, which comes out as
  -- `made`. The callbacks are those of the start, and a call has no dispatcher.
  unfoldable pub create_call :
      (Client api Reader → Client api Reader)
      → Result api.Stack
      → ℕ
      → Client api Reader
      → Client api Reader × Result Text
  create_call wait made chat c =
      if has_call chat c
      then (c, err Error.connection_exists)
      else let c' = wait c in
        elim made [
          | err e ↦ (c', err e)
          | ok stack ↦
              let call =
                Base.new_with_events {api = api} {Reader = Reader} stack false (events_for c) in
              elim (Media.create_local_params call) [
                | err e ↦ (c', err e)
                | ok json ↦ (add_call chat (group call) c', ok json)
              ]
        ]

  unfoldable pub create_rtmp_call :
      ℕ → Text → Client api Reader → Client api Reader × Result (Unit {0})
  create_rtmp_call chat rtmp_url c =
      if has_call chat c
      then (c, err Error.connection_exists)
      else (add_call chat (rtmp (RtmpCall.new_with_events rtmp_url false false)) c, ok tt)

-- `start` starts a process, `seconds` writes milliseconds as seconds, and `wait` is what the other tasks
-- do to a group call while it waits to be connected.
module _ {api : StackApi} {Reader : Type 0} (start : Command → Result Reader)
    (seconds : ℕ → Text) where
  unfoldable pub call_resume : ℕ → Call api Reader → Call api Reader × Result Bool
  call_resume now (group g) = wrap group (Control.resume g)
  call_resume now (rtmp c) = wrap rtmp (RtmpCall.resume start seconds now c)

  unfoldable pub call_set_source :
      (GroupCall api Reader → GroupCall api Reader)
      → ℕ
      → Streams Reader
      → Call api Reader
      → Call api Reader × Result (Unit {0})
  call_set_source wait now streams (group g) = wrap group (Media.set_source wait streams g)
  call_set_source wait now streams (rtmp c) =
      wrap rtmp (RtmpCall.set_source start seconds now streams c)

  unfoldable pub resume : ℕ → ℕ → Client api Reader → Client api Reader × Result Bool
  resume now = switch_call (call_resume now)

  unfoldable pub set_stream_sources :
      (GroupCall api Reader → GroupCall api Reader)
      → ℕ
      → ℕ
      → Streams Reader
      → Client api Reader
      → Client api Reader × Result (Unit {0})
  set_stream_sources wait now chat streams = on_call (call_set_source wait now streams) chat

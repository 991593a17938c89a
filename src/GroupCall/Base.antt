-- ===== src/GroupCall/Base.antt =====
-- The state of `GroupCall` of instances/group_call.rs, and how it reports events.
use rusttgcalls.Prelude.{
  ℕ, Bool, true, false, not, ◌||◌, List, [], ◌∷◌, ◌++◌, Option, none, some, if◌then◌else◌,
}
use rusttgcalls.Models.{
  Error, MediaState, media_state_eq, ConnState, connecting, connected, conn_code, Device,
  microphone, camera, StreamType, audio, video,
}
use rusttgcalls.Streamer.{Streamer, OnEnd, new_with_barrier, set_on_end}
use rusttgcalls.Streamer
use rusttgcalls.StackApi.{StackApi}

-- A call of one of the client's callbacks.
pub data Event : Type 0 where
  stream_end : StreamType → Device → Option Error → Event
  connection_change : ConnState → Event
  upgrade : MediaState → Event

-- Which callbacks of `GroupCallEvents` are set.
pub record Callbacks : Type 0 where
  pub on_stream_end : Bool
  pub on_connection_change : Bool
  pub on_upgrade : Bool

-- A task for the dispatcher runs its events in order.
abbrev pub Task : Type 0
Task = List Event

-- `GroupCall`. `called` are the callbacks that were run directly, `submitted` the tasks given to
-- the dispatcher. `retired` are the streamers that were taken out and stopped; their tasks may
-- still hold them.
pub record GroupCall (api : StackApi) (Reader : Type 0) : Type 0 where
  pub stack : api.Stack
  pub callbacks : Callbacks
  pub has_dispatcher : Bool
  pub audio_streamer : Option (Streamer Reader)
  pub video_streamer : Option (Streamer Reader)
  pub net_state : ℕ
  pub closed : Bool
  pub switching : Bool
  pub connect_called : Bool
  pub paused : Bool
  pub muted : Bool
  pub ended_once : Bool
  pub had_audio : Bool
  pub had_video : Bool
  pub resume_ms : ℕ
  pub called : List Event
  pub submitted : List Task
  pub retired : List (Streamer Reader)

abbrev pub is_some {ℓ} : {A : Type ℓ} → Option A → Bool
is_some none = false
is_some (some a) = true

abbrev pub to_list {ℓ} : {A : Type ℓ} → Option A → List A
to_list none = []
to_list (some a) = a ∷ []

abbrev pub is_connected : ConnState → Bool
is_connected connected = true
is_connected _ = false

-- `if let Some(ref a) = *slot { f(a) }`.
abbrev pub update {ℓ} : {A : Type ℓ} → (A → A) → Option A → Option A
update f none = none
update f (some a) = some (f a)

-- The events of an end: the video's first.
abbrev pub end_events : Bool → Bool → Option Error → Task
end_events had_audio had_video e =
    (if had_video then stream_end video camera e ∷ [] else [])
    ++ (if had_audio then stream_end audio microphone e ∷ [] else [])

module _ {api : StackApi} {Reader : Type 0} where
  -- `new_with_events`, on a fresh stack.
  unfoldable pub new_with_events : api.Stack → Bool → Callbacks → GroupCall api Reader
  new_with_events stack has_dispatcher callbacks = record {
    stack = stack;
    callbacks = callbacks;
    has_dispatcher = has_dispatcher;
    audio_streamer = none;
    video_streamer = none;
    net_state = conn_code connecting;
    closed = false;
    switching = false;
    connect_called = false;
    paused = false;
    muted = false;
    ended_once = false;
    had_audio = false;
    had_video = false;
    resume_ms = 0;
    called = [];
    submitted = [];
    retired = [];
  }

  -- A callback that is set is run by the dispatcher, or at once where there is none.
  unfoldable pub fire : Bool → Task → GroupCall api Reader → GroupCall api Reader
  fire is_set task c =
      if is_set
      then (if c.has_dispatcher
          then record c { submitted = c.submitted ++ (task ∷ []) }
          else record c { called = c.called ++ task })
      else c

  -- The state callback that `new_with_events` registers with the stack.
  unfoldable pub on_state_change : ConnState → GroupCall api Reader → GroupCall api Reader
  unfolding fire
  on_state_change s c =
      fire c.callbacks.on_connection_change (connection_change s ∷ [])
        (record c { net_state = conn_code s })

  unfoldable pub current_state : GroupCall api Reader → MediaState
  current_state c =
      let silent = c.muted || c.paused in
      record {
        muted = c.muted;
        paused = silent;
        video_stopped = not (is_some c.video_streamer);
        presentation_paused = silent;
      }

  unfoldable pub fire_upgrade_if_changed : MediaState → GroupCall api Reader → GroupCall api Reader
  unfolding fire current_state media_state_eq
  fire_upgrade_if_changed prev c =
      if media_state_eq prev (current_state c)
      then c
      else fire c.callbacks.on_upgrade (upgrade (current_state c) ∷ []) c

  unfoldable pub handle_streamer_end : Option Error → GroupCall api Reader → GroupCall api Reader
  unfolding fire
  handle_streamer_end e c =
      if c.closed || c.switching
      then c
      else if c.ended_once
      then c
      else fire c.callbacks.on_stream_end (end_events c.had_audio c.had_video e) (record c {
        ended_once = true;
        audio_streamer = update Streamer.stop c.audio_streamer;
        video_streamer = update Streamer.stop c.video_streamer;
      })

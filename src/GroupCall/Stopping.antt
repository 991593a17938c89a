-- ===== src/GroupCall/Stopping.antt =====
-- What a call leaves behind: every streamer that it gives up is stopped and has lost its callback.
use rusttgcalls.Prelude.{
  Text, Bool, true, false, List, ◌++◌, Option, none, some, ◌≡◌, refl, arith, Every, Every-append,
}
use rusttgcalls.Models.{Error, ok, err, ConnState}
use rusttgcalls.Source.{Streams}
use rusttgcalls.Streamer
use rusttgcalls.Streamer.{Streamer}
use rusttgcalls.StackApi.{StackApi}
use rusttgcalls.GroupCall.Base.{
  GroupCall, Callbacks, Task, new_with_events, to_list, update, fire, on_state_change,
  handle_streamer_end,
}
use rusttgcalls.GroupCall.Media.{install, connect, set_source, create_local_params}
use rusttgcalls.GroupCall.Control.{pause, resume, mute, unmute, stop, close_stack}

module _ {Reader : Type 0} where
  abbrev pub IsStopped : Streamer Reader → Type 0
  IsStopped s = (s.running ≡ false) × (s.on_end ≡ none)

  update-IsStopped :
      (o : Option (Streamer Reader)) → Every IsStopped (to_list (update Streamer.stop o))
  unfolding Streamer.stop
  update-IsStopped none = tt
  update-IsStopped (some s) = ((refl, refl), tt)

  given_up :
      (l : List (Streamer Reader)) (a v : Option (Streamer Reader))
      → Every IsStopped l
      → Every IsStopped
          (l ++ (to_list (update Streamer.stop a) ++ to_list (update Streamer.stop v)))
  given_up l a v h =
      Every-append IsStopped l _ h
        (Every-append IsStopped _ _ (update-IsStopped a) (update-IsStopped v))

module _ {api : StackApi} {Reader : Type 0} where
  -- A closed call holds no streamer and is neither paused nor muted, and what the call gave up is
  -- stopped.
  pub record IsValid (c : GroupCall api Reader) : Type 0 where
    pub no_audio : c.closed ≡ true → c.audio_streamer ≡ none
    pub no_video : c.closed ≡ true → c.video_streamer ≡ none
    pub not_paused : c.closed ≡ true → c.paused ≡ false
    pub not_muted : c.closed ≡ true → c.muted ≡ false
    pub given_up_stopped : Every IsStopped c.retired

  stop-IsValid : (c : GroupCall api Reader) → IsValid c → IsValid (stop c).0
  unfolding stop
  stop-IsValid c v =
      ground (arith, given_up c.retired c.audio_streamer c.video_streamer v.given_up_stopped)

  -- Reporting touches nothing that the invariant speaks of.
  fire-IsValid :
      (is_set : Bool) (task : Task) (c : GroupCall api Reader)
      → IsValid c
      → IsValid (fire is_set task c)
  unfolding fire
  fire-IsValid is_set task c v = ground arith

  pub install-IsValid :
      (c : GroupCall api Reader) (streams : Streams Reader)
      → c.closed ≡ false
      → IsValid c
      → IsValid (install streams c)
  unfolding install
  install-IsValid c streams h v =
      ground (arith, given_up c.retired c.audio_streamer c.video_streamer v.given_up_stopped)

  switches-IsValid :
      (c : GroupCall api Reader)
      → IsValid c
      → IsValid (pause c).0 × IsValid (resume c).0 × IsValid (mute c).0 × IsValid (unmute c).0
  unfolding pause resume mute unmute fire
  switches-IsValid c v = (ground arith, ground arith, ground arith, ground arith)

  handle_streamer_end-IsValid :
      (e : Option Error) (c : GroupCall api Reader) → IsValid c → IsValid (handle_streamer_end e c)
  unfolding handle_streamer_end
  handle_streamer_end-IsValid e c v = ground arith

  connect-IsValid :
      (json : Text) (c : GroupCall api Reader) → IsValid c → IsValid (connect json c).0
  unfolding connect fire
  connect-IsValid json c v = ground arith

  on_state_change-IsValid :
      (s : ConnState) (c : GroupCall api Reader) → IsValid c → IsValid (on_state_change s c)
  unfolding on_state_change fire
  on_state_change-IsValid s c v = ground arith

  close_stack-IsValid : (c : GroupCall api Reader) → IsValid c → IsValid (close_stack c)
  unfolding close_stack fire
  close_stack-IsValid c v = ground arith

-- One operation on a call. A source is installed into an open call: no `stop` falls into the wait of
-- `set_source`.
pub data Step {api : StackApi} {Reader : Type 0} (c : GroupCall api Reader)
    : GroupCall api Reader → Type 0 where
  pauses : Step c (pause c).0
  resumes : Step c (resume c).0
  mutes : Step c (mute c).0
  unmutes : Step c (unmute c).0
  stops : Step c (stop c).0
  closes_stack : Step c (close_stack c)
  connects : (json : Text) → Step c (connect json c).0
  changes : (s : ConnState) → Step c (on_state_change s c)
  ends : (e : Option Error) → Step c (handle_streamer_end e c)
  installs : (streams : Streams Reader) → c.closed ≡ false → Step c (install streams c)

pub data Reach {api : StackApi} {Reader : Type 0} (c : GroupCall api Reader)
    : GroupCall api Reader → Type 0 where
  here : Reach c c
  next : {d e : GroupCall api Reader} → Reach c d → Step d e → Reach c e

module _ {api : StackApi} {Reader : Type 0} where
  Step-IsValid : {c d : GroupCall api Reader} → Step c d → IsValid c → IsValid d
  Step-IsValid {c} pauses v = (switches-IsValid c v).0
  Step-IsValid {c} resumes v = (switches-IsValid c v).1
  Step-IsValid {c} mutes v = (switches-IsValid c v).2
  Step-IsValid {c} unmutes v = (switches-IsValid c v).3
  Step-IsValid {c} stops v = stop-IsValid c v
  Step-IsValid {c} closes_stack v = close_stack-IsValid c v
  Step-IsValid {c} (connects json) v = connect-IsValid json c v
  Step-IsValid {c} (changes s) v = on_state_change-IsValid s c v
  Step-IsValid {c} (ends e) v = handle_streamer_end-IsValid e c v
  Step-IsValid {c} (installs streams h) v = install-IsValid c streams h v

  Reach-IsValid : {c d : GroupCall api Reader} → Reach c d → IsValid c → IsValid d
  Reach-IsValid here v = v
  Reach-IsValid (next r s) v = Step-IsValid s (Reach-IsValid r v)

  new-IsValid :
      (stack : api.Stack) (has_dispatcher : Bool) (callbacks : Callbacks)
      → IsValid (new_with_events {api = api} {Reader = Reader} stack has_dispatcher callbacks)
  unfolding new_with_events
  new-IsValid stack has_dispatcher callbacks = ground arith

  -- Whatever is done to a new call, it holds no streamer once it is closed, and every streamer that
  -- it has given up is stopped and has no callback.
  pub Reach-new :
      (stack : api.Stack) (has_dispatcher : Bool) (callbacks : Callbacks)
      → {c : GroupCall api Reader}
      → Reach (new_with_events {api = api} {Reader = Reader} stack has_dispatcher callbacks) c
      → IsValid c
  Reach-new stack has_dispatcher callbacks r =
      Reach-IsValid r (new-IsValid stack has_dispatcher callbacks)

  closed_final :
      (c : GroupCall api Reader) (json : Text)
      → (wait : GroupCall api Reader → GroupCall api Reader) (streams : Streams Reader)
      → (e : Option Error) → c.closed ≡ true
      → (create_local_params c ≡ err Error.closed)
        × (connect json c ≡ (c, err Error.closed))
        × (set_source wait streams c ≡ (c, err Error.closed))
        × (pause c ≡ (c, err Error.closed))
        × (resume c ≡ (c, err Error.closed))
        × (mute c ≡ (c, err Error.closed))
        × (unmute c ≡ (c, err Error.closed))
        × (handle_streamer_end e c ≡ c)
        × (stop c ≡ (c, ok tt))
  unfolding create_local_params connect set_source pause resume mute unmute handle_streamer_end stop
  closed_final c json wait streams e h = (
    rw h,
    rw (h, connect),
    rw (h, set_source),
    rw (h, pause),
    rw (h, resume),
    rw (h, mute),
    rw (h, unmute),
    rw (h, handle_streamer_end),
    rw (h, stop),
  )

  stop-closed : (c : GroupCall api Reader) → (stop c).0.closed ≡ true
  unfolding stop
  stop-closed c = ground arith

  -- A stopped call refuses everything and stays as it is; stopping it again does nothing.
  pub stop-final :
      (c : GroupCall api Reader) (json : Text)
      → (wait : GroupCall api Reader → GroupCall api Reader) (streams : Streams Reader)
      → (e : Option Error)
      → let c' = (stop c).0 in
        (create_local_params c' ≡ err Error.closed)
        × (connect json c' ≡ (c', err Error.closed))
        × (set_source wait streams c' ≡ (c', err Error.closed))
        × (pause c' ≡ (c', err Error.closed))
        × (resume c' ≡ (c', err Error.closed))
        × (mute c' ≡ (c', err Error.closed))
        × (unmute c' ≡ (c', err Error.closed))
        × (handle_streamer_end e c' ≡ c')
        × (stop c' ≡ (c', ok tt))
  stop-final c json wait streams e = closed_final (stop c).0 json wait streams e (stop-closed c)

-- ===== src/GroupCall/Tests.antt =====
-- Calls on a transport that connects at once.
use rusttgcalls.Prelude.{ℕ, some, ◌≡◌, refl, true, false, [], ◌∷◌, arith}
use rusttgcalls.Models.{ok, ConnState, connecting, connected}
use rusttgcalls.Source.{Streams}
use rusttgcalls.StackApi.{StackApi}
use rusttgcalls.GroupCall.Base.{GroupCall, Callbacks, new_with_events}
use rusttgcalls.GroupCall.Media.{install, set_source}
use rusttgcalls.GroupCall.Control.{stop}
use rusttgcalls.GroupCall.Toggles.{
  pauses, resumes, mutes, stops, run, run_switches, switches, run_refines,
}
use rusttgcalls.GroupCall.Stopping.{IsValid, here, next, Step, Reach-new}
use rusttgcalls.GroupCall.Sources.{Holds, set_source-Holds, set_source-after_stop}

-- A transport that is its own state and connects to whatever it is given.
abbrev demo : StackApi
demo = record {
  Stack = ConnState;
  state = λ s. s;
  audio_ssrc = λ s. 7;
  get_local_params_json = λ s. ok [];
  connect = λ json s. (connected, ok tt);
  reset_media_track_state = λ s. s;
  close = λ s. ConnState.closed;
  state-reset = λ s. refl;
  state-close = λ s. refl;
}

abbrev Call : Type 0
Call = GroupCall demo ℕ

abbrev all_set : Callbacks
all_set = record { on_stream_end = true; on_connection_change = true; on_upgrade = true }

abbrev fresh : Call
fresh = new_with_events connecting false all_set

-- A connected call.
abbrev up : Call
up = new_with_events connected false all_set

abbrev both : Streams ℕ
both = record { audio = some 1; video = some 2 }

abbrev idle : Call → Call
idle c = c

run_refines_example :
    run up (pauses ∷ mutes ∷ pauses ∷ resumes ∷ stops ∷ mutes ∷ [])
    ≡ run_switches (switches up) (pauses ∷ mutes ∷ pauses ∷ resumes ∷ stops ∷ mutes ∷ [])
unfolding new_with_events
run_refines_example =
    run_refines (pauses ∷ mutes ∷ pauses ∷ resumes ∷ stops ∷ mutes ∷ []) up (ground arith)

Reach-new_example : IsValid (stop (install both up)).0
unfolding new_with_events
Reach-new_example =
    Reach-new connected false all_set (next (next here (Step.installs both refl)) Step.stops)

set_source-Holds_example : Holds (set_source idle both up).0 both
unfolding new_with_events set_source
set_source-Holds_example = set_source-Holds idle both up refl

-- While `set_source` waits, the transport connects and the call is stopped.
abbrev stopped_meanwhile : Call → Call
stopped_meanwhile c = record c { stack = connected; closed = true }

abbrev waiting : Call
waiting = record fresh { connect_called = true }

set_source-after_stop_example :
    let (c', r) = set_source stopped_meanwhile both waiting in
    (r ≡ ok tt) × (c'.closed ≡ true) × Holds c' both
unfolding new_with_events
set_source-after_stop_example =
    set_source-after_stop stopped_meanwhile both waiting refl refl refl refl refl

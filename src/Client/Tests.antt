-- ===== src/Client/Tests.antt =====
-- A client with a group call, on a transport that connects at once, and an RTMP call.
use rusttgcalls.Prelude.{ℕ, Text, List, some, ◌≡◌, refl, true, false, [], ◌∷◌}
use rusttgcalls.Models.{Result, ok, ConnState, connecting, connected}
use rusttgcalls.Process.{Command}
use rusttgcalls.StackApi.{StackApi}
use rusttgcalls.GroupCall.Base.{new_with_events}
use rusttgcalls.RtmpCall
use rusttgcalls.Client.{Call, group, rtmp, Client, create_call, events_for}
use rusttgcalls.Client.Calls.{get}
use rusttgcalls.Client.Chats.{
  Request, mutes, pauses, seeks, stops, creates, send_all, perform_all, send_all-get,
}
use rusttgcalls.Client.Lifecycle.{create_call-replaces}

abbrev demo : StackApi
demo = record {
  Stack = ConnState;
  state = λ s. s;
  audio_ssrc = λ s. 7;
  get_local_params_json = λ s. ok [];
  connect = λ json s. (connected, ok tt);
  reset_media_track_state = λ s. s;
  close = λ s. ConnState.closed;
  state-reset = λ s. refl;
  state-close = λ s. refl;
}

abbrev works : Command → Result ℕ
works c = ok 7

abbrev seconds : ℕ → Text
seconds d = []

abbrev first : Call demo ℕ
first = group (
    new_with_events connected false
      (record { on_stream_end = true; on_connection_change = false; on_upgrade = false }))

abbrev second : Call demo ℕ
second = rtmp (RtmpCall.new_with_events [] false false)

abbrev client : Client demo ℕ
client = record {
  calls = (1, first) ∷ (2, second) ∷ [];
  on_stream_end = true;
  on_connection_change = true;
  on_upgrade = true;
  upgrades = [];
  released = [];
}

abbrev requests : List (ℕ × Request demo ℕ)
requests =
    (1, mutes)
    ∷ (2, pauses 5)
    ∷ (1, pauses 6)
    ∷ (3, creates (ok connected))
    ∷ (3, mutes)
    ∷ (1, stops)
    ∷ (2, seeks 7 1)
    ∷ []

send_all-get_example :
    get 3 (send_all works seconds requests client).calls
    ≡ perform_all works seconds 3 (events_for client) requests (get 3 client.calls)
send_all-get_example = send_all-get works seconds requests 3 client

-- Another task creates a call for the chat while the stack is made.
abbrev overtaken : Client demo ℕ → Client demo ℕ
overtaken c = record c { calls = (3, first) ∷ [] }

create_call-replaces_example :
    let (c', r) = create_call overtaken (ok connecting) 3 client in
    (r ≡ ok [])
    × (get 3 c'.calls
        ≡ some (
            group (new_with_events {api = demo} {Reader = ℕ} connecting false (events_for client))))
    × (c'.released ≡ first ∷ [])
unfolding get
create_call-replaces_example =
    create_call-replaces overtaken connecting 3 client first [] refl refl refl

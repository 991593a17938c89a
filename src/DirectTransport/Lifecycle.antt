-- ===== src/DirectTransport/Lifecycle.antt =====
-- The transport's states, and the interface that a group call uses.
use rusttgcalls.Prelude.{ℕ, Text, true, false, List, none, some, lit, ◌≡◌, refl, arith}
use rusttgcalls.Models.{Result, ok, err, internal, ConnState, connected}
use rusttgcalls.StackApi.{StackApi}
use rusttgcalls.GroupCall.Base.{GroupCall, fire, on_state_change}
use rusttgcalls.GroupCall.Control.{close_stack}
use rusttgcalls.DirectTransport.{
  MediaApi, DirectTransport, reset_media_track_state, close, handshake_complete, send_rtp_bytes,
}

module _ {media : MediaApi} where
  -- A closed transport says so and has no keys and no peer.
  pub record IsValid (t : DirectTransport media) : Type 0 where
    pub says_closed : t.closed ≡ true → t.state ≡ ConnState.closed
    pub no_keys : t.closed ≡ true → t.srtp_context ≡ none
    pub no_peer : t.closed ≡ true → t.has_peer ≡ false

  pub close-IsValid : (t : DirectTransport media) → IsValid t → IsValid (close t).0
  unfolding close
  close-IsValid t v = ground arith

  pub reset-IsValid : (t : DirectTransport media) → IsValid t → IsValid (reset_media_track_state t)
  unfolding reset_media_track_state
  reset-IsValid t v = ground arith

  pub reset-state : (t : DirectTransport media) → (reset_media_track_state t).state ≡ t.state
  unfolding reset_media_track_state
  reset-state t = refl

  pub close-state : (t : DirectTransport media) → IsValid t → (close t).0.state ≡ ConnState.closed
  unfolding close
  close-state t v = ground arith

  -- A closed transport sends nothing: sending fails and changes nothing, and so does a second close,
  -- which does not fail; it goes on to say that it is closed.
  pub close-final :
      (payload_type duration : ℕ) (payload : List ℕ) (t : DirectTransport media)
      → IsValid t
      → let t' = (close t).0 in
        (t'.state ≡ ConnState.closed)
        × (send_rtp_bytes payload_type payload duration t'
            ≡ (t', err (internal (lit "transport is closed"))))
        × (close t' ≡ (t', ok tt))
  unfolding close send_rtp_bytes
  close-final payload_type duration payload t v = (ground arith, ground arith, ground arith)

  -- The transport is closed under no lock of the receiving task. If that is at a handshake's end just
  -- then, the transport is closed, says that it is connected, and has keys again.
  pub handshake-after_close :
      (enc dec : media.Context) (t : DirectTransport media)
      → t.closed ≡ false
      → let t' = handshake_complete enc dec (close t).0 in
        (t'.closed ≡ true) × (t'.state ≡ connected) × (t'.srtp_context ≡ some enc)
  unfolding handshake_complete close
  handshake-after_close enc dec t h = (ground arith, ground arith, ground arith)

  -- The end of a second handshake does not touch the keys of the first.
  pub handshake-once :
      (enc dec enc' dec' : media.Context) (t : DirectTransport media)
      → handshake_complete enc' dec' (handshake_complete enc dec t) ≡ handshake_complete enc dec t
  unfolding handshake_complete
  handshake-once enc dec enc' dec' t = ground arith

-- A transport that has not been closed in the middle of a handshake.
abbrev pub ValidTransport : MediaApi → Type 0
ValidTransport media = (t : DirectTransport media) × IsValid t

-- The interface of a group call on such transports. `params` writes the local parameters as JSON, and
-- `connect` is the handshake.
abbrev pub stack_api :
    (media : MediaApi)
    → (ValidTransport media → Result Text)
    → (Text → ValidTransport media → ValidTransport media × Result (Unit {0}))
    → StackApi
stack_api media params connect = record {
  Stack = ValidTransport media;
  state = λ (t, v). t.state;
  audio_ssrc = λ (t, v). t.audio_ssrc;
  get_local_params_json = params;
  connect = connect;
  reset_media_track_state = λ (t, v). (reset_media_track_state t, reset-IsValid t v);
  close = λ (t, v). ((close t).0, close-IsValid t v);
  state-reset = λ (t, v). reset-state t;
  state-close = λ (t, v). close-state t v;
}

-- When a group call on such a transport has closed its stack, nothing is sent any more, whatever the
-- streamers that it has given up still try.
pub close_stack-silences :
    (media : MediaApi) (params : ValidTransport media → Result Text)
    → (connect : Text → ValidTransport media → ValidTransport media × Result (Unit {0}))
    → {Reader : Type 0} (c : GroupCall (stack_api media params connect) Reader)
    → (payload_type duration : ℕ) (payload : List ℕ)
    → let t = (close_stack c).stack.0 in
      (t.state ≡ ConnState.closed)
      × (send_rtp_bytes payload_type payload duration t
          ≡ (t, err (internal (lit "transport is closed"))))
unfolding close_stack on_state_change fire
close_stack-silences media params connect c payload_type duration payload =
    let (says, fails, _) = close-final payload_type duration payload c.stack.0 c.stack.1 in
    ground (arith, says, fails)

-- ===== src/DirectTransport/Worker.antt =====
-- wrtc/native/direct_transport.rs: `connect` and the task that it spawns, which answers STUN, runs the DTLS
-- handshake, reports and reads feedback. DTLS, STUN messages and decryption are those of other crates.
use rusttgcalls.Prelude.{
  ℕ, Text, Bool, true, false, not, ◌&&◌, ◌||◌, List, [], ◌∷◌, ◌++◌, Option, none, some,
  if◌then◌else◌, lit, ltb, leb, length, take, drop, text_eq,
}
use rusttgcalls.Models.{Result, ok, err, internal, invalid_params, connecting}
use rusttgcalls.Keys.{ProtectionProfile, derive_srtp_keying_material_both}
use rusttgcalls.Signaling.{is_empty}
use rusttgcalls.Signaling.Remote.{Decoded, parse_remote, SocketAddr, select}
use rusttgcalls.GroupCall.Base.{is_connected}
use rusttgcalls.DirectTransport.{
  MediaApi, DirectTransport, handshake_complete, emit_rtcp_sender_reports,
}

-- The DTLS endpoint, STUN messages, and what a context does with feedback. `read` gives the events of a
-- record, each with whether it is `HandshakeComplete`, or fails; `stun_request` tells whether a message
-- that can be read is a binding request; `decrypt_rtcp` gives, for each packet that can be read, whether
-- it is payload-specific feedback.
pub record WireApi (media : MediaApi) : Type 1 where
  pub Dtls : Type 0
  pub read : List ℕ → Dtls → Dtls × Option (List Bool)
  pub poll : Dtls → Dtls × List (List ℕ)
  pub handle_timeout : Dtls → Dtls
  pub profile : Dtls → Option ProtectionProfile
  pub export_keying_material : Dtls → Option (List ℕ)
  pub new_context : List ℕ → List ℕ → ProtectionProfile → Option media.Context
  pub stun_request : List ℕ → Option Bool
  pub stun_response : List ℕ → Option (List ℕ)
  pub decrypt_rtcp : List ℕ → media.Context → media.Context × Option (List Bool)

-- `connect` up to the socket. `decoded` is what serde reads, `is_udp`, `parse_ip` and `parse_port` are as in
-- the choice of the candidate, and `bound` is what binding the socket gives.
unfoldable pub open_socket :
    {media : MediaApi}
    → (Text → Bool)
    → (Text → Option Bool)
    → (Text → Option ℕ)
    → Result (Unit {0})
    → Decoded
    → DirectTransport media
    → DirectTransport media × Result SocketAddr
open_socket is_udp parse_ip parse_port bound decoded t =
    if t.closed
    then (t, err (internal (lit "transport is closed")))
    else let t' = record t { state = connecting } in
      elim (parse_remote decoded) [
        | err e ↦ (t', err e)
        | ok remote ↦ elim remote.fingerprints [
          | [] ↦ (t', err (invalid_params (lit "remote transport missing DTLS fingerprint")))
          | first ∷ _ ↦
              if is_empty first.fingerprint
              then (t', err (invalid_params (lit "empty remote DTLS fingerprint")))
              else elim (select is_udp parse_ip parse_port remote.candidates none) [
                | none ↦ (t', err (invalid_params (lit "no valid remote UDP candidate found")))
                | some addr ↦ elim bound [
                  | err e ↦ (t', err e)
                  | ok _ ↦ (record t' { has_peer = true }, ok addr)
                ]
              ]
        ]
      ]

-- The task, and the datagrams that it has sent but for reports.
pub record Worker {media : MediaApi} (wire : WireApi media) : Type 0 where
  pub transport : DirectTransport media
  pub dtls : wire.Dtls
  pub stun_req : List ℕ
  pub sent : List (List ℕ)

abbrev byte_at : ℕ → List ℕ → ℕ
byte_at i bytes = elim (drop i bytes) [ [] ↦ 0 | b ∷ _ ↦ b ]

-- `n >= 20 && data[4..8] == [0x21, 0x12, 0xa4, 0x42]`.
abbrev pub is_stun : List ℕ → Bool
is_stun bytes =
    leb 20 (length bytes) && text_eq (take 4 (drop 4 bytes)) (0x21 ∷ 0x12 ∷ 0xa4 ∷ 0x42 ∷ [])

abbrev pub is_dtls : List ℕ → Bool
is_dtls bytes = leb 20 (byte_at 0 bytes) && leb (byte_at 0 bytes) 23

abbrev pub is_rtp : List ℕ → Bool
is_rtp bytes = leb 128 (byte_at 0 bytes)

abbrev any : List Bool → Bool
any [] = false
any (true ∷ l) = true
any (false ∷ l) = any l

module _ {media : MediaApi} (wire : WireApi media) where
  -- `derive_srtp_from_dtls`: the contexts to encrypt and to decrypt with.
  unfoldable pub derive_srtp_from_dtls : wire.Dtls → Option (media.Context × media.Context)
  derive_srtp_from_dtls dtls = elim (wire.profile dtls) [
    | none ↦ none
    | some profile ↦ elim (wire.export_keying_material dtls) [
      | none ↦ none
      | some material ↦ elim (derive_srtp_keying_material_both material profile) [
        | err e ↦ none
        | ok keys ↦ elim (wire.new_context keys.server_key keys.server_salt profile) [
          | none ↦ none
          | some enc ↦ elim (wire.new_context keys.client_key keys.client_salt profile) [
            | none ↦ none
            | some dec ↦ some (enc, dec)
          ]
        ]
      ]
    ]
  ]

  unfoldable pub handle_stun_packet : List ℕ → Option (List ℕ)
  handle_stun_packet bytes = elim (wire.stun_request bytes) [
    | none ↦ none
    | some is_request ↦ if is_request then wire.stun_response bytes else none
  ]

  -- The loop over the events of a DTLS record.
  unfoldable pub handle_events :
      List Bool → wire.Dtls → DirectTransport media → DirectTransport media
  unfolding derive_srtp_from_dtls
  handle_events [] dtls t = t
  handle_events (is_complete ∷ l) dtls t = handle_events l dtls (
      if is_complete
      then elim (derive_srtp_from_dtls dtls) [
        | none ↦ t
        | some (enc, dec) ↦ handshake_complete enc dec t
      ]
      else t)

  unfoldable pub handle_dtls_packet : List ℕ → Worker wire → Worker wire
  unfolding handle_events
  handle_dtls_packet bytes w =
      let (dtls, r) = wire.read bytes w.dtls in
      elim r [
        | none ↦ record w { dtls = dtls }
        | some events ↦
            let (dtls', transmits) = wire.poll dtls in
            record w {
              dtls = dtls';
              transport = handle_events events dtls' w.transport;
              sent = w.sent ++ transmits;
            }
      ]

  -- Feedback is decrypted and noted.
  unfoldable pub handle_feedback : List ℕ → DirectTransport media → DirectTransport media
  handle_feedback bytes t = elim t.decrypt_srtp_context [
    | none ↦ t
    | some context ↦
        let (context', r) = wire.decrypt_rtcp bytes context in
        let t' = record t { decrypt_srtp_context = some context' } in
        elim r [
          | none ↦ t'
          | some packets ↦ if any packets then record t' { pli_requested = true } else t'
        ]
  ]

  -- A datagram of `recv_from`, of which the buffer holds 4096 bytes.
  unfoldable pub receive : List ℕ → Worker wire → Worker wire
  unfolding handle_stun_packet handle_dtls_packet handle_feedback
  receive datagram w =
      let bytes = take 4096 datagram in
      if not (ltb 0 (length bytes))
      then w
      else if is_stun bytes
      then elim (handle_stun_packet bytes) [
        | none ↦ w
        | some reply ↦ record w { sent = w.sent ++ (reply ∷ []) }
      ]
      else if is_dtls bytes
      then handle_dtls_packet bytes w
      else if is_rtp bytes
      then record w { transport = handle_feedback bytes w.transport }
      else w

  -- The timers: DTLS retransmits until the transport is connected, the STUN request is sent again, and
  -- the reports go out on the task's own socket.
  unfoldable pub dtls_timeout : Worker wire → Worker wire
  dtls_timeout w =
      if is_connected w.transport.state
      then w
      else let (dtls, transmits) = wire.poll (wire.handle_timeout w.dtls) in
        record w { dtls = dtls; sent = w.sent ++ transmits }

  unfoldable pub stun_timer : Worker wire → Worker wire
  stun_timer w = record w { sent = w.sent ++ (w.stun_req ∷ []) }

  unfoldable pub rtcp_timer : Worker wire → Worker wire
  rtcp_timer w =
      let t' = emit_rtcp_sender_reports (record w.transport { has_peer = true }) in
      record w { transport = record t' { has_peer = w.transport.has_peer } }

-- The end of `connect`: connected at once, or woken by the notification, or not connected in ten seconds. The
-- transport is `t` when the wait begins and `later` when it ends.
unfoldable pub await_connected :
    {media : MediaApi} → DirectTransport media → DirectTransport media → Result (Unit {0})
await_connected t later =
    if is_connected t.state || (ltb t.notified later.notified || is_connected later.state)
    then ok tt
    else err (internal (lit "timeout waiting for DTLS handshake to complete with Telegram SFU"))

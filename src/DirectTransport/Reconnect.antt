-- ===== src/DirectTransport/Reconnect.antt =====
-- A second `connect` on a transport that has been connected.
use rusttgcalls.Prelude.{
  ℕ, Text, Bool, true, false, List, [], ◌∷◌, Option, some, ◌≡◌, inl, inr, refl, arith, Option-cases,
  lit,
}
use rusttgcalls.Models.{Result, ok, err, internal, connecting, Result-cases}
use rusttgcalls.Signaling.Remote.{Decoded, SocketAddr}
use rusttgcalls.GroupCall.Base.{is_some}
use rusttgcalls.DirectTransport.{
  Header, video_header, is_empty, add_u16, add_u32, video_inc, MediaApi, DirectTransport,
  reset_media_track_state, emit_rtcp_sender_reports, start_epoch, send_audio, send_packets,
  send_chunks, encrypt_chunks, send_video, send_rtp_bytes,
}
use rusttgcalls.DirectTransport.Worker.{
  WireApi, Worker, open_socket, receive, dtls_timeout, stun_timer, rtcp_timer, await_connected,
}
use rusttgcalls.DirectTransport.Handshake.{keeps, connects, receive-Effect}

module _ {media : MediaApi} where
  -- A transport that has its keys and is waiting to be connected again, of which those who wait have been
  -- told `n` times.
  pub record IsReconnecting (n : ℕ) (t : DirectTransport media) : Type 0 where
    pub waits : t.state ≡ connecting
    pub not_told : t.notified ≡ n
    pub has_keys : is_some t.srtp_context ≡ true

module _ {media : MediaApi} {n : ℕ} where
  reset-IsReconnecting :
      (t : DirectTransport media)
      → IsReconnecting n t
      → IsReconnecting n (reset_media_track_state t)
  unfolding reset_media_track_state
  reset-IsReconnecting t v = ground arith

  reports-IsReconnecting :
      (t : DirectTransport media)
      → IsReconnecting n t
      → IsReconnecting n (emit_rtcp_sender_reports t)
  unfolding emit_rtcp_sender_reports
  reports-IsReconnecting t v = ground arith

  start-IsReconnecting :
      (t : DirectTransport media) → IsReconnecting n t → IsReconnecting n (start_epoch t)
  unfolding start_epoch
  start-IsReconnecting t v =
      ground
        (arith, reports-IsReconnecting (record t { media_epoch = some (t.audio_ts, t.video_ts) }))

  audio-IsReconnecting :
      (payload_type : ℕ) (payload : List ℕ) (duration : ℕ) (t : DirectTransport media)
      → IsReconnecting n t
      → IsReconnecting n (send_audio payload_type payload duration t).0
  unfolding send_audio
  audio-IsReconnecting payload_type payload duration t v = ground arith

  encrypt-IsReconnecting :
      (ts : ℕ) (chunks : List (List ℕ)) (context : media.Context) (t : DirectTransport media)
      → IsReconnecting n t
      → IsReconnecting n (encrypt_chunks ts chunks context t).0
  unfolding encrypt_chunks
  encrypt-IsReconnecting ts [] context t v = v
  encrypt-IsReconnecting ts (chunk ∷ chunks) context t v =
      let context' = (media.encrypt_rtp (video_header ts (is_empty chunks) t) chunk context).0 in
      let t' = record t { video_seq = add_u16 t.video_seq 1; srtp_context = some context' } in
      ground (
        arith,
        encrypt-IsReconnecting ts chunks context' t'
            (record { waits = v.waits; not_told = v.not_told; has_keys = refl }),
      )

  packets-IsReconnecting :
      (l : List (Header × List ℕ × List ℕ)) (t : DirectTransport media)
      → IsReconnecting n t
      → IsReconnecting n (send_packets l t)
  unfolding send_packets
  packets-IsReconnecting [] t v = v
  packets-IsReconnecting ((h, chunk, bytes) ∷ l) t v =
      packets-IsReconnecting l _
        (record { waits = v.waits; not_told = v.not_told; has_keys = v.has_keys })

  chunks-IsReconnecting :
      (ts : ℕ) (chunks : List (List ℕ)) (t : DirectTransport media)
      → IsReconnecting n t
      → IsReconnecting n (send_chunks ts chunks t).0
  unfolding send_chunks
  chunks-IsReconnecting ts chunks t v = elim (Option-cases t.srtp_context) [
    | inl e ↦ ground (arith, e, v)
    | inr (context, e) ↦
        let (t', r) = encrypt_chunks ts chunks context t in
        let v' = encrypt-IsReconnecting ts chunks context t v in
        elim (Result-cases r) [
          | inl (l, q) ↦ ground (arith, e, q, v', packets-IsReconnecting l t' v')
          | inr (x, q) ↦ ground (arith, e, q, v')
        ]
  ]

  video-IsReconnecting :
      (payload : List ℕ) (duration : ℕ) (t : DirectTransport media)
      → IsReconnecting n t
      → IsReconnecting n (send_video payload duration t).0
  unfolding send_video
  video-IsReconnecting payload duration t v =
      let (payloader, r) = media.payload 1180 payload t.video_payloader in
      let t' = record t {
        video_ts = add_u32 t.video_ts (video_inc duration);
        first_video = false;
        video_payloader = payloader;
      } in
      let v' : IsReconnecting n t' = record {
        waits = v.waits;
        not_told = v.not_told;
        has_keys = v.has_keys;
      } in
      elim (Result-cases r) [
        | inl (chunks, q) ↦ ground (arith, q, chunks-IsReconnecting t.video_ts chunks t' v')
        | inr (x, q) ↦ ground (arith, q, v')
      ]

  send-IsReconnecting :
      (payload_type : ℕ) (payload : List ℕ) (duration : ℕ) (t : DirectTransport media)
      → IsReconnecting n t
      → IsReconnecting n (send_rtp_bytes payload_type payload duration t).0
  unfolding send_rtp_bytes
  send-IsReconnecting payload_type payload duration t v =
      let t' = start_epoch t in
      let v' = start-IsReconnecting t v in
      ground (
        arith,
        v',
        audio-IsReconnecting payload_type payload duration t' v',
        video-IsReconnecting payload duration t' v',
      )

module _ {media : MediaApi} where
  open-IsReconnecting :
      (is_udp : Text → Bool) (parse_ip : Text → Option Bool) (parse_port : Text → Option ℕ)
      → (bound : Result (Unit {0})) (decoded : Decoded) (t : DirectTransport media)
      → t.closed ≡ false
      → is_some t.srtp_context ≡ true
      → IsReconnecting t.notified (open_socket is_udp parse_ip parse_port bound decoded t).0
  unfolding open_socket
  open-IsReconnecting is_udp parse_ip parse_port bound decoded t h k = ground (arith, h, k)

-- What happens to a transport while it is not closed: the task's timers and datagrams, and what is sent.
pub data Event : Type 0 where
  dtls_ticks stun_ticks rtcp_ticks resets : Event
  receives : List ℕ → Event
  sends : ℕ → List ℕ → ℕ → Event

module _ {media : MediaApi} (wire : WireApi media) where
  unfoldable pub step : Event → Worker wire → Worker wire
  step dtls_ticks w = dtls_timeout wire w
  step stun_ticks w = stun_timer wire w
  step rtcp_ticks w = rtcp_timer wire w
  step resets w = record w { transport = reset_media_track_state w.transport }
  step (receives bytes) w = receive wire bytes w
  step (sends payload_type payload duration) w = record w {
    transport = (send_rtp_bytes payload_type payload duration w.transport).0;
  }

  unfoldable pub run : List Event → Worker wire → Worker wire
  run [] w = w
  run (e ∷ l) w = run l (step e w)

module _ {media : MediaApi} (wire : WireApi media) {n : ℕ} where
  receive-IsReconnecting :
      (bytes : List ℕ) (w : Worker wire)
      → IsReconnecting n w.transport
      → IsReconnecting n (receive wire bytes w).transport
  receive-IsReconnecting bytes w v = elim ((receive-Effect wire bytes w).1) [
    | keeps s k o ↦ ground (arith, s, k, o, v)
    | connects c e s k o ↦ ground (arith, e, v)
  ]

  step-IsReconnecting :
      (e : Event) (w : Worker wire)
      → IsReconnecting n w.transport
      → IsReconnecting n (step wire e w).transport
  unfolding step dtls_timeout stun_timer rtcp_timer
  step-IsReconnecting dtls_ticks w v = ground arith
  step-IsReconnecting stun_ticks w v = v
  step-IsReconnecting rtcp_ticks w v =
      let v' =
        reports-IsReconnecting (record w.transport { has_peer = true })
          (record { waits = v.waits; not_told = v.not_told; has_keys = v.has_keys }) in
      record { waits = v'.waits; not_told = v'.not_told; has_keys = v'.has_keys }
  step-IsReconnecting resets w v = reset-IsReconnecting w.transport v
  step-IsReconnecting (receives bytes) w v = receive-IsReconnecting bytes w v
  step-IsReconnecting (sends payload_type payload duration) w v =
      send-IsReconnecting payload_type payload duration w.transport v

  run-IsReconnecting :
      (l : List Event) (w : Worker wire)
      → IsReconnecting n w.transport
      → IsReconnecting n (run wire l w).transport
  unfolding run
  run-IsReconnecting [] w v = v
  run-IsReconnecting (e ∷ l) w v = run-IsReconnecting l (step wire e w) (step-IsReconnecting e w v)

module _ {media : MediaApi} (wire : WireApi media) where
  -- If a transport that is open and has keys is connected again, whatever datagrams come and whatever is
  -- sent, it does not get to be connected and nobody who waits for that is woken: the second `connect`, if
  -- it has found its socket, runs into its time limit.
  pub connect-again :
      (is_udp : Text → Bool) (parse_ip : Text → Option Bool) (parse_port : Text → Option ℕ)
      → (bound : Result (Unit {0})) (decoded : Decoded) (l : List Event) (w : Worker wire)
        (addr : SocketAddr)
      → w.transport.closed ≡ false
      → is_some w.transport.srtp_context ≡ true
      → (open_socket is_udp parse_ip parse_port bound decoded w.transport).1 ≡ ok addr
      → let t = (open_socket is_udp parse_ip parse_port bound decoded w.transport).0 in
        let later = (run wire l (record w { transport = t })).transport in
        (later.state ≡ connecting)
        × (await_connected t later
            ≡ err
                (internal (lit "timeout waiting for DTLS handshake to complete with Telegram SFU")))
  unfolding await_connected
  connect-again is_udp parse_ip parse_port bound decoded l w addr h k e =
      let t = (open_socket is_udp parse_ip parse_port bound decoded w.transport).0 in
      let v = open-IsReconnecting is_udp parse_ip parse_port bound decoded w.transport h k in
      let v' = run-IsReconnecting wire l (record w { transport = t }) v in
      (v'.waits, ground (arith, v.waits, v'.waits, v'.not_told))

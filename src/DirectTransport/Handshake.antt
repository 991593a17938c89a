-- ===== src/DirectTransport/Handshake.antt =====
-- What a datagram can change, and which keys a handshake gives.
use rusttgcalls.Prelude.{
  ap, ◌+◌, ℕ, Bool, true, false, List, [], ◌∷◌, ◌++◌, none, some, ◌≡◌, ◌⊎◌, inl, inr, refl, sym,
  ◌∙◌, arith, take, length, ltb, Bool-cases, Option-cases,
}
use rusttgcalls.Models.{connected}
use rusttgcalls.Keys.{ProtectionProfile, Keys}
use rusttgcalls.Keys.Layout.{IsFor, material_of, derive-material_of}
use rusttgcalls.DirectTransport.{MediaApi, DirectTransport, handshake_complete}
use rusttgcalls.DirectTransport.Worker.{
  WireApi, Worker, is_stun, is_dtls, is_rtp, derive_srtp_from_dtls, handle_stun_packet,
  handle_events, handle_dtls_packet, handle_feedback, receive,
}

module _ {media : MediaApi} where
  -- Nothing of what is sent has changed.
  pub record SendsSame (t t' : DirectTransport media) : Type 0 where
    pub same_closed : t'.closed ≡ t.closed
    pub same_peer : t'.has_peer ≡ t.has_peer
    pub same_audio : (t'.audio_seq ≡ t.audio_seq) × (t'.audio_ts ≡ t.audio_ts)
    pub same_video : (t'.video_seq ≡ t.video_seq) × (t'.video_ts ≡ t.video_ts)
    pub same_sent : t'.sent ≡ t.sent

  -- The state and the keys are as they were and nobody is told, or the transport had no keys and now has some and is connected.
  pub data Effect (t t' : DirectTransport media) : Type 0 where
    keeps :
        t'.state ≡ t.state
        → t'.srtp_context ≡ t.srtp_context
        → t'.notified ≡ t.notified
        → Effect t t'
    connects :
        (c : media.Context)
        → t.srtp_context ≡ none
        → t'.state ≡ connected
        → t'.srtp_context ≡ some c
        → t'.notified ≡ t.notified + 1
        → Effect t t'

  handshake-Effect :
      (enc dec : media.Context) (t : DirectTransport media)
      → Effect t (handshake_complete enc dec t) × SendsSame t (handshake_complete enc dec t)
  unfolding handshake_complete
  handshake-Effect enc dec t = elim (Option-cases t.srtp_context) [
    | inl e ↦ (
      connects enc e (ground (arith, e)) (ground (arith, e)) (ground (arith, e)),
      ground (arith, e),
    )
    | inr (c, e) ↦
        (keeps (ground (arith, e)) (ground (arith, e)) (ground (arith, e)), ground (arith, e))
  ]

  Effect-trans : {t u v : DirectTransport media} → Effect t u → Effect u v → Effect t v
  Effect-trans (keeps a b c) (keeps a' b' c') = keeps (a' ∙ a) (b' ∙ b) (c' ∙ c)
  Effect-trans (keeps a b m) (connects c n s k o) =
      connects c (sym b ∙ n) s k (o ∙ ap (λ i. i + 1) m)
  Effect-trans (connects c n s k o) (keeps a b m) = connects c n (a ∙ s) (b ∙ k) (m ∙ o)
  Effect-trans (connects c n s k o) (connects c' n' s' k' o') = cc

  SendsSame-trans : {t u v : DirectTransport media} → SendsSame t u → SendsSame u v → SendsSame t v
  SendsSame-trans a b = ground (arith, a, b)

module _ {media : MediaApi} (wire : WireApi media) where
  events-Effect :
      (l : List Bool) (dtls : wire.Dtls) (t : DirectTransport media)
      → Effect t (handle_events wire l dtls t) × SendsSame t (handle_events wire l dtls t)
  unfolding handle_events
  events-Effect [] dtls t = (keeps refl refl refl, ground arith)
  events-Effect (false ∷ l) dtls t = events-Effect l dtls t
  events-Effect (true ∷ l) dtls t = elim (Option-cases (derive_srtp_from_dtls wire dtls)) [
    | inl e ↦ rw e (events-Effect l dtls t)
    | inr ((enc, dec), e) ↦
        let (one, same) = handshake-Effect enc dec t in
        let (more, same') = events-Effect l dtls (handshake_complete enc dec t) in
        rw e (Effect-trans one more, SendsSame-trans same same')
  ]

  dtls-Effect :
      (bytes : List ℕ) (w : Worker wire)
      → let t' = (handle_dtls_packet wire bytes w).transport in
        Effect w.transport t' × SendsSame w.transport t'
  unfolding handle_dtls_packet
  dtls-Effect bytes w = elim (Option-cases (wire.read bytes w.dtls).1) [
    | inl e ↦ rw (e, handle_dtls_packet) (keeps refl refl refl, ground arith)
    | inr (events, e) ↦
        rw (e, handle_dtls_packet)
          (events-Effect events (wire.poll (wire.read bytes w.dtls).0).0 w.transport)
  ]

  feedback-same :
      (bytes : List ℕ) (t : DirectTransport media)
      → let t' = handle_feedback wire bytes t in
        (t'.state ≡ t.state)
        × (t'.srtp_context ≡ t.srtp_context)
        × (t'.notified ≡ t.notified)
        × SendsSame t t'
  unfolding handle_feedback
  feedback-same bytes t = (ground arith, ground arith, ground arith, ground arith)

  -- A datagram touches nothing of what is sent. It changes the state or the keys only if it is a DTLS
  -- record and the transport had no keys; then there are keys, the transport is connected, and whoever
  -- waits for that is told once, which does not happen otherwise.
  pub receive-Effect :
      (datagram : List ℕ) (w : Worker wire)
      → let t' = (receive wire datagram w).transport in
        SendsSame w.transport t'
        × Effect w.transport t'
        × ((is_dtls (take 4096 datagram) ≡ true)
            ⊎ ((t'.state ≡ w.transport.state) × (t'.srtp_context ≡ w.transport.srtp_context)))
  unfolding receive
  receive-Effect datagram w =
      let bytes = take 4096 datagram in
      let t = w.transport in
      let (dtls_effect, dtls_same) = dtls-Effect bytes w in
      let (state, keys, told, same) = feedback-same bytes t in
      let still : SendsSame t t = ground arith in
      elim (Bool-cases (ltb 0 (length bytes))) [
        | inr e ↦ rw e (still, keeps refl refl refl, inr (refl, refl))
        | inl e ↦ elim (Bool-cases (is_stun bytes)) [
          | inl s ↦ elim (Option-cases (handle_stun_packet wire bytes)) [
            | inl q ↦ rw (e, s, q) (still, keeps refl refl refl, inr (refl, refl))
            | inr (reply, q) ↦ rw (e, s, q) (still, keeps refl refl refl, inr (refl, refl))
          ]
          | inr s ↦ elim (Bool-cases (is_dtls bytes)) [
            | inl d ↦ rw (e, s, d) (dtls_same, dtls_effect, inl refl)
            | inr d ↦ elim (Bool-cases (is_rtp bytes)) [
              | inl r ↦ rw (e, s, d, r) (same, keeps state keys told, inr (state, keys))
              | inr r ↦ rw (e, s, d, r) (still, keeps refl refl refl, inr (refl, refl))
            ]
          ]
        ]
      ]

  -- When a record ends the handshake of a transport without keys, and the keying material is laid out as
  -- RFC 5764 says, the transport is connected, encrypts with the keys of the server and decrypts with
  -- those of the client, and whoever waits for that is told; nothing else of it changes.
  pub receive-handshake :
      (datagram : List ℕ) (w : Worker wire) (dtls dtls' : wire.Dtls) (out : List (List ℕ))
      → (p : ProtectionProfile) (k : Keys) (rest : List ℕ) (enc dec : media.Context)
      → (is_stun (take 4096 datagram) ≡ false) × (is_dtls (take 4096 datagram) ≡ true)
      → ltb 0 (length (take 4096 datagram)) ≡ true
      → wire.read (take 4096 datagram) w.dtls ≡ (dtls, some (true ∷ []))
      → wire.poll dtls ≡ (dtls', out)
      → (wire.profile dtls' ≡ some p)
        × (wire.export_keying_material dtls' ≡ some (material_of k rest))
      → IsFor p k
      → (wire.new_context k.server_key k.server_salt p ≡ some enc)
        × (wire.new_context k.client_key k.client_salt p ≡ some dec)
      → w.transport.srtp_context ≡ none
      → receive wire datagram w ≡ record w {
        dtls = dtls';
        sent = w.sent ++ out;
        transport = record w.transport {
          srtp_context = some enc;
          decrypt_srtp_context = some dec;
          state = connected;
          notified = w.transport.notified + 1;
        };
      }
  unfolding receive handle_dtls_packet handle_events derive_srtp_from_dtls handshake_complete
  receive-handshake datagram w dtls dtls' out p k rest enc dec (s, d) e r q (a, b) h (x, y) n =
      ground (arith, s, d, e, r, q, a, b, x, y, n, (derive-material_of p k rest h).0)

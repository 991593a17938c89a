-- ===== src/DirectTransport/Audio.antt =====
-- The packets of a stream of audio frames.
use rusttgcalls.Prelude.{
  ℕ, ◌+◌, ◌%◌, ◌^◌, true, false, ◌&&◌, List, [], ◌∷◌, ◌++◌, some, ◌==◌, ◌<◌, ◌≡◌, refl, sym, ◌∙◌,
  ap, arith, append_assoc, append-nil, ap₂, length,
}
use rusttgcalls.Models.{Result, ok, err, opus_payload_type}
use rusttgcalls.DirectTransport.{
  MediaApi, Header, Datagram, rtp, DirectTransport, add_u16, add_u32, audio_inc, audio_header,
  send_rtp_bytes,
}

-- A frame and its duration.
abbrev pub Frame : Type 0
Frame = List ℕ × ℕ

-- The datagram of a packet, with what encryption gives.
abbrev pub packet : Header → List ℕ → Result (List ℕ) → Datagram
packet h payload (ok bytes) = rtp h payload bytes
packet h payload (err e) = rtp h payload []

-- Encryption never fails.
abbrev pub Encrypts : MediaApi → Type 0
Encrypts media =
    (h : Header) (p : List ℕ) (c : media.Context)
    → (bytes : List ℕ) × ((media.encrypt_rtp h p c).1 ≡ ok bytes)

module _ {media : MediaApi} where
  -- A transport in the middle of a stream: it is open, its epoch is set, it has a peer and keys.
  pub record IsStreaming (t : DirectTransport media) : Type 0 where
    pub is_open : t.closed ≡ false
    pub epoch : ℕ × ℕ
    pub has_epoch : t.media_epoch ≡ some epoch
    pub peer : t.has_peer ≡ true
    pub context : media.Context
    pub keys : t.srtp_context ≡ some context

  unfoldable pub send_frames : List Frame → DirectTransport media → DirectTransport media
  send_frames [] t = t
  send_frames ((payload, duration) ∷ l) t =
      send_frames l (send_rtp_bytes opus_payload_type payload duration t).0

  -- The headers that RFC 3550 asks for from packet `i` on, `total` ticks after the first.
  abbrev pub header_at : DirectTransport media → ℕ → ℕ → Header
  header_at t i total = record {
    payload_type = opus_payload_type;
    sequence_number = (t.audio_seq + i) % 2 ^ 16;
    timestamp = (t.audio_ts + total) % 2 ^ 32;
    ssrc = t.audio_ssrc;
    marker = t.first_audio && (i == 0);
    extensions = 1 ∷ 2 ∷ 4 ∷ [];
  }

  -- The packets that carry the frames, each encrypted with what the one before has left of the context.
  pub packets : DirectTransport media → ℕ → ℕ → media.Context → List Frame → List Datagram
  packets t i total context [] = []
  packets t i total context ((payload, duration) ∷ l) =
      let h = header_at t i total in
      packet h payload (media.encrypt_rtp h payload context).1
      ∷ packets t (i + 1) (total + audio_inc duration) (media.encrypt_rtp h payload context).0 l

  -- The transport behind a packet that is sent.
  abbrev after : List ℕ → ℕ → List ℕ → media.Context → DirectTransport media → DirectTransport media
  after payload duration bytes context t = record t {
    audio_seq = add_u16 t.audio_seq 1;
    audio_ts = add_u32 t.audio_ts (audio_inc duration);
    first_audio = false;
    srtp_context = some context;
    sent = t.sent ++ (rtp (audio_header opus_payload_type t) payload bytes ∷ []);
    audio_packets = add_u32 t.audio_packets 1;
    audio_octets = add_u32 t.audio_octets (length payload % 2 ^ 32);
  }

  send_one :
      (payload : List ℕ) (duration : ℕ) (t : DirectTransport media) (bytes : List ℕ)
      → (s : IsStreaming t)
      → (media.encrypt_rtp (audio_header opus_payload_type t) payload s.context).1 ≡ ok bytes
      → (send_rtp_bytes opus_payload_type payload duration t).0
        ≡ after payload duration bytes
            (media.encrypt_rtp (audio_header opus_payload_type t) payload s.context).0
            t
  unfolding send_rtp_bytes
  send_one payload duration t bytes s e = ground (arith, e, s.is_open, s.has_epoch, s.peer, s.keys)

  -- The numbers of the rest of a stream, from the transport behind its first packet.
  packets-from :
      (t t' : DirectTransport media) (i total : ℕ) (context : media.Context) (l : List Frame)
      (step : ℕ)
      → t'.audio_seq ≡ (t.audio_seq + 1) % 2 ^ 16
      → t'.audio_ts ≡ (t.audio_ts + step) % 2 ^ 32
      → t'.first_audio ≡ false
      → t'.audio_ssrc ≡ t.audio_ssrc
      → packets t' i total context l ≡ packets t (i + 1) (step + total) context l
  unfolding packets
  packets-from t t' i total context [] step a b c d = refl
  packets-from t t' i total context ((payload, duration) ∷ l) step a b c d =
      let h = header_at t' i total in
      ap (λ r. packet h payload (media.encrypt_rtp h payload context).1 ∷ r)
        (packets-from t t' (i + 1) (total + audio_inc duration)
            (media.encrypt_rtp h payload context).0 l step a b c d
          ∙ ap (λ n. packets t (i + 1 + 1) n (media.encrypt_rtp h payload context).0 l)
              (omega arith))
      ∙ ap
          (λ k.
            packet k payload (media.encrypt_rtp k payload context).1
            ∷ packets t (i + 1 + 1) (step + total + audio_inc duration)
                (media.encrypt_rtp k payload context).0 l)
          same
    where
      seq : (t'.audio_seq + i) % 2 ^ 16 ≡ (t.audio_seq + (i + 1)) % 2 ^ 16
      seq = omega (arith, a)

      ts : (t'.audio_ts + total) % 2 ^ 32 ≡ (t.audio_ts + (step + total)) % 2 ^ 32
      ts = omega (arith, b)

      marker : (t'.first_audio && (i == 0)) ≡ (t.first_audio && ((i + 1) == 0))
      marker = ground (arith, c)

      same : header_at t' i total ≡ header_at t (i + 1) (step + total)
      same = ground (arith, seq, ts, marker, d)

  first_header :
      (t : DirectTransport media)
      → t.audio_seq < 2 ^ 16
      → t.audio_ts < 2 ^ 32
      → audio_header opus_payload_type t ≡ header_at t 0 0
  first_header t small small' = ground (arith, seq, ts)
    where
      seq : (t.audio_seq + 0) % 2 ^ 16 ≡ t.audio_seq
      seq = omega arith

      ts : (t.audio_ts + 0) % 2 ^ 32 ≡ t.audio_ts
      ts = omega arith

  -- A stream of audio frames on a transport in the middle of a stream, whose encryption does not fail, is
  -- sent frame by frame, each in a packet of its own that holds its encryption. The sequence numbers
  -- count on from the transport's modulo 2 ^ 16, the timestamps count the ticks of the durations modulo
  -- 2 ^ 32, and the marker stands at the first packet of a track and at no other.
  pub send_frames-numbered :
      (l : List Frame) (t : DirectTransport media)
      → Encrypts media
      → (s : IsStreaming t) → t.audio_seq < 2 ^ 16
      → t.audio_ts < 2 ^ 32
      → (send_frames l t).sent ≡ t.sent ++ packets t 0 0 s.context l
  unfolding send_frames packets
  send_frames-numbered [] t works s small small' = sym (append-nil t.sent)
  send_frames-numbered ((payload, duration) ∷ l) t works s small small' =
      let h = audio_header opus_payload_type t in
      let (bytes, e) = works h payload s.context in
      let context = (media.encrypt_rtp h payload s.context).0 in
      let t' = after payload duration bytes context t in
      let rest = packets t' 0 0 context l in
      let one : rtp h payload bytes ≡ packet h payload (media.encrypt_rtp h payload s.context).1 =
        ap (packet h payload) (sym e) in
      let on : rest ≡ packets t 1 (0 + audio_inc duration) context l =
        packets-from t t' 0 0 context l (audio_inc duration) refl refl refl refl
        ∙ ap (λ n. packets t 1 n context l) (omega arith) in
      ap (λ (x : DirectTransport media). (send_frames l x).sent)
        (send_one payload duration t bytes s e)
      ∙ send_frames-numbered l t' works
          (record {
            is_open = s.is_open;
            epoch = s.epoch;
            has_epoch = s.has_epoch;
            peer = s.peer;
            context = context;
            keys = refl;
          })
          (omega arith) (omega arith)
      ∙ append_assoc t.sent (rtp h payload bytes ∷ []) rest
      ∙ ap (λ r. t.sent ++ r) (ap₂ (λ (d : Datagram) r. d ∷ r) one on)
      ∙ ap
          (λ k.
            t.sent
            ++ (packet k payload (media.encrypt_rtp k payload s.context).1
                ∷ packets t 1 (0 + audio_inc duration) (media.encrypt_rtp k payload s.context).0 l))
          (first_header t small small')

-- ===== src/DirectTransport.antt =====
-- wrtc/native/direct_transport.rs and wrtc/native/stack.rs: the sending side of the transport. Encryption,
-- the packetizing of VP8 and the sockets are those of other crates: an interface.
use rusttgcalls.Prelude.{
  ℕ, zero, suc, ◌+◌, ◌*◌, ◌/◌, ◌%◌, ◌^◌, Text, Bool, true, false, not, ◌&&◌, List, [], ◌∷◌, ◌++◌,
  Option, none, some, if◌then◌else◌, ◌==◌, lit, length,
}
use rusttgcalls.Models.{
  Error, Result, ok, err, internal, ConnState, connecting, connected, disconnected, failed,
  opus_payload_type, vp8_payload_type,
}
pub mod Audio
pub mod Video
pub mod Lifecycle
pub mod Worker
pub mod Handshake
pub mod Clock
pub mod Reconnect
pub mod Streaming
mod Tests

-- The fields of an RTP header that the transport sets. Of the extensions only the ids.
pub record Header : Type 0 where
  pub payload_type : ℕ
  pub sequence_number : ℕ
  pub timestamp : ℕ
  pub ssrc : ℕ
  pub marker : Bool
  pub extensions : List ℕ

-- What a sender report says.
pub record Report : Type 0 where
  pub ssrc : ℕ
  pub rtp_time : ℕ
  pub packet_count : ℕ
  pub octet_count : ℕ

-- SRTP contexts, which encrypt a packet or fail, and the payloader, which cuts a frame into chunks.
pub record MediaApi : Type 1 where
  pub Context : Type 0
  pub encrypt_rtp : Header → List ℕ → Context → Context × Result (List ℕ)
  pub encrypt_rtcp : Report → Context → Context × Option (List ℕ)
  pub Payloader : Type 0
  pub new_payloader : Payloader
  pub payload : ℕ → List ℕ → Payloader → Payloader × Result (List (List ℕ))

-- A datagram: what it encrypts, and its bytes.
pub data Datagram : Type 0 where
  rtp : Header → List ℕ → List ℕ → Datagram
  rtcp : Report → List ℕ → Datagram

-- `DirectTransport`, without the parts of the handshake. `has_peer` tells whether there are a socket and
-- an address, `notified` how often `connected_notify` has woken those who wait, and `sent` are the datagrams
-- sent.
pub record DirectTransport (media : MediaApi) : Type 0 where
  pub audio_ssrc : ℕ
  pub video_ssrc : ℕ
  pub state : ConnState
  pub closed : Bool
  pub has_peer : Bool
  pub srtp_context : Option media.Context
  pub decrypt_srtp_context : Option media.Context
  pub audio_seq : ℕ
  pub audio_ts : ℕ
  pub video_seq : ℕ
  pub video_ts : ℕ
  pub video_payloader : media.Payloader
  pub first_audio : Bool
  pub first_video : Bool
  pub audio_packets : ℕ
  pub audio_octets : ℕ
  pub video_packets : ℕ
  pub video_octets : ℕ
  pub media_epoch : Option (ℕ × ℕ)
  pub last_keyframe : Option (List ℕ)
  pub pli_requested : Bool
  pub notified : ℕ
  pub sent : List Datagram

-- `fetch_add` of a `u16` and of a `u32`.
abbrev pub add_u16 : ℕ → ℕ → ℕ
add_u16 a b = (a + b) % 2 ^ 16

abbrev pub add_u32 : ℕ → ℕ → ℕ
add_u32 a b = (a + b) % 2 ^ 32

-- The steps of the clocks for a duration in nanoseconds: of 48 kHz, and of 90 kHz rounded.
abbrev pub audio_inc : ℕ → ℕ
audio_inc nanos = nanos * 48000 / 1_000_000_000 % 2 ^ 32

abbrev pub video_inc : ℕ → ℕ
video_inc nanos = (nanos * 90000 + 500_000_000) / 1_000_000_000 % 2 ^ 32

-- `new_with_ssrc`, with the random first sequence numbers.
unfoldable pub new_with_ssrc : {media : MediaApi} → ℕ → ℕ → ℕ → ℕ → DirectTransport media
new_with_ssrc {media} audio_ssrc video_ssrc audio_seq video_seq = record {
  audio_ssrc = audio_ssrc;
  video_ssrc = video_ssrc;
  state = connecting;
  closed = false;
  has_peer = false;
  srtp_context = none;
  decrypt_srtp_context = none;
  audio_seq = audio_seq;
  audio_ts = 0;
  video_seq = video_seq;
  video_ts = 0;
  video_payloader = media.new_payloader;
  first_audio = true;
  first_video = true;
  audio_packets = 0;
  audio_octets = 0;
  video_packets = 0;
  video_octets = 0;
  media_epoch = none;
  last_keyframe = none;
  pli_requested = false;
  notified = 0;
  sent = [];
}

abbrev report_datagram : Report → Option (List ℕ) → List Datagram
report_datagram r none = []
report_datagram r (some bytes) = rtcp r bytes ∷ []

abbrev pub is_empty {ℓ} : {A : Type ℓ} → List A → Bool
is_empty [] = true
is_empty (a ∷ l) = false

module _ {media : MediaApi} where
  unfoldable pub reset_media_track_state : DirectTransport media → DirectTransport media
  reset_media_track_state t = record t {
    first_audio = true;
    first_video = true;
    last_keyframe = none;
    pli_requested = false;
    media_epoch = none;
    video_payloader = media.new_payloader;
  }

  unfoldable pub close : DirectTransport media → DirectTransport media × Result (Unit {0})
  close t = if t.closed then (t, ok tt) else (
    record t {
      closed = true;
      state = ConnState.closed;
      srtp_context = none;
      decrypt_srtp_context = none;
      media_epoch = none;
      last_keyframe = none;
      pli_requested = false;
      has_peer = false;
    },
    ok tt,
  )

  -- `HandshakeComplete` with the contexts that are derived for it: the first one counts.
  unfoldable pub handshake_complete :
      media.Context → media.Context → DirectTransport media → DirectTransport media
  handshake_complete enc dec t = elim t.srtp_context [
    | none ↦ record t {
      srtp_context = some enc;
      decrypt_srtp_context = some dec;
      state = connected;
      notified = t.notified + 1;
    }
    | some _ ↦ t
  ]

  -- `emit_rtcp_sender_reports`: both reports are encrypted, audio first, then sent if there is a peer.
  unfoldable pub emit_rtcp_sender_reports : DirectTransport media → DirectTransport media
  emit_rtcp_sender_reports t = elim t.media_epoch [
    | none ↦ t
    | some _ ↦ elim t.srtp_context [
      | none ↦ t
      | some context ↦
          let audio : Report = record {
            ssrc = t.audio_ssrc;
            rtp_time = t.audio_ts;
            packet_count = t.audio_packets;
            octet_count = t.audio_octets;
          } in
          let video : Report = record {
            ssrc = t.video_ssrc;
            rtp_time = t.video_ts;
            packet_count = t.video_packets;
            octet_count = t.video_octets;
          } in
          let (context1, enc_a) = media.encrypt_rtcp audio context in
          let (context2, enc_v) = media.encrypt_rtcp video context1 in
          record t {
            srtp_context = some context2;
            sent =
                if t.has_peer
                then t.sent ++ (report_datagram audio enc_a ++ report_datagram video enc_v)
                else t.sent;
          }
    ]
  ]

  -- The epoch of the media is set by the first packet, which reports it.
  unfoldable pub start_epoch : DirectTransport media → DirectTransport media
  unfolding emit_rtcp_sender_reports
  start_epoch t = elim t.media_epoch [
    | none ↦ emit_rtcp_sender_reports (record t { media_epoch = some (t.audio_ts, t.video_ts) })
    | some _ ↦ t
  ]

  abbrev pub audio_header : ℕ → DirectTransport media → Header
  audio_header payload_type t = record {
    payload_type = payload_type;
    sequence_number = t.audio_seq;
    timestamp = t.audio_ts;
    ssrc = t.audio_ssrc;
    marker = t.first_audio;
    extensions = 1 ∷ 2 ∷ 4 ∷ [];
  }

  -- The counters for a packet that is sent.
  abbrev pub sent_audio : Header → List ℕ → List ℕ → DirectTransport media → DirectTransport media
  sent_audio header payload bytes t =
      if t.has_peer
      then record t {
        sent = t.sent ++ (rtp header payload bytes ∷ []);
        audio_packets = add_u32 t.audio_packets 1;
        audio_octets = add_u32 t.audio_octets (length payload % 2 ^ 32);
      }
      else t

  -- The branch of `send_rtp_bytes` for audio.
  unfoldable pub send_audio :
      ℕ → List ℕ → ℕ → DirectTransport media → DirectTransport media × Result (Unit {0})
  send_audio payload_type payload duration t =
      let header = audio_header payload_type t in
      let t' = record t {
        audio_seq = add_u16 t.audio_seq 1;
        audio_ts = add_u32 t.audio_ts (audio_inc duration);
        first_audio = false;
      } in
      elim t.srtp_context [
        | none ↦ (t', ok tt)
        | some context ↦
            let (context', r) = media.encrypt_rtp header payload context in
            let t'' = record t' { srtp_context = some context' } in
            elim r [
              | err e ↦ (t'', err e)
              | ok bytes ↦ (sent_audio header payload bytes t'', ok tt)
            ]
      ]

  abbrev pub video_header : ℕ → Bool → DirectTransport media → Header
  video_header ts is_last t = record {
    payload_type = vp8_payload_type;
    sequence_number = t.video_seq;
    timestamp = ts;
    ssrc = t.video_ssrc;
    marker = is_last;
    extensions = 2 ∷ 4 ∷ 5 ∷ [];
  }

  -- The loop that encrypts the chunks of a frame: the transport with its context and number moved on,
  -- and the packets, or the error at which it stops.
  unfoldable pub encrypt_chunks :
      ℕ
      → List (List ℕ)
      → media.Context
      → DirectTransport media
      → DirectTransport media × Result (List (Header × List ℕ × List ℕ))
  encrypt_chunks ts [] context t = (t, ok [])
  encrypt_chunks ts (chunk ∷ chunks) context t =
      let header = video_header ts (is_empty chunks) t in
      let (context', r) = media.encrypt_rtp header chunk context in
      let t' = record t { video_seq = add_u16 t.video_seq 1; srtp_context = some context' } in
      let (t'', rest) = encrypt_chunks ts chunks context' t' in
      elim r [
        | err e ↦ (t', err e)
        | ok bytes ↦ elim rest [
          | err e ↦ (t'', err e)
          | ok l ↦ (t'', ok ((header, chunk, bytes) ∷ l))
        ]
      ]

  -- The loop that sends the packets.
  unfoldable pub send_packets :
      List (Header × List ℕ × List ℕ) → DirectTransport media → DirectTransport media
  send_packets [] t = t
  send_packets ((header, chunk, bytes) ∷ l) t = send_packets l (record t {
    sent = t.sent ++ (rtp header chunk bytes ∷ []);
    video_packets = add_u32 t.video_packets 1;
    video_octets = add_u32 t.video_octets (length chunk % 2 ^ 32);
  })

  -- The part behind the payloader.
  unfoldable pub send_chunks :
      ℕ → List (List ℕ) → DirectTransport media → DirectTransport media × Result (Unit {0})
  unfolding encrypt_chunks send_packets
  send_chunks ts chunks t =
      if is_empty chunks
      then (t, ok tt)
      else if not t.has_peer
      then (t, ok tt)
      else elim t.srtp_context [
        | none ↦ (t, ok tt)
        | some context ↦
            let (t', r) = encrypt_chunks ts chunks context t in
            elim r [ err e ↦ (t', err e) | ok l ↦ (send_packets l t', ok tt) ]
      ]

  -- The branch of `send_rtp_bytes` for video.
  unfoldable pub send_video :
      List ℕ → ℕ → DirectTransport media → DirectTransport media × Result (Unit {0})
  unfolding send_chunks
  send_video payload duration t =
      let ts = t.video_ts in
      let (payloader, r) = media.payload 1180 payload t.video_payloader in
      let t' = record t {
        video_ts = add_u32 t.video_ts (video_inc duration);
        first_video = false;
        video_payloader = payloader;
      } in
      elim r [ err e ↦ (t', err e) | ok chunks ↦ send_chunks ts chunks t' ]

  unfoldable pub send_rtp_bytes :
      ℕ → List ℕ → ℕ → DirectTransport media → DirectTransport media × Result (Unit {0})
  unfolding start_epoch send_audio send_video
  send_rtp_bytes payload_type payload duration t =
      if t.closed
      then (t, err (internal (lit "transport is closed")))
      else let t' = start_epoch t in
        if payload_type == opus_payload_type
        then send_audio payload_type payload duration t'
        else send_video payload duration t'

-- ===== src/DirectTransport/Streaming.antt =====
-- A streamer whose frames go out on a transport: media/streamer.rs on wrtc/native/direct_transport.rs.
use rusttgcalls.Prelude.{
  ℕ, Text, List, [], ◌∷◌, ◌++◌, ◌<◌, ◌^◌, ◌≡◌, refl, sym, ◌∙◌, ap, arith, lit,
}
use rusttgcalls.Models.{Result, ok, err, internal, opus_payload_type}
use rusttgcalls.FrameReader.{Sample}
use rusttgcalls.Streamer.{Streamer}
use rusttgcalls.Streamer.Tasks.{System, Event, run, spawn}
use rusttgcalls.Streamer.Order.{frames, run-in_order}
use rusttgcalls.Streamer.Sending.{sent_frames, heard, run-heard, Keeps, run-sent}
use rusttgcalls.GroupCall.Base.{GroupCall}
use rusttgcalls.GroupCall.Control.{close_stack}
use rusttgcalls.DirectTransport.{MediaApi, DirectTransport, send_rtp_bytes, audio_header}
use rusttgcalls.DirectTransport.Audio.{
  Frame, Encrypts, IsStreaming, send_frames, packets, send_frames-numbered,
}
use rusttgcalls.DirectTransport.Lifecycle.{ValidTransport, stack_api, close_stack-silences}

module _ {media : MediaApi} where
  -- Sending one frame more.
  send_frames-append :
      (l : List Frame) (payload : List ℕ) (duration : ℕ) (t : DirectTransport media)
      → send_frames (l ++ ((payload, duration) ∷ [])) t
        ≡ (send_rtp_bytes opus_payload_type payload duration (send_frames l t)).0
  unfolding send_frames
  send_frames-append [] payload duration t = refl
  send_frames-append ((p, d) ∷ l) payload duration t =
      send_frames-append l payload duration (send_rtp_bytes opus_payload_type p d t).0

  -- The transport is what sending the frames makes of it.
  abbrev Sends : DirectTransport media → List Frame → DirectTransport media → Type 0
  Sends start l t = (t ≡ send_frames l start) × IsStreaming t

  send-ok :
      (payload : List ℕ) (duration : ℕ) (t : DirectTransport media)
      → Encrypts media
      → IsStreaming t
      → ((send_rtp_bytes opus_payload_type payload duration t).1 ≡ ok tt)
        × IsStreaming (send_rtp_bytes opus_payload_type payload duration t).0
  unfolding send_rtp_bytes
  send-ok payload duration t works s =
      let (bytes, e) = works (audio_header opus_payload_type t) payload s.context in
      (
        ground (arith, e, s.is_open, s.has_epoch, s.peer, s.keys),
        record {
          is_open = ground (arith, e, s.is_open, s.has_epoch, s.peer, s.keys);
          epoch = s.epoch;
          has_epoch = ground (arith, e, s.is_open, s.has_epoch, s.peer, s.keys);
          peer = ground (arith, e, s.is_open, s.has_epoch, s.peer, s.keys);
          context = (media.encrypt_rtp (audio_header opus_payload_type t) payload s.context).0;
          keys = ground (arith, e, s.is_open, s.has_epoch, s.peer, s.keys);
        },
      )

  Sends-Keeps :
      (start : DirectTransport media)
      → Encrypts media
      → (payload : List ℕ) (duration : ℕ) (l : List Frame) (t : DirectTransport media)
      → Sends start l t
      → Keeps send_rtp_bytes opus_payload_type (Sends start) payload duration l t
  Sends-Keeps start works payload duration l t (same, s) =
      let (fine, s') = send-ok payload duration t works s in
      record {
        on_ok = λ _. (
          ap (λ x. (send_rtp_bytes opus_payload_type payload duration x).0) same
              ∙ sym (send_frames-append l payload duration start),
          s',
        );
        on_err = λ e q. cc;
      }

  -- An audio streamer has a transport in the middle of a stream, whose encryption does not fail, to
  -- itself. Whatever happens to the streamer and however its tasks run, the packets that are sent are
  -- those that RFC 3550 asks for, one for each frame that was played while the streamer was not muted:
  -- each holds the encryption of its frame, the sequence numbers count these frames modulo 2 ^ 16 and
  -- the timestamps their ticks modulo 2 ^ 32. Nothing else is sent, and all frames played, muted or not,
  -- are the first of those that the source gave.
  pub run-numbered :
      {Reader : Type 0} (l : List Event) (handle : Streamer Reader) (t : DirectTransport media)
      (now : ℕ)
      → Encrypts media
      → (v : IsStreaming t) → t.audio_seq < 2 ^ 16
      → t.audio_ts < 2 ^ 32
      → handle.payload_type ≡ opus_payload_type
      → let start = spawn handle t now in
        let s = run send_rtp_bytes l start in
        (s.stack.sent
          ≡ t.sent ++ packets t 0 0 v.context (heard send_rtp_bytes l handle.muted start))
        × ((rest : List (Result Sample)) × (frames s.played ++ rest ≡ s.fetched))
  unfolding spawn sent_frames send_frames
  run-numbered l handle t now works v small small' h =
      let start = spawn handle t now in
      let s = run send_rtp_bytes l start in
      let (same, _) =
        run-sent send_rtp_bytes opus_payload_type (Sends t) (Sends-Keeps t works) l start h
          (refl, v) in
      (
        ap (λ (x : DirectTransport media). x.sent) same
            ∙ ap (λ m. (send_frames m t).sent) (run-heard send_rtp_bytes l start)
            ∙ send_frames-numbered (heard send_rtp_bytes l handle.muted start) t works v small
                small',
        (run-in_order send_rtp_bytes l handle t now).0,
      )

  quiet-Keeps :
      (payload_type : ℕ) (payload : List ℕ) (duration : ℕ) (before l : List Frame)
      (closed t : DirectTransport media)
      → send_rtp_bytes payload_type payload duration closed
        ≡ (closed, err (internal (lit "transport is closed")))
      → t ≡ closed
      → l ≡ before
      → Keeps send_rtp_bytes payload_type (λ m x. (x ≡ closed) × (m ≡ before)) payload duration l t
  quiet-Keeps payload_type payload duration before l closed t fails same few =
      let still : send_rtp_bytes payload_type payload duration t
          ≡ (closed, err (internal (lit "transport is closed"))) =
        ap (send_rtp_bytes payload_type payload duration) same ∙ fails in
      record { on_ok = λ q. cc; on_err = λ e q. (cc, few) }

-- When a group call has closed its stack, its streamers send nothing more on the transport and leave it as it
-- is, whatever happens to them and however their tasks run on.
pub close_stack-quiets :
    (media : MediaApi) (params : ValidTransport media → Result Text)
    → (connect : Text → ValidTransport media → ValidTransport media × Result (Unit {0}))
    → {Reader : Type 0} (c : GroupCall (stack_api media params connect) Reader)
    → (l : List Event) (s : System (DirectTransport media) Reader)
    → s.stack ≡ (close_stack c).stack.0
    → let s' = run send_rtp_bytes l s in
      (s'.stack ≡ (close_stack c).stack.0) × (sent_frames s'.played ≡ sent_frames s.played)
close_stack-quiets media params connect c l s e =
    let t = (close_stack c).stack.0 in
    let closed : ℕ → ℕ → List ℕ → Type 0 = λ p d payload.
      send_rtp_bytes p payload d t ≡ (t, err (internal (lit "transport is closed"))) in
    let final : (p d : ℕ) (payload : List ℕ) → closed p d payload =
      λ p d payload. (close_stack-silences media params connect c p d payload).1 in
    run-sent send_rtp_bytes s.handle.payload_type (λ m x. (x ≡ t) × (m ≡ sent_frames s.played))
      (λ payload d m x (same, few).
        quiet-Keeps s.handle.payload_type payload d (sent_frames s.played) m t x
          (final s.handle.payload_type d payload) same few)
      l s refl (e, refl)

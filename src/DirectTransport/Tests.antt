-- ===== src/DirectTransport/Tests.antt =====
-- Transports whose encryption leaves a packet as it is and counts, and whose frames are one chunk each.
use rusttgcalls.Prelude.{
  ℕ, ◌+◌, ◌⊎◌, inr, take, length, replicate, Text, true, false, List, [], ◌∷◌, ◌++◌, none, some,
  ◌≡◌, refl, arith, lit,
}
use rusttgcalls.Models.{Result, ok, err, internal, connecting, connected, opus_payload_type}
use rusttgcalls.GroupCall.Base.{GroupCall, new_with_events}
use rusttgcalls.GroupCall.Control.{close_stack}
use rusttgcalls.DirectTransport.{
  MediaApi, DirectTransport, send_audio, start_epoch, new_with_ssrc, close, handshake_complete,
  send_chunks, send_rtp_bytes,
}
use rusttgcalls.DirectTransport.Audio.{
  Frame, Encrypts, IsStreaming, send_frames, send_frames-numbered,
}
use rusttgcalls.DirectTransport.Video.{send_chunks-numbered}
use rusttgcalls.FrameReader.{Sample}
use rusttgcalls.Streamer
use rusttgcalls.Streamer.{Streamer, new_with_barrier}
use rusttgcalls.Streamer.Tasks
use rusttgcalls.Streamer.Tasks.{
  System, reads, fetches, paces, mutes, passes, spawn, read, fetch, pace, at_loop, play,
}
use rusttgcalls.Streamer.Order.{frames}
use rusttgcalls.Streamer.Sending.{sent_frames, heard}
use rusttgcalls.DirectTransport.Streaming.{run-numbered, close_stack-quiets}
use rusttgcalls.Keys.{aead_aes128_gcm, Keys}
use rusttgcalls.Keys.Layout.{material_of}
use rusttgcalls.Signaling.Remote.{Candidate, Decoded, parse_remote, select, usable}
use rusttgcalls.DirectTransport.Worker.{
  WireApi, Worker, is_dtls, open_socket, receive, await_connected,
}
use rusttgcalls.DirectTransport.Handshake.{SendsSame, Effect, receive-Effect, receive-handshake}
use rusttgcalls.DirectTransport.Reconnect.{Event, receives, sends, run, connect-again}
use rusttgcalls.DirectTransport.Lifecycle.{IsValid, ValidTransport, stack_api}

abbrev plain : MediaApi
plain = record {
  Context = ℕ;
  encrypt_rtp = λ header payload n. (n + 1, ok payload);
  encrypt_rtcp = λ report n. (n + 1, none);
  Payloader = ℕ;
  new_payloader = 0;
  payload = λ mtu frame n. (n + 1, ok (frame ∷ []));
}

abbrev works : Encrypts plain
works = λ header payload n. (payload, refl)

abbrev keys : Keys
keys = record {
  client_key = replicate 16 1;
  server_key = replicate 16 2;
  client_salt = replicate 12 3;
  server_salt = replicate 12 4;
}

-- A transport in the middle of a stream, just before its numbers wrap around.
abbrev streaming : DirectTransport plain
streaming = record (new_with_ssrc 7 8 65535 65535) {
  state = connected;
  has_peer = true;
  srtp_context = some 3;
  decrypt_srtp_context = some 4;
  audio_ts = 4294967000;
  media_epoch = some (4294967000, 0);
}

abbrev streaming_state : IsStreaming streaming
unfolding new_with_ssrc
streaming_state = record {
  is_open = refl;
  epoch = (4294967000, 0);
  has_epoch = refl;
  peer = refl;
  context = 3;
  keys = refl;
}

streaming-IsValid : IsValid streaming
unfolding new_with_ssrc
streaming-IsValid = ground arith

send_chunks-numbered_example :
    let (t', r) = send_chunks 5 ((1 ∷ 2 ∷ []) ∷ (3 ∷ []) ∷ []) streaming in
    (r ≡ ok tt)
    × (t'.sent
        ≡ streaming.sent
          ++ rusttgcalls.DirectTransport.Video.packets streaming 5 0 3
              ((1 ∷ 2 ∷ []) ∷ (3 ∷ []) ∷ []))
unfolding new_with_ssrc
send_chunks-numbered_example =
    send_chunks-numbered 5 ((1 ∷ 2 ∷ []) ∷ (3 ∷ []) ∷ []) 3 streaming works refl refl (ground arith)

abbrev params : ValidTransport plain → Result Text
params t = ok []

abbrev join : Text → ValidTransport plain → ValidTransport plain × Result (Unit {0})
join json t = (t, ok tt)

abbrev call : GroupCall (stack_api plain params join) ℕ
call =
    new_with_events (streaming, streaming-IsValid) false
      (record { on_stream_end = true; on_connection_change = true; on_upgrade = true })

-- DTLS that ends its handshake with any record and exports 60 bytes; the text of a request is its answer.
abbrev wire : WireApi plain
wire = record {
  Dtls = ℕ;
  read = λ bytes n. (n + 1, some (true ∷ []));
  poll = λ n. (n, (n ∷ []) ∷ []);
  handle_timeout = λ n. n;
  profile = λ n. some aead_aes128_gcm;
  export_keying_material = λ n. some (material_of keys []);
  new_context = λ key salt p. some (length key + length salt);
  stun_request = λ bytes. some true;
  stun_response = λ bytes. some bytes;
  decrypt_rtcp = λ bytes n. (n + 1, some (true ∷ []));
}

abbrev waiting : Worker wire
waiting = record {
  transport = record (new_with_ssrc 7 8 1 1) { state = connecting; has_peer = true };
  dtls = 5;
  stun_req = [];
  sent = [];
}

-- A DTLS record.
abbrev dtls_record : List ℕ
dtls_record = 22 ∷ 254 ∷ 253 ∷ []

receive-Effect_example :
    let t' = (receive wire dtls_record waiting).transport in
    SendsSame waiting.transport t'
    × Effect waiting.transport t'
    × ((is_dtls (take 4096 dtls_record) ≡ true)
        ⊎ ((t'.state ≡ waiting.transport.state)
            × (t'.srtp_context ≡ waiting.transport.srtp_context)))
receive-Effect_example = receive-Effect wire dtls_record waiting

receive-handshake_example : receive wire dtls_record waiting ≡ record waiting {
  dtls = 6;
  sent = (6 ∷ []) ∷ [];
  transport = record waiting.transport {
    srtp_context = some 28;
    decrypt_srtp_context = some 28;
    state = connected;
    notified = 1;
  };
}
unfolding new_with_ssrc
receive-handshake_example =
    receive-handshake wire dtls_record waiting 6 6 ((6 ∷ []) ∷ []) aead_aes128_gcm keys [] 28 28
      (refl, refl) refl refl refl (refl, refl) (refl, refl, refl, refl) (refl, refl) refl

-- A candidate at which the transport is connected a second time.
abbrev candidate : Candidate
candidate = record {
  generation = [];
  component = [];
  protocol = [];
  port = [];
  ip = 1 ∷ [];
  foundation = [];
  id = [];
  priority = [];
  candidate_type = [];
  network = [];
  rel_addr = [];
  rel_port = [];
  tcp_type = [];
}

abbrev decoded : Decoded
decoded = record {
  probe = none;
  transport = inr (record {
    ufrag = 1 ∷ [];
    pwd = 2 ∷ [];
    fingerprints = record { hash = []; fingerprint = 3 ∷ []; setup = [] } ∷ [];
    candidates = candidate ∷ [];
  });
}

abbrev again : Worker wire
again = record waiting { transport = streaming }

abbrev later : List Event
later = receives dtls_record ∷ sends 111 (1 ∷ []) 20_000_000 ∷ []

connect-again_example :
    let t = (open_socket (λ s. true) (λ s. some true) (λ s. some 5) (ok tt) decoded streaming).0 in
    let t' = (run wire later (record again { transport = t })).transport in
    (t'.state ≡ connecting)
    × (await_connected t t'
        ≡ err (internal (lit "timeout waiting for DTLS handshake to complete with Telegram SFU")))
unfolding new_with_ssrc open_socket parse_remote select usable
connect-again_example =
    connect-again wire (λ s. true) (λ s. some true) (λ s. some 5) (ok tt) decoded later again
      (record { is_ipv4 = true; ip = 1 ∷ []; port = 5 }) refl refl refl

-- Two frames of a streamer, of which the second is muted.
abbrev handle : Streamer ℕ
handle = new_with_barrier 1 opus_payload_type false

abbrev frame : ℕ → Sample
frame b = record { payload = b ∷ []; duration = 20_000_000 }

abbrev schedule : List Tasks.Event
schedule =
    reads
    ∷ fetches (ok (frame 1))
    ∷ reads
    ∷ reads
    ∷ fetches (ok (frame 2))
    ∷ reads
    ∷ paces
    ∷ paces
    ∷ paces
    ∷ paces
    ∷ mutes true
    ∷ passes 20_000_000
    ∷ paces
    ∷ paces
    ∷ paces
    ∷ paces
    ∷ []

abbrev played : System (DirectTransport plain) ℕ
played = Tasks.run send_rtp_bytes schedule (spawn handle streaming 5)

run-numbered_example :
    (played.stack.sent
      ≡ streaming.sent
        ++ rusttgcalls.DirectTransport.Audio.packets streaming 0 0 3
            (heard send_rtp_bytes schedule false (spawn handle streaming 5)))
    × ((rest : List (Result Sample)) × (frames played.played ++ rest ≡ played.fetched))
unfolding new_with_ssrc new_with_barrier
run-numbered_example =
    run-numbered schedule handle streaming 5 works streaming_state (omega arith) (omega arith) refl

sent_one : length (sent_frames played.played) ≡ 1
unfolding Tasks.run Tasks.step read fetch pace at_loop play Tasks.receive spawn new_with_barrier
    sent_frames send_rtp_bytes send_audio start_epoch new_with_ssrc Streamer.set_muted
sent_one = refl

-- The streamer goes on after the call has closed the stack.
abbrev left_over : System (DirectTransport plain) ℕ
left_over = record played { stack = (close_stack call).stack.0 }

close_stack-quiets_example :
    let s' = Tasks.run send_rtp_bytes (mutes false ∷ schedule) left_over in
    (s'.stack ≡ (close_stack call).stack.0) × (sent_frames s'.played ≡ sent_frames played.played)
close_stack-quiets_example =
    close_stack-quiets plain params join call (mutes false ∷ schedule) left_over refl

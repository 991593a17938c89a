-- ===== src/DirectTransport/Video.antt =====
-- The packets of a video frame.
use rusttgcalls.Prelude.{
  ℕ, ◌+◌, ◌%◌, ◌^◌, ◌<◌, Bool, true, List, [], ◌∷◌, ◌++◌, some, ◌≡◌, refl, sym, ◌∙◌, ap, ap₂, arith,
  append_assoc, append-nil, length,
}
use rusttgcalls.Models.{Result, ok, vp8_payload_type}
use rusttgcalls.DirectTransport.{
  MediaApi, Header, Datagram, rtp, DirectTransport, add_u16, add_u32, video_header, is_empty,
  encrypt_chunks, send_packets, send_chunks,
}
use rusttgcalls.DirectTransport.Audio.{packet, Encrypts}

-- A header, the chunk and its encryption.
abbrev Encrypted : Type 0
Encrypted = Header × List ℕ × List ℕ

abbrev datagrams : List Encrypted → List Datagram
datagrams [] = []
datagrams ((h, chunk, bytes) ∷ l) = rtp h chunk bytes ∷ datagrams l

module _ {media : MediaApi} where
  -- Chunk `i` of a frame has the number `i` on from the transport's, the frame's timestamp, and the marker
  -- if it is the last.
  abbrev pub header_at : DirectTransport media → ℕ → ℕ → Bool → Header
  header_at t ts i is_last = record {
    payload_type = vp8_payload_type;
    sequence_number = (t.video_seq + i) % 2 ^ 16;
    timestamp = ts;
    ssrc = t.video_ssrc;
    marker = is_last;
    extensions = 2 ∷ 4 ∷ 5 ∷ [];
  }

  -- The packets that carry the chunks of a frame from chunk `i` on, each encrypted with what the one before
  -- has left of the context.
  pub packets : DirectTransport media → ℕ → ℕ → media.Context → List (List ℕ) → List Datagram
  packets t ts i context [] = []
  packets t ts i context (chunk ∷ chunks) =
      let h = header_at t ts i (is_empty chunks) in
      packet h chunk (media.encrypt_rtp h chunk context).1
      ∷ packets t ts (i + 1) (media.encrypt_rtp h chunk context).0 chunks

  packets-from :
      (t t' : DirectTransport media) (ts i : ℕ) (context : media.Context) (chunks : List (List ℕ))
      → t'.video_seq ≡ (t.video_seq + 1) % 2 ^ 16
      → t'.video_ssrc ≡ t.video_ssrc
      → packets t' ts i context chunks ≡ packets t ts (i + 1) context chunks
  unfolding packets
  packets-from t t' ts i context [] a b = refl
  packets-from t t' ts i context (chunk ∷ chunks) a b =
      let h = header_at t' ts i (is_empty chunks) in
      let seq : (t'.video_seq + i) % 2 ^ 16 ≡ (t.video_seq + (i + 1)) % 2 ^ 16 = omega (arith, a) in
      let same : h ≡ header_at t ts (i + 1) (is_empty chunks) = ground (arith, seq, b) in
      ap (λ r. packet h chunk (media.encrypt_rtp h chunk context).1 ∷ r)
        (packets-from t t' ts (i + 1) (media.encrypt_rtp h chunk context).0 chunks a b)
      ∙ ap
          (λ k.
            packet k chunk (media.encrypt_rtp k chunk context).1
            ∷ packets t ts (i + 1 + 1) (media.encrypt_rtp k chunk context).0 chunks)
          same

  encrypted :
      (ts : ℕ) (chunks : List (List ℕ)) (context : media.Context) (t : DirectTransport media)
      → Encrypts media
      → t.video_seq < 2 ^ 16
      → (t' : DirectTransport media) × (l : List Encrypted) × (encrypt_chunks ts chunks context t
          ≡ (t', ok l))
        × (t'.sent ≡ t.sent)
        × (datagrams l ≡ packets t ts 0 context chunks)
  unfolding encrypt_chunks packets
  encrypted ts [] context t works small = (t, [], refl, refl, refl)
  encrypted ts (chunk ∷ chunks) context t works small =
      let header = video_header ts (is_empty chunks) t in
      let (bytes, e) = works header chunk context in
      let context' = (media.encrypt_rtp header chunk context).0 in
      let next = record t { video_seq = add_u16 t.video_seq 1; srtp_context = some context' } in
      let (t', l, run, same, all) = encrypted ts chunks context' next works (omega arith) in
      let seq : (t.video_seq + 0) % 2 ^ 16 ≡ t.video_seq = omega (arith, small) in
      let first : header ≡ header_at t ts 0 (is_empty chunks) = ground (arith, seq) in
      let one : rtp header chunk bytes
          ≡ packet header chunk (media.encrypt_rtp header chunk context).1 =
        ap (packet header chunk) (sym e) in
      (
        t',
        (header, chunk, bytes) ∷ l,
        ground (arith, e, run),
        same,
        ap₂ (λ (d : Datagram) r. d ∷ r) one
              (all ∙ packets-from t next ts 0 context' chunks refl refl)
            ∙ ap
                (λ k.
                  packet k chunk (media.encrypt_rtp k chunk context).1
                  ∷ packets t ts 1 (media.encrypt_rtp k chunk context).0 chunks)
                first,
      )

  send_packets-sent :
      (l : List Encrypted) (t : DirectTransport media)
      → (send_packets l t).sent ≡ t.sent ++ datagrams l
  unfolding send_packets
  send_packets-sent [] t = sym (append-nil t.sent)
  send_packets-sent ((h, chunk, bytes) ∷ l) t =
      let next = record t {
        sent = t.sent ++ (rtp h chunk bytes ∷ []);
        video_packets = add_u32 t.video_packets 1;
        video_octets = add_u32 t.video_octets (length chunk % 2 ^ 32);
      } in
      send_packets-sent l next ∙ append_assoc t.sent (rtp h chunk bytes ∷ []) (datagrams l)

  -- A frame's chunks are sent, on a transport with keys and a peer and encryption that does not fail, in
  -- order and each in a packet of its own that holds its encryption, under consecutive sequence numbers
  -- modulo 2 ^ 16 and one timestamp, with the marker at the last and at no other. Nothing else is sent.
  pub send_chunks-numbered :
      (ts : ℕ) (chunks : List (List ℕ)) (context : media.Context) (t : DirectTransport media)
      → Encrypts media
      → t.has_peer ≡ true
      → t.srtp_context ≡ some context
      → t.video_seq < 2 ^ 16
      → let (t', r) = send_chunks ts chunks t in
        (r ≡ ok tt) × (t'.sent ≡ t.sent ++ packets t ts 0 context chunks)
  unfolding send_chunks packets
  send_chunks-numbered ts [] context t works peer keys small = (refl, sym (append-nil t.sent))
  send_chunks-numbered ts (chunk ∷ chunks) context t works peer keys small =
      let (t', l, run, same, all) = encrypted ts (chunk ∷ chunks) context t works small in
      let ends : send_chunks ts (chunk ∷ chunks) t ≡ (send_packets l t', ok tt) =
        ground (arith, peer, keys, run) in
      (
        ap (λ (x : DirectTransport media × Result (Unit {0})). x.1) ends,
        ap (λ (x : DirectTransport media × Result (Unit {0})). x.0.sent) ends
            ∙ send_packets-sent l t'
            ∙ ap₂ (λ s h. s ++ h) same all,
      )

-- ===== src/FrameReader/Opus/RoundTrip.antt =====
-- Packets that a writer cuts into segments and pages, read back.
use rusttgcalls.Prelude.{
  ℕ, suc, ◌+◌, ◌<◌, true, false, List, [], ◌∷◌, ◌++◌, map, some, length, lit, starts_with, ◌≡◌, ◌≢◌,
  refl, sym, ◌∙◌, ap, arith, Every, append_assoc, append-nil, lt→ltb,
}
use rusttgcalls.Models.{Error}
use rusttgcalls.FrameReader.Opus.{OpusFrameReader, new, deliver, finish, sample, read_all}
use rusttgcalls.FrameReader.Opus.Pages.{Page, concat, feed, feed_all}
use rusttgcalls.FrameReader.Opus.Stream.{
  IsPage, stream, page_pieces, samples_of, read_pages, feed_all-append,
}

-- A packet as segments: full ones of 255 bytes, then a shorter one, which may be empty.
pub record Laced : Type 0 where
  pub full : List (List ℕ)
  pub last : List ℕ

abbrev pub IsLaced : Laced → Type 0
IsLaced p = Every (λ s. length s ≡ 255) p.full × length p.last < 255

abbrev pub pieces_of : Laced → List (List ℕ)
pieces_of p = p.full ++ (p.last ∷ [])

abbrev pub packet : Laced → List ℕ
packet p = concat p.full ++ p.last

abbrev pub all_pieces : List Laced → List (List ℕ)
all_pieces [] = []
all_pieces (p ∷ ps) = pieces_of p ++ all_pieces ps

-- The packets, one after the other.
deliver_all : List (List ℕ) → OpusFrameReader → OpusFrameReader
deliver_all [] r = r
deliver_all (pkt ∷ l) r = deliver_all l (deliver pkt r)

feed-full :
    (s : List ℕ) (r : OpusFrameReader)
    → length s ≡ 255
    → feed s r ≡ record r { current_packet = r.current_packet ++ s }
unfolding feed
feed-full s r h = ground arith

feed-last :
    (s : List ℕ) (r : OpusFrameReader)
    → length s < 255
    → feed s r ≡ deliver (r.current_packet ++ s) (record r { current_packet = [] })
unfolding feed finish
feed-last s r h = rw (lt→ltb (length s) 255 h) refl

feed_all-laced :
    (full : List (List ℕ)) (last : List ℕ) (r : OpusFrameReader)
    → Every (λ s. length s ≡ 255) full
    → length last < 255
    → feed_all (full ++ (last ∷ [])) r
      ≡ deliver (r.current_packet ++ (concat full ++ last)) (record r { current_packet = [] })
unfolding feed_all
feed_all-laced [] last r h less = feed-last last r less
feed_all-laced (s ∷ full) last r (h, hs) less =
    let r' = record r { current_packet = r.current_packet ++ s } in
    ap (feed_all (full ++ (last ∷ []))) (feed-full s r h)
    ∙ feed_all-laced full last r' hs less
    ∙ ap (λ t. deliver t (record r { current_packet = [] }))
        (append_assoc r.current_packet s (concat full ++ last)
          ∙ ap (λ t. r.current_packet ++ t) (sym (append_assoc s (concat full) last)))

deliver-current :
    (pkt : List ℕ) (r : OpusFrameReader) → (deliver pkt r).current_packet ≡ r.current_packet
unfolding deliver
deliver-current pkt r = ground arith

feed_all-packets :
    (ps : List Laced) (r : OpusFrameReader)
    → Every IsLaced ps
    → r.current_packet ≡ []
    → feed_all (all_pieces ps) r ≡ deliver_all (map packet ps) r
unfolding feed_all deliver_all
feed_all-packets [] r h e = refl
feed_all-packets (p ∷ ps) r ((full, less), h) e =
    feed_all-append (pieces_of p) (all_pieces ps) r
    ∙ ap (feed_all (all_pieces ps)) (
        feed_all-laced p.full p.last r full less
        ∙ ap (λ c. deliver (c ++ packet p) (record r { current_packet = [] })) e
        ∙ ap (λ c. deliver (packet p) (record r { current_packet = c })) (sym e))
    ∙ feed_all-packets ps (deliver (packet p) r) h (deliver-current (packet p) r ∙ e)

-- Behind the two headers every packet is queued, if it is not empty.
deliver_all-queue :
    (l : List (List ℕ)) (r : OpusFrameReader)
    → Every (λ pkt. pkt ≢ []) l
    → r.skipped_header ≡ true
    → r.skipped_tags ≡ true
    → (deliver_all l r).queue ≡ r.queue ++ l
unfolding deliver_all deliver
deliver_all-queue [] r h a b = sym (append-nil r.queue)
deliver_all-queue ([] ∷ l) r (ne, h) a b = absurd (ne refl)
deliver_all-queue ((c ∷ pkt) ∷ l) r (ne, h) a b =
    let r' = record r {
      skipped_header = true;
      skipped_tags = true;
      queue = r.queue ++ ((c ∷ pkt) ∷ []);
    } in
    let queued : deliver (c ∷ pkt) r ≡ r' = ground arith in
    ap (λ (x : OpusFrameReader). (deliver_all l x).queue) queued
    ∙ deliver_all-queue l r' h refl refl
    ∙ append_assoc r.queue ((c ∷ pkt) ∷ []) l

headers :
    (head tags : List ℕ) (r : OpusFrameReader)
    → r.skipped_header ≡ false
    → r.skipped_tags ≡ false
    → starts_with head (lit "OpusHead") ≡ true
    → starts_with tags (lit "OpusTags") ≡ true
    → deliver tags (deliver head r) ≡ record r { skipped_header = true; skipped_tags = true }
unfolding deliver
headers head tags r a b h t = ground (arith, a, b, h, t)

-- However the segments of the two headers and of packets that are not empty are cut into pages, reading
-- the pages gives the packets, each whole and in order, and then the end of the file.
pub read_all-stream :
    (pages : List Page) (head tags : Laced) (packets : List Laced)
    → Every IsPage pages
    → Every IsLaced (head ∷ tags ∷ packets)
    → page_pieces pages ≡ all_pieces (head ∷ tags ∷ packets)
    → starts_with (packet head) (lit "OpusHead") ≡ true
    → starts_with (packet tags) (lit "OpusTags") ≡ true
    → Every (λ pkt. pkt ≢ []) (map packet packets)
    → read_all (new (stream pages)) ≡ some (map sample (map packet packets), Error.file)
unfolding read_all new deliver_all
read_all-stream pages head tags packets h laced same is_head is_tags ne =
    let r = new [] in
    let l = map packet packets in
    read_pages pages (suc (length (stream pages) + 0)) (new (stream pages)) [] refl h refl
      (omega arith)
    ∙ ap (λ p. samples_of (feed_all p r).queue) same
    ∙ ap (λ (x : OpusFrameReader). samples_of x.queue)
        (feed_all-packets (head ∷ tags ∷ packets) r laced refl
          ∙ ap (deliver_all l) (headers (packet head) (packet tags) r refl refl is_head is_tags))
    ∙ ap samples_of
        (deliver_all-queue l (record r { skipped_header = true; skipped_tags = true }) ne refl refl)

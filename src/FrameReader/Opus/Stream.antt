-- ===== src/FrameReader/Opus/Stream.antt =====
-- A stream of pages, read to its end.
use rusttgcalls.Prelude.{
  ℕ, zero, suc, ◌+◌, ◌<◌, List, [], ◌∷◌, ◌++◌, map, Option, some, length, ◌≡◌, refl, sym, ◌∙◌, ap,
  arith, Every,
}
use rusttgcalls.Models.{Error, Result, ok, err}
use rusttgcalls.FrameReader.{Sample, read_exact}
use rusttgcalls.FrameReader.Opus.{
  OpusFrameReader, deliver, finish, read_page, sample, next_sample, read_on,
}
use rusttgcalls.FrameReader.Opus.Pages.{Page, page_bytes, feed, feed_all, read_page_lem}
use rusttgcalls.FrameReader.Opus.Fuel.{
  read_page-measure, next_sample-queued, next_sample-page, next_sample-error,
}

abbrev pub IsPage : Page → Type 0
IsPage p = length p.fields ≡ 22

abbrev pub stream : List Page → List ℕ
stream [] = []
stream (p ∷ ps) = page_bytes p ++ stream ps

abbrev pub page_pieces : List Page → List (List ℕ)
page_pieces [] = []
page_pieces (p ∷ ps) = p.pieces ++ page_pieces ps

pub feed_all-append :
    (l m : List (List ℕ)) (r : OpusFrameReader) → feed_all (l ++ m) r ≡ feed_all m (feed_all l r)
unfolding feed_all
feed_all-append [] m r = refl
feed_all-append (s ∷ l) m r = feed_all-append l m (feed s r)

-- Feeding does not look at the source or at the queue.
abbrev pub over : List ℕ → OpusFrameReader → OpusFrameReader
over b r = record r { reader = b }

abbrev behind : List ℕ → OpusFrameReader → OpusFrameReader
behind pkt r = record r { queue = pkt ∷ r.queue }

feed-over : (b s : List ℕ) (r : OpusFrameReader) → feed s (over b r) ≡ over b (feed s r)
unfolding feed finish deliver
feed-over b s r = ground arith

feed_all-over :
    (b : List ℕ) (l : List (List ℕ)) (r : OpusFrameReader)
    → feed_all l (over b r) ≡ over b (feed_all l r)
unfolding feed_all
feed_all-over b [] r = refl
feed_all-over b (s ∷ l) r = ap (feed_all l) (feed-over b s r) ∙ feed_all-over b l (feed s r)

feed-behind : (pkt s : List ℕ) (r : OpusFrameReader) → feed s (behind pkt r) ≡ behind pkt (feed s r)
unfolding feed finish deliver
feed-behind pkt s r = ground arith

feed_all-behind :
    (pkt : List ℕ) (l : List (List ℕ)) (r : OpusFrameReader)
    → feed_all l (behind pkt r) ≡ behind pkt (feed_all l r)
unfolding feed_all
feed_all-behind pkt [] r = refl
feed_all-behind pkt (s ∷ l) r =
    ap (feed_all l) (feed-behind pkt s r) ∙ feed_all-behind pkt l (feed s r)

read_on-next :
    (f : ℕ) (r r' : OpusFrameReader)
    → next_sample r ≡ next_sample r'
    → read_on (suc f) r ≡ read_on (suc f) r'
unfolding read_on
read_on-next f r r' e = rw (e, read_on) refl

abbrev pub samples_of : List (List ℕ) → Option (List Sample × Error)
samples_of queue = some (map sample queue, Error.file)

read_on-queued :
    (f : ℕ) (r : OpusFrameReader) (pkt : List ℕ) (queue rest : List (List ℕ))
    → r.queue ≡ pkt ∷ queue
    → read_on f (record r { queue = queue }) ≡ samples_of rest
    → read_on (suc f) r ≡ samples_of (pkt ∷ rest)
unfolding read_on
read_on-queued f r pkt queue rest e h = ground (arith, next_sample-queued r pkt queue e, h)

end_of_source : (r : OpusFrameReader) → r.reader ≡ [] → (read_page r).1 ≡ err Error.file
unfolding read_page read_exact
end_of_source r e = rw e refl

read_on-end :
    (f : ℕ) (r : OpusFrameReader) → r.queue ≡ [] → r.reader ≡ [] → read_on (suc f) r ≡ samples_of []
unfolding read_on
read_on-end f r e e' = ground (arith, next_sample-error r Error.file e (end_of_source r e'))

-- What a page does to what follows it.
page_read :
    (p : Page) (ps : List Page) (r : OpusFrameReader)
    → feed_all (page_pieces ps) (over [] (feed_all p.pieces (over (stream ps) r)))
      ≡ feed_all (p.pieces ++ page_pieces ps) (over [] r)
page_read p ps r =
    ap (feed_all (page_pieces ps)) (sym (feed_all-over [] p.pieces (over (stream ps) r)))
    ∙ sym (feed_all-append p.pieces (page_pieces ps) (over [] r))

pub read_pages :
    (ps : List Page) (f : ℕ) (r : OpusFrameReader) (queue : List (List ℕ))
    → r.queue ≡ queue
    → Every IsPage ps
    → r.reader ≡ stream ps
    → length r.reader + length r.queue < f
    → read_on f r ≡ samples_of (feed_all (page_pieces ps) (over [] r)).queue
unfolding feed_all
read_pages ps zero r queue q h e m = absurd (omega arith)
read_pages ps (suc f) r (pkt ∷ queue) q h e m =
    let r' = record r { queue = queue } in
    let shorter : length r.reader + length queue < f = omega (arith, m, ap length q) in
    read_on-queued f r pkt queue (feed_all (page_pieces ps) (over [] r')).queue q
      (read_pages ps f r' queue refl h e shorter)
    ∙ ap (λ (x : OpusFrameReader). samples_of x.queue)
        (sym (feed_all-behind pkt (page_pieces ps) (over [] r')))
    ∙ ap (λ l. samples_of (feed_all (page_pieces ps) (record r { reader = []; queue = l })).queue)
        (sym q)
read_pages [] (suc f) r [] q h e m = read_on-end f r q e ∙ ap samples_of (sym q)
read_pages (p ∷ ps) (suc f) r [] q (long, h) e m =
    let r' = feed_all p.pieces (over (stream ps) r) in
    let page : read_page r ≡ (r', ok tt) = read_page_lem p (stream ps) r long e in
    let taken = ap (λ (x : OpusFrameReader × Result (Unit {0})). x.1) page in
    let measure : length r'.reader + length r'.queue < suc f = omega (
      arith,
      m,
      read_page-measure r taken,
      ap (λ (x : OpusFrameReader × Result (Unit {0})). length x.0.reader) page,
      ap (λ (x : OpusFrameReader × Result (Unit {0})). length x.0.queue) page,
    ) in
    read_on-next f r r' (
      next_sample-page r q taken
      ∙ ap (λ (x : OpusFrameReader × Result (Unit {0})). next_sample x.0) page)
    ∙ read_pages ps (suc f) r' r'.queue refl h
        (ap (λ (x : OpusFrameReader). x.reader) (feed_all-over (stream ps) p.pieces r)) measure
    ∙ ap (λ (x : OpusFrameReader). samples_of x.queue) (page_read p ps r)

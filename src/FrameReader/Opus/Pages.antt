-- ===== src/FrameReader/Opus/Pages.antt =====
-- Pages as a writer lays them out, and what reading one does.
use rusttgcalls.Prelude.{
  ℕ, suc, ◌+◌, true, List, [], ◌∷◌, ◌++◌, some, if◌then◌else◌, ltb, leb, length, take, drop, lit,
  text_eq, ◌≡◌, refl, sym, ◌∙◌, ap, ap₂, arith, length-append, append_assoc, take-append_exact,
  drop-append_exact, le→leb,
}
use rusttgcalls.Models.{ok}
use rusttgcalls.FrameReader.{read_exact}
use rusttgcalls.FrameReader.Exact.{read_exact-append}
use rusttgcalls.FrameReader.Opus.{
  OpusFrameReader, finish, segment, segments, read_page, first_byte, sum,
}

-- A page: the 22 bytes between the magic and the number of segments, and the segments.
pub record Page : Type 0 where
  pub fields : List ℕ
  pub pieces : List (List ℕ)

abbrev pub concat {ℓ} : {A : Type ℓ} → List (List A) → List A
concat [] = []
concat (a ∷ l) = a ++ concat l

abbrev pub table_of : List (List ℕ) → List ℕ
table_of [] = []
table_of (s ∷ l) = length s ∷ table_of l

abbrev pub page_bytes : Page → List ℕ
page_bytes p =
    lit "OggS" ++ (p.fields ++ (length p.pieces ∷ (table_of p.pieces ++ concat p.pieces)))

-- A segment adds to the current packet, and ends it if it is not full.
unfoldable pub feed : List ℕ → OpusFrameReader → OpusFrameReader
feed piece r =
    let r' = record r { current_packet = r.current_packet ++ piece } in
    if ltb (length piece) 255 then finish r' else r'

unfoldable pub feed_all : List (List ℕ) → OpusFrameReader → OpusFrameReader
feed_all [] r = r
feed_all (piece ∷ l) r = feed_all l (feed piece r)

length-table_of : (l : List (List ℕ)) → length (table_of l) ≡ length l
length-table_of [] = refl
length-table_of (s ∷ l) = ap suc (length-table_of l)

sum-table_of : (l : List (List ℕ)) → sum (table_of l) ≡ length (concat l)
sum-table_of [] = refl
sum-table_of (s ∷ l) = omega (arith, sum-table_of l, length-append s (concat l))

take-append_front : (n : ℕ) (xs ys : List ℕ) → n ≡ length xs → take n (xs ++ ys) ≡ xs
take-append_front n xs ys e = take-append_exact n xs ys (sym e)

segment-feed :
    (front piece back : List ℕ) (r : OpusFrameReader)
    → segment (front ++ (piece ++ back)) (length piece) (length front, r)
      ≡ (length (front ++ piece), feed piece r)
unfolding segment feed
segment-feed front piece back r =
    let fits : leb (length front + length piece) (length (front ++ (piece ++ back))) ≡ true =
      le→leb _ _ (omega (arith, length-append front (piece ++ back), length-append piece back)) in
    let cut : take (length piece) (drop (length front) (front ++ (piece ++ back))) ≡ piece =
      ap (take (length piece)) (drop-append_exact (length front) front (piece ++ back) refl)
      ∙ take-append_exact (length piece) piece back refl in
    rw (fits, cut, length-append front piece) refl

segments-feed :
    (front : List ℕ) (l : List (List ℕ)) (r : OpusFrameReader)
    → segments (front ++ concat l) (table_of l) (length front, r) ≡ feed_all l r
unfolding segments feed_all
segments-feed front [] r = refl
segments-feed front (piece ∷ l) r =
    ap (segments (front ++ (piece ++ concat l)) (table_of l))
      (segment-feed front piece (concat l) r)
    ∙ ap (λ b. segments b (table_of l) (length (front ++ piece), feed piece r))
        (sym (append_assoc front piece (concat l)))
    ∙ segments-feed (front ++ piece) l (feed piece r)

read_page_parts :
    (r : OpusFrameReader) (header rest table rest' payload rest'' : List ℕ)
    → read_exact 27 r.reader ≡ some (header, rest)
    → text_eq (take 4 header) (lit "OggS") ≡ true
    → read_exact (first_byte (drop 26 header)) rest ≡ some (table, rest')
    → read_exact (sum table) rest' ≡ some (payload, rest'')
    → read_page r ≡ (segments payload table (0, record r { reader = rest'' }), ok tt)
unfolding read_page
read_page_parts r header rest table rest' payload rest'' a b c d = ground (arith, a, b, c, d)

-- The page at the front of the source is read, and its segments are fed to the current packet.
pub read_page_lem :
    (p : Page) (rest : List ℕ) (r : OpusFrameReader)
    → length p.fields ≡ 22
    → r.reader ≡ page_bytes p ++ rest
    → read_page r ≡ (feed_all p.pieces (record r { reader = rest }), ok tt)
unfolding text_eq lit
read_page_lem p rest r long e =
    read_page_parts r (lit "OggS" ++ named) ((table_of l ++ concat l) ++ rest) (table_of l)
      (concat l ++ rest) (concat l) rest front magic table
      (read_exact-append (sum (table_of l)) (concat l) rest (sym (sum-table_of l)))
    ∙ ap (λ q. (q, ok tt)) (segments-feed [] l (record r { reader = rest }))
  where
    l : List (List ℕ)
    l = p.pieces

    named : List ℕ
    named = p.fields ++ (length l ∷ [])

    magic : text_eq (take 4 (lit "OggS" ++ named)) (lit "OggS") ≡ true
    magic = refl

    front : read_exact 27 r.reader ≡ some (lit "OggS" ++ named, (table_of l ++ concat l) ++ rest)
    front =
        ap (read_exact 27) (
          e
          ∙ ap (λ t. lit "OggS" ++ t)
              (append_assoc p.fields (length l ∷ (table_of l ++ concat l)) rest
                ∙ sym (append_assoc p.fields (length l ∷ []) ((table_of l ++ concat l) ++ rest))))
        ∙ read_exact-append 27 (lit "OggS" ++ named) ((table_of l ++ concat l) ++ rest)
            (omega (arith, length-append p.fields (length l ∷ []), long))

    number : first_byte (drop 26 (lit "OggS" ++ named)) ≡ length (table_of l)
    number =
        ap first_byte (drop-append_exact 22 p.fields (length l ∷ []) long) ∙ sym (length-table_of l)

    table :
        read_exact (first_byte (drop 26 (lit "OggS" ++ named))) ((table_of l ++ concat l) ++ rest)
        ≡ some (table_of l, concat l ++ rest)
    table =
        ap₂ read_exact number (append_assoc (table_of l) (concat l) rest)
        ∙ read_exact-append (length (table_of l)) (table_of l) (concat l ++ rest) refl

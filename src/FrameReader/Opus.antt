-- ===== src/FrameReader/Opus.antt =====
-- `OpusFrameReader`: Opus packets out of Ogg pages.
use rusttgcalls.Prelude.{
  ℕ, zero, suc, ◌+◌, Bool, true, false, not, ◌&&◌, List, [], ◌∷◌, ◌++◌, Option, none, some,
  if◌then◌else◌, ltb, leb, length, take, drop, lit, text_eq, starts_with, Text,
}
use mathlib.Core.Option
use rusttgcalls.Models.{Error, Result, ok, err, internal}
use rusttgcalls.FrameReader.{Sample, read_exact, parse_opus_packet_duration}
pub mod Pages
pub mod Fuel
pub mod Stream
pub mod RoundTrip

-- `OpusFrameReader`. `reader` are the bytes that its source still has.
pub record OpusFrameReader : Type 0 where
  pub reader : List ℕ
  pub skipped_header : Bool
  pub skipped_tags : Bool
  pub queue : List (List ℕ)
  pub current_packet : List ℕ

unfoldable pub new : List ℕ → OpusFrameReader
new reader = record {
  reader = reader;
  skipped_header = false;
  skipped_tags = false;
  queue = [];
  current_packet = [];
}

abbrev pub is_empty {ℓ} : {A : Type ℓ} → List A → Bool
is_empty [] = true
is_empty (a ∷ l) = false

-- What becomes of a whole packet: the first two headers are dropped, and empty packets.
unfoldable pub deliver : List ℕ → OpusFrameReader → OpusFrameReader
deliver pkt r =
    if not r.skipped_header && starts_with pkt (lit "OpusHead")
    then record r { skipped_header = true }
    else if not r.skipped_tags && starts_with pkt (lit "OpusTags")
    then record r { skipped_tags = true }
    else if not (is_empty pkt)
    then record r { skipped_header = true; skipped_tags = true; queue = r.queue ++ (pkt ∷ []) }
    else r

-- `current_packet.split().freeze()` and the rest of the branch.
unfoldable pub finish : OpusFrameReader → OpusFrameReader
unfolding deliver
finish r = deliver r.current_packet (record r { current_packet = [] })

-- The offset in the payload and the reader.
abbrev pub Cursor : Type 0
Cursor = ℕ × OpusFrameReader

-- The loop over the segment table, and a round of it.
unfoldable pub segment : List ℕ → ℕ → Cursor → Cursor
unfolding finish
segment payload len (offset, r) =
    let fits = leb (offset + len) (length payload) in
    let piece = if fits then take len (drop offset payload) else [] in
    let r' = record r { current_packet = r.current_packet ++ piece } in
    (if fits then offset + len else offset, if ltb len 255 then finish r' else r')

unfoldable pub segments : List ℕ → List ℕ → Cursor → OpusFrameReader
segments payload [] c = c.1
segments payload (len ∷ table) c = segments payload table (segment payload len c)

abbrev pub sum : List ℕ → ℕ
sum [] = 0
sum (n ∷ l) = n + sum l

-- `header[26]`, the last of its 27 bytes.
abbrev pub first_byte : List ℕ → ℕ
first_byte [] = 0
first_byte (b ∷ _) = b

-- The pass of the loop that reads a page. A read that meets the end of the source takes what is left.
unfoldable pub read_page : OpusFrameReader → OpusFrameReader × Result (Unit {0})
read_page r = elim (read_exact 27 r.reader) [
  | none ↦ (record r { reader = [] }, err Error.file)
  | some (header, rest) ↦
      if not (text_eq (take 4 header) (lit "OggS"))
      then (record r { reader = rest }, err (internal (lit "invalid Ogg magic header")))
      else elim (read_exact (first_byte (drop 26 header)) rest) [
        | none ↦ (record r { reader = [] }, err Error.file)
        | some (table, rest') ↦ elim (read_exact (sum table) rest') [
          | none ↦ (record r { reader = [] }, err Error.file)
          | some (payload, rest'') ↦
              (segments payload table (0, record r { reader = rest'' }), ok tt)
        ]
      ]
]

abbrev pub sample : List ℕ → Sample
sample pkt = record { payload = pkt; duration = parse_opus_packet_duration pkt }

-- `next_sample` on fuel: a pass that goes on reads a page of at least 27 bytes, which queues at most one
-- packet for each further byte.
pub next_on : ℕ → OpusFrameReader → Option (OpusFrameReader × Result Sample)
next_on zero r = none
next_on (suc fuel) r = elim r.queue [
  | pkt ∷ queue ↦ some (record r { queue = queue }, ok (sample pkt))
  | [] ↦ elim (read_page r).1 [
    | err e ↦ some ((read_page r).0, err e)
    | ok _ ↦ next_on fuel (read_page r).0
  ]
]

unfoldable pub next_sample : OpusFrameReader → Option (OpusFrameReader × Result Sample)
unfolding next_on
next_sample r = next_on (suc (length r.reader + length r.queue)) r

-- The samples that the streamer's reader gets before the error at which it stops, and that error, on
-- fuel.
pub read_on : ℕ → OpusFrameReader → Option (List Sample × Error)
unfolding next_sample
read_on zero r = none
read_on (suc fuel) r = elim (next_sample r) [
  | none ↦ none
  | some (r', err e) ↦ some ([], e)
  | some (r', ok s) ↦ Option.map (λ (l, e). (s ∷ l, e)) (read_on fuel r')
]

unfoldable pub read_all : OpusFrameReader → Option (List Sample × Error)
unfolding read_on
read_all r = read_on (suc (length r.reader + length r.queue)) r

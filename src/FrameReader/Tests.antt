-- ===== src/FrameReader/Tests.antt =====
-- Small files read back.
use rusttgcalls.Prelude.{
  ℕ, ◌*◌, ◌/◌, ◌%◌, ◌≤◌, List, [], ◌∷◌, ◌++◌, Option, some, ◌≡◌, ◌≢◌, refl, lit, map, replicate,
  arith, starts_with,
}
use rusttgcalls.Models.{Error}
use rusttgcalls.FrameReader.{parse_opus_packet_duration}
use rusttgcalls.FrameReader.Duration.{rfc_samples, rfc_frames, parse_opus_packet_duration_lem}
use rusttgcalls.FrameReader.Opus
use rusttgcalls.FrameReader.Opus.{OpusFrameReader, next_sample, read_all, sample}
use rusttgcalls.FrameReader.Opus.Fuel.{read_all-total}
use rusttgcalls.FrameReader.Opus.Pages.{Page}
use rusttgcalls.FrameReader.Opus.Stream.{stream}
use rusttgcalls.FrameReader.Opus.RoundTrip.{Laced, packet, read_all-stream}
use rusttgcalls.FrameReader.Vp8
use rusttgcalls.FrameReader.Vp8.RoundTrip.{
  IvfHeader, Frame, header_bytes, frames_bytes, samples, read_all-ivf,
}

abbrev head : Laced
head = record { full = []; last = lit "OpusHead" }

abbrev tags : Laced
tags = record { full = []; last = lit "OpusTags" }

-- A packet of 257 bytes in two segments, and one of three bytes.
abbrev long_packet : Laced
long_packet = record { full = replicate 255 7 ∷ []; last = 8 ∷ 9 ∷ [] }

abbrev short_packet : Laced
short_packet = record { full = []; last = 1 ∷ 2 ∷ 3 ∷ [] }

abbrev fields : List ℕ
fields = replicate 22 0

-- The long packet goes over the end of the second page.
abbrev pages : List Page
pages =
    record { fields = fields; pieces = lit "OpusHead" ∷ [] }
    ∷ record { fields = fields; pieces = lit "OpusTags" ∷ replicate 255 7 ∷ [] }
    ∷ record { fields = fields; pieces = (8 ∷ 9 ∷ []) ∷ (1 ∷ 2 ∷ 3 ∷ []) ∷ [] }
    ∷ []

read_all-stream_example :
    read_all (Opus.new (stream pages))
    ≡ some (map sample (packet long_packet ∷ packet short_packet ∷ []), Error.file)
unfolding lit starts_with
read_all-stream_example =
    read_all-stream pages head tags (long_packet ∷ short_packet ∷ []) (refl, (refl, (refl, tt)))
      ((tt, omega arith), ((tt, omega arith), (((refl, tt), omega arith), ((tt, omega arith), tt))))
      refl refl refl (ground arith, (ground arith, tt))

abbrev torn : OpusFrameReader
torn = Opus.new (lit "OggS" ++ (0 ∷ []))

read_all-total_example : (next_sample torn ≢ Option.none) × (read_all torn ≢ Option.none)
read_all-total_example = read_all-total torn

abbrev ivf : IvfHeader
ivf = record { before = replicate 12 0; timebase_den = 30; timebase_num = 1; after = replicate 8 0 }

abbrev frames : List Frame
frames =
    record { stamp = replicate 8 0; body = 5 ∷ 6 ∷ [] }
    ∷ record { stamp = replicate 8 1; body = [] }
    ∷ []

read_all-ivf_example :
    Vp8.read_all (Vp8.new (header_bytes ivf ++ frames_bytes frames))
    ≡ some (samples (1 * 1_000_000_000 / 30) frames, Error.file)
read_all-ivf_example =
    read_all-ivf ivf frames (refl, omega arith, omega arith, omega arith, omega arith, refl)
      ((refl, omega arith), ((refl, omega arith), tt))

-- Two frames of 20 ms.
parse_opus_packet_duration_lem_example :
    (parse_opus_packet_duration (9 ∷ 0 ∷ [])
      ≡ rfc_samples (9 / 8 % 32) * rfc_frames 9 (0 ∷ []) * 1_000_000_000 / 48000)
    × (2_500_000 ≤ parse_opus_packet_duration (9 ∷ 0 ∷ []))
    × (parse_opus_packet_duration (9 ∷ 0 ∷ []) ≤ 3_780_000_000)
parse_opus_packet_duration_lem_example = parse_opus_packet_duration_lem 9 (0 ∷ [])

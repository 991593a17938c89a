-- ===== src/Streamer/Tests.antt =====
-- Streamers on a transport that counts what it is sent, and on their way through short schedules.
use rusttgcalls.Prelude.{
  ℕ, ◌+◌, ◌≤◌, ◌%◌, ◌^◌, true, false, List, [], ◌∷◌, ◌++◌, some, ◌≡◌, ◌⊎◌, refl, length,
}
use rusttgcalls.Models.{Error, Result, ok, err, audio, microphone}
use rusttgcalls.FrameReader.{Sample}
use rusttgcalls.Streamer.{Streamer, new_with_barrier}
use rusttgcalls.Streamer.Tasks.{
  System, Event, reads, paces, fetches, passes, stops, mutes, capacity, step, run, spawn, is_over,
  read, fetch, pace, at_loop, play, receive,
}
use rusttgcalls.Streamer.Order.{frames, pending, run-in_order}
use rusttgcalls.Streamer.Pace.{Paced, total, run-Paced}
use rusttgcalls.Streamer.Ending.{past_tests, on_way, IsOnce, stops-silences, run-IsOnce}
use rusttgcalls.Streamer.Barrier.{Pair, PairEvent, pair_run, IsStuck, ended-blocks}

abbrev send : ℕ → List ℕ → ℕ → ℕ → ℕ × Result (Unit {0})
send payload_type payload duration n = (n + 1, ok tt)

abbrev frame : ℕ → Sample
frame b = record { payload = b ∷ []; duration = 20_000_000 }

abbrev handle : Streamer ℕ
handle = record (new_with_barrier 1 111 false) {
  on_end = some (record { stream_type = audio; device = microphone });
}

-- Two frames are fetched and the first is played.
abbrev schedule : List Event
schedule =
    reads
    ∷ fetches (ok (frame 1))
    ∷ reads
    ∷ reads
    ∷ fetches (ok (frame 2))
    ∷ reads
    ∷ paces
    ∷ paces
    ∷ paces
    ∷ paces
    ∷ passes 20_000_000
    ∷ paces
    ∷ paces
    ∷ paces
    ∷ []

abbrev playing : System ℕ ℕ
playing = run send schedule (spawn handle 0 5)

played_one : length playing.played ≡ 1
unfolding run step read fetch pace at_loop play receive spawn new_with_barrier
played_one = refl

run-in_order_example :
    ((rest : List (Result Sample)) × (frames playing.played ++ rest ≡ playing.fetched))
    × ((is_over playing.pacing ≡ true)
        ⊎ (frames playing.played ++ pending playing ≡ playing.fetched))
    × (length playing.channel ≤ capacity)
run-in_order_example = run-in_order send schedule handle 0 5

run-Paced_example : Paced playing.played × (playing.handle.ns_sent ≡ total playing.played % 2 ^ 64)
unfolding new_with_barrier
run-Paced_example = run-Paced send schedule handle 0 5 refl

stops-silences_example :
    let t = run send (paces ∷ mutes true ∷ paces ∷ []) (step send stops playing) in
    (length t.played ≤ length playing.played + past_tests playing.pacing)
    × (length t.ended ≤ length playing.ended + on_way playing.pacing)
stops-silences_example =
    stops-silences send (paces ∷ mutes true ∷ paces ∷ []) playing (refl, (refl, (refl, tt)))

run-IsOnce_example : IsOnce playing
run-IsOnce_example = run-IsOnce send schedule handle 0 5

-- The audio's source ends before its first frame, and the video has one.
abbrev no_audio : List Event
no_audio = reads ∷ fetches (err Error.file) ∷ reads ∷ paces ∷ paces ∷ []

abbrev one_frame : List Event
one_frame = reads ∷ fetches (ok (frame 1)) ∷ reads ∷ paces ∷ paces ∷ []

abbrev pair : Pair ℕ ℕ
pair = record {
  audio = run send no_audio (spawn (new_with_barrier 1 111 true) 0 5);
  video = run send one_frame (spawn (new_with_barrier 2 100 true) 0 5);
}

ended-blocks_example :
    IsStuck pair.video
      (pair_run send
        (PairEvent.video stops ∷ PairEvent.meet ∷ PairEvent.video paces ∷ [])
        pair).video
unfolding run step read fetch pace at_loop receive spawn new_with_barrier
ended-blocks_example =
    ended-blocks send (PairEvent.video stops ∷ PairEvent.meet ∷ PairEvent.video paces ∷ []) pair
      refl refl

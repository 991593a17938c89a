-- ===== src/RtmpCall/Tests.antt =====
-- An RTMP call that has played for five seconds.
use rusttgcalls.Prelude.{
  ℕ, ◌-◌, ◌%◌, ◌^◌, ◌<◌, ◌≤◌, Text, ◌≡◌, ◌⊎◌, refl, true, false, [], ◌∷◌, ◌++◌, arith,
}
use rusttgcalls.Models.{Result, ok}
use rusttgcalls.Process.{Command}
use rusttgcalls.Source.{no_streams, default_options}
use rusttgcalls.RtmpCall.{
  RtmpCall, new_with_events, elapsed_ms, seek_by, stop, pause, resume, set_source, ffmpeg_command,
}
use rusttgcalls.RtmpCall.Laws.{seek_by_lem}
use rusttgcalls.RtmpCall.Position.{resume-pause}

abbrev works : Command → Result ℕ
works c = ok 7

abbrev seconds : ℕ → Text
seconds d = []

abbrev playing : RtmpCall ℕ
playing = (set_source works seconds 1000 no_streams (new_with_events [] false true)).0

seek_by_lem_example :
    ((7000 < 2 ^ 63 × seek_by 6000 2000 playing ≡ (record playing { resume_ms = 7000 }, ok tt))
      ⊎ (2 ^ 63 ≤ 7000 × seek_by 6000 2000 playing ≡ stop playing))
    × ((2000 ≤ 5000
          × seek_by 6000 ((2 ^ 64 - 2000) % 2 ^ 64) playing
            ≡ (record playing { resume_ms = 3000 }, ok tt))
        ⊎ (5000 < 2000 × seek_by 6000 ((2 ^ 64 - 2000) % 2 ^ 64) playing ≡ stop playing))
unfolding set_source new_with_events elapsed_ms
seek_by_lem_example = seek_by_lem 6000 2000 playing refl (omega arith) (omega arith)

resume-pause_example :
    (resume works seconds 9000 (pause 6000 playing).0).0.tried
    ≡ playing.tried ++ (ffmpeg_command works seconds 0 playing default_options ∷ [])
unfolding set_source new_with_events
resume-pause_example = resume-pause works seconds 6000 9000 playing refl refl

-- ===== src/Signaling/Tests.antt =====
-- Parameters with video.
use rusttgcalls.Prelude.{ℕ, Text, ◌≡◌, ◌≢◌, ◌⊎◌, [], ◌∷◌, arith}
use rusttgcalls.Models.{ok, err, invalid_params}
use rusttgcalls.Signaling.{LocalParams, build_local_params}
use rusttgcalls.Signaling.Laws.{GroupsVideo, build_local_params_lem}

abbrev name : Text
name = 0x61 ∷ []

abbrev audio : ℕ
audio = 7

build_local_params_lem_example :
    (((name ≡ []) ⊎ (name ≡ []) ⊎ (name ≡ []) ⊎ (audio ≡ 0))
      × ((e : Text) × (build_local_params name name name audio 9 ≡ err (invalid_params e))))
    ⊎ ((p : LocalParams) × (build_local_params name name name audio 9 ≡ ok p)
        × (name ≢ [])
        × (name ≢ [])
        × (name ≢ [])
        × (p.ufrag ≡ name)
        × (p.pwd ≡ name)
        × (p.ssrc ≡ audio)
        × (audio ≢ 0)
        × GroupsVideo 9 p.ssrc_groups)
build_local_params_lem_example = build_local_params_lem name name name audio 9 (omega arith)

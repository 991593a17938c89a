-- ===== src/GroupCall/Audible.antt =====
-- Whether the audio of a call is silent while the call says so.
use rusttgcalls.Prelude.{true, false, ◌||◌, some, ◌≡◌, arith}
use rusttgcalls.Models.{ok}
use rusttgcalls.Source.{Streams}
use rusttgcalls.Streamer.{Streamer}
use rusttgcalls.StackApi.{StackApi}
use rusttgcalls.GroupCall.Base.{GroupCall, current_state, fire}
use rusttgcalls.GroupCall.Media.{install}
use rusttgcalls.GroupCall.Control.{pause, resume, mute, unmute}

module _ {api : StackApi} {Reader : Type 0} where
  -- The media state calls the outgoing audio silent only if the audio streamer is held.
  abbrev pub IsHonest : GroupCall api Reader → Type 0
  IsHonest c =
      (s : Streamer Reader)
      → c.audio_streamer ≡ some s
      → (c.muted || c.paused) ≡ true
      → s.paused ≡ true

  -- Pausing, muting and installing a source keep the media state honest, whatever was set before.
  pub silencing-IsHonest :
      (c : GroupCall api Reader) (streams : Streams Reader)
      → IsHonest c
      → IsHonest (pause c).0 × IsHonest (mute c).0 × IsHonest (install streams c)
  unfolding pause mute install fire
  silencing-IsHonest c streams h =
      (λ s e q. ground (arith, h s), λ s e q. ground (arith, h s), λ s e q. ground arith)

  -- Resuming a muted call lets its audio run, while the call goes on reporting that it is muted.
  pub resume-unmutes :
      (c : GroupCall api Reader) (s : Streamer Reader)
      → c.closed ≡ false
      → c.paused ≡ true
      → c.muted ≡ true
      → c.audio_streamer ≡ some s
      → let (c', r) = resume c in
        (r ≡ ok true)
        × ((current_state c').muted ≡ true)
        × (c'.audio_streamer ≡ some (record s { paused = false }))
  unfolding resume fire
  resume-unmutes c s h p m e = ground arith

  -- Unmuting a paused call lets its audio run, while the call goes on reporting that it is paused.
  pub unmute-unpauses :
      (c : GroupCall api Reader) (s : Streamer Reader)
      → c.closed ≡ false
      → c.paused ≡ true
      → c.muted ≡ true
      → c.audio_streamer ≡ some s
      → let (c', r) = unmute c in
        (r ≡ ok true)
        × ((current_state c').paused ≡ true)
        × (c'.audio_streamer ≡ some (record s { paused = false }))
  unfolding unmute fire
  unmute-unpauses c s h p m e = ground arith

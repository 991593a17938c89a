-- ===== src/GroupCall/Events.antt =====
-- Which callbacks a call runs.
use rusttgcalls.Prelude.{
  true, false, List, [], ◌∷◌, ◌++◌, Option, none, some, ◌≡◌, ◌≢◌, ◌⊎◌, inl, inr, refl, arith,
}
use rusttgcalls.Models.{Error}
use rusttgcalls.Source.{Streams}
use rusttgcalls.Streamer.{Streamer}
use rusttgcalls.StackApi.{StackApi}
use rusttgcalls.GroupCall.Base.{
  Event, upgrade, GroupCall, Task, is_some, current_state, fire, handle_streamer_end,
}
use rusttgcalls.GroupCall.Media.{install}
use rusttgcalls.GroupCall.Control.{pause, resume, mute, unmute}

-- The callbacks run and the tasks submitted, which a step may only extend.
abbrev pub Effects : Type 0
Effects = List Event × List Task

module _ {api : StackApi} {Reader : Type 0} where
  abbrev pub effects : GroupCall api Reader → Effects
  effects c = (c.called, c.submitted)

  -- None of the four switches ever reports an upgrade, or anything else: each sets its flag before
  -- it takes the state to compare with.
  pub switches-silent :
      (c : GroupCall api Reader)
      → (effects (pause c).0 ≡ effects c)
        × (effects (resume c).0 ≡ effects c)
        × (effects (mute c).0 ≡ effects c)
        × (effects (unmute c).0 ≡ effects c)
  unfolding pause resume mute unmute fire
  switches-silent c = (ground arith, ground arith, ground arith, ground arith)

  -- A second end of the same source reports nothing and changes nothing.
  pub handle_streamer_end-once :
      (c : GroupCall api Reader) (first second : Option Error)
      → handle_streamer_end second (handle_streamer_end first c) ≡ handle_streamer_end first c
  unfolding handle_streamer_end
  handle_streamer_end-once c first second = ground arith

  -- With an upgrade callback and no dispatcher, installing a source reports an upgrade if there was
  -- video and now is none, or the other way round; otherwise it reports nothing.
  pub install-upgrade :
      (c : GroupCall api Reader) (streams : Streams Reader)
      → c.callbacks.on_upgrade ≡ true
      → c.has_dispatcher ≡ false
      → let c' = install streams c in
        ((is_some streams.video ≡ is_some c.video_streamer) × effects c' ≡ effects c)
        ⊎ ((is_some streams.video ≢ is_some c.video_streamer)
            × effects c' ≡ (c.called ++ (upgrade (current_state c') ∷ []), c.submitted))
  unfolding install fire
  install-upgrade c streams on direct = by_video streams.video c.video_streamer refl refl
    where
      by_video :
          (new : Option Reader) (old : Option (Streamer Reader))
          → streams.video ≡ new
          → c.video_streamer ≡ old
          → let c' = install streams c in
            ((is_some streams.video ≡ is_some c.video_streamer) × effects c' ≡ effects c)
            ⊎ ((is_some streams.video ≢ is_some c.video_streamer)
                × effects c' ≡ (c.called ++ (upgrade (current_state c') ∷ []), c.submitted))
      by_video none none e e' = inl (ground arith, ground arith)
      by_video none (some o) e e' = inr (ground arith, ground arith)
      by_video (some n) none e e' = inr (ground arith, ground arith)
      by_video (some n) (some o) e e' = inl (ground arith, ground arith)

-- ===== src/GroupCall/Toggles.antt =====
-- What pausing and muting do to a call, and where they interfere.
use rusttgcalls.Prelude.{Bool, true, false, not, List, [], ◌∷◌, if◌then◌else◌, ◌≡◌, refl, arith}
use rusttgcalls.Models.{Error, Result, ok, err}
use rusttgcalls.StackApi.{StackApi}
use rusttgcalls.GroupCall.Base.{GroupCall, fire}
use rusttgcalls.GroupCall.Control.{pause, resume, mute, unmute, stop}

-- The three switches of a call.
pub record Switches : Type 0 where
  pub closed : Bool
  pub paused : Bool
  pub muted : Bool

pub data Control : Type 0 where
  pauses resumes mutes unmutes stops : Control

abbrev Reply : Type 0
Reply = Result Bool

-- A switch answers whether it has changed; a closed call answers nothing else than that.
abbrev pub switch : Switches → Control → Switches × Reply
switch s pauses =
    if s.closed then (s, err Error.closed) else (record s { paused = true }, ok (not s.paused))
switch s resumes =
    if s.closed then (s, err Error.closed) else (record s { paused = false }, ok s.paused)
switch s mutes =
    if s.closed then (s, err Error.closed) else (record s { muted = true }, ok (not s.muted))
switch s unmutes =
    if s.closed then (s, err Error.closed) else (record s { muted = false }, ok s.muted)
switch s stops = (record { closed = true; paused = false; muted = false }, ok true)

pub run_switches : Switches → List Control → List Reply
run_switches s [] = []
run_switches s (o ∷ os) = let (s', r) = switch s o in r ∷ run_switches s' os

module _ {api : StackApi} {Reader : Type 0} where
  abbrev pub switches : GroupCall api Reader → Switches
  switches c = record { closed = c.closed; paused = c.paused; muted = c.muted }

  -- `stop` never fails, which is answered by `ok true`.
  abbrev stopped : GroupCall api Reader × Result (Unit {0}) → GroupCall api Reader × Reply
  stopped (c, ok _) = (c, ok true)
  stopped (c, err e) = (c, err e)

  pub control : GroupCall api Reader → Control → GroupCall api Reader × Reply
  control c pauses = pause c
  control c resumes = resume c
  control c mutes = mute c
  control c unmutes = unmute c
  control c stops = stopped (stop c)

  pub run : GroupCall api Reader → List Control → List Reply
  run c [] = []
  run c (o ∷ os) = let (c', r) = control c o in r ∷ run c' os

  -- A closed call has its other switches off, as `stop` leaves them.
  abbrev pub IsReset : GroupCall api Reader → Type 0
  IsReset c = c.closed ≡ true → (c.paused ≡ false) × (c.muted ≡ false)

  control_lem :
      (c : GroupCall api Reader) (o : Control)
      → IsReset c
      → let (c', r) = control c o in ((switches c', r) ≡ switch (switches c) o) × IsReset c'
  unfolding control pause resume mute unmute stop fire
  control_lem c pauses h = ground arith
  control_lem c resumes h = ground arith
  control_lem c mutes h = ground arith
  control_lem c unmutes h = ground arith
  control_lem c stops h = ground arith

  -- Whatever is asked of a call, in whatever order, it answers as its three switches do.
  pub run_refines :
      (os : List Control) (c : GroupCall api Reader)
      → IsReset c
      → run c os ≡ run_switches (switches c) os
  unfolding run run_switches
  run_refines [] c h = refl
  run_refines (o ∷ os) c h = ground (arith, control_lem c o h, run_refines os (control c o).0)

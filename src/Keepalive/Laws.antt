-- ===== src/Keepalive/Laws.antt =====
-- When the monitor closes a stack.
use rusttgcalls.Prelude.{
  ℕ, ◌+◌, Bool, true, false, List, [], ◌∷◌, ◌++◌, if◌then◌else◌, ltb, ◌≡◌, ◌≢◌, refl, sym, ◌∙◌, ap,
  arith, append_assoc, append-nil, Every, Bool-cases, ◌⊎◌, inl, inr,
}
use rusttgcalls.Models.{ConnState}
use rusttgcalls.GroupCall.Base.{is_connected}
use rusttgcalls.Keepalive.{
  Task, closes, pads, PcMonitorEntry, new, distance, ice_checking_timeout, tick, Look, ticks,
}

-- The looks that find a stack unconnected.
unfoldable pub IsWaiting : Look → Type 0
IsWaiting (do_keepalive, state, now) = is_connected state ≡ false

-- A close for each look that is late.
pub closes_after : ℕ → List Look → List Task
closes_after start [] = []
closes_after start ((do_keepalive, state, now) ∷ l) =
    let rest = closes_after start l in
    if ltb ice_checking_timeout (distance now start) then closes ∷ rest else rest

waiting :
    (l : List Look) (e : PcMonitorEntry)
    → e.ever_connected ≡ false
    → e.checking_ns ≢ 0
    → Every IsWaiting l
    → (ticks l e).tasks ≡ e.tasks ++ closes_after e.checking_ns l
unfolding ticks tick IsWaiting closes_after
waiting [] e never started h = sym (append-nil e.tasks)
waiting ((do_keepalive, state, now) ∷ l) e never started (w, h) =
    elim (Bool-cases (ltb ice_checking_timeout (distance now e.checking_ns))) [
      | inl late ↦
          let e' = record e { tasks = e.tasks ++ (closes ∷ []) } in
          ground (
            arith,
            never,
            started,
            w,
            late,
            waiting l e' never started h,
            append_assoc e.tasks (closes ∷ []) (closes_after e.checking_ns l),
          )
      | inr early ↦ ground (arith, never, started, w, early, waiting l e never started h)
    ]

-- A stack that has never been connected is closed by every look, and only by those, that comes more
-- than 35 seconds after the first one, if that is not at the time zero.
pub ticks-waiting :
    (video_ssrc : ℕ) (keep : Bool) (state : ConnState) (start : ℕ) (l : List Look)
    → start ≢ 0
    → Every IsWaiting ((keep, state, start) ∷ l)
    → (ticks ((keep, state, start) ∷ l) (new video_ssrc)).tasks ≡ closes_after start l
unfolding ticks tick new IsWaiting
ticks-waiting video_ssrc keep state start l started (w, h) =
    let e = record (new video_ssrc) { checking_ns = start } in
    ground (arith, w, waiting l e refl started h)

-- The closes among the tasks.
pub count_closes : List Task → ℕ
count_closes [] = 0
count_closes (closes ∷ l) = 1 + count_closes l
count_closes (pads ∷ l) = count_closes l

count_closes-pads : (l : List Task) → count_closes (l ++ (pads ∷ [])) ≡ count_closes l
unfolding count_closes
count_closes-pads [] = refl
count_closes-pads (closes ∷ l) = ap (λ n. 1 + n) (count_closes-pads l)
count_closes-pads (pads ∷ l) = count_closes-pads l

after_tick :
    (keep : Bool) (state : ConnState) (now : ℕ) (e : PcMonitorEntry)
    → (e.ever_connected ≡ true) ⊎ (is_connected state ≡ true)
    → let e' = tick keep state now e in
      (e'.ever_connected ≡ true) × (count_closes e'.tasks ≡ count_closes e.tasks)
unfolding tick
after_tick keep state now e h = elim (Bool-cases (is_connected state)) [
  | inl up ↦ (ground (arith, up), ground (arith, up, count_closes-pads e.tasks))
  | inr down ↦ (ground (arith, down, h), ground (arith, down, h))
]

after_ticks :
    (l : List Look) (e : PcMonitorEntry)
    → e.ever_connected ≡ true
    → count_closes (ticks l e).tasks ≡ count_closes e.tasks
unfolding ticks
after_ticks [] e h = refl
after_ticks ((keep, state, now) ∷ l) e h =
    let (ever, same) = after_tick keep state now e (inl h) in
    after_ticks l (tick keep state now e) ever ∙ same

-- Once a look has found a stack connected, neither it nor a later one closes the stack, whatever it
-- finds.
pub ticks-connected :
    (l : List Look) (keep : Bool) (state : ConnState) (now : ℕ) (e : PcMonitorEntry)
    → is_connected state ≡ true
    → count_closes (ticks ((keep, state, now) ∷ l) e).tasks ≡ count_closes e.tasks
unfolding ticks
ticks-connected l keep state now e h =
    let (ever, same) = after_tick keep state now e (inr h) in
    after_ticks l (tick keep state now e) ever ∙ same

-- ===== src/Stack/Reports.antt =====
-- What a `PeerConnection` tells of the states that its stack reports.
use rusttgcalls.Prelude.{
  ℕ, zero, suc, ◌+◌, Text, true, List, [], ◌∷◌, ◌++◌, some, if◌then◌else◌, ◌==◌, ◌≡◌, refl, arith,
  ◌⊎◌, inl, inr, Option-cases,
}
use rusttgcalls.Models.{Result, ConnState, connected, conn_code, Result-cases}
use rusttgcalls.DirectTransport.{MediaApi, DirectTransport}
use rusttgcalls.Stack.{
  from_direct, connect, close, Task, sets_callback, tells, PeerConnection, pick, new,
  on_connection_state_change, pc_connect, pc_close, run_some,
}

-- How often a state occurs.
abbrev pub is_state : ConnState → ConnState → ℕ
is_state x state = if conn_code state == conn_code x then 1 else 0

pub count : ConnState → List ConnState → ℕ
count x [] = 0
count x (state ∷ l) = is_state x state + count x l

abbrev of_task : ConnState → Task → ℕ
of_task x sets_callback = 0
of_task x (tells state) = is_state x state

pub on_way : ConnState → List Task → ℕ
on_way x [] = 0
on_way x (t ∷ l) = of_task x t + on_way x l

count-append : (x : ConnState) (l m : List ConnState) → count x (l ++ m) ≡ count x l + count x m
unfolding count
count-append x [] m = omega arith
count-append x (s ∷ l) m = omega (arith, count-append x l m)

on_way-append : (x : ConnState) (l m : List Task) → on_way x (l ++ m) ≡ on_way x l + on_way x m
unfolding on_way
on_way-append x [] m = omega arith
on_way-append x (t ∷ l) m = omega (arith, on_way-append x l m)

on_way-pick :
    (x : ConnState) (n : ℕ) (l : List Task) (t : Task) (rest : List Task)
    → pick n l ≡ some (t, rest)
    → on_way x l ≡ of_task x t + on_way x rest
unfolding on_way
on_way-pick x n [] t rest e = cc
on_way-pick x zero (u ∷ l) t rest e = ground (arith, e)
on_way-pick x (suc n) (u ∷ l) t rest e = elim (Option-cases (pick n l)) [
  | inl q ↦ ground (arith, e, q)
  | inr ((v, m), q) ↦ ground (arith, e, q, on_way-pick x n l v m q)
]

Task-cases : (t : Task) → (t ≡ sets_callback) ⊎ ((s : ConnState) × (t ≡ tells s))
Task-cases sets_callback = inl refl
Task-cases (tells s) = inr (s, refl)

-- What is done to a connection, and its spawned tasks; `changes` is what else happens to the transport.
pub data Event (media : MediaApi) : Type 0 where
  sets closes : Event media
  connects :
      (Text → DirectTransport media → DirectTransport media × Result (Unit {0}))
      → Text
      → Event media
  runs : ℕ → Event media
  changes : (DirectTransport media → DirectTransport media) → Event media

module _ {media : MediaApi} where
  unfoldable pub step : Event media → PeerConnection media → PeerConnection media
  step sets p = on_connection_state_change p
  step closes p = (pc_close p).0
  step (connects f json) p = (pc_connect f json p).0
  step (runs n) p = run_some n p
  step (changes f) p = record p { stack = record p.stack { direct = f p.stack.direct } }

  unfoldable pub run : List (Event media) → PeerConnection media → PeerConnection media
  run [] p = p
  run (e ∷ l) p = run l (step e p)

  -- Each report is told or on its way.
  record Told (x : ConnState) (p : PeerConnection media) : Type 0 where
    reports : p.stack.on_state_change ≡ true
    listens : p.has_callback ≡ true
    all_told : count x p.told + on_way x p.tasks ≡ count x p.stack.reported

  run_some-Told :
      (x : ConnState) (n : ℕ) (p : PeerConnection media) → Told x p → Told x (run_some n p)
  unfolding run_some count on_way
  run_some-Told x n p v = elim (Option-cases (pick n p.tasks)) [
    | inl e ↦ ground (arith, e)
    | inr ((t, rest), e) ↦ elim (Task-cases t) [
      | inl q ↦ ground (arith, e, q, v, on_way-pick x n p.tasks t rest e)
      | inr (s, q) ↦
          ground (arith, e, q, v, on_way-pick x n p.tasks t rest e, count-append x p.told (s ∷ []))
    ]
  ]

  step-Told :
      (x : ConnState) (e : Event media) (p : PeerConnection media) → Told x p → Told x (step e p)
  unfolding step pc_close pc_connect close connect on_connection_state_change count on_way
  step-Told x sets p v = ground (arith, v, on_way-append x p.tasks (sets_callback ∷ []))
  step-Told x closes p v = ground (
    arith,
    v,
    on_way-append x p.tasks (tells ConnState.closed ∷ []),
    count-append x p.stack.reported (ConnState.closed ∷ []),
  )
  step-Told x (connects f json) p v = elim (Result-cases (f json p.stack.direct).1) [
    | inl (u, q) ↦ ground (
      arith,
      q,
      v,
      on_way-append x p.tasks (tells connected ∷ []),
      count-append x p.stack.reported (connected ∷ []),
    )
    | inr (e, q) ↦ ground (arith, q, v)
  ]
  step-Told x (runs n) p v = run_some-Told x n p v
  step-Told x (changes f) p v = record {
    reports = v.reports;
    listens = v.listens;
    all_told = v.all_told;
  }

  run-Told :
      (x : ConnState) (l : List (Event media)) (p : PeerConnection media)
      → Told x p
      → Told x (run l p)
  unfolding run
  run-Told x [] p v = v
  run-Told x (e ∷ l) p v = run-Told x l (step e p) (step-Told x e p v)

  -- A new connection whose callback is in place.
  unfoldable pub listening : DirectTransport media → PeerConnection media
  listening direct = run_some 0 (on_connection_state_change (new direct))

  -- When the callback of a new connection is in place, whatever happens, each state that the stack reports
  -- is told to it as often as it was reported, but for what the spawned tasks have still to tell.
  pub run-told :
      (l : List (Event media)) (direct : DirectTransport media) (x : ConnState)
      → let p = run l (listening direct) in
        count x p.told + on_way x p.tasks ≡ count x p.stack.reported
  unfolding listening new from_direct run_some on_connection_state_change count on_way
  run-told l direct x =
      (run-Told x l (listening direct)
        (record { reports = refl; listens = refl; all_told = refl })).all_told

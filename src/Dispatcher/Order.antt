-- ===== src/Dispatcher/Order.antt =====
-- The tasks are run in the order of their submission.
use rusttgcalls.Prelude.{
  zero, suc, ℕ, ◌+◌, ◌≤◌, Bool, true, false, List, [], ◌∷◌, ◌++◌, Option, none, some, ◌≡◌, refl,
  sym, ◌∙◌, ap, arith, Every, append_assoc, append-nil, length, length-append, Option-cases, inl,
  inr,
}
use rusttgcalls.Dispatcher.{
  Dispatcher, Event, submits, closes, takes, finishes, size_of, new, submit, take_task, finish_task,
  step, run,
}

module _ {Task : Type 0} where
  abbrev pub in_hand : Option Task → List Task
  in_hand none = []
  in_hand (some t) = t ∷ []

  -- All that was accepted, the oldest first: run, running and waiting.
  abbrev pub accepted : Dispatcher Task → List Task
  accepted d = d.ran ++ (in_hand d.running ++ d.queue)

  abbrev pub submitted : List (Event Task) → List Task
  submitted [] = []
  submitted (submits t ∷ l) = t ∷ submitted l
  submitted (closes ∷ l) = submitted l
  submitted (takes ∷ l) = submitted l
  submitted (finishes ∷ l) = submitted l

  abbrev pub is_close : Event Task → Bool
  is_close closes = true
  is_close e = false

  -- The steps of the spawned task only move tasks on.
  take_task-accepted : (d : Dispatcher Task) → accepted (take_task d) ≡ accepted d
  unfolding take_task
  take_task-accepted d = ground arith

  finish_task-accepted : (d : Dispatcher Task) → accepted (finish_task d) ≡ accepted d
  unfolding finish_task
  finish_task-accepted d = elim (Option-cases d.running) [
    | inl e ↦ ground (arith, e)
    | inr (t, e) ↦ ground (arith, e, append_assoc d.ran (t ∷ []) d.queue)
  ]

  submit-accepted :
      (t : Task) (d : Dispatcher Task)
      → d.closed ≡ false
      → length d.queue + 1 ≤ d.size
      → accepted (submit t d) ≡ accepted d ++ (t ∷ [])
  unfolding submit
  submit-accepted t d h k = ground (
    arith,
    append_assoc d.ran (in_hand d.running ++ d.queue) (t ∷ []),
    append_assoc (in_hand d.running) d.queue (t ∷ []),
  )

  -- A task that finds the channel full is lost, and the older ones stay.
  pub submit-full : (t : Task) (d : Dispatcher Task) → d.size ≤ length d.queue → submit t d ≡ d
  unfolding submit
  submit-full t d h = ground arith

  -- The queue leaves room for the tasks that are still to come.
  pub record HasRoom (more : ℕ) (d : Dispatcher Task) : Type 0 where
    pub is_open : d.closed ≡ false
    pub room : length d.queue + more ≤ d.size

  submit-HasRoom :
      (t : Task) (more : ℕ) (d : Dispatcher Task) → HasRoom (1 + more) d → HasRoom more (submit t d)
  unfolding submit
  submit-HasRoom t more d v = ground (arith, length-append d.queue (t ∷ []))

  others-HasRoom :
      (more : ℕ) (d : Dispatcher Task)
      → HasRoom more d
      → HasRoom more (take_task d) × HasRoom more (finish_task d)
  unfolding take_task finish_task
  others-HasRoom more d v = (ground arith, ground arith)

  run-accepted :
      (l : List (Event Task)) (d : Dispatcher Task)
      → Every (λ e. is_close e ≡ false) l
      → HasRoom (length (submitted l)) d
      → (accepted (run l d) ≡ accepted d ++ submitted l) × HasRoom 0 (run l d)
  unfolding run step
  run-accepted [] d h v = (sym (append-nil (accepted d)), v)
  run-accepted (submits t ∷ l) d (q, h) v =
      let (same, room) = run-accepted l (submit t d) h (
        submit-HasRoom t (length (submitted l)) d
          (record { is_open = v.is_open; room = omega (arith, v.room) })) in
      (
        same
            ∙ ap (λ m. m ++ submitted l) (submit-accepted t d v.is_open (omega (arith, v.room)))
            ∙ append_assoc (accepted d) (t ∷ []) (submitted l),
        room,
      )
  run-accepted (closes ∷ l) d (q, h) v = cc
  run-accepted (takes ∷ l) d (q, h) v =
      let (same, room) =
        run-accepted l (take_task d) h (others-HasRoom (length (submitted l)) d v).0 in
      (same ∙ ap (λ m. m ++ submitted l) (take_task-accepted d), room)
  run-accepted (finishes ∷ l) d (q, h) v =
      let (same, room) =
        run-accepted l (finish_task d) h (others-HasRoom (length (submitted l)) d v).1 in
      (same ∙ ap (λ m. m ++ submitted l) (finish_task-accepted d), room)

  -- The spawned task alone, for so many tasks in the queue.
  abbrev pub drain : ℕ → List (Event Task)
  drain zero = finishes ∷ []
  drain (suc n) = finishes ∷ takes ∷ drain n

  drain-ran :
      (queue : List Task) (d : Dispatcher Task)
      → d.queue ≡ queue
      → (run (drain (length queue)) d).ran ≡ accepted d
  unfolding run step finish_task take_task
  drain-ran [] d e = ground (arith, e, append-nil d.ran)
  drain-ran (t ∷ queue) d e =
      let d' = take_task (finish_task d) in
      drain-ran queue d' (ground (arith, e))
      ∙ take_task-accepted (finish_task d)
      ∙ finish_task-accepted d

  -- Of no more tasks than the channel has places, submitted to a new dispatcher that is not closed, none is
  -- lost, whenever the spawned task goes on: those run, the one that runs and those that wait are the
  -- tasks in the order of their submission, and when the spawned task has gone on for as long as there
  -- are tasks in the channel, all have been run in that order.
  pub run-submitted :
      (buf_size : ℕ) (l : List (Event Task))
      → Every (λ e. is_close e ≡ false) l
      → length (submitted l) ≤ size_of buf_size
      → let d = run l (new buf_size) in
        (accepted d ≡ submitted l) × ((run (drain (length d.queue)) d).ran ≡ submitted l)
  unfolding new
  run-submitted buf_size l h small =
      let d = run l (new buf_size) in
      let same =
        (run-accepted l (new buf_size) h
          (record { is_open = refl; room = omega (arith, small) })).0 in
      (same, drain-ran d.queue d refl ∙ same)

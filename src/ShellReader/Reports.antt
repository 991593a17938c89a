-- ===== src/ShellReader/Reports.antt =====
-- What the task that waits for the exit reports.
use rusttgcalls.Prelude.{
  Bool, true, false, List, [], ◌∷◌, ◌++◌, Option, some, ◌≡◌, ◌⊎◌, inl, inr, refl, sym, ◌∙◌, ap,
  arith, subst, Bool-cases,
}
use rusttgcalls.Models.{Error}
use rusttgcalls.ShellReader.{
  Exit, reaper, closer, Reaping, locking, reaping, reaped_all, reaped, calling, killing,
  ShellReader, error_of, fresh, Event, reaps, closes, calls_close, exits, writes, ends_stderr,
  sets_on_exit, reap, call_close, close, exit_with, read_stderr, set_on_exit, step, run,
}

-- What the waiting task has in hand or has reported, where it is.
abbrev Told : ShellReader → Reaping → Type 0
Told r locking = r.called ≡ []
Told r reaping = r.called ≡ []
Told r (reaped e) = (r.exit ≡ some e) × (r.called ≡ [])
Told r (calling x) =
    (e : Exit) × (r.exit ≡ some e) × (x ≡ error_of e) × (r.exit_error ≡ x) × (r.called ≡ [])
Told r reaped_all =
    (r.called ≡ [])
    ⊎ ((e : Exit) × (r.exit ≡ some e) × (r.called ≡ error_of e ∷ []) × (r.exit_error ≡ error_of e))

Told-keep :
    (r t : ShellReader) (p : Reaping)
    → t.called ≡ r.called
    → t.exit_error ≡ r.exit_error
    → ((e : Exit) → r.exit ≡ some e → t.exit ≡ some e)
    → Told r p
    → Told t p
Told-keep r t locking c x k h = c ∙ h
Told-keep r t reaping c x k h = c ∙ h
Told-keep r t (reaped e) c x k (q, h) = (k e q, c ∙ h)
Told-keep r t (calling y) c x k (e, q, o, w, h) = (e, k e q, o, x ∙ w, c ∙ h)
Told-keep r t reaped_all c x k (inl h) = inl (c ∙ h)
Told-keep r t reaped_all c x k (inr (e, q, h, w)) = inr (e, k e q, c ∙ h, x ∙ w)

-- Where the waiting task is, with the equation kept.
data ReapingView (p : Reaping) : Type 0 where
  locks : p ≡ locking → ReapingView p
  waits : p ≡ reaping → ReapingView p
  has : (e : Exit) → p ≡ reaped e → ReapingView p
  calls : (x : Option Error) → p ≡ calling x → ReapingView p
  is_gone : p ≡ reaped_all → ReapingView p

reaping_view : (p : Reaping) → ReapingView p
reaping_view locking = locks refl
reaping_view reaping = waits refl
reaping_view (reaped e) = has e refl
reaping_view (calling x) = calls x refl
reaping_view reaped_all = is_gone refl

-- The invariant: each of the two tasks holds the lock while it waits for the child, and what the waiting
-- task reports is the exit.
pub record IsValid (r : ShellReader) : Type 0 where
  pub reaper_locks : r.reaping ≡ reaping → r.lock ≡ reaper
  pub killer_locks : r.closing ≡ killing → r.lock ≡ closer
  pub killed_is_taken : r.killed ≡ true → r.has_child ≡ false
  pub told : Told r r.reaping

reap-Told : (r : ShellReader) → Told r r.reaping → Told (reap r) (reap r).reaping
unfolding reap
reap-Told r h = elim (reaping_view r.reaping) [
  | locks e ↦ ground (arith, e, h)
  | waits e ↦ ground (arith, e, h)
  | has x e ↦
      let h' : Told r (reaped x) = subst (Told r) e h in
      let t = record r { exit_error = error_of x; reaping = calling (error_of x) } in
      let q : reap r ≡ t = ground (arith, e) in
      subst (λ u. Told u u.reaping) (sym q) (x, h'.0, refl, refl, h'.1)
  | calls x e ↦
      let (y, q, o, w, c) : Told r (calling x) = subst (Told r) e h in
      elim (Bool-cases r.on_exit) [
        | inl on ↦
            let t = record r {
              called = r.called ++ (x ∷ []);
              exited_flag = true;
              reaping = reaped_all;
            } in
            let q' : reap r ≡ t = ground (arith, e, on) in
            subst (λ u. Told u u.reaping) (sym q')
              (inr (y, q, ap (λ m. m ++ (x ∷ [])) c ∙ ap (λ z. z ∷ []) o, w ∙ o))
        | inr off ↦
            let t = record r { exited_flag = true; reaping = reaped_all } in
            let q' : reap r ≡ t = ground (arith, e, off) in
            subst (λ u. Told u u.reaping) (sym q') (inl c)
      ]
  | is_gone e ↦ ground (arith, e, h)
]

kept :
    (r t : ShellReader)
    → t.reaping ≡ r.reaping
    → t.called ≡ r.called
    → t.exit_error ≡ r.exit_error
    → ((e : Exit) → r.exit ≡ some e → t.exit ≡ some e)
    → Told r r.reaping
    → Told t t.reaping
kept r t p c x k h = subst (Told t) (sym p) (Told-keep r t r.reaping c x k h)

reap-IsValid : (r : ShellReader) → IsValid r → IsValid (reap r)
unfolding reap
reap-IsValid r v = record {
  reaper_locks = ground (arith, v.reaper_locks);
  killer_locks = ground (arith, v.killer_locks, v.reaper_locks);
  killed_is_taken = ground (arith, v.killed_is_taken);
  told = reap-Told r v.told;
}

close-IsValid : (r : ShellReader) → IsValid r → IsValid (close r)
unfolding close
close-IsValid r v = record {
  reaper_locks = ground (arith, v.reaper_locks, v.killer_locks);
  killer_locks = ground (arith, v.killer_locks);
  killed_is_taken = ground (arith, v.killed_is_taken);
  told =
      kept r (close r) (ground arith) (ground arith) (ground arith) (λ e q. ground (arith, q))
        v.told;
}

step-IsValid : (e : Event) (r : ShellReader) → IsValid r → IsValid (step e r)
unfolding step call_close exit_with read_stderr set_on_exit
step-IsValid reaps r v = reap-IsValid r v
step-IsValid closes r v = close-IsValid r v
step-IsValid calls_close r v = record {
  reaper_locks = ground (arith, v.reaper_locks);
  killer_locks = ground (arith, v.killer_locks);
  killed_is_taken = ground (arith, v.killed_is_taken);
  told =
      kept r (call_close r) (ground arith) (ground arith) (ground arith) (λ e q. ground (arith, q))
        v.told;
}
step-IsValid (exits x) r v = record {
  reaper_locks = ground (arith, v.reaper_locks);
  killer_locks = ground (arith, v.killer_locks);
  killed_is_taken = ground (arith, v.killed_is_taken);
  told =
      kept r (exit_with x r) (ground arith) (ground arith) (ground arith) (λ e q. ground (arith, q))
        v.told;
}
step-IsValid (writes chunk) r v = record {
  reaper_locks = ground (arith, v.reaper_locks);
  killer_locks = ground (arith, v.killer_locks);
  killed_is_taken = ground (arith, v.killed_is_taken);
  told =
      kept r (read_stderr chunk r) (ground arith) (ground arith) (ground arith)
        (λ e q. ground (arith, q)) v.told;
}
step-IsValid ends_stderr r v = record {
  reaper_locks = v.reaper_locks;
  killer_locks = v.killer_locks;
  killed_is_taken = v.killed_is_taken;
  told = kept r (record r { stderr_open = false }) refl refl refl (λ e q. q) v.told;
}
step-IsValid sets_on_exit r v = record {
  reaper_locks = v.reaper_locks;
  killer_locks = v.killer_locks;
  killed_is_taken = v.killed_is_taken;
  told = kept r (set_on_exit r) refl refl refl (λ e q. q) v.told;
}

pub run-IsValid : (l : List Event) (r : ShellReader) → IsValid r → IsValid (run l r)
unfolding run
run-IsValid [] r v = v
run-IsValid (e ∷ l) r v = run-IsValid l (step e r) (step-IsValid e r v)

fresh-IsValid : (stream_stderr : Bool) → IsValid (fresh stream_stderr)
fresh-IsValid stream_stderr = record {
  reaper_locks = λ h. ground (arith, h);
  killer_locks = λ h. ground (arith, h);
  killed_is_taken = λ h. ground (arith, h);
  told = refl;
}

Told-reports :
    (r : ShellReader) (p : Reaping)
    → Told r p
    → (r.called ≡ [])
      ⊎ ((e : Exit) × (r.exit ≡ some e)
          × (r.called ≡ error_of e ∷ [])
          × (r.exit_error ≡ error_of e))
Told-reports r locking h = inl h
Told-reports r reaping h = inl h
Told-reports r (reaped e) h = inl h.1
Told-reports r (calling x) (e, q, o, w, c) = inl c
Told-reports r reaped_all h = h

-- Whatever happens to a new reader and in whatever order its tasks run, `on_exit` is called at most once,
-- behind the exit of the process and with its error, which is recorded.
pub run-reports :
    (l : List Event) (stream_stderr : Bool)
    → let r = run l (fresh stream_stderr) in
      (r.called ≡ [])
      ⊎ ((e : Exit) × (r.exit ≡ some e)
          × (r.called ≡ error_of e ∷ [])
          × (r.exit_error ≡ error_of e))
run-reports l stream_stderr =
    let r = run l (fresh stream_stderr) in
    Told-reports r r.reaping
      (run-IsValid l (fresh stream_stderr) (fresh-IsValid stream_stderr)).told

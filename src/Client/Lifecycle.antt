-- ===== src/Client/Lifecycle.antt =====
-- How calls come into the client's map and leave it, and what the client reports.
use rusttgcalls.Prelude.{
  ℕ, Text, Bool, true, false, List, [], ◌∷◌, ◌++◌, none, some, ◌≡◌, ◌≢◌, ◌⊎◌, inl, inr, refl, arith,
  Bool-cases, Option-cases, Every,
}
use rusttgcalls.Models.{Error, Result, ok, err, Result-cases}
use rusttgcalls.StackApi.{StackApi}
use rusttgcalls.GroupCall.Base.{new_with_events}
use rusttgcalls.GroupCall.Media.{create_local_params}
use rusttgcalls.GroupCall.Control
use rusttgcalls.RtmpCall
use rusttgcalls.Client.{
  Call, group, rtmp, Client, on_call, switch_call, report, call_state, call_stop, stop, stop_all,
  close, create_call, events_for, ask_call,
}
use rusttgcalls.Client.Calls.{get, insert, get-insert, get-remove}

module _ {api : StackApi} {Reader : Type 0} where
  -- Whether the call refuses everything.
  abbrev pub is_closed : Call api Reader → Bool
  is_closed (group g) = g.closed
  is_closed (rtmp c) = c.closed

  call_stop-closes :
      (call : Call api Reader)
      → ((call_stop call).1 ≡ ok tt) × (is_closed (call_stop call).0 ≡ true)
  unfolding call_stop Control.stop RtmpCall.stop
  call_stop-closes (group g) = (ground arith, ground arith)
  call_stop-closes (rtmp c) = (ground arith, ground arith)

  stop_all-closes :
      (l : List (ℕ × Call api Reader)) → Every (λ call. is_closed call ≡ true) (stop_all l)
  stop_all-closes [] = tt
  stop_all-closes ((chat, call) ∷ l) = ((call_stop-closes call).1, stop_all-closes l)

  -- Stopping a chat never fails. The chat has no call afterwards, so that each operation on it answers
  -- that there is none, and the call that it had, if any, is closed.
  pub stop-forgets :
      {A B : Type 0}
      → (op : Call api Reader → Call api Reader × Result A) (question : Call api Reader → Result B)
      → (chat : ℕ) (c : Client api Reader)
      → let (c', r) = stop chat c in
        (r ≡ ok tt)
        × (on_call op chat c' ≡ (c', err Error.connection_not_found))
        × (ask_call question chat c' ≡ err Error.connection_not_found)
        × (((get chat c.calls ≡ none) × (c' ≡ c))
            ⊎ ((call : Call api Reader) × (c'.released ≡ c.released ++ (call ∷ []))
                × (is_closed call ≡ true)))
  unfolding stop on_call ask_call
  stop-forgets op question chat c = elim (Option-cases (get chat c.calls)) [
    | inl e ↦ (ground (arith, e), ground (arith, e), ground (arith, e), inl (e, ground (arith, e)))
    | inr (call, e) ↦
        let gone = get-remove chat c.calls in
        (
          ground (arith, e, call_stop-closes call),
          ground (arith, e, gone),
          ground (arith, e, gone),
          inr ((call_stop call).0, ground (arith, e), (call_stop-closes call).1),
        )
  ]

  -- Closing the client never fails, leaves no call, and releases all calls that there were, each closed.
  pub close-releases :
      (c : Client api Reader)
      → let (c', r) = close c in
        (r ≡ ok tt)
        × (c'.calls ≡ [])
        × ((l : List (Call api Reader)) × (c'.released ≡ c.released ++ l)
            × Every (λ call. is_closed call ≡ true) l)
  unfolding close
  close-releases c = (refl, refl, (stop_all c.calls, refl, stop_all-closes c.calls))

  -- A switch on a chat's call reports the call's new state to `on_upgrade` if it answers that it has
  -- changed and the callback is set, and otherwise reports nothing.
  pub switch_call-reports :
      (op : Call api Reader → Call api Reader × Result Bool) (chat : ℕ) (c : Client api Reader)
      → (call : Call api Reader) → get chat c.calls ≡ some call
      → let (c', r) = switch_call op chat c in
        (r ≡ (op call).1)
        × (((r ≡ ok true)
              × (c.on_upgrade ≡ true)
              × (c'.upgrades ≡ c.upgrades ++ ((chat, call_state (op call).0) ∷ [])))
            ⊎ (((r ≢ ok true) ⊎ (c.on_upgrade ≡ false)) × (c'.upgrades ≡ c.upgrades)))
  unfolding switch_call on_call report
  switch_call-reports op chat c call e = by_answer (op call).1 refl
    where
      there : get chat (insert chat (op call).0 c.calls) ≡ some (op call).0
      there = get-insert chat (op call).0 c.calls

      by_answer :
          (x : Result Bool)
          → (op call).1 ≡ x
          → let (c', r) = switch_call op chat c in
            (r ≡ (op call).1)
            × (((r ≡ ok true)
                  × (c.on_upgrade ≡ true)
                  × (c'.upgrades ≡ c.upgrades ++ ((chat, call_state (op call).0) ∷ [])))
                ⊎ (((r ≢ ok true) ⊎ (c.on_upgrade ≡ false)) × (c'.upgrades ≡ c.upgrades)))
      by_answer (err x) q =
          (ground (arith, e, q), inr (inl (ground (arith, e, q)), ground (arith, e, q)))
      by_answer (ok false) q = (
        ground (arith, e, q, there),
        inr (inl (ground (arith, e, q, there)), ground (arith, e, q, there)),
      )
      by_answer (ok true) q = elim (Bool-cases c.on_upgrade) [
        | inl on ↦ (
          ground (arith, e, q, there, on),
          inl (ground (arith, e, q, there, on), on, ground (arith, e, q, there, on)),
        )
        | inr off ↦
            (ground (arith, e, q, there, off), inr (inr off, ground (arith, e, q, there, off)))
      ]

  -- A call can be created only for a chat without one. If it succeeds, the chat has a new group call on
  -- the stack that was made; otherwise the client is as it was, or as the other tasks left it.
  pub create_call_lem :
      (wait : Client api Reader → Client api Reader) (made : Result api.Stack) (chat : ℕ)
      → (c : Client api Reader)
      → let (c', r) = create_call wait made chat c in
        ((r ≡ err Error.connection_exists) × (c' ≡ c) × (get chat c.calls ≢ none))
        ⊎ ((get chat c.calls ≡ none)
            × (((e : Error) × (r ≡ err e) × (c' ≡ wait c))
                ⊎ ((stack : api.Stack) × (made ≡ ok stack)
                    × (get chat c'.calls
                        ≡ some (group (new_with_events stack false (events_for c)))))))
  unfolding create_call
  create_call_lem wait made chat c = elim (Option-cases (get chat c.calls)) [
    | inr (call, e) ↦ inl (ground (arith, e), ground (arith, e), ground (arith, e))
    | inl e ↦ inr (e, by_stack made refl e)
  ]
    where
      by_stack :
          (m : Result api.Stack)
          → made ≡ m
          → get chat c.calls ≡ none
          → let (c', r) = create_call wait made chat c in
            ((e : Error) × (r ≡ err e) × (c' ≡ wait c))
            ⊎ ((stack : api.Stack) × (made ≡ ok stack)
                × (get chat c'.calls ≡ some (group (new_with_events stack false (events_for c)))))
      by_stack (err x) q e = inl (x, ground (arith, e, q), ground (arith, e, q))
      by_stack (ok stack) q e =
          let call = new_with_events {api = api} {Reader = Reader} stack false (events_for c) in
          elim (Result-cases (create_local_params call)) [
            | inr (x, p) ↦ inl (x, ground (arith, e, q, p), ground (arith, e, q, p))
            | inl (json, p) ↦
                inr (stack, q, ground (arith, e, q, p, get-insert chat (group call) (wait c).calls))
          ]

  -- A call that another task creates for the same chat meanwhile is replaced, and is not stopped.
  pub create_call-replaces :
      (wait : Client api Reader → Client api Reader) (stack : api.Stack) (chat : ℕ)
      → (c : Client api Reader) (old : Call api Reader) (json : Text) → get chat c.calls ≡ none
      → get chat (wait c).calls ≡ some old
      → api.get_local_params_json stack ≡ ok json
      → let (c', r) = create_call wait (ok stack) chat c in
        (r ≡ ok json)
        × (get chat c'.calls ≡ some (group (new_with_events stack false (events_for c))))
        × (c'.released ≡ (wait c).released ++ (old ∷ []))
  unfolding create_call create_local_params new_with_events
  create_call-replaces wait stack chat c old json e e' made =
      let call = new_with_events {api = api} {Reader = Reader} stack false (events_for c) in
      (
        ground (arith, e, e', made),
        ground (arith, e, e', made, get-insert chat (group call) (wait c).calls),
        ground (arith, e, e', made),
      )

-- ===== src/CertPool/Order.antt =====
-- Each certificate of the task is given once, and in order.
use rusttgcalls.Prelude.{
  ℕ, Bool, true, false, not, ◌&&◌, if◌then◌else◌, none, some, sym, ◌∙◌, ap, ◌≤◌, List, [], ◌∷◌,
  ◌++◌, Option, ◌≡◌, refl, arith, append_assoc, append-nil, length, length-append, Option-cases,
  inl, inr, ◌⊎◌,
}
use rusttgcalls.Models.{Result, ok, err}
use rusttgcalls.CertPool.{
  Making, generating, left, offering, CertPool, Event, makes, offers, try_takes, closes, takes,
  takes_cert, new, try_take, take, take_cert, close, make, offer, step, run,
}

module _ {Cert : Type 0} where
  abbrev pub in_hand : Making Cert → List Cert
  in_hand generating = []
  in_hand left = []
  in_hand (offering c) = c ∷ []

  Making-cases : (m : Making Cert) → (m ≡ generating) ⊎ (m ≡ left) ⊎ ((c : Cert) × (m ≡ offering c))
  Making-cases generating = inl refl
  Making-cases left = inr (inl refl)
  Making-cases (offering c) = inr (inr (c, refl))

  List-cases : (l : List Cert) → (l ≡ []) ⊎ ((c : Cert) × (rest : List Cert) × (l ≡ c ∷ rest))
  List-cases [] = inl refl
  List-cases (c ∷ rest) = inr (c, rest, refl)

  -- What has been made and not been given: what waits and what the task has in hand.
  abbrev pub stock : CertPool Cert → List Cert
  stock p = p.queue ++ in_hand p.making

  abbrev nonempty : List Cert → Bool
  nonempty [] = false
  nonempty (c ∷ l) = true

  -- Whether there is a certificate for a call.
  abbrev pub serves : CertPool Cert → Bool
  serves p = not p.closed && (p.has_channel && nonempty p.queue)

  abbrev pub of_option : Option Cert → List Cert
  of_option none = []
  of_option (some c) = c ∷ []

  abbrev pub of_result : Result Cert → List Cert
  of_result (ok c) = c ∷ []
  of_result (err e) = []

  -- The certificate that an event's caller gets from the pool.
  abbrev pub answer : Event Cert → CertPool Cert → List Cert
  answer try_takes p = of_option (try_take p).1
  answer (takes generated) p = if serves p then of_result (take generated p).1 else []
  answer (takes_cert generated) p = if serves p then of_result (take_cert generated p).1 else []
  answer e p = []

  -- All that the callers get from the pool, the oldest first.
  pub given : List (Event Cert) → CertPool Cert → List Cert
  given [] p = []
  given (e ∷ l) p = answer e p ++ given l (step e p)

  -- With the certificates given so far: these and the stock are what was made, and the channel keeps its size.
  record IsValid (gone : List Cert) (p : CertPool Cert) : Type 0 where
    all_kept : gone ++ stock p ≡ p.made
    bounded : length p.queue ≤ p.size

  make-IsValid :
      (gone : List Cert) (cert : Option Cert) (p : CertPool Cert)
      → IsValid gone p
      → IsValid (gone ++ []) (make cert p)
  unfolding make
  make-IsValid gone cert p v = elim (Making-cases p.making) [
    | inl e ↦ elim (Option-cases cert) [
      | inl q ↦ ground (arith, e, q, append-nil gone)
      | inr (c, q) ↦ record {
        all_kept = ground (
          arith,
          e,
          q,
          v.all_kept,
          append-nil gone,
          append_assoc gone p.queue (c ∷ []),
          append-nil p.queue,
        );
        bounded = ground (arith, e, q);
      }
    ]
    | inr (inl e) ↦ ground (arith, e, append-nil gone)
    | inr (inr (c, e)) ↦ ground (arith, e, append-nil gone)
  ]

  offer-IsValid :
      (gone : List Cert) (p : CertPool Cert) → IsValid gone p → IsValid (gone ++ []) (offer p)
  unfolding offer
  offer-IsValid gone p v = elim (Making-cases p.making) [
    | inl e ↦ ground (arith, e, append-nil gone)
    | inr (inl e) ↦ ground (arith, e, append-nil gone)
    | inr (inr (c, e)) ↦ record {
      all_kept = ground (arith, e, v.all_kept, append-nil gone, append-nil (p.queue ++ (c ∷ [])));
      bounded = ground (arith, e, length-append p.queue (c ∷ []));
    }
  ]

  try_take-IsValid :
      (gone : List Cert) (p : CertPool Cert)
      → IsValid gone p
      → IsValid (gone ++ of_option (try_take p).1) (try_take p).0
  unfolding try_take
  try_take-IsValid gone p v = elim (List-cases p.queue) [
    | inl e ↦ ground (arith, e, append-nil gone)
    | inr (cert, rest, e) ↦
        ground
          (arith, e, v, append-nil gone, append_assoc gone (cert ∷ []) (rest ++ in_hand p.making))
  ]

  -- `take` gives what `try_take` gives if there is a certificate, and else what is generated.
  take_lem :
      (generated : Result Cert) (p : CertPool Cert)
      → ((take generated p).0 ≡ (try_take p).0)
        × (answer (takes generated) p ≡ of_option (try_take p).1)
        × ((serves p ≡ true) ⊎ (take generated p ≡ (p, generated)))
  unfolding take try_take
  take_lem generated p = elim (List-cases p.queue) [
    | inl e ↦ (ground (arith, e), ground (arith, e), ground (arith, e))
    | inr (c, rest, e) ↦ (ground (arith, e), ground (arith, e), ground (arith, e))
  ]

  take_cert-take :
      (generated : Result Cert) (p : CertPool Cert) → take_cert generated p ≡ take generated p
  unfolding take_cert take
  take_cert-take generated p = refl

  step-IsValid :
      (gone : List Cert) (e : Event Cert) (p : CertPool Cert)
      → IsValid gone p
      → IsValid (gone ++ answer e p) (step e p)
  unfolding step close take take_cert
  step-IsValid gone (makes cert) p v = make-IsValid gone cert p v
  step-IsValid gone offers p v = offer-IsValid gone p v
  step-IsValid gone try_takes p v = try_take-IsValid gone p v
  step-IsValid gone closes p v = record {
    all_kept = ground (arith, v.all_kept, append-nil gone);
    bounded = v.bounded;
  }
  step-IsValid gone (takes generated) p v =
      let (same, gives, _) = take_lem generated p in rw (same, gives) (try_take-IsValid gone p v)
  step-IsValid gone (takes_cert generated) p v =
      let (same, gives, _) = take_lem generated p in
      rw (take_cert-take generated p, same, gives) (try_take-IsValid gone p v)

  run-IsValid :
      (gone : List Cert) (l : List (Event Cert)) (p : CertPool Cert)
      → IsValid gone p
      → IsValid (gone ++ given l p) (run l p)
  unfolding run given
  run-IsValid gone [] p v = record {
    all_kept = ground (arith, v.all_kept, append-nil gone);
    bounded = v.bounded;
  }
  run-IsValid gone (e ∷ l) p v =
      let v' = run-IsValid (gone ++ answer e p) l (step e p) (step-IsValid gone e p v) in
      record {
        all_kept =
            ap (λ g. g ++ stock (run l (step e p)))
              (sym (append_assoc gone (answer e p) (given l (step e p))))
            ∙ v'.all_kept;
        bounded = v'.bounded;
      }

  -- Whatever happens to a new pool, its callers have got the first of the certificates that the task has made,
  -- each once and in order, and the others wait or are in the task's hand, none lost. When there is no
  -- certificate, or the pool is closed, `take` and `take_cert` leave the pool as it is and give what
  -- `generate_cert` gives.
  pub run-given :
      (size : ℕ) (l : List (Event Cert)) (generated : Result Cert)
      → let p = run l (new size) in
        (given l (new size) ++ stock p ≡ p.made)
        × (length p.queue ≤ p.size)
        × ((serves p ≡ true)
            ⊎ ((take generated p ≡ (p, generated)) × (take_cert generated p ≡ (p, generated))))
        × (take generated (close p) ≡ (close p, generated))
        × (take_cert generated (close p) ≡ (close p, generated))
  unfolding new take take_cert try_take close
  run-given size l generated =
      let p = run l (new size) in
      let v = run-IsValid [] l (new size) (ground arith) in
      let same = take_cert-take generated p in
      let (_, _, fresh) = take_lem generated p in
      (v.all_kept, v.bounded, ground (arith, same, fresh), refl, refl)

-- ===== src/CertPool.antt =====
-- wrtc/native/certpool.rs: the certificates that a task makes ahead.
use rusttgcalls.Prelude.{
  ℕ, ◌+◌, Bool, true, false, List, [], ◌∷◌, ◌++◌, Option, none, some, if◌then◌else◌, ◌==◌, ltb,
  length,
}
use rusttgcalls.Models.{Result, ok, err}
pub mod Order
mod Tests

-- Where the task is: in `generate_cert`, in `tx.send`, or gone.
pub data Making (Cert : Type 0) : Type 0 where
  generating left : Making Cert
  offering : Cert → Making Cert

-- `CertPool` with its channel and the task. `made` are the certificates that the task has made, the oldest
-- first.
pub record CertPool (Cert : Type 0) : Type 0 where
  pub has_channel : Bool
  pub size : ℕ
  pub queue : List Cert
  pub closed : Bool
  pub making : Making Cert
  pub made : List Cert

-- What happens next: a certificate is made or fails, the task goes on, or a call, `takes` and
-- `takes_cert` with what `generate_cert` would give to it.
pub data Event (Cert : Type 0) : Type 0 where
  makes : Option Cert → Event Cert
  offers try_takes closes : Event Cert
  takes takes_cert : Result Cert → Event Cert

module _ {Cert : Type 0} where
  -- There is no channel and no task for the size 0.
  unfoldable pub new : ℕ → CertPool Cert
  new size = record {
    has_channel = if size == 0 then false else true;
    size = size;
    queue = [];
    closed = false;
    making = if size == 0 then left else generating;
    made = [];
  }

  unfoldable pub try_take : CertPool Cert → CertPool Cert × Option Cert
  try_take p =
      if p.closed
      then (p, none)
      else if p.has_channel
      then elim p.queue [ [] ↦ (p, none) | cert ∷ rest ↦ (record p { queue = rest }, some cert) ]
      else (p, none)

  -- `generated` is what `generate_cert` gives if it is asked.
  unfoldable pub take : Result Cert → CertPool Cert → CertPool Cert × Result Cert
  unfolding try_take
  take generated p =
      let (p', taken) = try_take p in
      elim taken [ some cert ↦ (p', ok cert) | none ↦ (p', generated) ]

  -- `PeerFactory::take_cert`, which gives back the lock on the pool before it makes a certificate.
  unfoldable pub take_cert : Result Cert → CertPool Cert → CertPool Cert × Result Cert
  unfolding try_take
  take_cert generated p =
      let (p', taken) = try_take p in
      elim taken [ some cert ↦ (p', ok cert) | none ↦ (p', generated) ]

  unfoldable pub close : CertPool Cert → CertPool Cert
  close p = record p { closed = true }

  -- The end of `generate_cert` in the task. After a failure the task sleeps and looks again whether the pool
  -- is closed.
  unfoldable pub make : Option Cert → CertPool Cert → CertPool Cert
  make cert p = elim p.making [
    | generating ↦ elim cert [
      | some c ↦ record p { making = offering c; made = p.made ++ (c ∷ []) }
      | none ↦ if p.closed then record p { making = left } else p
    ]
    | left ↦ p
    | offering c ↦ p
  ]

  -- `tx.send`, which waits for a place, and the head of the loop.
  unfoldable pub offer : CertPool Cert → CertPool Cert
  offer p = elim p.making [
    | generating ↦ p
    | left ↦ p
    | offering c ↦
        if ltb (length p.queue) p.size
        then record p {
          queue = p.queue ++ (c ∷ []);
          making = if p.closed then left else generating;
        }
        else p
  ]

  unfoldable pub step : Event Cert → CertPool Cert → CertPool Cert
  step (makes cert) p = make cert p
  step offers p = offer p
  step try_takes p = (try_take p).0
  step closes p = close p
  step (takes generated) p = (take generated p).0
  step (takes_cert generated) p = (take_cert generated p).0

  unfoldable pub run : List (Event Cert) → CertPool Cert → CertPool Cert
  run [] p = p
  run (e ∷ l) p = run l (step e p)

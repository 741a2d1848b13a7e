-- ===== src/Retry.antt =====
-- `with_retry` of crates/anne-de-breuil/src/application/fanout.rs: bounded retries with backoff.
-- The attempts are numbered, and what each would come to is an argument; the jitter is one too.
pub mod Attempts
use anne_de_breuil.Prelude.{
  ℕ, zero, suc, ◌+◌, ◌-◌, ◌*◌, ◌≤◌, ◌<◌, ◌≡◌, refl, sym, ap, ◌∙◌, subst, ◌⊎◌, inl, inr, true, false,
  List, [], ◌∷◌, arith, ltb, ◌==◌, if◌then◌else◌, Bool-cases, length,
}
use anne_de_breuil.Text.{Text, codes}
use anne_de_breuil.Snapshot.{ScanId}

-- `HostError`; `StoreError` is another component's.
pub data HostError (StoreError : Type 0) : Type 0 where
  timeout : HostError StoreError
  retryable fatal panicked : Text → HostError StoreError
  store : StoreError → HostError StoreError

pub data Outcome (StoreError : Type 0) : Type 0 where
  scanned : ScanId → Outcome StoreError
  failed : HostError StoreError → Outcome StoreError

abbrev pub max_attempts : ℕ
max_attempts = 3

-- In milliseconds.
abbrev pub initial_backoff : ℕ
initial_backoff = 200

-- What the call returns, how many attempts it made, and how long it slept between them.
pub record Retried (StoreError : Type 0) : Type 0 where
  pub outcome : Outcome StoreError
  pub attempts : ℕ
  pub sleeps : List ℕ

abbrev pub slept : {StoreError : Type 0} → ℕ → Retried StoreError → Retried StoreError
slept time r = record r { sleeps = time ∷ r.sleeps }

module _ {StoreError : Type 0} (attempt : ℕ → Outcome StoreError) (jitter : ℕ → ℕ) where
  -- The loop from an attempt on, with as many rounds as are left of the range.
  pub attempts_from : ℕ → ℕ → ℕ → HostError StoreError → Retried StoreError
  attempts_from zero attempt_number backoff last_err = record {
    outcome = failed last_err;
    attempts = attempt_number;
    sleeps = [];
  }
  attempts_from (suc left) attempt_number backoff last_err = elim (attempt attempt_number) [
    | scanned id ↦ record { outcome = scanned id; attempts = attempt_number + 1; sleeps = [] }
    | failed (retryable reason) ↦
        let later = attempts_from left (attempt_number + 1) (backoff * 2) (retryable reason) in
        let final = attempts_from left (attempt_number + 1) backoff (retryable reason) in
        if ltb (attempt_number + 1) max_attempts
        then slept (backoff + jitter attempt_number) later
        else final
    | failed timeout ↦ record {
      outcome = failed timeout;
      attempts = attempt_number + 1;
      sleeps = [];
    }
    | failed (fatal reason) ↦ record {
      outcome = failed (fatal reason);
      attempts = attempt_number + 1;
      sleeps = [];
    }
    | failed (panicked reason) ↦ record {
      outcome = failed (panicked reason);
      attempts = attempt_number + 1;
      sleeps = [];
    }
    | failed (store e) ↦ record {
      outcome = failed (store e);
      attempts = attempt_number + 1;
      sleeps = [];
    }
  ]

  -- `with_retry`.
  unfoldable pub with_retry : Retried StoreError
  unfolding attempts_from
  with_retry = attempts_from max_attempts 0 initial_backoff (fatal (codes "no attempt was made"))

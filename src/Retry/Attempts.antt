-- ===== src/Retry/Attempts.antt =====
-- What `with_retry` of crates/anne-de-breuil/src/application/fanout.rs comes to.
use anne_de_breuil.Prelude.{
  ℕ, zero, suc, ◌+◌, ◌-◌, ◌*◌, ◌≤◌, ◌<◌, ◌≡◌, refl, sym, ap, ◌∙◌, subst, ◌⊎◌, inl, inr, true, false,
  [], arith, ltb, ◌==◌, if◌then◌else◌, Bool-cases, length,
}
use anne_de_breuil.Text.{Text, codes}
use anne_de_breuil.Retry.{
  HostError, timeout, retryable, fatal, panicked, store, Outcome, scanned, failed, Retried,
  max_attempts, initial_backoff, slept, attempts_from, with_retry,
}

-- The attempt may be made again.
abbrev pub IsRetryable : {StoreError : Type 0} → Outcome StoreError → Type 0
IsRetryable (failed (retryable _)) = Unit {0}
IsRetryable _ = ⊥

module _ {StoreError : Type 0} (attempt : ℕ → Outcome StoreError) (jitter : ℕ → ℕ) where
  -- What holds of a call's rest, from an attempt on.
  abbrev Within : ℕ → Retried StoreError → Type 0
  Within n r =
      (n < r.attempts)
      × (r.attempts ≤ max_attempts)
      × ((m : ℕ) → n ≤ m → m + 1 < r.attempts → IsRetryable (attempt m))
      × (r.outcome ≡ attempt (r.attempts - 1))
      × ((r.attempts < max_attempts) → ¬ IsRetryable (attempt (r.attempts - 1)))
      × (length r.sleeps + n + 1 ≡ r.attempts)

  retryable? :
      (o : Outcome StoreError)
      → (¬ IsRetryable o) ⊎ ((reason : Text) × (o ≡ failed (retryable reason)))
  retryable? (scanned id) = inl (λ h. h)
  retryable? (failed timeout) = inl (λ h. h)
  retryable? (failed (retryable reason)) = inr (reason, refl)
  retryable? (failed (fatal reason)) = inl (λ h. h)
  retryable? (failed (panicked reason)) = inl (λ h. h)
  retryable? (failed (store e)) = inl (λ h. h)

  after : ℕ → ℕ → ℕ → Outcome StoreError → Retried StoreError
  after left n backoff o = elim o [
    | scanned id ↦ record { outcome = scanned id; attempts = n + 1; sleeps = [] }
    | failed (retryable reason) ↦
        if ltb (n + 1) max_attempts
        then slept (backoff + jitter n)
            (attempts_from attempt jitter left (n + 1) (backoff * 2) (retryable reason))
        else attempts_from attempt jitter left (n + 1) backoff (retryable reason)
    | failed timeout ↦ record { outcome = failed timeout; attempts = n + 1; sleeps = [] }
    | failed (fatal reason) ↦ record {
      outcome = failed (fatal reason);
      attempts = n + 1;
      sleeps = [];
    }
    | failed (panicked reason) ↦ record {
      outcome = failed (panicked reason);
      attempts = n + 1;
      sleeps = [];
    }
    | failed (store e) ↦ record { outcome = failed (store e); attempts = n + 1; sleeps = [] }
  ]

  attempts_from-after :
      (left n backoff : ℕ) (last : HostError StoreError)
      → attempts_from attempt jitter (suc left) n backoff last ≡ after left n backoff (attempt n)
  unfolding attempts_from after
  attempts_from-after left n backoff last = refl

  after_final :
      (left n backoff : ℕ) (o : Outcome StoreError)
      → ¬ IsRetryable o
      → after left n backoff o ≡ record { outcome = o; attempts = n + 1; sleeps = [] }
  unfolding after
  after_final left n backoff (scanned id) h = refl
  after_final left n backoff (failed timeout) h = refl
  after_final left n backoff (failed (retryable reason)) h = absurd (h tt)
  after_final left n backoff (failed (fatal reason)) h = refl
  after_final left n backoff (failed (panicked reason)) h = refl
  after_final left n backoff (failed (store e)) h = refl

  Within-last :
      (n : ℕ)
      → n < max_attempts
      → (n + 1 < max_attempts → ¬ IsRetryable (attempt n))
      → Within n (record { outcome = attempt n; attempts = n + 1; sleeps = [] })
  Within-last n b h =
      let back : n + 1 - 1 ≡ n = omega arith in
      (
        omega arith,
        omega arith,
        (λ m k l. absurd (omega arith)),
        rw back refl,
        (λ k. rw back (h k)),
        omega arith,
      )

  again :
      (left n backoff : ℕ) (reason : Text)
      → n + 1 < max_attempts
      → after left n backoff (failed (retryable reason))
        ≡ slept
            (backoff + jitter n)
            (attempts_from attempt jitter left (n + 1) (backoff * 2) (retryable reason))
  unfolding after
  again left n backoff reason b =
      let e : ltb (n + 1) max_attempts ≡ true = ground arith in rw e refl

  exhausted :
      (n backoff : ℕ) (reason : Text)
      → max_attempts ≤ n + 1
      → after 0 n backoff (failed (retryable reason))
        ≡ record { outcome = failed (retryable reason); attempts = n + 1; sleeps = [] }
  unfolding after attempts_from
  exhausted n backoff reason b =
      let e : ltb (n + 1) max_attempts ≡ false = ground arith in rw e refl

  Within-again :
      (n time : ℕ) (r : Retried StoreError)
      → IsRetryable (attempt n)
      → Within (n + 1) r
      → Within n (slept time r)
  Within-again n time r y (some_made, bounded, earlier, last, final, naps) = (
    omega (arith, some_made),
    bounded,
    (λ m k l. elim (Bool-cases (m == n)) [
      | inl e ↦ let same : m ≡ n = ground arith in rw same y
      | inr e ↦ earlier m (ground arith) l
    ]),
    last,
    final,
    omega (arith, naps),
  )

  within :
      (left n backoff : ℕ) (last : HostError StoreError)
      → n + suc left ≡ max_attempts
      → Within n (attempts_from attempt jitter (suc left) n backoff last)
  within zero n backoff last b =
      subst (Within n) (sym (attempts_from-after zero n backoff last))
        (elim (retryable? (attempt n)) [
          | inl ne ↦
              subst (Within n) (sym (after_final zero n backoff (attempt n) ne))
                (Within-last n (omega arith) (λ _. ne))
          | inr (reason, e) ↦
              subst (Within n)
                (sym (
                  ap (after 0 n backoff) e
                  ∙ exhausted n backoff reason (omega arith)
                  ∙ ap
                      (λ (o : Outcome StoreError). record {
                        outcome = o;
                        attempts = n + 1;
                        sleeps = [];
                      })
                      (sym e)))
                (Within-last n (omega arith) (λ k. absurd (omega arith)))
        ])
  within (suc left) n backoff last b =
      subst (Within n) (sym (attempts_from-after (suc left) n backoff last))
        (elim (retryable? (attempt n)) [
          | inl ne ↦
              subst (Within n) (sym (after_final (suc left) n backoff (attempt n) ne))
                (Within-last n (omega arith) (λ _. ne))
          | inr (reason, e) ↦
              subst (Within n)
                (sym (
                  ap (after (suc left) n backoff) e
                  ∙ again (suc left) n backoff reason (omega arith)))
                (Within-again n (backoff + jitter n)
                  (attempts_from attempt jitter (suc left) (n + 1) (backoff * 2) (retryable reason))
                  (rw e tt) (within left (n + 1) (backoff * 2) (retryable reason) (omega arith)))
        ])

  -- `with_retry` makes one to three attempts; all but the last came to a retryable error, the last
  -- one's outcome is what is returned, it is not retryable unless all three were made, and the
  -- number of sleeps is one less than that of the attempts.
  pub with_retry_lem :
      (1 ≤ (with_retry attempt jitter).attempts)
      × ((with_retry attempt jitter).attempts ≤ max_attempts)
      × ((n : ℕ) → n + 1 < (with_retry attempt jitter).attempts → IsRetryable (attempt n))
      × ((with_retry attempt jitter).outcome ≡ attempt ((with_retry attempt jitter).attempts - 1))
      × (((with_retry attempt jitter).attempts < max_attempts)
          → ¬ IsRetryable (attempt ((with_retry attempt jitter).attempts - 1)))
      × (length (with_retry attempt jitter).sleeps + 1 ≡ (with_retry attempt jitter).attempts)
  unfolding with_retry
  with_retry_lem =
      let (some_made, bounded, earlier, last, final, naps) =
        within 2 0 initial_backoff (fatal (codes "no attempt was made")) (omega arith) in
      (
        omega (arith, some_made),
        bounded,
        (λ n h. earlier n (omega arith) h),
        last,
        final,
        omega (arith, naps),
      )

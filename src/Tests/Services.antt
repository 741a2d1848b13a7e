-- ===== src/Tests/Services.antt =====
-- Budgets, retries and profile summaries at concrete inputs.
use anne_de_breuil.Prelude.{
  ℕ, zero, suc, ◌+◌, ◌-◌, ◌≤◌, ◌<◌, ◌≡◌, refl, ◌↔◌, inl, true, List, [], ◌∷◌, In, arith, length,
}
use Prim.Native.Nat.{min}
use anne_de_breuil.Text.{Text, codes}
use anne_de_breuil.RateLimit.{no_buckets}
use anne_de_breuil.RateLimit.Budget.{Request, granted, requests_of, granted_in_window}
use anne_de_breuil.Retry.{Outcome, scanned, failed, retryable, max_attempts, with_retry}
use anne_de_breuil.Retry.Attempts.{IsRetryable, with_retry_lem}
use anne_de_breuil.Firewall.{FirewallRule, allow, ProfileState, public}
use anne_de_breuil.PortSpec.{any}
use anne_de_breuil.ProfilePorts.{
  ProfilePortSummary, entry_of, allowed_entries, LetsIn, summarize_inbound_ports,
  summarize_inbound_ports_iff,
}
use anne_de_breuil.Tests.Data.{rule}

abbrev request : Text → ℕ → Request
request key now = record { key = key; now = now }

-- Three requests of one caller, and one of another in between.
abbrev burst : List Request
burst = request (codes "b") 1 ∷ request (codes "a") 2 ∷ request (codes "a") 3 ∷ []

granted_in_window_example :
    granted 2 (codes "a") no_buckets (request (codes "a") 0 ∷ burst)
    ≡ min (requests_of (codes "a") (request (codes "a") 0 ∷ burst)) 2
granted_in_window_example =
    granted_in_window 2 (codes "a") no_buckets 0 burst tt
      ((λ _. omega arith), ((λ _. omega arith), ((λ _. omega arith), tt)))

-- It works at the second attempt.
abbrev flaky : ℕ → Outcome Text
flaky zero = failed (retryable (codes "reset"))
flaky (suc n) = scanned (record { as_uuid = 1 })

abbrev no_jitter : ℕ → ℕ
no_jitter n = 0

with_retry_lem_example :
    (1 ≤ (with_retry flaky no_jitter).attempts)
    × ((with_retry flaky no_jitter).attempts ≤ max_attempts)
    × ((n : ℕ) → n + 1 < (with_retry flaky no_jitter).attempts → IsRetryable (flaky n))
    × ((with_retry flaky no_jitter).outcome ≡ flaky ((with_retry flaky no_jitter).attempts - 1))
    × (((with_retry flaky no_jitter).attempts < max_attempts)
        → ¬ IsRetryable (flaky ((with_retry flaky no_jitter).attempts - 1)))
    × (length (with_retry flaky no_jitter).sleeps + 1 ≡ (with_retry flaky no_jitter).attempts)
with_retry_lem_example = with_retry_lem flaky no_jitter

abbrev public_profile : ProfileState
public_profile = record {
  profile = public;
  enabled = true;
  default_inbound_action = allow;
  default_outbound_action = allow;
}

abbrev public_summary : ProfilePortSummary
public_summary = record {
  profile = public;
  enabled = true;
  default_inbound_action = allow;
  allowed = allowed_entries (rule allow any ∷ []);
}

summarize_inbound_ports_iff_example :
    (In (entry_of (rule allow any)) public_summary.allowed ↔ (
      (r : FirewallRule) × In r (rule allow any ∷ [])
      × LetsIn r
      × (entry_of r ≡ entry_of (rule allow any))))
    × ((state : ProfileState) × In state (public_profile ∷ [])
        × (state.profile ≡ public)
        × (state.enabled ≡ true)
        × (state.default_inbound_action ≡ allow))
summarize_inbound_ports_iff_example =
    summarize_inbound_ports_iff (rule allow any ∷ []) (public_profile ∷ []) public_summary
      (entry_of (rule allow any)) (unfold summarize_inbound_ports in inl refl)

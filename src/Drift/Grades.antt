-- ===== src/Drift/Grades.antt =====
-- The severities of drift entries (crates/anne-de-breuil/src/domain/drift.rs).
use anne_de_breuil.Prelude.{ℕ, ◌≤◌, ◌≡◌, ◌≢◌, ◌↔◌, arith}
use anne_de_breuil.Drift.{
  DriftKind, Severity, low, medium, high, critical, severity_for, reachability_change_severity,
  endpoint_appeared, reachability_changed,
}
use anne_de_breuil.Endpoint.{Exposure, loopback, specific_interface, all_interfaces}
use anne_de_breuil.Reachability.{allowed}

-- The derived orders.
abbrev pub severity_rank : Severity → ℕ
severity_rank low = 0
severity_rank medium = 1
severity_rank high = 2
severity_rank critical = 3

abbrev pub exposure_rank : Exposure → ℕ
exposure_rank loopback = 0
exposure_rank specific_interface = 1
exposure_rank all_interfaces = 2

-- Wider exposure never lowers the severity of a change.
pub severity_for_mono :
    (kind : DriftKind) (narrow wide : Exposure)
    → exposure_rank narrow ≤ exposure_rank wide
    → severity_rank (severity_for kind narrow) ≤ severity_rank (severity_for kind wide)
unfolding severity_for
severity_for_mono _ loopback loopback h = ground arith
severity_for_mono _ _ _ h = ground arith

-- The changes that open an endpoint to the network: it is new, or was not allowed before and is now.
abbrev pub Opens : DriftKind → Type 0
Opens endpoint_appeared = Unit {0}
Opens (reachability_changed before after) = (before ≢ allowed) × (after ≡ allowed)
Opens _ = ⊥

-- A change is critical exactly if it opens an endpoint on all interfaces: the endpoint is new, or
-- it was not allowed before and is now.
pub severity_for_critical_iff :
    (kind : DriftKind) (exposure : Exposure)
    → (severity_for kind exposure ≡ critical) ↔ (Opens kind × (exposure ≡ all_interfaces))
unfolding severity_for reachability_change_severity
severity_for_critical_iff endpoint_appeared exposure =
    ((λ h. (tt, ground arith)), (λ h. ground arith))
severity_for_critical_iff (reachability_changed before after) exposure =
    ((λ h. ((ground arith, ground arith), ground arith)), (λ h. ground arith))
severity_for_critical_iff _ exposure = ((λ h. absurd (ground arith)), (λ h. absurd h.0))

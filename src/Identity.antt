-- ===== src/Identity.antt =====
-- What a service is believed to be, and on what evidence: crates/anne-de-breuil/src/domain/
-- evidence.rs, confidence.rs, service_category.rs, service_identity.rs, attribution.rs,
-- reconciliation.rs and mismatch.rs.
pub mod Registry
pub mod Believed
use anne_de_breuil.Prelude.{
  ℕ_discrete, ℕ, zero, suc, ◌+◌, ◌-◌, ◌*◌, ◌/◌, ◌%◌, ◌^◌, ◌≤◌, ◌<◌, ◌≡◌, refl, sym, ap, ◌∙◌, subst,
  ◌≢◌, ◌↔◌, ◌⊎◌, inl, inr, Bool, true, false, not, ◌&&◌, ◌||◌, Option, none, some, List, [], ◌∷◌,
  ◌++◌, map, arith, ltb, leb, ◌==◌, if◌then◌else◌, ==_iff, ==_refl, Bool-cases, Option-cases,
  Bool-ext, length, take, drop, is_empty, all, filter, find?, any, length-append, In, All, Eq, ◌≟◌,
  ≟→eq, ≟_refl, ℕ_discrete,
}
use mathlib.Core.Option
use anne_de_breuil.Text.{Text, eq_ignore_ascii_case}
use anne_de_breuil.Error.{missing_evidence, overconfident_from_port_alone, Result, ok, err}
use anne_de_breuil.Names.{ProcessId, ProcessPath, ServiceName, SignatureStatus}
use anne_de_breuil.Port.{Port}

-- `HttpHeader` has a name and a value.
pub data Evidence : Type 0 where
  port_assignment : Text → Evidence
  banner_match : Text → Evidence
  http_header : Text → Text → Evidence
  http_body_pattern : Text → Evidence
  tls_certificate_subject : Text → Evidence
  alpn_protocol : Text → Evidence
  process_name : Text → Evidence

unfoldable pub Evidence-discrete : Discrete Evidence
Evidence-discrete = hlevel ℕ_discrete

instance abbrev pub Evidence-eq : Eq Evidence
Evidence-eq = record { eq_dec = Evidence-discrete }

-- `Evidence::is_port_assignment_only`.
unfoldable pub is_port_assignment_only : Evidence → Bool
is_port_assignment_only (port_assignment registry_name) = true
is_port_assignment_only (banner_match pattern) = false
is_port_assignment_only (http_header name value) = false
is_port_assignment_only (http_body_pattern snippet) = false
is_port_assignment_only (tls_certificate_subject subject) = false
is_port_assignment_only (alpn_protocol protocol) = false
is_port_assignment_only (process_name name) = false

pub data Confidence : Type 0 where
  assigned heuristic probable confirmed : Confidence

-- `confidence > Confidence::Assigned`, in the derived order.
unfoldable pub above_assigned : Confidence → Bool
above_assigned assigned = false
above_assigned heuristic = true
above_assigned probable = true
above_assigned confirmed = true

pub data ServiceCategory : Type 0 where
  web_server database remote_access file_sharing messaging monitoring dns mail other :
      ServiceCategory

pub record ServiceIdentity : Type 0 where
  pub name : Text
  pub category : ServiceCategory
  pub version : Option Text
  pub confidence : Confidence
  pub evidence : List Evidence

-- `ServiceIdentity::new`.
unfoldable pub new : Text → ServiceCategory → Confidence → List Evidence → Result ServiceIdentity
unfolding above_assigned is_port_assignment_only
new name category confidence evidence =
    if is_empty evidence
    then err missing_evidence
    else if above_assigned confidence && all is_port_assignment_only evidence
    then err overconfident_from_port_alone
    else ok (record {
      name = name;
      category = category;
      version = none;
      confidence = confidence;
      evidence = evidence;
    })

-- `ServiceIdentity::with_version`.
unfoldable pub with_version : ServiceIdentity → Text → ServiceIdentity
with_version identity v = record identity { version = some v }

-- `Result::ok`.
abbrev pub to_option {ℓ} : {A : Type ℓ} → Result A → Option A
to_option (ok a) = some a
to_option (err e) = none

pub data Attribution : Type 0 where
  authoritative : ProcessId → ProcessPath → Option ServiceName → SignatureStatus → Attribution
  inferred : List Evidence → Attribution

pub record ReconciliationReport : Type 0 where
  pub local : Attribution
  pub local_identity : Option Text
  pub remote : List ServiceIdentity
  pub remote_identity : Option Text
  pub conflict : Bool

service_label : ProcessPath → Option ServiceName → Text
service_label process_path none = process_path.as_str
service_label process_path (some name) = name.as_str

unfoldable pub local_identity_label : Attribution → Option Text
unfolding service_label
local_identity_label (authoritative pid process_path service_name signature) =
    some (service_label process_path service_name)
local_identity_label (inferred evidence) = none

-- `remote.first()`, by its name.
first_name : List ServiceIdentity → Option Text
first_name [] = none
first_name (identity ∷ l) = some identity.name

conflicting : Option Text → Option Text → Bool
conflicting none remote_name = false
conflicting (some local_name) none = false
conflicting (some local_name) (some remote_name) = not (eq_ignore_ascii_case local_name remote_name)

unfoldable pub reconcile : Attribution → List ServiceIdentity → ReconciliationReport
unfolding local_identity_label first_name conflicting
reconcile local remote = record {
  local = local;
  local_identity = local_identity_label local;
  remote = remote;
  remote_identity = first_name remote;
  conflict = conflicting (local_identity_label local) (first_name remote);
}

pub record MismatchedAssignment : Type 0 where
  pub port : Port
  pub assigned : ServiceIdentity
  pub observed : ServiceIdentity

unfoldable pub detect_mismatch :
    Port → ServiceIdentity → ServiceIdentity → Option MismatchedAssignment
detect_mismatch port by_registry observed =
    if eq_ignore_ascii_case by_registry.name observed.name
    then none
    else some (record { port = port; assigned = by_registry; observed = observed })

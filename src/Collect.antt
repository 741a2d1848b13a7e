-- ===== src/Collect.antt =====
-- The collection of endpoints: crates/anne-de-breuil/src/application/collect.rs, and the parser of
-- crates/anne-de-breuil/src/domain/bind_address.rs. `parse_ip` stands for the standard library's
-- parser of addresses. A domain error is kept as it is where the source keeps its text.
pub mod Pointwise
use anne_de_breuil.Prelude.{
  ℕ, zero, suc, ◌+◌, ◌-◌, ◌*◌, ◌/◌, ◌%◌, ◌^◌, ◌≤◌, ◌<◌, ◌≡◌, refl, sym, ap, ◌∙◌, subst, ◌≢◌, ◌↔◌,
  ◌⊎◌, inl, inr, Bool, true, false, not, ◌&&◌, ◌||◌, Option, none, some, List, [], ◌∷◌, ◌++◌, map,
  arith, ltb, leb, ◌==◌, if◌then◌else◌, ==_iff, ==_refl, Bool-cases, Option-cases, Bool-ext, length,
  take, drop, is_empty, all, filter, find?, any, length-append, In, All, Eq, ◌≟◌, ≟→eq, ≟_refl,
  ℕ_discrete,
}
use anne_de_breuil.Text.{Text, trim, text_leb}
use anne_de_breuil.Error.{DomainError, invalid_bind_address, Result, ok, err}
use anne_de_breuil.Endpoint.{IpAddr, BindAddress}
use anne_de_breuil.Port.{Port, port_try_from}
use anne_de_breuil.Firewall.{Protocol, protocol_from_str}
use anne_de_breuil.Names.{
  ProcessId, process_id_try_from, ProcessPath, process_path_try_from, ServiceName,
  service_name_try_from, SignatureStatus, unknown,
}
use anne_de_breuil.Sort.{sort_by}

-- `impl FromStr for BindAddress`.
unfoldable pub bind_address_from_str : (Text → Option IpAddr) → Text → Result BindAddress
bind_address_from_str parse_ip s = elim (parse_ip (trim s)) [
  | none ↦ err (invalid_bind_address s)
  | some ip ↦ ok (record { ip = ip })
]

pub data CollectError : Type 0 where
  spawn : Text → CollectError
  timeout : ℕ → CollectError
  parse : DomainError → CollectError
  policy_unavailable : Text → CollectError
  unsupported_platform : CollectError

-- `Result<A, CollectError>`.
pub data Collecting {ℓ} (A : Type ℓ) : Type ℓ where
  failed : CollectError → Collecting A
  done : A → Collecting A

infixl 5 ◌>>=◌
abbrev pub ◌>>=◌ {ℓ κ} :
    {A : Type ℓ} {B : Type κ} → Collecting A → (A → Collecting B) → Collecting B
failed e >>= f = failed e
done a >>= f = f a

-- `map_err(CollectError::from)`.
abbrev pub or_parse {ℓ} : {A : Type ℓ} → Result A → Collecting A
or_parse (err e) = failed (parse e)
or_parse (ok a) = done a

pub record RawEndpoint : Type 0 where
  pub protocol : Text
  pub local_address : Text
  pub local_port : ℕ
  pub owning_pid : Option ℕ

pub record RawProcess : Type 0 where
  pub pid : ℕ
  pub path : Option Text
  pub command_line : Option Text

pub record RawService : Type 0 where
  pub name : Text
  pub display_name : Text

-- The ports that `collect_endpoints` reads: `EndpointSource`, `ProcessResolver` and
-- `SignatureVerifier`.
pub record Sources : Type 0 where
  pub listening_endpoints : Collecting (List RawEndpoint)
  pub describe : ProcessId → Collecting (Option RawProcess)
  pub hosted_services : ProcessId → Collecting (List RawService)
  pub verify : ProcessPath → Collecting SignatureStatus

pub data ProcessAttribution : Type 0 where
  resolved :
      ProcessId
      → Option ProcessPath
      → List ServiceName
      → SignatureStatus
      → Option Text
      → ProcessAttribution
  process_gone unresolved : ProcessAttribution

pub record CollectedEndpoint : Type 0 where
  pub protocol : Protocol
  pub bind_address : BindAddress
  pub port : Port
  pub owning_process : ProcessAttribution

-- A loop, or a `collect`, that the first error ends.
unfoldable pub each_of : {A B : Type 0} → (A → Collecting B) → List A → Collecting (List B)
each_of f [] = done []
each_of f (a ∷ l) = do b ← f a; rest ← each_of f l; done (b ∷ rest)

-- `raw_process.path.map(ProcessPath::try_from).transpose()`.
pub path_of : Option Text → Collecting (Option ProcessPath)
path_of none = done none
path_of (some s) = do path ← or_parse (process_path_try_from s); done (some path)

module _ (sources : Sources) where
  pub signature_of : Option ProcessPath → Collecting SignatureStatus
  signature_of none = done unknown
  signature_of (some path) = sources.verify path

  describe_process : ProcessId → Option RawProcess → Collecting ProcessAttribution
  unfolding path_of signature_of each_of
  describe_process pid none = done process_gone
  describe_process pid (some raw_process) = do
    path ← path_of raw_process.path
    signature ← signature_of path
    raw_services ← sources.hosted_services pid
    services ←
        each_of (λ (raw_service : RawService). or_parse (service_name_try_from raw_service.name))
          raw_services
    done (
        resolved pid path (sort_by (λ (s t : ServiceName). text_leb s.as_str t.as_str) services)
          signature raw_process.command_line)

  attribute : Result ProcessId → Collecting ProcessAttribution
  unfolding describe_process
  attribute (err e) = done unresolved
  attribute (ok pid) = do described ← sources.describe pid; describe_process pid described

  unfoldable pub resolve_process : Option ℕ → Collecting ProcessAttribution
  unfolding attribute
  resolve_process none = done unresolved
  resolve_process (some raw_pid) = attribute (process_id_try_from raw_pid)

  module _ (parse_ip : Text → Option IpAddr) where
    -- The body of the loop.
    unfoldable pub collect_one : RawEndpoint → Collecting CollectedEndpoint
    unfolding resolve_process
    collect_one raw = do
      protocol ← or_parse (protocol_from_str raw.protocol)
      bind_address ← or_parse (bind_address_from_str parse_ip raw.local_address)
      port ← or_parse (port_try_from raw.local_port)
      owning_process ← resolve_process raw.owning_pid
      done (record {
        protocol = protocol;
        bind_address = bind_address;
        port = port;
        owning_process = owning_process;
      })

    unfoldable pub collect_endpoints : Collecting (List CollectedEndpoint)
    unfolding collect_one each_of
    collect_endpoints = do
      raw_endpoints ← sources.listening_endpoints
      each_of collect_one raw_endpoints

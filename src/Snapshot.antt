-- ===== src/Snapshot.antt =====
-- crates/anne-de-breuil/src/domain/snapshot.rs and target_strategy.rs: one scan of one host.
use anne_de_breuil.Prelude.{ℕ, Bool, true, false, ◌&&◌, ◌||◌, List, [], ◌∷◌, ltb, leb, ◌==◌}
use anne_de_breuil.Endpoint.{Endpoint, IpAddr, v4, v6}
use anne_de_breuil.Firewall.{
  FirewallRule, ProfileState, Protocol, tcp, udp, FirewallProfileKind, domain, private, public,
}
use anne_de_breuil.Sort.{sort_by}
use anne_de_breuil.Text.{Text}

-- A UUID, by the number that its 16 bytes write.
pub record HostId : Type 0 where
  pub as_uuid : ℕ

pub record ScanId : Type 0 where
  pub as_uuid : ℕ

pub data TargetStrategy : Type 0 where
  execute probe local_only : TargetStrategy

-- `Time` stands for `time::OffsetDateTime`, which nothing here looks into.
pub record ScanSnapshot (Time : Type 0) : Type 0 where
  pub host_id : HostId
  pub scan_id : ScanId
  pub collected_at : Time
  pub collector_version : Text
  pub endpoints : List Endpoint
  pub firewall_rules : List FirewallRule
  pub profiles : List ProfileState
  pub strategy : TargetStrategy

-- The derived order of the keys, as numbers: of a protocol, an address's family, a profile kind.
abbrev protocol_rank : Protocol → ℕ
protocol_rank tcp = 0
protocol_rank udp = 1

abbrev family : IpAddr → ℕ
family (v4 bits) = 0
family (v6 bits) = 1

abbrev bits : IpAddr → ℕ
bits (v4 n) = n
bits (v6 n) = n

abbrev profile_rank : FirewallProfileKind → ℕ
profile_rank domain = 0
profile_rank private = 1
profile_rank public = 2

-- `Endpoint::sort_key`: protocol, address, port.
abbrev pub endpoint_sort_key : Endpoint → List ℕ
endpoint_sort_key e =
    protocol_rank e.protocol ∷ family e.bind_address.ip ∷ bits e.bind_address.ip ∷ e.port.get ∷ []

-- Lexicographic order of keys of one length.
abbrev pub key_leb : List ℕ → List ℕ → Bool
key_leb [] l = true
key_leb (a ∷ k) [] = false
key_leb (a ∷ k) (b ∷ l) = ltb a b || (a == b && key_leb k l)

-- `ScanSnapshot::new` sorts the three collections by their keys.
unfoldable pub new :
    {Time : Type 0}
    → HostId
    → ScanId
    → Time
    → Text
    → List Endpoint
    → List FirewallRule
    → List ProfileState
    → TargetStrategy
    → ScanSnapshot Time
new host_id scan_id collected_at collector_version endpoints rules profiles strategy = record {
  host_id = host_id;
  scan_id = scan_id;
  collected_at = collected_at;
  collector_version = collector_version;
  endpoints =
      sort_by (λ (a b : Endpoint). key_leb (endpoint_sort_key a) (endpoint_sort_key b)) endpoints;
  firewall_rules = sort_by (λ (a b : FirewallRule). leb a.rule_id.as_uuid b.rule_id.as_uuid) rules;
  profiles =
      sort_by (λ (a b : ProfileState). leb (profile_rank a.profile) (profile_rank b.profile))
        profiles;
  strategy = strategy;
}

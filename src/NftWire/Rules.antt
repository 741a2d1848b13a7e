-- ===== src/NftWire/Rules.antt =====
-- crates/anne-de-breuil/src/adapters/linux_collector/nft_wire.rs: from decoded chains to rules.
-- The record of a raw rule is crates/anne-de-breuil/src/application/collect.rs.
use anne_de_breuil.Prelude.{
  ℕ, Bool, true, false, ◌&&◌, Option, none, some, List, [], ◌∷◌, ◌++◌, ◌==◌, if◌then◌else◌,
  is_empty,
}
use anne_de_breuil.NftWire.{NftChain, RulesetQueryError, nf_inet_local_in, nf_drop}
use anne_de_breuil.Text.{Text, codes}

pub record RawRule : Type 0 where
  pub rule_id : Text
  pub display_name : Text
  pub direction : Text
  pub action : Text
  pub protocol : Option Text
  pub local_port_spec : Option Text
  pub program_filter : Option Text
  pub service_filter : Option Text
  pub enabled : Bool
  pub policy_store : Text

pub data FirewallSource : Type 0 where
  nftables : List RawRule → FirewallSource
  no_policy_source : FirewallSource

-- `unwrap_or_else(|| "?")`.
unfoldable pub or_unknown : Option Text → Text
or_unknown none = codes "?"
or_unknown (some s) = s

-- `o == Some(n)`.
abbrev pub is_some_of : Option ℕ → ℕ → Bool
is_some_of none n = false
is_some_of (some m) n = m == n

unfoldable pub action_of : NftChain → Text
action_of chain = if is_some_of chain.policy nf_drop then codes "Block" else codes "Allow"

-- The rule of an inbound chain, by its table, its name and its action.
unfoldable pub inbound_rule : Text → Text → Text → RawRule
inbound_rule table name action = record {
  rule_id = codes "nftables/" ++ (table ++ (codes "/" ++ name));
  display_name = table ++ (codes "/" ++ (name ++ codes " (nftables input chain policy)"));
  direction = codes "Inbound";
  action = action;
  protocol = none;
  local_port_spec = none;
  program_filter = none;
  service_filter = none;
  enabled = true;
  policy_store = codes "nftables";
}

-- `nft_chain_to_raw_rule`.
unfoldable pub nft_chain_to_raw_rule : NftChain → Option RawRule
nft_chain_to_raw_rule chain =
    if is_some_of chain.hooknum nf_inet_local_in
    then some (inbound_rule (or_unknown chain.table) (or_unknown chain.name) (action_of chain))
    else none

pub data QueryResult : Type 0 where
  chains : List NftChain → QueryResult
  failed : RulesetQueryError → QueryResult

-- `chains.iter().filter_map(nft_chain_to_raw_rule).collect()`.
unfoldable pub raw_rules : List NftChain → List RawRule
raw_rules [] = []
raw_rules (c ∷ l) = elim (nft_chain_to_raw_rule c) [ none ↦ raw_rules l | some r ↦ r ∷ raw_rules l ]

-- `classify_ruleset`.
unfoldable pub classify_ruleset : QueryResult → Bool → FirewallSource
unfolding raw_rules
classify_ruleset (failed e) legacy_iptables_active = no_policy_source
classify_ruleset (chains l) legacy_iptables_active =
    if is_empty (raw_rules l) && legacy_iptables_active
    then no_policy_source
    else nftables (raw_rules l)

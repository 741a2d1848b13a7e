-- ===== src/FirewallMapping/Nftables.antt =====
-- From the kernel's chains to a verdict: nft_chain_to_raw_rule of
-- crates/anne-de-breuil/src/adapters/linux_collector/nft_wire.rs, firewall_rules_from_raw of
-- crates/anne-de-breuil-cli/src/application/firewall_mapping.rs, and evaluate of
-- crates/anne-de-breuil/src/domain/reachability.rs.
use anne_de_breuil.Prelude.{
  ℕ, ◌≡◌, refl, sym, ap, ◌∙◌, subst, ◌↔◌, inl, inr, Bool, true, false, Option, none, some, List, [],
  ◌∷◌, ◌++◌, arith, if◌then◌else◌, Bool-cases, In, ≟_refl,
}
use anne_de_breuil.Bytes.{Bytes}
use anne_de_breuil.Text.{Text, codes, trim, eq_ignore_ascii_case}
use anne_de_breuil.Error.{ok}
use anne_de_breuil.Endpoint.{Endpoint}
use anne_de_breuil.PortSpec.{any, matches}
use anne_de_breuil.Firewall.{
  FirewallRule, Protocol, Protocol-eq, tcp, udp, RuleAction, allow, block, inbound, local,
  direction_from_str, rule_action_from_str, policy_store_from_str,
}
use anne_de_breuil.NftWire.{NftChain}
use anne_de_breuil.NftWire.Rules.{
  RawRule, or_unknown, inbound_rule, is_some_of, action_of, nft_chain_to_raw_rule, raw_rules,
}
use anne_de_breuil.NftWire.Policies.{
  IsInbound, Drops, is_some_of_iff, raw_rules-some, raw_rules-none,
}
use anne_de_breuil.Reachability.{rule_applies, program_passes, service_passes}
use anne_de_breuil.Collect.{done}
use anne_de_breuil.FirewallMapping.{
  transposed, port_spec_of, per_protocol, extended, rule_id_from_raw, firewall_rule_from_raw,
  firewall_rules_from_raw,
}

module _ (parse_uuid : Text → Option ℕ) (blake3 : Bytes → Bytes) where
  -- The rule of an inbound chain, for one protocol.
  rule_for : RawRule → RuleAction → Protocol → FirewallRule
  rule_for raw action protocol = record {
    rule_id = rule_id_from_raw parse_uuid blake3 raw.rule_id;
    display_name = raw.display_name;
    direction = inbound;
    action = action;
    protocol = protocol;
    port_spec = any;
    program_filter = none;
    service_filter = none;
    enabled = true;
    policy_store = local;
  }

  raw_of : NftChain → RawRule
  raw_of c = inbound_rule (or_unknown c.table) (or_unknown c.name) (action_of c)

  pub rule_of : NftChain → Protocol → FirewallRule
  unfolding rule_for raw_of
  rule_of c = rule_for (raw_of c) (if is_some_of c.policy 0 then block else allow)

  pub mapped : List NftChain → List FirewallRule
  mapped [] = []
  mapped (c ∷ l) =
      if is_some_of c.hooknum 1 then rule_of c tcp ∷ rule_of c udp ∷ mapped l else mapped l

  firewall_rule_from_raw-inbound :
      (table name : Text) (drops : Bool)
      → let raw = inbound_rule table name (if drops then codes "Block" else codes "Allow") in
        firewall_rule_from_raw parse_uuid blake3 raw
        ≡ ok (
            rule_for raw (if drops then block else allow) tcp
            ∷ rule_for raw (if drops then block else allow) udp
            ∷ [])
  unfolding firewall_rule_from_raw inbound_rule rule_for direction_from_str rule_action_from_str
      policy_store_from_str port_spec_of transposed per_protocol trim eq_ignore_ascii_case
  firewall_rule_from_raw-inbound table name true = refl
  firewall_rule_from_raw-inbound table name false = refl

  firewall_rules_from_raw-cons :
      (raw : RawRule) (l : List RawRule) (a m : List FirewallRule)
      → firewall_rule_from_raw parse_uuid blake3 raw ≡ ok a
      → firewall_rules_from_raw parse_uuid blake3 l ≡ done m
      → firewall_rules_from_raw parse_uuid blake3 (raw ∷ l) ≡ done (a ++ m)
  unfolding firewall_rules_from_raw extended
  firewall_rules_from_raw-cons raw l a m h k = rw (h, k) refl

  mapped_inbound :
      (c : NftChain) (l : List NftChain)
      → is_some_of c.hooknum 1 ≡ true
      → mapped (c ∷ l) ≡ rule_of c tcp ∷ rule_of c udp ∷ mapped l
  unfolding mapped
  mapped_inbound c l z = rw z refl

  mapped_other :
      (c : NftChain) (l : List NftChain)
      → is_some_of c.hooknum 1 ≡ false
      → mapped (c ∷ l) ≡ mapped l
  unfolding mapped
  mapped_other c l z = rw z refl

  nft_chain_to_raw_rule-inbound :
      (c : NftChain) → is_some_of c.hooknum 1 ≡ true → nft_chain_to_raw_rule c ≡ some (raw_of c)
  unfolding nft_chain_to_raw_rule raw_of
  nft_chain_to_raw_rule-inbound c z = rw z refl

  nft_chain_to_raw_rule-other :
      (c : NftChain) → is_some_of c.hooknum 1 ≡ false → nft_chain_to_raw_rule c ≡ none
  unfolding nft_chain_to_raw_rule
  nft_chain_to_raw_rule-other c z = rw z refl

  firewall_rule_from_raw-raw_of :
      (c : NftChain)
      → firewall_rule_from_raw parse_uuid blake3 (raw_of c)
        ≡ ok (rule_of c tcp ∷ rule_of c udp ∷ [])
  unfolding raw_of rule_of action_of
  firewall_rule_from_raw-raw_of c =
      firewall_rule_from_raw-inbound (or_unknown c.table) (or_unknown c.name)
        (is_some_of c.policy 0)

  pub firewall_rules_from_raw-mapped :
      (l : List NftChain)
      → firewall_rules_from_raw parse_uuid blake3 (raw_rules l) ≡ done (mapped l)
  unfolding firewall_rules_from_raw raw_rules mapped
  firewall_rules_from_raw-mapped [] = refl
  firewall_rules_from_raw-mapped (c ∷ l) =
      let rest = firewall_rules_from_raw-mapped l in
      elim (Bool-cases (is_some_of c.hooknum 1)) [
        | inl z ↦
            ap (firewall_rules_from_raw parse_uuid blake3)
              (raw_rules-some c (raw_of c) l (nft_chain_to_raw_rule-inbound c z))
            ∙ (firewall_rules_from_raw-cons (raw_of c) (raw_rules l) _ (mapped l)
                  (firewall_rule_from_raw-raw_of c) rest
                ∙ ap done (sym (mapped_inbound c l z)))
        | inr z ↦
            ap (firewall_rules_from_raw parse_uuid blake3)
              (raw_rules-none c l (nft_chain_to_raw_rule-other c z))
            ∙ (rest ∙ ap done (sym (mapped_other c l z)))
      ]

  -- The rules are those of the inbound chains.
  abbrev pub OfChain : FirewallRule → List NftChain → Type 0
  OfChain rule l = (c : NftChain) × In c l × IsInbound c × ((p : Protocol) × (rule ≡ rule_of c p))

  pub mapped-In : (rule : FirewallRule) (l : List NftChain) → In rule (mapped l) → OfChain rule l
  unfolding mapped
  mapped-In rule [] m = elim m [ ]
  mapped-In rule (c ∷ l) m =
      let later : In rule (mapped l) → OfChain rule (c ∷ l) =
        λ n. let (d, i, h, k) = mapped-In rule l n in (d, inr i, h, k) in
      elim (Bool-cases (is_some_of c.hooknum 1)) [
        | inl z ↦
            let inbound_c = (is_some_of_iff c.hooknum 1).0 z in
            elim (subst (In rule) (mapped_inbound c l z) m) [
              | inl e ↦ (c, inl refl, inbound_c, (tcp, e))
              | inr n ↦ elim n [ inl e ↦ (c, inl refl, inbound_c, (udp, e)) | inr k ↦ later k ]
            ]
        | inr z ↦ later (subst (In rule) (mapped_other c l z) m)
      ]

  In-mapped_head :
      (c : NftChain) (p : Protocol) (l : List NftChain)
      → IsInbound c
      → In (rule_of c p) (mapped (c ∷ l))
  In-mapped_head c tcp l h = rw (mapped_inbound c l ((is_some_of_iff c.hooknum 1).1 h)) (inl refl)
  In-mapped_head c udp l h =
      rw (mapped_inbound c l ((is_some_of_iff c.hooknum 1).1 h)) (inr (inl refl))

  pub In-mapped :
      (c : NftChain) (p : Protocol) (l : List NftChain)
      → In c l
      → IsInbound c
      → In (rule_of c p) (mapped l)
  In-mapped c p [] m h = elim m [ ]
  In-mapped c p (d ∷ l) m h = elim m [
    | inl e ↦ subst (λ x. In (rule_of c p) (mapped (x ∷ l))) e (In-mapped_head c p l h)
    | inr n ↦
        let rest = In-mapped c p l n h in
        elim (Bool-cases (is_some_of d.hooknum 1)) [
          | inl z ↦ rw (mapped_inbound d l z) (inr (inr rest))
          | inr z ↦ rw (mapped_other d l z) rest
        ]
  ]

  pub rule_of-applies :
      (windows : Bool) (c : NftChain) (e : Endpoint)
      → rule_applies windows (rule_of c e.protocol) e ≡ true
  unfolding rule_applies rule_of rule_for program_passes service_passes matches
  rule_of-applies windows c e = rw (≟_refl e.protocol) refl

  pub action-rule_of : (c : NftChain) (p : Protocol) → (rule_of c p).action ≡ block ↔ Drops c
  unfolding rule_of rule_for
  action-rule_of c p = ground (arith, is_some_of_iff c.policy 0)

  pub port_spec-rule_of : (c : NftChain) (p : Protocol) → (rule_of c p).port_spec ≡ any
  unfolding rule_of rule_for
  port_spec-rule_of c p = refl

  pub action-rule_of_other :
      (c : NftChain) (p : Protocol) → (rule_of c p).action ≡ allow ↔ ¬ Drops c
  unfolding rule_of rule_for
  action-rule_of_other c p = ground (arith, is_some_of_iff c.policy 0)

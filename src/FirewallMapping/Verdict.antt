-- ===== src/FirewallMapping/Verdict.antt =====
-- The verdict that the kernel's chains come to: nft_chain_to_raw_rule of
-- crates/anne-de-breuil/src/adapters/linux_collector/nft_wire.rs, firewall_rules_from_raw of
-- crates/anne-de-breuil-cli/src/application/firewall_mapping.rs, and evaluate of
-- crates/anne-de-breuil/src/domain/reachability.rs.
use anne_de_breuil.Prelude.{ℕ, ◌≡◌, sym, ap, ◌∙◌, ◌≢◌, ◌↔◌, false, Option, List, Bool, In}
use anne_de_breuil.Bytes.{Bytes}
use anne_de_breuil.Text.{Text}
use anne_de_breuil.Endpoint.{Endpoint, loopback}
use anne_de_breuil.Firewall.{FirewallRule, ProfileState, allow, block}
use anne_de_breuil.NftWire.{NftChain}
use anne_de_breuil.NftWire.Rules.{raw_rules}
use anne_de_breuil.NftWire.Policies.{IsInbound, Drops}
use anne_de_breuil.Reachability.{
  Reachability, local_only, blocked, allowed, default_action, indeterminate, evaluate, is_dynamic,
}
use anne_de_breuil.Reachability.Verdicts.{Some, Means, evaluate_iff-Means}
use anne_de_breuil.Collect.{done}
use anne_de_breuil.FirewallMapping.{firewall_rules_from_raw}
use anne_de_breuil.FirewallMapping.Nftables.{
  rule_of, mapped, mapped-In, In-mapped, rule_of-applies, action-rule_of, action-rule_of_other,
  port_spec-rule_of, firewall_rules_from_raw-mapped,
}

-- A base chain on the inbound hook among the chains, and one that drops.
abbrev pub Inbound : List NftChain → Type 0
Inbound l = (c : NftChain) × In c l × IsInbound c

abbrev pub Dropping : List NftChain → Type 0
Dropping l = (c : NftChain) × In c l × IsInbound c × Drops c

-- What the chains make of an endpoint.
abbrev pub ChainsMean : Endpoint → List NftChain → Reachability → Type 0
ChainsMean endpoint l local_only = endpoint.exposure ≡ loopback
ChainsMean endpoint l blocked = (endpoint.exposure ≢ loopback) × Dropping l
ChainsMean endpoint l allowed = (endpoint.exposure ≢ loopback) × ¬ Dropping l × Inbound l
ChainsMean endpoint l default_action = (endpoint.exposure ≢ loopback) × ¬ Inbound l
ChainsMean endpoint l indeterminate = ⊥

module _ (parse_uuid : Text → Option ℕ) (blake3 : Bytes → Bytes) (windows : Bool)
    (endpoint : Endpoint) where
  abbrev rules_of : List NftChain → List FirewallRule
  rules_of = mapped parse_uuid blake3

  Some-block_iff : (l : List NftChain) → Some windows endpoint block (rules_of l) ↔ Dropping l
  Some-block_iff l = (
    λ (rule, (m, a, b)).
        let (c, i, h, q) = mapped-In parse_uuid blake3 rule l m in
        (
          c,
          i,
          h,
          (action-rule_of parse_uuid blake3 c q.0).0
              (sym (ap (λ (r : FirewallRule). r.action) q.1) ∙ b),
        ),
    λ (c, i, h, d). (
      rule_of parse_uuid blake3 c endpoint.protocol,
      (
        In-mapped parse_uuid blake3 c endpoint.protocol l i h,
        rule_of-applies parse_uuid blake3 windows c endpoint,
        (action-rule_of parse_uuid blake3 c endpoint.protocol).1 d,
      ),
    ),
  )

  Some-Inbound : (l : List NftChain) → Some windows endpoint allow (rules_of l) → Inbound l
  Some-Inbound l (rule, (m, a, b)) =
      let (c, i, h, q) = mapped-In parse_uuid blake3 rule l m in (c, i, h)

  Some-allow :
      (l : List NftChain) → ¬ Dropping l → Inbound l → Some windows endpoint allow (rules_of l)
  Some-allow l n (c, i, h) = (
    rule_of parse_uuid blake3 c endpoint.protocol,
    (
      In-mapped parse_uuid blake3 c endpoint.protocol l i h,
      rule_of-applies parse_uuid blake3 windows c endpoint,
      (action-rule_of_other parse_uuid blake3 c endpoint.protocol).1 (λ d. n (c, i, h, d)),
    ),
  )

  not-dynamic :
      (l : List NftChain) (rule : FirewallRule)
      → In rule (rules_of l)
      → is_dynamic rule.port_spec ≡ false
  not-dynamic l rule m =
      let (c, i, h, q) = mapped-In parse_uuid blake3 rule l m in
      ap is_dynamic
        (ap (λ (r : FirewallRule). r.port_spec) q.1 ∙ port_spec-rule_of parse_uuid blake3 c q.0)

  Means-iff-ChainsMean :
      (l : List NftChain) (v : Reachability)
      → Means windows endpoint (rules_of l) v ↔ ChainsMean endpoint l v
  Means-iff-ChainsMean l local_only = (λ h. h, λ h. h)
  Means-iff-ChainsMean l blocked =
      let (to, from) = Some-block_iff l in (λ h. (h.0, to h.1), λ h. (h.0, from h.1))
  Means-iff-ChainsMean l allowed =
      let (to, from) = Some-block_iff l in
      (
        λ (n, noblock, some_allow, still). (n, (λ d. noblock (from d)), Some-Inbound l some_allow),
        λ (n, nodrop, i). (
          n,
          (λ b. nodrop (to b)),
          Some-allow l nodrop i,
          (λ rule applies. not-dynamic l rule applies.0),
        ),
      )
  Means-iff-ChainsMean l default_action =
      let (to, from) = Some-block_iff l in
      (
        λ (n, noblock, noallow). (n, (λ i. noallow (Some-allow l (λ d. noblock (from d)) i))),
        λ (n, none_inbound). (
          n,
          (λ b. let (c, i, h, d) = to b in none_inbound (c, i, h)),
          (λ a. none_inbound (Some-Inbound l a)),
        ),
      )
  Means-iff-ChainsMean l indeterminate = (
    λ (n, noblock, (rule, applies, dynamic)). let still = not-dynamic l rule applies.0 in cc,
    λ h. elim h [ ],
  )

  -- What the chains decide: their rules are all mapped, and the verdict is the one that they mean.
  abbrev pub Decides : List NftChain → List ProfileState → Reachability → Type 0
  Decides l profiles v =
      (rules : List FirewallRule) × (firewall_rules_from_raw parse_uuid blake3 (raw_rules l)
        ≡ done rules)
      × (((evaluate windows endpoint rules profiles).reachability ≡ v) ↔ ChainsMean endpoint l v)

  -- The raw rules of any chains of the kernel are all mapped to rules, and `evaluate` decides by
  -- these what the chains mean: blocked exactly if a base chain on the inbound hook drops, else
  -- allowed if there is a base chain on that hook, else left to the default action; local only
  -- exactly if the endpoint is bound to loopback, and never indeterminate.
  pub firewall_rules_from_raw-Decides :
      (l : List NftChain) (profiles : List ProfileState) (v : Reachability) → Decides l profiles v
  firewall_rules_from_raw-Decides l profiles v = (
    rules_of l,
    firewall_rules_from_raw-mapped parse_uuid blake3 l,
    (
      λ e.
          (Means-iff-ChainsMean l v).0
            ((evaluate_iff-Means windows endpoint (rules_of l) profiles v).0 e),
      λ h.
          (evaluate_iff-Means windows endpoint (rules_of l) profiles v).1
            ((Means-iff-ChainsMean l v).1 h),
    ),
  )

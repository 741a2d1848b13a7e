-- ===== src/NftWire/Policies.antt =====
-- What the rules of a ruleset say: `classify_ruleset` of
-- crates/anne-de-breuil/src/adapters/linux_collector/nft_wire.rs.
use anne_de_breuil.Prelude.{
  &&_iff, ℕ, ◌≡◌, refl, ap, ◌∙◌, subst, ◌↔◌, inl, inr, Bool, true, false, ◌&&◌, Option, none, some,
  List, [], ◌∷◌, arith, if◌then◌else◌, Option-cases, is_empty, In,
}
use anne_de_breuil.Text.{codes}
use anne_de_breuil.NftWire.{RulesetQueryError, NftChain}
use anne_de_breuil.NftWire.Rules.{
  or_unknown, RawRule, nftables, no_policy_source, chains, failed, classify_ruleset, raw_rules,
  nft_chain_to_raw_rule, inbound_rule, action_of, is_some_of,
}

-- A base chain on the inbound hook, and one whose policy drops.
abbrev pub IsInbound : NftChain → Type 0
IsInbound c = c.hooknum ≡ some 1

abbrev pub Drops : NftChain → Type 0
Drops c = c.policy ≡ some 0

pub is_some_of_iff : (o : Option ℕ) (n : ℕ) → is_some_of o n ≡ true ↔ o ≡ some n
is_some_of_iff none n = ground arith
is_some_of_iff (some m) n = ground arith

action_of_iff : (c : NftChain) → action_of c ≡ codes "Block" ↔ Drops c
unfolding action_of
action_of_iff c = ground (arith, is_some_of_iff c.policy 0)

-- What the rule of one chain is, if it has one.
nft_chain_to_raw_rule_iff :
    (c : NftChain) (r : RawRule)
    → nft_chain_to_raw_rule c ≡ some r
      ↔ (IsInbound c × (inbound_rule (or_unknown c.table) (or_unknown c.name) (action_of c) ≡ r))
unfolding nft_chain_to_raw_rule
nft_chain_to_raw_rule_iff c r = ground (arith, is_some_of_iff c.hooknum 1)

raw_rules-In :
    (r : RawRule) (l : List NftChain)
    → In r (raw_rules l)
    → (c : NftChain) × In c l × (nft_chain_to_raw_rule c ≡ some r)
unfolding raw_rules
raw_rules-In r [] m = elim m [ ]
raw_rules-In r (c ∷ l) m = elim (Option-cases (nft_chain_to_raw_rule c)) [
  | inl e ↦
      let (d, i, f) = raw_rules-In r l (
        subst
          (λ o.
            In r (elim o as (λ _. List RawRule) [ none ↦ raw_rules l | some q ↦ q ∷ raw_rules l ]))
          e m) in
      (d, inr i, f)
  | inr (q, e) ↦
      elim (subst
        (λ o.
          In r (elim o as (λ _. List RawRule) [ none ↦ raw_rules l | some q ↦ q ∷ raw_rules l ]))
        e m) [
          | inl f ↦ (c, inl refl, rw f e)
          | inr n ↦ let (d, i, f) = raw_rules-In r l n in (d, inr i, f)
        ]
]

pub raw_rules-some :
    (c : NftChain) (r : RawRule) (l : List NftChain)
    → nft_chain_to_raw_rule c ≡ some r
    → raw_rules (c ∷ l) ≡ r ∷ raw_rules l
unfolding raw_rules
raw_rules-some c r l e =
    ap (λ o. elim o as (λ _. List RawRule) [ none ↦ raw_rules l | some q ↦ q ∷ raw_rules l ]) e

pub raw_rules-none :
    (c : NftChain) (l : List NftChain)
    → nft_chain_to_raw_rule c ≡ none
    → raw_rules (c ∷ l) ≡ raw_rules l
unfolding raw_rules
raw_rules-none c l e =
    ap (λ o. elim o as (λ _. List RawRule) [ none ↦ raw_rules l | some q ↦ q ∷ raw_rules l ]) e

In-raw_rules :
    (r : RawRule) (c : NftChain) (l : List NftChain)
    → In c l
    → nft_chain_to_raw_rule c ≡ some r
    → In r (raw_rules l)
In-raw_rules r c [] m h = elim m [ ]
In-raw_rules r c (d ∷ l) (inl e) h = rw (raw_rules-some d r l (rw (← e) h)) (inl refl)
In-raw_rules r c (d ∷ l) (inr m) h = elim (Option-cases (nft_chain_to_raw_rule d)) [
  | inl e ↦ rw (raw_rules-none d l e) (In-raw_rules r c l m h)
  | inr (q, e) ↦ rw (raw_rules-some d q l e) (inr (In-raw_rules r c l m h))
]

-- The rules of a ruleset hold one that blocks exactly if one of the chains is a base chain on the
-- inbound hook whose policy is to drop.
pub blocks_iff :
    (l : List NftChain)
    → ((r : RawRule) × In r (raw_rules l) × (r.action ≡ codes "Block"))
      ↔ ((c : NftChain) × In c l × IsInbound c × Drops c)
unfolding inbound_rule
blocks_iff l = (
  (λ (r, m, b).
      let (c, i, e) = raw_rules-In r l m in
      let (inbound, f) = (nft_chain_to_raw_rule_iff c r).0 e in
      (c, i, inbound, (action_of_iff c).0 (ap (λ q. q.action) f ∙ b))),
  (λ (c, i, inbound, drops).
      let r = inbound_rule (or_unknown c.table) (or_unknown c.name) (action_of c) in
      (
        r,
        In-raw_rules r c l i ((nft_chain_to_raw_rule_iff c r).1 (inbound, refl)),
        (action_of_iff c).1 drops,
      )),
)

is_empty_iff : (l : List RawRule) → is_empty l ≡ true ↔ ((r : RawRule) → ¬ In r l)
is_empty_iff [] = ((λ _ r m. elim m [ ]), (λ _. refl))
is_empty_iff (r ∷ l) = ((λ e. ground (arith, e)), (λ h. absurd (h r (inl refl))))

none-IsInbound :
    (l : List NftChain) → is_empty (raw_rules l) ≡ true ↔ ((c : NftChain) → In c l → ¬ IsInbound c)
none-IsInbound l = (
  (λ e c m i.
      (is_empty_iff (raw_rules l)).0 e
        (inbound_rule (or_unknown c.table) (or_unknown c.name) (action_of c))
        (In-raw_rules (inbound_rule (or_unknown c.table) (or_unknown c.name) (action_of c)) c l m (
          (nft_chain_to_raw_rule_iff c
              (inbound_rule (or_unknown c.table) (or_unknown c.name) (action_of c))).1
            (i, refl)))),
  (λ h.
      (is_empty_iff (raw_rules l)).1 (λ r m.
        let (c, i, e) = raw_rules-In r l m in h c i ((nft_chain_to_raw_rule_iff c r).0 e).0)),
)

source-no_policy :
    (b : Bool) (rules : List RawRule)
    → (if b then no_policy_source else nftables rules) ≡ no_policy_source ↔ (b ≡ true)
source-no_policy true rules = ((λ _. refl), (λ _. refl))
source-no_policy false rules = ((λ e. ground (arith, e)), (λ e. ground (arith, e)))

-- `classify_ruleset` reports no policy source for every failed query; for a query that gave chains
-- it does so exactly if legacy iptables are active and none of the chains is a base chain on the
-- inbound hook.
pub no_policy_source_iff :
    (l : List NftChain) (e : RulesetQueryError) (legacy : Bool)
    → (classify_ruleset (failed e) legacy ≡ no_policy_source)
      × (classify_ruleset (chains l) legacy ≡ no_policy_source
          ↔ ((legacy ≡ true) × ((c : NftChain) → In c l → ¬ IsInbound c)))
unfolding classify_ruleset
no_policy_source_iff l e legacy = (
  refl,
  (
    (λ h.
        let (empty, on) =
          (&&_iff (is_empty (raw_rules l)) legacy).0
            ((source-no_policy (is_empty (raw_rules l) && legacy) (raw_rules l)).0 h) in
        (on, (none-IsInbound l).0 empty)),
    (λ (on, h).
        (source-no_policy (is_empty (raw_rules l) && legacy) (raw_rules l)).1
          ((&&_iff (is_empty (raw_rules l)) legacy).1 ((none-IsInbound l).1 h, on))),
  ),
)

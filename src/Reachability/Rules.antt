-- ===== src/Reachability/Rules.antt =====
-- How the verdict depends on the rule set (crates/anne-de-breuil/src/domain/reachability.rs).
use anne_de_breuil.Prelude.{
  filter-map, find?-map, any-map, ◌≡◌, refl, sym, ◌↔◌, inl, inr, Bool, List, [], ◌∷◌, map, arith,
  Bool-cases, Option-cases, filter, find?, In, ◌≟◌,
}
use anne_de_breuil.Endpoint.{Endpoint, loopback, Exposure-eq}
use anne_de_breuil.Firewall.{
  FirewallRule, ProfileState, RuleAction, Direction, allow, block, RuleAction-eq,
}
use anne_de_breuil.Reachability.Verdicts.{Some, Means, evaluate_iff-Means}
use anne_de_breuil.Reachability.{
  Reachability, local_only, blocked, allowed, default_action, indeterminate, rule_applies,
  is_dynamic, decide_allows, decide_applicable, evaluate,
}

-- The two lists hold the same rules, in any order and any number.
abbrev pub SameRules : List FirewallRule → List FirewallRule → Type 0
SameRules xs ys = (rule : FirewallRule) → In rule xs ↔ In rule ys

module _ (windows : Bool) (endpoint : Endpoint) (xs ys : List FirewallRule)
    (same : SameRules xs ys) where
  Some-same :
      (action : RuleAction) → Some windows endpoint action xs → Some windows endpoint action ys
  Some-same action (rule, (m, a, b)) = (rule, ((same rule).0 m, a, b))

  Some-back :
      (action : RuleAction) → Some windows endpoint action ys → Some windows endpoint action xs
  Some-back action (rule, (m, a, b)) = (rule, ((same rule).1 m, a, b))

  Means-same : (v : Reachability) → Means windows endpoint xs v → Means windows endpoint ys v
  Means-same local_only h = h
  Means-same blocked h = (h.0, Some-same block h.1)
  Means-same indeterminate h =
      let (rule, (m, a, b), d) = h.2 in
      (h.0, (λ s. h.1 (Some-back block s)), (rule, ((same rule).0 m, a, b), d))
  Means-same allowed h = (
    h.0,
    (λ s. h.1 (Some-back block s)),
    Some-same allow h.2,
    λ rule (m, a, b). h.3 rule ((same rule).1 m, a, b),
  )
  Means-same default_action h =
      (h.0, (λ s. h.1 (Some-back block s)), (λ s. h.2 (Some-back allow s)))

  -- The verdict of `evaluate` depends on which rules there are, not on their order or how often
  -- they occur, nor on the profiles.
  pub evaluate-SameRules :
      (profiles others : List ProfileState)
      → (evaluate windows endpoint xs profiles).reachability
        ≡ (evaluate windows endpoint ys others).reachability
  evaluate-SameRules profiles others = sym (
      (evaluate_iff-Means windows endpoint ys others _).1
        (Means-same _ ((evaluate_iff-Means windows endpoint xs profiles _).0 refl)))

-- A rule with its switch and its direction set anew.
abbrev pub switched : Bool → Direction → FirewallRule → FirewallRule
switched enabled direction rule = record rule { enabled = enabled; direction = direction }

module _ (windows : Bool) (endpoint : Endpoint) (enabled : Bool) (direction : Direction) where
  rule_applies-switched :
      (rule : FirewallRule)
      → rule_applies windows (switched enabled direction rule) endpoint
        ≡ rule_applies windows rule endpoint
  unfolding rule_applies
  rule_applies-switched rule = refl

  filter-switched :
      (rules : List FirewallRule)
      → filter (λ r. rule_applies windows r endpoint) (map (switched enabled direction) rules)
        ≡ map (switched enabled direction) (filter (λ r. rule_applies windows r endpoint) rules)
  filter-switched [] = refl
  filter-switched (rule ∷ rules) = ground (arith, rule_applies-switched rule, filter-switched rules)

  decide_allows-switched :
      (l : List FirewallRule)
      → (decide_allows (map (switched enabled direction) l)).reachability
        ≡ (decide_allows l).reachability
  unfolding decide_allows
  decide_allows-switched [] = refl
  decide_allows-switched (rule ∷ l) =
      ground (arith, any-map (switched enabled direction) (λ r. is_dynamic r.port_spec) l)

  decide_applicable-switched :
      (l : List FirewallRule)
      → (decide_applicable (map (switched enabled direction) l)).reachability
        ≡ (decide_applicable l).reachability
  unfolding decide_applicable
  decide_applicable-switched l = elim (Option-cases (find? (λ r. r.action ≟ block) l)) [
    | inl e ↦
        rw
          (
            find?-map (switched enabled direction) (λ r. r.action ≟ block) l,
            e,
            filter-map (switched enabled direction) (λ r. r.action ≟ allow) l,
            decide_applicable,
          )
          (decide_allows-switched (filter (λ r. r.action ≟ allow) l))
    | inr (rule, e) ↦
        rw (find?-map (switched enabled direction) (λ r. r.action ≟ block) l, e, decide_applicable)
  ]

  -- The verdict of `evaluate` does not depend on whether the rules are enabled nor on their
  -- direction: with both set anew in every rule it stays the same.
  pub evaluate-switched :
      (rules : List FirewallRule) (profiles : List ProfileState)
      → (evaluate windows endpoint (map (switched enabled direction) rules) profiles).reachability
        ≡ (evaluate windows endpoint rules profiles).reachability
  unfolding evaluate
  evaluate-switched rules profiles = elim (Bool-cases (endpoint.exposure ≟ loopback)) [
    | inl e ↦ rw e
    | inr e ↦ rw (e, filter-switched rules) (decide_applicable-switched _)
  ]

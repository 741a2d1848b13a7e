-- ===== src/Reachability/Verdicts.antt =====
-- What each verdict of `evaluate` says of the rules (crates/anne-de-breuil/src/domain/reachability.rs).
use anne_de_breuil.Prelude.{
  ≟→ne, any_iff-In, find?-none, any-In, filter-In, In-filter, find?-In, ◌≡◌, refl, sym, subst, ◌≢◌,
  ◌↔◌, inl, inr, Bool, true, false, none, some, List, [], ◌∷◌, arith, Bool-cases, Option-cases,
  filter, find?, any, In, ◌≟◌, ≟→eq,
}
use anne_de_breuil.Endpoint.{Endpoint, loopback, Exposure-eq}
use anne_de_breuil.Firewall.{FirewallRule, ProfileState, RuleAction, allow, block, RuleAction-eq}
use anne_de_breuil.Reachability.{
  Reachability, local_only, blocked, allowed, default_action, indeterminate, rule_applies,
  is_dynamic, decide_allows, decide_applicable, evaluate,
}

module _ (windows : Bool) (endpoint : Endpoint) where
  -- A rule of the set that applies to the endpoint and has the action.
  abbrev pub Applies : RuleAction → List FirewallRule → FirewallRule → Type 0
  Applies action rules rule =
      In rule rules × (rule_applies windows rule endpoint ≡ true) × (rule.action ≡ action)

  abbrev pub Some : RuleAction → List FirewallRule → Type 0
  Some action rules = (rule : FirewallRule) × Applies action rules rule

  -- The reading of a verdict: how block, allow and dynamic rules decide it.
  abbrev pub Means : List FirewallRule → Reachability → Type 0
  Means rules local_only = endpoint.exposure ≡ loopback
  Means rules blocked = (endpoint.exposure ≢ loopback) × Some block rules
  Means rules indeterminate =
      (endpoint.exposure ≢ loopback)
      × ¬ Some block rules
      × ((rule : FirewallRule) × Applies allow rules rule × (is_dynamic rule.port_spec ≡ true))
  Means rules allowed =
      (endpoint.exposure ≢ loopback)
      × ¬ Some block rules
      × Some allow rules
      × ((rule : FirewallRule) → Applies allow rules rule → is_dynamic rule.port_spec ≡ false)
  Means rules default_action =
      (endpoint.exposure ≢ loopback) × ¬ Some block rules × ¬ Some allow rules

abbrev applicable : Bool → Endpoint → List FirewallRule → List FirewallRule
applicable windows endpoint = filter (λ rule. rule_applies windows rule endpoint)

abbrev allows : List FirewallRule → List FirewallRule
allows = filter (λ rule. rule.action ≟ allow)

module _ (windows : Bool) (endpoint : Endpoint) (rules : List FirewallRule) where
  Some-of_find :
      (rule : FirewallRule)
      → find? (λ r. r.action ≟ block) (applicable windows endpoint rules) ≡ some rule
      → Some windows endpoint block rules
  Some-of_find rule h =
      let (m, b) = find?-In (λ r. r.action ≟ block) rule (applicable windows endpoint rules) h in
      let (k, a) = filter-In (λ r. rule_applies windows r endpoint) rule rules m in
      (rule, (k, a, ≟→eq rule.action block b))

  not-Some_of_find :
      find? (λ r. r.action ≟ block) (applicable windows endpoint rules) ≡ none
      → ¬ Some windows endpoint block rules
  not-Some_of_find h (rule, (k, a, b)) =
      let m = In-filter (λ r. rule_applies windows r endpoint) rule rules k a in
      let none = find?-none (λ r. r.action ≟ block) rule (applicable windows endpoint rules) h m in
      ground (arith, none, b)

  Applies-allow :
      (rule : FirewallRule)
      → In rule (allows (applicable windows endpoint rules))
      → Applies windows endpoint allow rules rule
  Applies-allow rule m =
      let (k, b) = filter-In (λ r. r.action ≟ allow) rule (applicable windows endpoint rules) m in
      let (i, a) = filter-In (λ r. rule_applies windows r endpoint) rule rules k in
      (i, a, ≟→eq rule.action allow b)

  In-allows :
      (rule : FirewallRule)
      → Applies windows endpoint allow rules rule
      → In rule (allows (applicable windows endpoint rules))
  In-allows rule (i, a, b) =
      In-filter (λ r. r.action ≟ allow) rule (applicable windows endpoint rules)
        (In-filter (λ r. rule_applies windows r endpoint) rule rules i a) (ground (arith, b))

  decide_allows-Means :
      (l : List FirewallRule)
      → l ≡ allows (applicable windows endpoint rules)
      → endpoint.exposure ≢ loopback
      → ¬ Some windows endpoint block rules
      → Means windows endpoint rules (decide_allows l).reachability
  unfolding decide_allows
  decide_allows-Means [] e x n = (x, n, λ (r, a). rw (← e) at (In-allows r a))
  decide_allows-Means (rule ∷ l) e x n =
      elim (Bool-cases (any (λ r. is_dynamic r.port_spec) (rule ∷ l))) [
        | inl d ↦
            let (r, m, q) = any_iff-In (λ r. is_dynamic r.port_spec) (rule ∷ l) d in
            rw d (x, n, (r, Applies-allow r (subst (In r) e m), q))
        | inr d ↦ rw d (
          x,
          n,
          (rule, Applies-allow rule (subst (In rule) e (inl refl))),
          λ r a. static r (subst (In r) (sym e) (In-allows r a)) d,
        )
      ]
    where
      static :
          (r : FirewallRule)
          → In r (rule ∷ l)
          → any (λ r. is_dynamic r.port_spec) (rule ∷ l) ≡ false
          → is_dynamic r.port_spec ≡ false
      static r m d = elim (Bool-cases (is_dynamic r.port_spec)) [
        | inl q ↦ ground (arith, any-In (λ r. is_dynamic r.port_spec) r (rule ∷ l) m q)
        | inr q ↦ q
      ]

  decide_applicable-Means :
      endpoint.exposure ≢ loopback
      → Means windows endpoint rules
          (decide_applicable (applicable windows endpoint rules)).reachability
  unfolding decide_applicable
  decide_applicable-Means x =
      elim (Option-cases (find? (λ r. r.action ≟ block) (applicable windows endpoint rules))) [
        | inl e ↦ rw (e, decide_applicable) (decide_allows-Means _ refl x (not-Some_of_find e))
        | inr (rule, e) ↦ rw (e, decide_applicable) (x, Some-of_find rule e)
      ]

  evaluate-Means :
      (profiles : List ProfileState)
      → Means windows endpoint rules (evaluate windows endpoint rules profiles).reachability
  unfolding evaluate
  evaluate-Means profiles = elim (Bool-cases (endpoint.exposure ≟ loopback)) [
    | inl e ↦ rw e (≟→eq endpoint.exposure loopback e)
    | inr e ↦ rw e (decide_applicable-Means (≟→ne endpoint.exposure loopback e))
  ]

  -- No two verdicts can be meant of the same endpoint and rules.
  Means-unique :
      (v w : Reachability) → Means windows endpoint rules v → Means windows endpoint rules w → v ≡ w
  Means-unique local_only local_only h k = refl
  Means-unique local_only blocked h k = absurd (k.0 h)
  Means-unique local_only allowed h k = absurd (k.0 h)
  Means-unique local_only default_action h k = absurd (k.0 h)
  Means-unique local_only indeterminate h k = absurd (k.0 h)
  Means-unique blocked local_only h k = absurd (h.0 k)
  Means-unique blocked blocked h k = refl
  Means-unique blocked allowed h k = absurd (k.1 h.1)
  Means-unique blocked default_action h k = absurd (k.1 h.1)
  Means-unique blocked indeterminate h k = absurd (k.1 h.1)
  Means-unique allowed local_only h k = absurd (h.0 k)
  Means-unique allowed blocked h k = absurd (h.1 k.1)
  Means-unique allowed allowed h k = refl
  Means-unique allowed default_action h k = absurd (k.2 h.2)
  Means-unique allowed indeterminate h k = cc (k.2.2, h.3 k.2.0 k.2.1)
  Means-unique default_action local_only h k = absurd (h.0 k)
  Means-unique default_action blocked h k = absurd (h.1 k.1)
  Means-unique default_action allowed h k = absurd (h.2 k.2)
  Means-unique default_action default_action h k = refl
  Means-unique default_action indeterminate h k = absurd (h.2 (k.2.0, k.2.1))
  Means-unique indeterminate local_only h k = absurd (h.0 k)
  Means-unique indeterminate blocked h k = absurd (h.1 k.1)
  Means-unique indeterminate allowed h k = cc (h.2.2, k.3 h.2.0 h.2.1)
  Means-unique indeterminate default_action h k = absurd (k.2 (h.2.0, h.2.1))
  Means-unique indeterminate indeterminate h k = refl

  -- `evaluate` gives a verdict exactly if the rules mean it: local only if the endpoint is bound to
  -- loopback; otherwise blocked if some applicable rule blocks it, indeterminate if none blocks it
  -- and some applicable allow rule is dynamic, allowed if none blocks it, some allows it and no
  -- applicable allow rule is dynamic, and the default action if no rule applies.
  pub evaluate_iff-Means :
      (profiles : List ProfileState) (v : Reachability)
      → ((evaluate windows endpoint rules profiles).reachability ≡ v)
        ↔ Means windows endpoint rules v
  evaluate_iff-Means profiles v = (
    λ e. subst (Means windows endpoint rules) e (evaluate-Means profiles),
    λ h. Means-unique _ v (evaluate-Means profiles) h,
  )

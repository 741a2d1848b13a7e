-- ===== src/FirewallJoin/Rows.antt =====
-- Which rows a joined rule is made of
-- (crates/anne-de-breuil/src/adapters/windows_collector/firewall_join.rs).
use anne_de_breuil.Prelude.{
  ==_iff, ℕ, ◌<◌, ◌==◌, ap, sym, ◌∙◌, ◌≡◌, refl, subst, ◌≢◌, ◌↔◌, ◌⊎◌, inl, inr, true, Option, none,
  some, List, [], ◌∷◌, arith, Bool-cases, All, ◌>>=◌,
}
use anne_de_breuil.Text.{
  Text, codes, lower, to_ascii_lowercase, eq_ignore_ascii_case, to_string, text_eq, text_eq_refl,
  text_eq→eq,
}
use anne_de_breuil.NftWire.Rules.{RawRule}
use anne_de_breuil.Collect.Pointwise.{Pointwise}
use anne_de_breuil.FirewallJoin.{
  WmiFirewallRule, WmiPortFilter, WmiApplicationFilter, WmiServiceFilter, direction_text,
  action_text, policy_store_text, none_if_any, by_instance, rule_from_wmi, join_rules_to_filters,
  with_filters, assemble_rules,
}

-- A number as the platform means it, 1 and 2 in words and any other in digits.
abbrev pub InWords : Text → Text → ℕ → Text → Type 0
InWords one two n s =
    ((n ≡ 1) × (s ≡ one)) ⊎ ((n ≡ 2) × (s ≡ two)) ⊎ ((n ≢ 1) × (n ≢ 2) × (s ≡ to_string n))

abbrev pub StoreInWords : ℕ → Text → Type 0
StoreInWords n s =
    ((n ≡ 0) × (s ≡ codes "Local"))
    ⊎ ((n ≡ 1) × (s ≡ codes "GroupPolicy"))
    ⊎ ((n ≡ 2) × (s ≡ codes "Dynamic"))
    ⊎ ((n ≡ 3) × (s ≡ codes "Static"))
    ⊎ ((3 < n) × (s ≡ to_string n))

-- The value, unless it says any in whatever case.
abbrev pub UnlessAny : Option Text → Option Text → Type 0
UnlessAny value out =
    (v : Text) → (out ≡ some v) ↔ ((value ≡ some v) × (to_ascii_lowercase v ≢ codes "any"))

direction_text-InWords : (n : ℕ) → InWords (codes "Inbound") (codes "Outbound") n (direction_text n)
unfolding direction_text
direction_text-InWords n = elim (Bool-cases (n == 1)) [
  | inl z ↦ inl ((==_iff n 1).0 z, rw z refl)
  | inr z ↦ elim (Bool-cases (n == 2)) [
    | inl y ↦ inr (inl ((==_iff n 2).0 y, rw (z, y) refl))
    | inr y ↦ inr (inr ((λ q. ground (arith, q, z)), (λ q. ground (arith, q, y)), rw (z, y) refl))
  ]
]

action_text-InWords : (n : ℕ) → InWords (codes "Allow") (codes "Block") n (action_text n)
unfolding action_text
action_text-InWords n = elim (Bool-cases (n == 1)) [
  | inl z ↦ inl ((==_iff n 1).0 z, rw z refl)
  | inr z ↦ elim (Bool-cases (n == 2)) [
    | inl y ↦ inr (inl ((==_iff n 2).0 y, rw (z, y) refl))
    | inr y ↦ inr (inr ((λ q. ground (arith, q, z)), (λ q. ground (arith, q, y)), rw (z, y) refl))
  ]
]

policy_store_text-StoreInWords : (n : ℕ) → StoreInWords n (policy_store_text n)
unfolding policy_store_text
policy_store_text-StoreInWords n = elim (Bool-cases (n == 0)) [
  | inl z ↦ inl ((==_iff n 0).0 z, rw z refl)
  | inr z ↦ elim (Bool-cases (n == 1)) [
    | inl y ↦ inr (inl ((==_iff n 1).0 y, rw (z, y) refl))
    | inr y ↦ elim (Bool-cases (n == 2)) [
      | inl x ↦ inr (inr (inl ((==_iff n 2).0 x, rw (z, y, x) refl)))
      | inr x ↦ elim (Bool-cases (n == 3)) [
        | inl w ↦ inr (inr (inr (inl ((==_iff n 3).0 w, rw (z, y, x, w) refl))))
        | inr w ↦ inr (inr (inr (inr (ground (arith, z, y, x, w), rw (z, y, x, w) refl))))
      ]
    ]
  ]
]

some_same : (a b : Text) → ◌≡◌ {A = Option Text} (some a) (some b) → a ≡ b
some_same a b e = cc

none_if_any-UnlessAny : (value : Option Text) → UnlessAny value (none_if_any value)
unfolding none_if_any eq_ignore_ascii_case to_ascii_lowercase lower
none_if_any-UnlessAny none v = ((λ e. cc), (λ h. cc))
none_if_any-UnlessAny (some w) v =
    elim (Bool-cases (text_eq (to_ascii_lowercase w) (codes "any"))) [
      | inl z ↦
          let any : to_ascii_lowercase w ≡ codes "any" =
            text_eq→eq (to_ascii_lowercase w) (codes "any") z in
          rw z (
            (λ e. cc),
            (λ (e, n). absurd (n (ap to_ascii_lowercase (sym (some_same w v e)) ∙ any))),
          )
      | inr z ↦ rw z (
        (λ e. (
          e,
          (λ q.
              let low : to_ascii_lowercase w ≡ codes "any" =
                ap to_ascii_lowercase (some_same w v e) ∙ q in
              let t : text_eq (to_ascii_lowercase w) (codes "any") ≡ true =
                rw low (text_eq_refl (codes "any")) in
              ground (arith, t, z)),
        )),
        (λ h. h.0),
      )
    ]

module _ {A : Type 0} (id_of : A → Text) (id : Text) where
  -- The row is the last with the id.
  abbrev pub Last : List A → A → Type 0
  Last [] row = ⊥
  Last (a ∷ l) row = Last l row ⊎ ((a ≡ row) × (id_of a ≡ id) × All (λ b. id_of b ≢ id) l)

  -- A value that is taken from the last row with the id, or none where there is no such row.
  abbrev pub FromLast : (A → Option Text → Type 0) → List A → Option Text → Type 0
  FromLast Taken l out =
      ((a : A) × Last l a × Taken a out) ⊎ (All (λ b. id_of b ≢ id) l × (out ≡ none))

  by_instance-Last :
      (l : List A)
      → ((a : A) × (by_instance id_of l id ≡ some a) × Last l a)
        ⊎ ((by_instance id_of l id ≡ none) × All (λ b. id_of b ≢ id) l)
  unfolding by_instance
  by_instance-Last [] = inr (refl, tt)
  by_instance-Last (a ∷ l) = elim (by_instance-Last l) [
    | inl (b, e, k) ↦ inl (b, rw e refl, inl k)
    | inr (e, n) ↦ elim (Bool-cases (text_eq (id_of a) id)) [
      | inl z ↦ inl (a, rw (e, z) refl, inr (refl, text_eq→eq (id_of a) id z, n))
      | inr z ↦ inr (
        rw (e, z) refl,
        (
          λ q.
              let same : text_eq (id_of a) id ≡ true =
                subst (λ x. text_eq (id_of a) x ≡ true) q (text_eq_refl (id_of a)) in
              ground (arith, same, z),
          n,
        ),
      )
    ]
  ]

  by_instance-FromLast :
      (value : A → Option Text) (l : List A)
      → FromLast (λ a out. out ≡ value a) l (do a ← by_instance id_of l id; value a)
  by_instance-FromLast value l = elim (by_instance-Last l) [
    | inl (a, e, k) ↦ inl (a, k, rw e refl)
    | inr (e, n) ↦ inr (n, rw e refl)
  ]

  none_if_any-FromLast :
      (value : A → Option Text) (l : List A)
      → FromLast (λ a. UnlessAny (value a)) l (none_if_any (do a ← by_instance id_of l id; value a))
  none_if_any-FromLast value l = elim (by_instance-Last l) [
    | inl (a, e, k) ↦ inl (a, k, rw e (none_if_any-UnlessAny (value a)))
    | inr (e, n) ↦ inr (n, rw e (unfold none_if_any in refl))
  ]

module _ (ports : List WmiPortFilter) (apps : List WmiApplicationFilter)
    (services : List WmiServiceFilter) where
  -- What a rule of the platform is joined to: its own id and names, its numbers in words, its
  -- protocol and ports from its port filter unless that says any, and its program and service from
  -- their filters, as they stand there.
  abbrev pub Assembled : WmiFirewallRule → RawRule → Type 0
  Assembled rule raw =
      (raw.rule_id ≡ rule.instance_id)
      × (raw.display_name ≡ rule.display_name)
      × InWords (codes "Inbound") (codes "Outbound") rule.direction raw.direction
      × InWords (codes "Allow") (codes "Block") rule.action raw.action
      × (raw.enabled ≡ true ↔ rule.enabled ≢ 0)
      × StoreInWords rule.policy_store_source_type raw.policy_store
      × FromLast (λ (f : WmiPortFilter). f.instance_id) rule.instance_id (λ f. UnlessAny f.protocol)
          ports raw.protocol
      × FromLast (λ (f : WmiPortFilter). f.instance_id) rule.instance_id
          (λ f. UnlessAny f.local_port) ports raw.local_port_spec
      × FromLast (λ (f : WmiApplicationFilter). f.instance_id) rule.instance_id
          (λ f out. out ≡ f.program) apps raw.program_filter
      × FromLast (λ (f : WmiServiceFilter). f.instance_id) rule.instance_id
          (λ f out. out ≡ f.service) services raw.service_filter

  rule_from_wmi-Assembled :
      (rule : WmiFirewallRule)
      → Assembled rule (
          with_filters apps services (
            rule_from_wmi rule
              (by_instance (λ (f : WmiPortFilter). f.instance_id) ports rule.instance_id)))
  unfolding rule_from_wmi with_filters
  rule_from_wmi-Assembled rule = (
    refl,
    refl,
    direction_text-InWords rule.direction,
    action_text-InWords rule.action,
    ground arith,
    policy_store_text-StoreInWords rule.policy_store_source_type,
    none_if_any-FromLast _ rule.instance_id (λ f. f.protocol) ports,
    none_if_any-FromLast _ rule.instance_id (λ f. f.local_port) ports,
    by_instance-FromLast _ rule.instance_id (λ f. f.program) apps,
    by_instance-FromLast _ rule.instance_id (λ f. f.service) services,
  )

  -- `assemble_rules` gives one rule for each of the platform, in order: with its own id and name;
  -- direction and action in words, 1 being inbound or allow and 2 outbound or block, the store in
  -- words, 0 to 3 being local, group policy, dynamic and static, and any other number in digits;
  -- enabled unless its number is 0; and with the protocol, ports, program and service of the last
  -- filter of each kind that has its id, or without where there is none. A protocol or ports that
  -- say any, in whatever case, count as none; a program or service is taken as it stands.
  pub assemble_rules-Assembled :
      (rules : List WmiFirewallRule)
      → Pointwise Assembled rules (assemble_rules rules ports apps services)
  unfolding assemble_rules join_rules_to_filters
  assemble_rules-Assembled [] = tt
  assemble_rules-Assembled (rule ∷ l) = (rule_from_wmi-Assembled rule, assemble_rules-Assembled l)

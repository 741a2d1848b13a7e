-- ===== src/Identity/Believed.antt =====
-- When a service identity can be made, and what is made of two of them
-- (crates/anne-de-breuil/src/domain/service_identity.rs, reconciliation.rs and mismatch.rs).
use anne_de_breuil.Prelude.{
  ◌≡◌, refl, sym, ap, ◌∙◌, ◌≢◌, ◌↔◌, ◌⊎◌, inl, inr, true, false, none, List, [], ◌∷◌, arith,
  Bool-cases, is_empty, all, In,
}
use anne_de_breuil.Text.{Text}
use anne_de_breuil.Error.{ok}
use anne_de_breuil.Identity.{
  Evidence, is_port_assignment_only, Confidence, assigned, heuristic, probable, confirmed,
  ServiceCategory, ServiceIdentity, new, above_assigned,
}

-- Evidence that a registry number alone is not.
abbrev pub Observed : Evidence → Type 0
Observed e = is_port_assignment_only e ≡ false

all-not :
    (l : List Evidence)
    → all is_port_assignment_only l ≡ false
    → (e : Evidence) × In e l × Observed e
all-not [] h = cc
all-not (e ∷ l) h = elim (Bool-cases (is_port_assignment_only e)) [
  | inl k ↦ let (x, m, q) = all-not l (ground (arith, h, k)) in (x, inr m, q)
  | inr k ↦ (e, inl refl, k)
]

not-all :
    (e : Evidence) (l : List Evidence) → In e l → Observed e → all is_port_assignment_only l ≡ false
not-all e [] m h = absurd m
not-all e (x ∷ l) m h = ground (arith, not-all e l)

-- What justifies a confidence: some evidence, and more than a port number above the weakest tier.
abbrev pub Justified : Confidence → List Evidence → Type 0
Justified confidence evidence =
    (evidence ≢ []) × ((confidence ≡ assigned) ⊎ ((e : Evidence) × In e evidence × Observed e))

assigned_iff : (c : Confidence) → above_assigned c ≡ false ↔ (c ≡ assigned)
unfolding above_assigned
assigned_iff assigned = ((λ _. refl), (λ _. refl))
assigned_iff heuristic = (cc, cc)
assigned_iff probable = (cc, cc)
assigned_iff confirmed = (cc, cc)

-- The identity that `new` makes: all it was given, without a version.
abbrev pub made : Text → ServiceCategory → Confidence → List Evidence → ServiceIdentity
made name category confidence evidence = record {
  name = name;
  category = category;
  version = none;
  confidence = confidence;
  evidence = evidence;
}

is_empty-nil : (l : List Evidence) → is_empty l ≡ true → l ≡ []
is_empty-nil [] h = refl
is_empty-nil (e ∷ l) h = cc

nil-not : (l : List Evidence) → l ≢ [] → is_empty l ≡ false
nil-not [] h = absurd (h refl)
nil-not (e ∷ l) h = refl

module _ (name : Text) (category : ServiceCategory) (confidence : Confidence)
    (evidence : List Evidence) where
  new-Justified :
      (i : ServiceIdentity)
      → new name category confidence evidence ≡ ok i
      → Justified confidence evidence × (i ≡ made name category confidence evidence)
  unfolding new
  new-Justified i h = elim (Bool-cases (is_empty evidence)) [
    | inl e ↦ absurd (ground (arith, h, e))
    | inr e ↦ elim (Bool-cases (above_assigned confidence)) [
      | inr c ↦ (
        ((λ q. ground (arith, q, e)), inl ((assigned_iff confidence).0 c)),
        ground (arith, h, e, c),
      )
      | inl c ↦ elim (Bool-cases (all is_port_assignment_only evidence)) [
        | inl a ↦ absurd (ground (arith, h, e, c, a))
        | inr a ↦
            (((λ q. ground (arith, q, e)), inr (all-not evidence a)), ground (arith, h, e, c, a))
      ]
    ]
  ]

  Justified-new :
      Justified confidence evidence
      → new name category confidence evidence ≡ ok (made name category confidence evidence)
  unfolding new
  Justified-new h = elim h.1 [
    | inl c ↦ ground (arith, nil-not evidence h.0, (assigned_iff confidence).1 c)
    | inr o ↦ ground (arith, nil-not evidence h.0, not-all o.0 evidence o.1 o.2)
  ]

-- `ServiceIdentity::new` makes an identity exactly if the confidence is justified: there is
-- evidence, and the confidence is the weakest or some of the evidence is more than a port number;
-- the identity is then what was given, without a version.
pub new_iff-Justified :
    (name : Text) (category : ServiceCategory) (confidence : Confidence) (evidence : List Evidence)
    (i : ServiceIdentity)
    → (new name category confidence evidence ≡ ok i)
      ↔ (Justified confidence evidence × (i ≡ made name category confidence evidence))
new_iff-Justified name category confidence evidence i = (
  new-Justified name category confidence evidence i,
  (λ h. Justified-new name category confidence evidence h.0 ∙ ap ok (sym h.1)),
)

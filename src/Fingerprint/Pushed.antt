-- ===== src/Fingerprint/Pushed.antt =====
-- What the loops of a fingerprint push (crates/anne-de-breuil/src/domain/fingerprint.rs).
use anne_de_breuil.Prelude.{
  ◌≡◌, refl, sym, ap, ◌∙◌, subst, ◌⊎◌, inl, inr, Bool, true, List, [], ◌∷◌, ◌++◌, arith, Bool-cases,
  In, ◌≟◌, ≟→eq, ≟_refl,
}
use anne_de_breuil.Prelude.{In-append, In-append_left, In-append_right, any_iff-In, any-In}
use anne_de_breuil.Identity.{Evidence, Evidence-eq}
use anne_de_breuil.Fingerprint.{holds_item, push_unique, push_hits}

holds_item-In : (item : Evidence) (l : List Evidence) → holds_item item l ≡ true → In item l
holds_item-In item l h =
    let (x, m, e) = any_iff-In (λ y. y ≟ item) l h in subst (λ z. In z l) (≟→eq x item e) m

In-holds_item : (item : Evidence) (l : List Evidence) → In item l → holds_item item l ≡ true
In-holds_item item l m = any-In (λ y. y ≟ item) item l m (≟_refl item)

-- No item stands twice.
abbrev pub Distinct : List Evidence → Type 0
Distinct [] = Unit {0}
Distinct (x ∷ l) = (In x l → ⊥) × Distinct l

Distinct-last :
    (x : Evidence) (l : List Evidence) → (In x l → ⊥) → Distinct l → Distinct (l ++ (x ∷ []))
Distinct-last x [] n d = ((λ m. m), tt)
Distinct-last x (y ∷ l) n d = (
  (λ m. elim (In-append y l (x ∷ []) m) [
    | inl k ↦ d.0 k
    | inr k ↦ elim k [ inl e ↦ n (inl (sym e)) | inr z ↦ z ]
  ]),
  Distinct-last x l (λ m. n (inr m)) d.1,
)

push_unique-Distinct : (l : List Evidence) (x : Evidence) → Distinct l → Distinct (push_unique l x)
unfolding push_unique
push_unique-Distinct l x d = elim (Bool-cases (holds_item x l)) [
  | inl e ↦ rw e d
  | inr e ↦ rw e (Distinct-last x l (λ m. let k = In-holds_item x l m in ground (arith, k, e)) d)
]

push_unique-In : (l : List Evidence) (x e : Evidence) → In e (push_unique l x) → In e l ⊎ (e ≡ x)
unfolding push_unique
push_unique-In l x e m = elim (Bool-cases (holds_item x l)) [
  | inl h ↦ inl (subst (λ z. In e z) (ground (arith, h)) m)
  | inr h ↦ elim (In-append e l (x ∷ []) (subst (λ z. In e z) (ground (arith, h)) m)) [
    | inl k ↦ inl k
    | inr k ↦ elim k [ inl q ↦ inr q | inr z ↦ absurd z ]
  ]
]

In-push_unique : (l : List Evidence) (x e : Evidence) → In e l → In e (push_unique l x)
unfolding push_unique
In-push_unique l x e m = elim (Bool-cases (holds_item x l)) [
  | inl h ↦ rw h m
  | inr h ↦ rw h (In-append_left e l (x ∷ []) m)
]

self-push_unique : (l : List Evidence) (x : Evidence) → In x (push_unique l x)
unfolding push_unique
self-push_unique l x = elim (Bool-cases (holds_item x l)) [
  | inl h ↦ rw h (holds_item-In x l h)
  | inr h ↦ rw h (In-append_right x l (x ∷ []) (inl refl))
]

module _ (hit : Evidence → Bool) where
  pub push_hits-Distinct : (l m : List Evidence) → Distinct m → Distinct (push_hits hit l m)
  unfolding push_hits
  push_hits-Distinct [] m d = d
  push_hits-Distinct (x ∷ l) m d = elim (Bool-cases (hit x)) [
    | inl h ↦ rw h (push_hits-Distinct l _ (push_unique-Distinct m x d))
    | inr h ↦ rw h (push_hits-Distinct l m d)
  ]

  pub In-push_hits : (l m : List Evidence) (e : Evidence) → In e m → In e (push_hits hit l m)
  unfolding push_hits
  In-push_hits [] m e k = k
  In-push_hits (x ∷ l) m e k = elim (Bool-cases (hit x)) [
    | inl h ↦ rw h (In-push_hits l _ e (In-push_unique m x e k))
    | inr h ↦ rw h (In-push_hits l m e k)
  ]

  pub hit-push_hits :
      (l m : List Evidence) (e : Evidence) → In e l → hit e ≡ true → In e (push_hits hit l m)
  unfolding push_hits
  hit-push_hits [] m e k h = absurd k
  hit-push_hits (x ∷ l) m e (inl k) h =
      let g : hit x ≡ true = ap hit (sym k) ∙ h in
      rw g (In-push_hits l _ e (subst (λ z. In z (push_unique m x)) (sym k) (self-push_unique m x)))
  hit-push_hits (x ∷ l) m e (inr k) h = hit-push_hits l _ e k h

  pub push_hits-In :
      (l m : List Evidence) (e : Evidence)
      → In e (push_hits hit l m)
      → In e m ⊎ (In e l × (hit e ≡ true))
  unfolding push_hits
  push_hits-In [] m e k = inl k
  push_hits-In (x ∷ l) m e k = elim (push_hits-In l _ e k) [
    | inr q ↦ inr (inr q.0, q.1)
    | inl q ↦ elim (Bool-cases (hit x)) [
      | inl h ↦ elim (push_unique-In m x e (subst (λ z. In e z) (ground (arith, h)) q)) [
        | inl y ↦ inl y
        | inr y ↦ inr (inl y, ap hit y ∙ h)
      ]
      | inr h ↦ inl (subst (λ z. In e z) (ground (arith, h)) q)
    ]
  ]

-- ===== src/Drift/Lookup.antt =====
-- The maps of `diff`, and the lists of entries that its loops push
-- (crates/anne-de-breuil/src/domain/drift.rs).
use anne_de_breuil.Prelude.{
  In-append_right, In-append, In-append_left, ne→≟, ◌≡◌, refl, subst, ◌≢◌, inl, inr, none, some,
  List, [], ◌∷◌, ◌++◌, arith, In, ≟_refl,
}
use anne_de_breuil.Drift.{EndpointKey, EndpointKey-eq, key_of, get, each, DriftEntry}
use anne_de_breuil.Endpoint.{Endpoint}

-- No endpoint of the list has the key.
abbrev pub Absent : EndpointKey → List Endpoint → Type 0
Absent key l = (e : Endpoint) → In e l → key_of e ≢ key

pub Absent→get : (key : EndpointKey) (l : List Endpoint) → Absent key l → get l key ≡ none
unfolding get
Absent→get key [] h = refl
Absent→get key (e ∷ l) h =
    ground (arith, Absent→get key l (λ x m. h x (inr m)), ne→≟ (key_of e) key (h e (inl refl)))

pub get→Absent : (key : EndpointKey) (l : List Endpoint) → get l key ≡ none → Absent key l
unfolding get
get→Absent key [] h x m = absurd m
get→Absent key (e ∷ l) h x (inl m) = rw m (ground arith)
get→Absent key (e ∷ l) h x (inr m) = get→Absent key l (ground arith) x m

-- What a lookup finds is in the list, under the key.
pub get-In :
    (key : EndpointKey) (l : List Endpoint) (x : Endpoint)
    → get l key ≡ some x
    → In x l × (key_of x ≡ key)
unfolding get
get-In key [] x h = cc
get-In key (e ∷ l) x h = ground (arith, get-In key l x)

-- What a lookup finds is the last endpoint with the key.
pub get-last :
    (before : List Endpoint) (x : Endpoint) (after : List Endpoint)
    → Absent (key_of x) after
    → get (before ++ x ∷ after) (key_of x) ≡ some x
unfolding get
get-last [] x after h = ground (arith, Absent→get (key_of x) after h, ≟_refl (key_of x))
get-last (y ∷ before) x after h = rw (get-last before x after h) refl

-- Two endpoints of the list never share a key.
abbrev pub DistinctKeys : List Endpoint → Type 0
DistinctKeys [] = Unit {0}
DistinctKeys (e ∷ l) = Absent (key_of e) l × DistinctKeys l

pub get_self :
    (l : List Endpoint) (e : Endpoint) → DistinctKeys l → In e l → get l (key_of e) ≡ some e
unfolding get
get_self [] e d m = absurd m
get_self (x ∷ l) e d (inl m) = rw m (ground (arith, Absent→get (key_of x) l d.0, ≟_refl (key_of x)))
get_self (x ∷ l) e d (inr m) = ground (arith, get_self l e d.1 m)

module _ (f : Endpoint → List DriftEntry) where
  pub each_nil : (l : List Endpoint) → ((e : Endpoint) → In e l → f e ≡ []) → each f l ≡ []
  each_nil [] h = refl
  each_nil (e ∷ l) h = rw (h e (inl refl), each_nil l (λ x m. h x (inr m)))

  pub In-each :
      (x : DriftEntry) (e : Endpoint) (l : List Endpoint) → In e l → In x (f e) → In x (each f l)
  In-each x e [] m k = absurd m
  In-each x e (y ∷ l) (inl m) k = In-append_left x (f y) _ (subst (λ z. In x (f z)) m k)
  In-each x e (y ∷ l) (inr m) k = In-append_right x (f y) _ (In-each x e l m k)

  pub each-In :
      (x : DriftEntry) (l : List Endpoint) → In x (each f l) → (e : Endpoint) × In e l × In x (f e)
  each-In x [] m = absurd m
  each-In x (y ∷ l) m = elim (In-append x (f y) (each f l) m) [
    | inl k ↦ (y, inl refl, k)
    | inr k ↦ let (e, i, j) = each-In x l k in (e, inr i, j)
  ]

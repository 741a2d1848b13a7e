-- ===== src/Identity/Registry/Rows.antt =====
-- Which row of the registry names a port (crates/anne-de-breuil/src/domain/port_registry.rs).
use anne_de_breuil.Prelude.{
  ◌>>=◌, ℕ, ◌≡◌, refl, ◌↔◌, ◌⊎◌, inl, inr, ◌&&◌, Option, none, some, List, [], ◌∷◌, map, arith,
  ◌==◌, Bool-cases, All, ◌≟◌, ≟→eq, ≟_refl,
}
use anne_de_breuil.Text.{Text}
use anne_de_breuil.Text.Lines.{lines}
use anne_de_breuil.Identity.{ServiceIdentity, new, port_assignment, other, assigned}
use anne_de_breuil.Identity.Believed.{made}
use anne_de_breuil.Identity.Registry.{
  RegistryEntry, Registry, row_of, insert_row, insert_rows, build_registry, get_entry,
  identity_for_port, identity_of_entry,
}
use anne_de_breuil.Firewall.{Protocol, Protocol-eq}
use anne_de_breuil.Port.{Port}
use anne_de_breuil.Prelude.{≟→ne}

-- A row that is not about the port, if there is one at all.
abbrev IsSilent : ℕ → Protocol → Option (ℕ × Protocol × RegistryEntry) → Type 0
IsSilent port protocol none = Unit {0}
IsSilent port protocol (some row) = row.0 ≡ port → row.1 ≡ protocol → ⊥

abbrev AllSilent : ℕ → Protocol → List Text → Type 0
AllSilent port protocol l = All (λ line. IsSilent port protocol (row_of line)) l

-- The last of the lines that says anything of the port gives it this entry.
abbrev pub LastRow : ℕ → Protocol → RegistryEntry → List Text → Type 0
LastRow port protocol entry [] = ⊥
LastRow port protocol entry (line ∷ l) =
    LastRow port protocol entry l
    ⊎ ((row_of line ≡ some (port, protocol, entry)) × AllSilent port protocol l)

module _ (port : ℕ) (protocol : Protocol) (entry : RegistryEntry) where
  insert_row-get_entry :
      (o : Option (ℕ × Protocol × RegistryEntry)) (map : Registry)
      → get_entry (insert_row o map) port protocol ≡ some entry
      → (o ≡ some (port, protocol, entry))
        ⊎ (IsSilent port protocol o × (get_entry map port protocol ≡ some entry))
  unfolding get_entry insert_row
  insert_row-get_entry none map h = inr (tt, h)
  insert_row-get_entry (some (p, q, e)) map h = elim (Bool-cases (p == port)) [
    | inl a ↦ elim (Bool-cases (q ≟ protocol)) [
      | inl b ↦
          let i : p ≡ port = ground (arith, a) in
          let j = ≟→eq q protocol b in
          let k : e ≡ entry = ground (arith, h, a, b) in inl (rw (i, j, k))
      | inr b ↦ inr ((λ _ k. ≟→ne q protocol b k), ground (arith, h, a, b))
    ]
    | inr a ↦ inr ((λ k _. ground (arith, k, a)), ground (arith, h, a))
  ]

  insert_row-here :
      (map : Registry)
      → get_entry (insert_row (some (port, protocol, entry)) map) port protocol ≡ some entry
  unfolding get_entry insert_row
  insert_row-here map = ground (arith, ≟_refl protocol)

  insert_row-silent :
      (o : Option (ℕ × Protocol × RegistryEntry)) (map : Registry)
      → IsSilent port protocol o
      → get_entry map port protocol ≡ some entry
      → get_entry (insert_row o map) port protocol ≡ some entry
  unfolding get_entry insert_row
  insert_row-silent none map s h = h
  insert_row-silent (some (p, q, e)) map s h = elim (Bool-cases (p == port && q ≟ protocol)) [
    | inr a ↦ ground (arith, h, a)
    | inl a ↦ absurd (s (ground (arith, a)) (≟→eq q protocol (ground (arith, a))))
  ]

  insert_rows-LastRow :
      (l : List Text) (map : Registry)
      → get_entry (insert_rows l map) port protocol ≡ some entry
      → LastRow port protocol entry l
        ⊎ (AllSilent port protocol l × (get_entry map port protocol ≡ some entry))
  unfolding insert_rows
  insert_rows-LastRow [] map h = inr (tt, h)
  insert_rows-LastRow (line ∷ l) map h = elim (insert_rows-LastRow l _ h) [
    | inl k ↦ inl (inl k)
    | inr k ↦ elim (insert_row-get_entry (row_of line) map k.1) [
      | inl e ↦ inl (inr (e, k.0))
      | inr q ↦ inr ((q.0, k.0), q.1)
    ]
  ]

  AllSilent-insert_rows :
      (l : List Text) (map : Registry)
      → AllSilent port protocol l
      → get_entry map port protocol ≡ some entry
      → get_entry (insert_rows l map) port protocol ≡ some entry
  unfolding insert_rows
  AllSilent-insert_rows [] map s h = h
  AllSilent-insert_rows (line ∷ l) map s h =
      AllSilent-insert_rows l _ s.1 (insert_row-silent (row_of line) map s.0 h)

  LastRow-insert_rows :
      (l : List Text) (map : Registry)
      → LastRow port protocol entry l
      → get_entry (insert_rows l map) port protocol ≡ some entry
  unfolding insert_rows
  LastRow-insert_rows [] map h = absurd h
  LastRow-insert_rows (line ∷ l) map (inl h) = LastRow-insert_rows l _ h
  LastRow-insert_rows (line ∷ l) map (inr h) =
      AllSilent-insert_rows l _ h.1 (rw h.0 (insert_row-here map))

-- What a registry's entry makes of a get_entry.
entry-identity :
    (o : Option RegistryEntry) (i : ServiceIdentity)
    → (o >>= identity_of_entry) ≡ some i
    → (entry : RegistryEntry) × (o ≡ some entry)
      × (i ≡ made entry.name other assigned (port_assignment entry.name ∷ []))
unfolding identity_of_entry new
entry-identity none i h = cc
entry-identity (some entry) i h = (entry, refl, ground (arith, h))

-- `identity_for_port` identifies a port exactly by the last line of the registry that is about it:
-- at the weakest confidence, on the evidence of the port's number alone.
pub identity_for_port_iff-LastRow :
    (raw : Text) (port : Port) (protocol : Protocol) (i : ServiceIdentity)
    → (identity_for_port raw port protocol ≡ some i) ↔ (
        (entry : RegistryEntry) × LastRow port.get protocol entry (lines raw)
        × (i ≡ made entry.name other assigned (port_assignment entry.name ∷ [])))
unfolding identity_for_port build_registry identity_of_entry new
identity_for_port_iff-LastRow raw port protocol i =
    let found = get_entry (insert_rows (lines raw) []) port.get protocol in
    (
      (λ h.
          let (entry, e, k) = entry-identity found i h in
          elim (insert_rows-LastRow port.get protocol entry (lines raw) [] e) [
            | inl last ↦ (entry, last, k)
            | inr none_left ↦ absurd (unfold get_entry in (ground (arith, none_left.1)))
          ]),
      (λ h. rw (LastRow-insert_rows port.get protocol h.0 (lines raw) [] h.1, h.2)),
    )

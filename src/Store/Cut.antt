-- ===== src/Store/Cut.antt =====
-- A put that is cut off (crates/anne-de-breuil/src/adapters/snapshot_store/fs.rs).
use anne_de_breuil.Prelude.{
  ℕ, zero, suc, ◌≡◌, refl, sym, ap, ◌∙◌, subst, ◌⊎◌, inl, inr, Bool, true, false, Option, none,
  some, List, [], ◌∷◌, ◌++◌, Option-cases, take, All,
}
use anne_de_breuil.Bytes.{Bytes}
use anne_de_breuil.Text.{Text}
use anne_de_breuil.Snapshot.{ScanSnapshot}
use anne_de_breuil.Prelude.{All-append}
use anne_de_breuil.Store.{
  IdempotencyKey, IndexEntry, entries, Content, Disk, StoreError, read_index, content, Write,
  write_content, write_index, apply, apply_all, by_key, entry_for_put, content_writes, put_with,
  put_found, put_plan, writes_of, put_cut,
}
use anne_de_breuil.Store.Kept.{
  WellFormed, Named, Stored, content_writes-cases, content_self, Stored-grow, IndexKept-grow,
  index-Stored,
}

module _ {Time : Type 0} (encode : ScanSnapshot Time → Bytes)
    (decode : Bytes → Option (ScanSnapshot Time)) (hash : Bytes → Text) where
  -- The index with a new entry, next to contents that hold it.
  index_written :
      (cs : List Content) (key : IdempotencyKey) (s : ScanSnapshot Time) (l : List IndexEntry)
      → decode (encode s) ≡ some s
      → Named encode decode hash cs
      → content cs (hash (encode s)) ≡ some (encode s)
      → All (Stored encode decode hash cs) l
      → WellFormed encode decode hash
          (record { index = entries (l ++ (entry_for_put encode hash key s ∷ [])); contents = cs })
  index_written cs key s l codec w c k =
      (w, All-append (Stored encode decode hash cs) l _ k ((encode s, c, s, codec, refl, refl), tt))

  module _ (disk : Disk) (key : IdempotencyKey) (s : ScanSnapshot Time) (l : List IndexEntry) where
    abbrev pub last_write : List Write
    last_write = write_index (l ++ (entry_for_put encode hash key s ∷ [])) ∷ []

    cut_there :
        (n : ℕ)
        → decode (encode s) ≡ some s
        → WellFormed encode decode hash disk
        → All (Stored encode decode hash disk.contents) l
        → content disk.contents (hash (encode s)) ≡ some (encode s)
        → WellFormed encode decode hash (apply_all disk (take n last_write))
    unfolding apply_all apply
    cut_there zero codec w k c = w
    cut_there (suc zero) codec w k c = index_written disk.contents key s l codec w.0 c k
    cut_there (suc (suc n)) codec w k c = index_written disk.contents key s l codec w.0 c k

    cut_missing :
        (n : ℕ)
        → decode (encode s) ≡ some s
        → WellFormed encode decode hash disk
        → All (Stored encode decode hash disk.contents) l
        → content disk.contents (hash (encode s)) ≡ none
        → WellFormed encode decode hash
            (apply_all disk (take n (write_content (hash (encode s)) (encode s) ∷ last_write)))
    unfolding apply_all apply
    cut_missing zero codec w k c = w
    cut_missing (suc zero) codec w k c = (
      (refl, w.0),
      IndexKept-grow encode decode hash disk.contents (hash (encode s)) (encode s) disk.index c w.1,
    )
    cut_missing (suc (suc zero)) codec w k c =
        index_written _ key s l codec (refl, w.0)
          (content_self encode decode hash disk.contents (hash (encode s)) (encode s))
          (Stored-grow encode decode hash disk.contents (hash (encode s)) (encode s) l c k)
    cut_missing (suc (suc (suc n))) codec w k c =
        index_written _ key s l codec (refl, w.0)
          (content_self encode decode hash disk.contents (hash (encode s)) (encode s))
          (Stored-grow encode decode hash disk.contents (hash (encode s)) (encode s) l c k)

    -- A new snapshot's writes, cut off anywhere, leave a directory that is well formed.
    new_cut :
        (n : ℕ)
        → ((a b : Bytes) → hash a ≡ hash b → a ≡ b)
        → decode (encode s) ≡ some s
        → WellFormed encode decode hash disk
        → All (Stored encode decode hash disk.contents) l
        → WellFormed encode decode hash
            (apply_all disk (take n (content_writes encode hash disk s ++ last_write)))
    unfolding apply_all apply
    new_cut n inj codec w k = elim (content_writes-cases encode decode hash disk s inj w.0) [
      | inl c ↦
          subst (λ ws. WellFormed encode decode hash (apply_all disk (take n (ws ++ last_write))))
            (sym c.0) (cut_there n codec w k c.1)
      | inr c ↦
          subst (λ ws. WellFormed encode decode hash (apply_all disk (take n (ws ++ last_write))))
            (sym c.0) (cut_missing n codec w k c.1)
    ]

  pub result-cases :
      {A : Type 0} (o : StoreError ⊎ A) → ((e : StoreError) × (o ≡ inl e)) ⊎ ((a : A) × (o ≡ inr a))
  result-cases (inl e) = inl (e, refl)
  result-cases (inr a) = inr (a, refl)

  -- A put writes nothing, or it writes a new snapshot next to the index as it was.
  pub writes_of-cases :
      (is_locked : Bool) (disk : Disk) (key : IdempotencyKey) (s : ScanSnapshot Time)
      → (writes_of encode hash (put_plan encode hash is_locked disk key s) ≡ [])
        ⊎ ((l : List IndexEntry) × (read_index disk ≡ inr l)
            × (by_key key l ≡ none)
            × (put_plan encode hash is_locked disk key s
                ≡ inr (s.scan_id, content_writes encode hash disk s ++ last_write disk key s l)))
  unfolding put_plan put_with put_found
  writes_of-cases true disk key s = inl refl
  writes_of-cases false disk key s = elim (result-cases (read_index disk)) [
    | inl (e, q) ↦ inl (ap (λ o. writes_of encode hash (put_with encode hash disk key s o)) q)
    | inr (l, q) ↦ elim (Option-cases (by_key key l)) [
      | inl n ↦ inr (
        l,
        q,
        n,
        ap (put_with encode hash disk key s) q
            ∙ ap (λ o. inr (put_found encode hash disk key s l o)) n,
      )
      | inr (x, f) ↦ inl (
          ap (λ o. writes_of encode hash (put_with encode hash disk key s o)) q
          ∙ ap (λ o. (put_found encode hash disk key s l o).1) f)
    ]
  ]

  uncut :
      (n : ℕ) (disk : Disk)
      → WellFormed encode decode hash disk
      → WellFormed encode decode hash (apply_all disk (take n []))
  unfolding apply_all
  uncut zero disk w = w
  uncut (suc n) disk w = w

  -- Wherever a `put` is cut off, if no two contents have one hash and the snapshot survives its
  -- encoding, a well-formed store stays well formed: every content file is named by its hash, and
  -- every entry of the index has a content that decodes to a snapshot under the entry's ids.
  pub put_cut-WellFormed :
      (n : ℕ) (is_locked : Bool) (disk : Disk) (key : IdempotencyKey) (s : ScanSnapshot Time)
      → ((a b : Bytes) → hash a ≡ hash b → a ≡ b)
      → decode (encode s) ≡ some s
      → WellFormed encode decode hash disk
      → WellFormed encode decode hash (put_cut encode hash n is_locked disk key s)
  unfolding put_cut read_index apply_all
  put_cut-WellFormed n is_locked disk key s inj codec w =
      elim (writes_of-cases is_locked disk key s) [
        | inl q ↦
            subst (λ ws. WellFormed encode decode hash (apply_all disk (take n ws))) (sym q)
              (uncut n disk w)
        | inr (l, q, _, p) ↦
            subst
              (λ o.
                WellFormed encode decode hash (apply_all disk (take n (writes_of encode hash o))))
              (sym p)
              (new_cut disk key s l n inj codec w
                (index-Stored encode decode hash disk.contents disk.index l q w.1))
      ]

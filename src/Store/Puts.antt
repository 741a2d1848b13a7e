-- ===== src/Store/Puts.antt =====
-- What a store gives back (crates/anne-de-breuil/src/adapters/snapshot_store/fs.rs).
use anne_de_breuil.Prelude.{
  subst, sym, arith, ◌==◌, ==_refl, find?-append, ◌≡◌, refl, ap, ◌∙◌, ◌⊎◌, inl, inr, false, Option,
  none, some, List, [], ◌∷◌, ◌++◌, Option-cases,
}
use anne_de_breuil.Bytes.{Bytes}
use anne_de_breuil.Text.{Text}
use anne_de_breuil.Snapshot.{ScanId, ScanSnapshot}
use anne_de_breuil.Store.{
  missing, put_result, writes_of, put, by_key, entry_for_put, content, content_writes,
  IdempotencyKey, IndexEntry, Disk, StoreError, parse_index, read_index, Write, write_content,
  write_index, apply, apply_all, by_key, content_writes, put_with, put_found, put_plan,
}
use anne_de_breuil.Store.Cut.{last_write, result-cases}

module _ {Time : Type 0} (encode : ScanSnapshot Time → Bytes)
    (decode : Bytes → Option (ScanSnapshot Time)) (hash : Bytes → Text) where
  -- A put that is not locked out fails at the index, finds the key, or writes a new entry.
  put_plan-cases :
      (disk : Disk) (key : IdempotencyKey) (s : ScanSnapshot Time)
      → ((e : StoreError) × (put_plan encode hash false disk key s ≡ inl e))
        ⊎ ((l : List IndexEntry) × (read_index disk ≡ inr l)
            × (((x : IndexEntry) × (by_key key l ≡ some x)
                  × (put_plan encode hash false disk key s ≡ inr (x.scan_id, [])))
                ⊎ ((by_key key l ≡ none)
                    × (put_plan encode hash false disk key s
                        ≡ inr (
                          s.scan_id,
                          content_writes encode hash disk s
                              ++ last_write encode decode hash disk key s l,
                        )))))
  unfolding put_plan put_with put_found
  put_plan-cases disk key s = elim (result-cases encode decode hash (read_index disk)) [
    | inl (e, q) ↦ inl (e, ap (put_with encode hash disk key s) q)
    | inr (l, q) ↦ elim (Option-cases (by_key key l)) [
      | inl n ↦ inr (
        l,
        q,
        inr (
          n,
          ap (put_with encode hash disk key s) q
              ∙ ap (λ o. inr (put_found encode hash disk key s l o)) n,
        ),
      )
      | inr (x, f) ↦ inr (
        l,
        q,
        inl (
          x,
          f,
          ap (put_with encode hash disk key s) q
              ∙ ap (λ o. inr (put_found encode hash disk key s l o)) f,
        ),
      )
    ]
  ]

  -- The disk after the writes of a new entry.
  pub new_disk :
      (disk : Disk) (ws : List Write) (l : List IndexEntry)
      → (ws ≡ []) ⊎ ((name : Text) × (b : Bytes) × (ws ≡ write_content name b ∷ []))
      → read_index (apply_all disk (ws ++ (write_index l ∷ []))) ≡ inr l
  unfolding apply_all apply read_index parse_index
  new_disk disk ws l h = elim h [ inl e ↦ rw e refl | inr (name, b, e) ↦ rw e refl ]

  pub content_writes-shape :
      (disk : Disk) (s : ScanSnapshot Time)
      → (content_writes encode hash disk s ≡ [])
        ⊎ ((name : Text) × (b : Bytes) × (content_writes encode hash disk s
              ≡ write_content name b ∷ []))
  unfolding content_writes missing
  content_writes-shape disk s = elim (Option-cases (content disk.contents (hash (encode s)))) [
    | inl n ↦ inr (hash (encode s), encode s, ap (λ o. missing o (hash (encode s)) (encode s)) n)
    | inr (b, e) ↦ inl (ap (λ o. missing o (hash (encode s)) (encode s)) e)
  ]

  -- Under a key that the index has, nothing is written.
  found-put :
      (disk : Disk) (key : IdempotencyKey) (s : ScanSnapshot Time) (l : List IndexEntry)
      (x : IndexEntry)
      → read_index disk ≡ inr l
      → by_key key l ≡ some x
      → put encode hash false disk key s ≡ (inr x.scan_id, disk)
  unfolding put put_plan put_with put_found apply_all
  found-put disk key s l x q f =
      let plan : put_plan encode hash false disk key s ≡ inr (x.scan_id, []) =
        ap (put_with encode hash disk key s) q
        ∙ ap (λ o. inr (put_found encode hash disk key s l o)) f in
      ap (λ o. (put_result encode hash o, apply_all disk (writes_of encode hash o))) plan

  -- What a put of a new key comes to.
  pub new-put :
      (disk : Disk) (key : IdempotencyKey) (s : ScanSnapshot Time) (l : List IndexEntry)
      → read_index disk ≡ inr l
      → by_key key l ≡ none
      → put encode hash false disk key s ≡ (
        inr s.scan_id,
        apply_all disk
            (content_writes encode hash disk s ++ last_write encode decode hash disk key s l),
      )
  unfolding put put_plan put_with put_found
  new-put disk key s l q n =
      let plan : put_plan encode hash false disk key s
          ≡ inr (
            s.scan_id,
            content_writes encode hash disk s ++ last_write encode decode hash disk key s l,
          ) =
        ap (put_with encode hash disk key s) q
        ∙ ap (λ o. inr (put_found encode hash disk key s l o)) n in
      ap (λ o. (put_result encode hash o, apply_all disk (writes_of encode hash o))) plan

  -- The key of a new entry is found.
  by_key_last :
      (key : IdempotencyKey) (s : ScanSnapshot Time) (l : List IndexEntry)
      → by_key key l ≡ none
      → by_key key (l ++ (entry_for_put encode hash key s ∷ []))
        ≡ some (entry_for_put encode hash key s)
  unfolding by_key
  by_key_last key s l n =
      find?-append (λ (e : IndexEntry). e.idempotency_key.as_uuid == key.as_uuid) l _ n
      ∙ ground (arith, ==_refl key.as_uuid)

  right_inr : {a b : ScanId} → ◌≡◌ {A = StoreError ⊎ ScanId} (inr a) (inr b) → a ≡ b
  right_inr h = cc

  failed_put :
      (disk : Disk) (key : IdempotencyKey) (s : ScanSnapshot Time) (e : StoreError) (id : ScanId)
      → put_plan encode hash false disk key s ≡ inl e
      → (put encode hash false disk key s).0 ≡ inr id
      → ⊥
  unfolding put
  failed_put disk key s e id p h = let k = sym (ap (put_result encode hash) p) ∙ h in cc

  -- The key of a put that worked is in the index, under the id that was returned.
  Settled : Disk → IdempotencyKey → ScanId → Type 0
  Settled disk key id =
      (l : List IndexEntry) × (x : IndexEntry) × (read_index disk ≡ inr l)
      × (by_key key l ≡ some x)
      × (x.scan_id ≡ id)

  put-Settled :
      (disk : Disk) (key : IdempotencyKey) (s : ScanSnapshot Time) (id : ScanId)
      → (put encode hash false disk key s).0 ≡ inr id
      → (d : Disk) × (put encode hash false disk key s ≡ (inr id, d)) × Settled d key id
  unfolding Settled
  put-Settled disk key s id h = elim (put_plan-cases disk key s) [
    | inl (e, p) ↦ absurd (failed_put disk key s e id p h)
    | inr (l, q, inl (x, f, p)) ↦
        let r = found-put disk key s l x q f in
        let i : x.scan_id ≡ id = right_inr (sym (ap (λ o. o.0) r) ∙ h) in
        (disk, r ∙ ap (λ z. (inr z, disk)) i, (l, x, q, f, i))
    | inr (l, q, inr (n, p)) ↦
        let r = new-put disk key s l q n in
        let i : s.scan_id ≡ id = right_inr (sym (ap (λ o. o.0) r) ∙ h) in
        let d =
          apply_all disk
            (content_writes encode hash disk s ++ last_write encode decode hash disk key s l) in
        let m = l ++ (entry_for_put encode hash key s ∷ []) in
        let read =
          new_disk disk (content_writes encode hash disk s) m (content_writes-shape disk s) in
        (
          d,
          r ∙ ap (λ z. (inr z, d)) i,
          (m, entry_for_put encode hash key s, read, by_key_last key s l n, i),
        )
  ]

  -- Once a `put` has returned an id, a `put` under the same key returns that id and leaves the
  -- store as it is, whatever snapshot it is given.
  pub put-put :
      (disk : Disk) (key : IdempotencyKey) (s t : ScanSnapshot Time) (id : ScanId)
      → (put encode hash false disk key s).0 ≡ inr id
      → put encode hash false (put encode hash false disk key s).1 key t
        ≡ (inr id, (put encode hash false disk key s).1)
  unfolding Settled
  put-put disk key s t id h =
      let (d, e, (l, x, q, f, i)) = put-Settled disk key s id h in
      subst (λ p. put encode hash false p.1 key t ≡ (inr id, p.1)) (sym e)
        (found-put d key t l x q f ∙ ap (λ z. (inr z, d)) i)

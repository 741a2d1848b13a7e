-- ===== src/Store/Gets.antt =====
-- A snapshot put into a store and got back
-- (crates/anne-de-breuil/src/adapters/snapshot_store/fs.rs).
use anne_de_breuil.Prelude.{
  ◌≡◌, sym, ap, ◌∙◌, subst, ◌⊎◌, inl, inr, false, Option, none, some, List, [], ◌∷◌, ◌++◌, arith,
  ◌==◌, ==_refl,
}
use anne_de_breuil.Bytes.{Bytes}
use anne_de_breuil.Text.{Text}
use anne_de_breuil.Snapshot.{ScanSnapshot, ScanId}
use anne_de_breuil.Prelude.{find?-append, ◌==◌, ==_refl}
use anne_de_breuil.Store.{
  IdempotencyKey, IndexEntry, Disk, StoreError, read_index, content, write_index, apply, apply_all,
  by_key, by_scan, entry_for_put, content_writes, put, fetch, decoded, decoded_content, get_scan,
  get_with,
}
use anne_de_breuil.Store.Kept.{WellFormed, Named, content_writes-cases, content_self}
use anne_de_breuil.Store.Cut.{last_write}
use anne_de_breuil.Store.Puts.{new_disk, content_writes-shape, new-put}

module _ {Time : Type 0} (encode : ScanSnapshot Time → Bytes)
    (decode : Bytes → Option (ScanSnapshot Time)) (hash : Bytes → Text) where
  by_scan_last :
      (key : IdempotencyKey) (s : ScanSnapshot Time) (l : List IndexEntry)
      → by_scan s.scan_id l ≡ none
      → by_scan s.scan_id (l ++ (entry_for_put encode hash key s ∷ []))
        ≡ some (entry_for_put encode hash key s)
  unfolding by_scan
  by_scan_last key s l n =
      find?-append (λ (e : IndexEntry). e.scan_id.as_uuid == s.scan_id.as_uuid) l _ n
      ∙ ground (arith, ==_refl s.scan_id.as_uuid)

  -- The content of a new entry is there after its writes.
  new_content :
      (disk : Disk) (key : IdempotencyKey) (s : ScanSnapshot Time) (l : List IndexEntry)
      → ((a b : Bytes) → hash a ≡ hash b → a ≡ b)
      → Named encode decode hash disk.contents
      → content
          (apply_all disk (content_writes encode hash disk s ++ (write_index l ∷ []))).contents
          (hash (encode s))
        ≡ some (encode s)
  unfolding apply_all apply
  new_content disk key s l inj w = elim (content_writes-cases encode decode hash disk s inj w) [
    | inl c ↦
        subst
          (λ ws.
            content (apply_all disk (ws ++ (write_index l ∷ []))).contents (hash (encode s))
            ≡ some (encode s))
          (sym c.0) c.1
    | inr c ↦
        subst
          (λ ws.
            content (apply_all disk (ws ++ (write_index l ∷ []))).contents (hash (encode s))
            ≡ some (encode s))
          (sym c.0) (content_self encode decode hash disk.contents (hash (encode s)) (encode s))
  ]

  -- What a store gives back under an id of its index.
  get_scan-entry :
      (disk : Disk) (e : IndexEntry) (l : List IndexEntry) (b : Bytes) (s : ScanSnapshot Time)
      → read_index disk ≡ inr l
      → by_scan e.scan_id l ≡ some e
      → content disk.contents e.content_hash ≡ some b
      → decode b ≡ some s
      → get_scan decode disk e.scan_id ≡ inr (some s)
  unfolding get_scan get_with fetch decoded_content decoded
  get_scan-entry disk e l b s q f c d =
      ap (get_with decode disk e.scan_id) q
      ∙ (ap (fetch decode disk) f
          ∙ (ap (decoded_content decode e.content_hash) c ∙ ap (decoded decode) d))

  -- If no two contents have one hash and the snapshot survives its encoding, a snapshot that is put
  -- into a well-formed store, whose index can be read and has neither its key nor its id, is what
  -- `get` gives back under its id.
  pub get_scan-put :
      (disk : Disk) (key : IdempotencyKey) (s : ScanSnapshot Time) (l : List IndexEntry)
      → ((a b : Bytes) → hash a ≡ hash b → a ≡ b)
      → decode (encode s) ≡ some s
      → WellFormed encode decode hash disk
      → read_index disk ≡ inr l
      → by_key key l ≡ none
      → by_scan s.scan_id l ≡ none
      → get_scan decode (put encode hash false disk key s).1 s.scan_id ≡ inr (some s)
  get_scan-put disk key s l inj codec w q n m =
      let r = new-put encode decode hash disk key s l q n in
      let e = entry_for_put encode hash key s in
      let d =
        apply_all disk
          (content_writes encode hash disk s ++ last_write encode decode hash disk key s l) in
      let read =
        new_disk encode decode hash disk (content_writes encode hash disk s) (l ++ (e ∷ []))
          (content_writes-shape encode decode hash disk s) in
      subst (λ (p : (StoreError ⊎ ScanId) × Disk). get_scan decode p.1 s.scan_id ≡ inr (some s))
        (sym r)
        (get_scan-entry d e (l ++ (e ∷ [])) (encode s) s read (by_scan_last key s l m)
          (new_content disk key s (l ++ (e ∷ [])) inj w.0) codec)

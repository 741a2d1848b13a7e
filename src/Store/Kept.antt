-- ===== src/Store/Kept.antt =====
-- What a store's directory keeps, also when a write is cut off
-- (crates/anne-de-breuil/src/adapters/snapshot_store/fs.rs).
use anne_de_breuil.Prelude.{
  ◌≡◌, sym, ap, ◌∙◌, subst, ◌⊎◌, inl, inr, Option, none, some, List, [], ◌∷◌, arith, Bool-cases,
  Option-cases, All,
}
use anne_de_breuil.Bytes.{Bytes}
use anne_de_breuil.Text.{Text, text_eq, text_eq→eq, text_eq_refl}
use anne_de_breuil.Snapshot.{ScanSnapshot}
use anne_de_breuil.Store.{
  missing, parse_index, IndexEntry, IndexFile, absent, garbled, entries, Content, Disk, content,
  write_content, content_writes,
}

module _ {Time : Type 0} (encode : ScanSnapshot Time → Bytes)
    (decode : Bytes → Option (ScanSnapshot Time)) (hash : Bytes → Text) where
  -- The content of an entry is there, and is a snapshot under the entry's ids.
  abbrev pub Stored : List Content → IndexEntry → Type 0
  Stored contents e =
      (bytes : Bytes) × (content contents e.content_hash ≡ some bytes)
      × (s : ScanSnapshot Time) × (decode bytes ≡ some s)
      × (s.scan_id ≡ e.scan_id)
      × (s.host_id ≡ e.host_id)

  abbrev pub Named : List Content → Type 0
  Named contents = All (λ f. hash f.bytes ≡ f.content_hash) contents

  abbrev pub IndexKept : List Content → IndexFile → Type 0
  IndexKept contents absent = Unit {0}
  IndexKept contents (garbled why) = Unit {0}
  IndexKept contents (entries l) = All (Stored contents) l

  -- Every content file is named by its hash, and every entry of the index is stored.
  abbrev pub WellFormed : Disk → Type 0
  WellFormed disk = Named disk.contents × IndexKept disk.contents disk.index

  content-Named :
      (cs : List Content) (name : Text) (b : Bytes)
      → Named cs
      → content cs name ≡ some b
      → hash b ≡ name
  unfolding content
  content-Named [] name b h k = cc
  content-Named (f ∷ cs) name b h k = elim (Bool-cases (text_eq f.content_hash name)) [
    | inl e ↦
        let i : f.bytes ≡ b = ground (arith, k, e) in
        ap hash (sym i) ∙ (h.0 ∙ text_eq→eq f.content_hash name e)
    | inr e ↦ content-Named cs name b h.1 (ground (arith, k, e))
  ]

  pub content_self :
      (cs : List Content) (name : Text) (b : Bytes)
      → content (record { content_hash = name; bytes = b } ∷ cs) name ≡ some b
  unfolding content
  content_self cs name b = ground (arith, text_eq_refl name)

  -- A new file hides none that is there.
  content_grow :
      (cs : List Content) (new_name name : Text) (new b : Bytes)
      → content cs new_name ≡ none
      → content cs name ≡ some b
      → content (record { content_hash = new_name; bytes = new } ∷ cs) name ≡ some b
  unfolding content
  content_grow cs new_name name new b n k = elim (Bool-cases (text_eq new_name name)) [
    | inl e ↦
        let q = text_eq→eq new_name name e in
        let w = sym n ∙ (ap (content cs) q ∙ k) in absurd (ground (arith, w))
    | inr e ↦ ground (arith, k, e)
  ]

  pub Stored-grow :
      (cs : List Content) (new_name : Text) (new : Bytes) (l : List IndexEntry)
      → content cs new_name ≡ none
      → All (Stored cs) l
      → All (Stored (record { content_hash = new_name; bytes = new } ∷ cs)) l
  Stored-grow cs new_name new [] n h = tt
  Stored-grow cs new_name new (e ∷ l) n ((b, c, s, d, x, y), h) = (
    (b, content_grow cs new_name e.content_hash new b n c, s, d, x, y),
    Stored-grow cs new_name new l n h,
  )

  pub IndexKept-grow :
      (cs : List Content) (new_name : Text) (new : Bytes) (i : IndexFile)
      → content cs new_name ≡ none
      → IndexKept cs i
      → IndexKept (record { content_hash = new_name; bytes = new } ∷ cs) i
  IndexKept-grow cs new_name new absent n h = tt
  IndexKept-grow cs new_name new (garbled why) n h = tt
  IndexKept-grow cs new_name new (entries l) n h = Stored-grow cs new_name new l n h

  pub index-Stored :
      (cs : List Content) (i : IndexFile) (l : List IndexEntry)
      → parse_index i ≡ inr l
      → IndexKept cs i
      → All (Stored cs) l
  unfolding parse_index
  index-Stored cs absent l h k = let e : [] ≡ l = cc in subst (All (Stored cs)) e tt
  index-Stored cs (garbled why) l h k = cc
  index-Stored cs (entries m) l h k = let e : m ≡ l = cc in subst (All (Stored cs)) e k

  -- The content of a snapshot is there, or it is written first.
  pub content_writes-cases :
      (disk : Disk) (s : ScanSnapshot Time)
      → ((a b : Bytes) → hash a ≡ hash b → a ≡ b)
      → Named disk.contents
      → ((content_writes encode hash disk s ≡ [])
          × (content disk.contents (hash (encode s)) ≡ some (encode s)))
        ⊎ ((content_writes encode hash disk s ≡ write_content (hash (encode s)) (encode s) ∷ [])
            × (content disk.contents (hash (encode s)) ≡ none))
  unfolding content_writes missing
  content_writes-cases disk s inj w =
      elim (Option-cases (content disk.contents (hash (encode s)))) [
        | inl n ↦ inr (ap (λ o. missing o (hash (encode s)) (encode s)) n, n)
        | inr k ↦
            let (b, e) = k in
            let same = inj b (encode s) (content-Named disk.contents (hash (encode s)) b w e) in
            inl (ap (λ o. missing o (hash (encode s)) (encode s)) e, e ∙ ap some same)
      ]

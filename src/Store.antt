-- ===== src/Store.antt =====
-- The snapshot store in a directory: crates/anne-de-breuil/src/adapters/snapshot_store/fs.rs. Its
-- state is the index and the content files. The JSON of a snapshot and the hash of its bytes are a
-- library's: `encode`, `decode` and `hash` stand for them. A write goes to a temporary file that is
-- then renamed, so it happens whole or not at all.
pub mod Kept
pub mod Cut
pub mod Puts
pub mod Gets
use anne_de_breuil.Prelude.{
  ℕ, zero, suc, ◌+◌, ◌-◌, ◌*◌, ◌/◌, ◌%◌, ◌^◌, ◌≤◌, ◌<◌, ◌≡◌, refl, sym, ap, ◌∙◌, subst, ◌≢◌, ◌↔◌,
  ◌⊎◌, inl, inr, Bool, true, false, not, ◌&&◌, ◌||◌, Option, none, some, List, [], ◌∷◌, ◌++◌, map,
  arith, ltb, leb, ◌==◌, if◌then◌else◌, ==_iff, ==_refl, Bool-cases, Option-cases, Bool-ext, length,
  take, drop, is_empty, all, filter, find?, any, length-append, In, All, Eq, ◌≟◌, ≟→eq, ≟_refl,
  ℕ_discrete,
}
use anne_de_breuil.Bytes.{Bytes}
use anne_de_breuil.Text.{Text, codes, text_eq}
use anne_de_breuil.Snapshot.{ScanSnapshot, HostId, ScanId}
use anne_de_breuil.Sort.{sort_by}

-- A UUID, by the number that its 16 bytes write.
pub record IdempotencyKey : Type 0 where
  pub as_uuid : ℕ

pub record IndexEntry : Type 0 where
  pub scan_id : ScanId
  pub host_id : HostId
  pub idempotency_key : IdempotencyKey
  pub content_hash : Text

-- The index file: absent, not to be parsed, or its entries.
pub data IndexFile : Type 0 where
  absent : IndexFile
  garbled : Text → IndexFile
  entries : List IndexEntry → IndexFile

-- A content file, by the hash in its name.
pub record Content : Type 0 where
  pub content_hash : Text
  pub bytes : Bytes

pub record Disk : Type 0 where
  pub index : IndexFile
  pub contents : List Content

-- `StoreError`, with what reading and writing can come to here.
pub data StoreError : Type 0 where
  io : Text → StoreError
  serde : StoreError
  locked : StoreError
  corrupt : Text → StoreError

-- What the index file is parsed to.
unfoldable pub parse_index : IndexFile → StoreError ⊎ List IndexEntry
parse_index absent = inr []
parse_index (garbled why) = inl (corrupt why)
parse_index (entries l) = inr l

-- `read_index`.
unfoldable pub read_index : Disk → StoreError ⊎ List IndexEntry
unfolding parse_index
read_index disk = parse_index disk.index

-- The content file under a hash, if it exists.
unfoldable pub content : List Content → Text → Option Bytes
content [] name = none
content (f ∷ l) name =
    let rest = content l name in if text_eq f.content_hash name then some f.bytes else rest

-- One atomic write.
pub data Write : Type 0 where
  write_content : Text → Bytes → Write
  write_index : List IndexEntry → Write

unfoldable pub apply : Disk → Write → Disk
apply disk (write_content name bytes) = record disk {
  contents = record { content_hash = name; bytes = bytes } ∷ disk.contents;
}
apply disk (write_index l) = record disk { index = entries l }

unfoldable pub apply_all : Disk → List Write → Disk
unfolding apply
apply_all disk [] = disk
apply_all disk (w ∷ l) = apply_all (apply disk w) l

-- `find` on the entries.
unfoldable pub by_key : IdempotencyKey → List IndexEntry → Option IndexEntry
by_key key l = find? (λ (e : IndexEntry). e.idempotency_key.as_uuid == key.as_uuid) l

unfoldable pub by_scan : ScanId → List IndexEntry → Option IndexEntry
by_scan id l = find? (λ (e : IndexEntry). e.scan_id.as_uuid == id.as_uuid) l

-- The write of a file that is not there.
missing : Option Bytes → Text → Bytes → List Write
missing none name bytes = write_content name bytes ∷ []
missing (some there) name bytes = []

module _ {Time : Type 0} (encode : ScanSnapshot Time → Bytes) (hash : Bytes → Text) where
  -- The entry that `put` pushes.
  abbrev pub entry_for_put : IdempotencyKey → ScanSnapshot Time → IndexEntry
  entry_for_put key snapshot = record {
    scan_id = snapshot.scan_id;
    host_id = snapshot.host_id;
    idempotency_key = key;
    content_hash = hash (encode snapshot);
  }

  -- The write of the content, skipped if the file is there.
  unfoldable pub content_writes : Disk → ScanSnapshot Time → List Write
  unfolding missing
  content_writes disk snapshot =
      missing (content disk.contents (hash (encode snapshot))) (hash (encode snapshot))
        (encode snapshot)

  -- What `put_blocking` returns and writes, in order: with the entry found under the key,
  put_found :
      Disk
      → IdempotencyKey
      → ScanSnapshot Time
      → List IndexEntry
      → Option IndexEntry
      → ScanId × List Write
  unfolding content_writes
  put_found disk key snapshot l (some existing) = (existing.scan_id, [])
  put_found disk key snapshot l none = (
    snapshot.scan_id,
    content_writes disk snapshot ++ (write_index (l ++ (entry_for_put key snapshot ∷ [])) ∷ []),
  )

  -- and with the index as it was read.
  put_with :
      Disk
      → IdempotencyKey
      → ScanSnapshot Time
      → StoreError ⊎ List IndexEntry
      → StoreError ⊎ (ScanId × List Write)
  unfolding put_found by_key
  put_with disk key snapshot (inl e) = inl e
  put_with disk key snapshot (inr l) = inr (put_found disk key snapshot l (by_key key l))

  unfoldable pub put_plan :
      Bool → Disk → IdempotencyKey → ScanSnapshot Time → StoreError ⊎ (ScanId × List Write)
  unfolding put_with read_index
  put_plan is_locked disk key snapshot =
      if is_locked then inl locked else put_with disk key snapshot (read_index disk)

  -- The writes of a plan, none if it failed.
  abbrev pub writes_of : StoreError ⊎ (ScanId × List Write) → List Write
  writes_of (inl e) = []
  writes_of (inr out) = out.1

  abbrev pub put_result : StoreError ⊎ (ScanId × List Write) → StoreError ⊎ ScanId
  put_result (inl e) = inl e
  put_result (inr out) = inr out.0

  -- `put_blocking`: its result, and the disk after it; and the disk if it is cut off after some of
  -- its writes.
  unfoldable pub put :
      Bool → Disk → IdempotencyKey → ScanSnapshot Time → (StoreError ⊎ ScanId) × Disk
  unfolding put_plan apply_all
  put is_locked disk key snapshot =
      let plan = put_plan is_locked disk key snapshot in
      (put_result plan, apply_all disk (writes_of plan))

  unfoldable pub put_cut : ℕ → Bool → Disk → IdempotencyKey → ScanSnapshot Time → Disk
  unfolding put_plan apply_all
  put_cut n is_locked disk key snapshot =
      apply_all disk (take n (writes_of (put_plan is_locked disk key snapshot)))

module _ {Time : Type 0} (decode : Bytes → Option (ScanSnapshot Time)) where
  -- `serde_json::from_slice`, or its error.
  decoded : Option (ScanSnapshot Time) → StoreError ⊎ Option (ScanSnapshot Time)
  decoded none = inl serde
  decoded (some snapshot) = inr (some snapshot)

  decoded_content : Text → Option Bytes → StoreError ⊎ Option (ScanSnapshot Time)
  unfolding decoded
  decoded_content name none = inl (io name)
  decoded_content name (some bytes) = decoded (decode bytes)

  -- The content of an entry, read and decoded.
  fetch : Disk → Option IndexEntry → StoreError ⊎ Option (ScanSnapshot Time)
  unfolding content decoded_content
  fetch disk none = inr none
  fetch disk (some entry) =
      decoded_content entry.content_hash (content disk.contents entry.content_hash)

  get_with : Disk → ScanId → StoreError ⊎ List IndexEntry → StoreError ⊎ Option (ScanSnapshot Time)
  unfolding fetch by_scan
  get_with disk id (inl e) = inl e
  get_with disk id (inr l) = fetch disk (by_scan id l)

  -- `get_blocking`.
  unfoldable pub get_scan : Disk → ScanId → StoreError ⊎ Option (ScanSnapshot Time)
  unfolding get_with read_index
  get_scan disk id = get_with disk id (read_index disk)

-- `list_blocking`.
unfoldable pub list_scans : Disk → HostId → StoreError ⊎ List ScanId
unfolding read_index
list_scans disk host = elim (read_index disk) [
  | inl e ↦ inl e
  | inr l ↦ inr (
      sort_by (λ (a b : ScanId). leb a.as_uuid b.as_uuid)
        (map (λ (e : IndexEntry). e.scan_id)
          (filter (λ (e : IndexEntry). e.host_id.as_uuid == host.as_uuid) l)))
]

-- ===== src/Tests/Stored.antt =====
-- A store with one snapshot, and a summary.
use anne_de_breuil.Prelude.{ℕ, ◌≡◌, refl, inr, true, false, Option, none, some, [], ◌∷◌}
use anne_de_breuil.Bytes.{Bytes}
use anne_de_breuil.Text.{Text, codes}
use anne_de_breuil.Snapshot.{ScanSnapshot}
use anne_de_breuil.Store.{
  Disk, absent, IdempotencyKey, put, put_cut, get_scan, read_index, by_key, by_scan,
}
use anne_de_breuil.Store.Kept.{WellFormed}
use anne_de_breuil.Store.Cut.{put_cut-WellFormed}
use anne_de_breuil.Store.Puts.{put-put}
use anne_de_breuil.Store.Gets.{get_scan-put}
use anne_de_breuil.Redaction.{FindIter}
use anne_de_breuil.Report.{ReportModel, build, built}
use anne_de_breuil.Annotations.Summary.{Says, executive_summary-Says}
use anne_de_breuil.Tests.Data.{scan, ssh}

-- A codec that knows one snapshot, and a hash without collisions.
abbrev kept_scan : ScanSnapshot ℕ
kept_scan = scan (ssh ∷ []) []

abbrev encode_one : ScanSnapshot ℕ → Bytes
encode_one s = codes "{}"

abbrev decode_one : Bytes → Option (ScanSnapshot ℕ)
decode_one b = some kept_scan

abbrev plain_hash : Bytes → Text
plain_hash b = b

abbrev empty_disk : Disk
empty_disk = record { index = absent; contents = [] }

abbrev first_key : IdempotencyKey
first_key = record { as_uuid = 5 }

put_cut-WellFormed_example :
    WellFormed encode_one decode_one plain_hash
      (put_cut encode_one plain_hash 1 false empty_disk first_key kept_scan)
put_cut-WellFormed_example =
    put_cut-WellFormed encode_one decode_one plain_hash 1 false empty_disk first_key kept_scan
      (λ a b e. e) refl (tt, tt)

put-put_example :
    put encode_one plain_hash false
      (put encode_one plain_hash false empty_disk first_key kept_scan).1
      first_key
      (scan [] [])
    ≡ (inr kept_scan.scan_id, (put encode_one plain_hash false empty_disk first_key kept_scan).1)
unfolding put
put-put_example =
    put-put encode_one decode_one plain_hash empty_disk first_key kept_scan (scan [] [])
      kept_scan.scan_id refl

get_scan-put_example :
    get_scan decode_one
      (put encode_one plain_hash false empty_disk first_key kept_scan).1
      kept_scan.scan_id
    ≡ inr (some kept_scan)
unfolding read_index by_key by_scan
get_scan-put_example =
    get_scan-put encode_one decode_one plain_hash empty_disk first_key kept_scan [] (λ a b e. e)
      refl (tt, tt) refl refl refl

abbrev no_patterns : Text → Option FindIter
no_patterns pattern = none

abbrev one_report : ReportModel ℕ
one_report = built true no_patterns (kept_scan ∷ []) none

executive_summary-Says_example : Says one_report
executive_summary-Says_example =
    executive_summary-Says true no_patterns (kept_scan ∷ []) none true one_report
      (unfold build in refl)

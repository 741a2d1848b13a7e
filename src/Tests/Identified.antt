-- ===== src/Tests/Identified.antt =====
-- Evidence, the registry and fingerprints at concrete inputs.
use anne_de_breuil.Prelude.{◌≡◌, ◌≢◌, ◌↔◌, ◌⊎◌, true, none, some, List, [], ◌∷◌, In}
use anne_de_breuil.Text.{Text, codes}
use anne_de_breuil.Text.Lines.{lines}
use anne_de_breuil.Error.{ok}
use anne_de_breuil.Firewall.{tcp}
use anne_de_breuil.Identity.{
  Evidence, port_assignment, banner_match, assigned, probable, ServiceIdentity, new, other,
  remote_access,
}
use anne_de_breuil.Identity.Believed.{Justified, made, new_iff-Justified}
use anne_de_breuil.Identity.Registry.{RegistryEntry, identity_for_port}
use anne_de_breuil.Identity.Registry.Rows.{LastRow, identity_for_port_iff-LastRow}
use anne_de_breuil.Fingerprint.{Regex, CompiledFingerprint, try_match}
use anne_de_breuil.Fingerprint.Matched.{Hit}
use anne_de_breuil.Fingerprint.Evidenced.{Backed, try_match_lem}
use anne_de_breuil.Tests.Data.{port}

abbrev banner : List Evidence
banner = port_assignment (codes "ssh") ∷ banner_match (codes "SSH-2.0") ∷ []

abbrev ssh_identity : ServiceIdentity
ssh_identity = made (codes "ssh") remote_access probable banner

new_iff-Justified_example : (new (codes "ssh") remote_access probable banner ≡ ok ssh_identity) ↔ (
    Justified probable banner × (ssh_identity ≡ made (codes "ssh") remote_access probable banner))
new_iff-Justified_example =
    new_iff-Justified (codes "ssh") remote_access probable banner ssh_identity

abbrev registry : Text
registry = codes "22\ttcp\tssh\tSecure Shell\n"

abbrev assigned_ssh : ServiceIdentity
assigned_ssh = made (codes "ssh") other assigned (port_assignment (codes "ssh") ∷ [])

identity_for_port_iff-LastRow_example :
    (identity_for_port registry (port 22) tcp ≡ some assigned_ssh) ↔ (
      (entry : RegistryEntry) × LastRow 22 tcp entry (lines registry)
      × (assigned_ssh ≡ made entry.name other assigned (port_assignment entry.name ∷ [])))
identity_for_port_iff-LastRow_example =
    identity_for_port_iff-LastRow registry (port 22) tcp assigned_ssh

abbrev anything : Regex
anything = record { is_match = λ s. true; first_group = λ s. none }

abbrev ssh_entry : CompiledFingerprint
ssh_entry = record {
  name = codes "openssh";
  category = remote_access;
  confidence = probable;
  header = none;
  body_prefix = none;
  body_pattern = none;
  tls_subject_pattern = none;
  banner_pattern = some anything;
  alpn = none;
  version_capture = none;
}

try_match_lem_example :
    ((i : ServiceIdentity) × (try_match ssh_entry banner ≡ some i)
      × (i.evidence ≢ [])
      × Backed ssh_entry banner i)
    ⊎ ((try_match ssh_entry banner ≡ none) × ((e : Evidence) → In e banner → Hit ssh_entry e → ⊥))
try_match_lem_example = try_match_lem ssh_entry banner

-- ===== src/Tests/Scans.antt =====
-- Drift between concrete scans.
use anne_de_breuil.Prelude.{arith, ◌≤◌, ◌≡◌, refl, ◌↔◌, inl, false, none, some, [], ◌∷◌, In, arith}
use anne_de_breuil.Tests.Data.{ssh, mdns_sshd, mdns_chrome, local_http, scan}
use anne_de_breuil.Drift.{
  diff, entry_for, key_of, endpoint_appeared, endpoint_disappeared, process_changed,
  ephemeral_port_threshold,
}
use anne_de_breuil.Drift.Kinds.{Reports, Present}
use anne_de_breuil.Drift.Lookup.{Absent}
use anne_de_breuil.Drift.Same.{diff_self, diff_self-spurious}
use anne_de_breuil.Drift.Appearance.{Reports-appeared_iff}
use anne_de_breuil.Drift.Disappearance.{diff_dual}
use anne_de_breuil.Drift.Identity.{Restart, restarted_scan, diff-restarted}

diff_self_example :
    diff false (scan (ssh ∷ local_http ∷ []) []) (scan (ssh ∷ local_http ∷ []) [])
    ≡ record { entries = []; suppressed_ephemeral = 0 }
diff_self_example =
    diff_self false (scan (ssh ∷ local_http ∷ []) [])
      ((λ e m h. ground arith), ((λ e m h. absurd m), tt))

diff_self-spurious_example :
    In
      (entry_for process_changed mdns_sshd)
      (diff false
        (scan (mdns_sshd ∷ mdns_chrome ∷ []) [])
        (scan (mdns_sshd ∷ mdns_chrome ∷ []) [])).entries
diff_self-spurious_example =
    diff_self-spurious false (scan (mdns_sshd ∷ mdns_chrome ∷ []) []) (mdns_sshd ∷ []) mdns_chrome
      [] mdns_sshd refl (λ e m. absurd m) (inl refl) refl (λ h. ground arith)

Reports-appeared_iff_example :
    Reports endpoint_appeared (key_of ssh) (diff false (scan [] []) (scan (ssh ∷ []) [])).entries
    ↔ (Present (key_of ssh) (ssh ∷ []) × Absent (key_of ssh) [] × (22 ≤ ephemeral_port_threshold))
Reports-appeared_iff_example =
    Reports-appeared_iff false (scan [] []) (scan (ssh ∷ []) []) (key_of ssh)

diff_dual_example :
    Reports endpoint_disappeared (key_of ssh) (diff false (scan (ssh ∷ []) []) (scan [] [])).entries
    ↔ Reports endpoint_appeared (key_of ssh) (diff false (scan [] []) (scan (ssh ∷ []) [])).entries
diff_dual_example = diff_dual false (scan (ssh ∷ []) []) (scan [] []) (key_of ssh)

abbrev fresh : Restart
fresh = record { process_id = λ _. some (record { get = 77 }); command_line = λ _. none }

diff-restarted_example :
    diff false
      (restarted_scan fresh (scan (ssh ∷ []) []))
      (restarted_scan fresh (scan (ssh ∷ []) []))
    ≡ diff false (scan (ssh ∷ []) []) (scan (ssh ∷ []) [])
diff-restarted_example = diff-restarted false fresh fresh (scan (ssh ∷ []) []) (scan (ssh ∷ []) [])

-- ===== src/Tests/Hosts.antt =====
-- Host patterns and a book of host keys at concrete inputs.
use anne_de_breuil.Prelude.{
  ℕ, ◌≡◌, refl, ◌↔◌, ◌⊎◌, inl, inr, true, false, Option, some, List, [], ◌∷◌, In, arith, Eq,
  ℕ_discrete,
}
use anne_de_breuil.Text.{Text, codes}
use anne_de_breuil.Bytes.{Bytes}
use anne_de_breuil.KnownHosts.{patterns, glob_match_bytes, host_pattern_matches}
use anne_de_breuil.KnownHosts.Patterns.{
  Matches, Hits, glob_match_bytes_iff, host_pattern_matches_iff,
}
use anne_de_breuil.KnownHosts.Book.{
  KnownHosts, verify_host_key, verified, refused, host_key_changed,
}
use anne_de_breuil.KnownHosts.Book.Lookup.{Records, HasEntry}
use anne_de_breuil.KnownHosts.Book.Trust.{verified_iff, verify_host_key_pins}

instance abbrev ℕ-eq : Eq ℕ
ℕ-eq = record { eq_dec = ℕ_discrete }

-- Not an HMAC, but a function of its shape.
abbrev mac : Bytes → Bytes → Option Bytes
mac salt host = some host

abbrev key_digest : ℕ → Text
key_digest key = codes "SHA256:"

abbrev lab : List Bytes
lab = codes "*.lab" ∷ codes "!gate.lab" ∷ []

glob_match_bytes_iff_example :
    (glob_match_bytes (codes "*.l?b") (codes "a.lab") ≡ true)
    ↔ Matches (codes "*.l?b") (codes "a.lab")
glob_match_bytes_iff_example = glob_match_bytes_iff (codes "*.l?b") (codes "a.lab")

host_pattern_matches_iff_example :
    (host_pattern_matches mac (patterns lab) (codes "gate.lab") ≡ true) ↔ (
      ((raw : Bytes) × In raw lab × Hits false (codes "gate.lab") raw)
      × ((raw : Bytes) → In raw lab → ¬ Hits true (codes "gate.lab") raw))
host_pattern_matches_iff_example = host_pattern_matches_iff mac lab (codes "gate.lab")

-- One host in the file, with key 5, and none accepted so far.
abbrev book : KnownHosts ℕ
book = record {
  file_entries = record { host_patterns = patterns lab; public_key = 5 } ∷ [];
  accepted = [];
}

verified_iff_example :
    ((verify_host_key mac key_digest book (codes "a.lab") 5 false).1 ≡ verified)
    ↔ (Records mac book (codes "a.lab") 5 ⊎ ((false ≡ true) × ¬ HasEntry mac book (codes "a.lab")))
verified_iff_example = verified_iff mac key_digest book (codes "a.lab") 5 false

-- A book in which only another host has a key.
abbrev pinned : KnownHosts ℕ
pinned = record { file_entries = []; accepted = record { host = codes "c"; key = 3 } ∷ [] }

b-Unseen : (key : ℕ) → ¬ In (record { host = codes "b"; key = key }) pinned.accepted
b-Unseen key (inl e) = ground arith
b-Unseen key (inr m) = m

verify_host_key_pins_example :
    (verify_host_key mac key_digest
      (verify_host_key mac key_digest pinned (codes "b") 7 true).0
      (codes "b")
      8
      true).1
    ≡ refused host_key_changed
verify_host_key_pins_example =
    verify_host_key_pins mac key_digest pinned (codes "b") 7 8 true true
      ((verified_iff mac key_digest pinned (codes "b") 7 true).1
        (inr (refl, (λ h. elim h [ inl (e, m, _) ↦ m | inr (k, m) ↦ b-Unseen k m ]))))
      (λ e. ground arith) (λ h. elim h [ inl (e, m, _, _) ↦ m | inr m ↦ b-Unseen 8 m ])

-- ===== src/KnownHosts/Book/Lookup.antt =====
-- What `lookup` of crates/anne-de-breuil/src/adapters/ssh_transport/known_hosts.rs finds in a book.
use anne_de_breuil.Prelude.{
  &&_iff, any-In, any_iff-In, ◌≡◌, refl, subst, ◌↔◌, ◌⊎◌, inl, inr, Bool, true, false, ◌&&◌, ◌||◌,
  Option, List, [], ◌∷◌, arith, if◌then◌else◌, Bool-cases, any, In, Eq, ◌≟◌, ≟→eq, ≟_refl,
}
use anne_de_breuil.Bytes.{Bytes}
use anne_de_breuil.Text.{text_eq, text_eq→eq, text_eq_refl}
use anne_de_breuil.KnownHosts.{host_pattern_matches}
use anne_de_breuil.KnownHosts.Book.{
  known, unknown, changed, Entry, Pin, KnownHosts, found, ended, scan_file, scan_accepted, lookup,
}

||_true : (a b : Bool) → (a ≡ true) ⊎ (b ≡ true) → (a || b) ≡ true
||_true a b h = ground arith

module _ {Key : Type 0} ⦃key_eq : Eq Key⦄ (hmac : Bytes → Bytes → Option Bytes) where
  -- The tests of the loops.
  abbrev pub names : Bytes → Entry Key → Bool
  names host entry = host_pattern_matches hmac entry.host_patterns host

  abbrev pub holds : Bytes → Key → Entry Key → Bool
  holds host key entry = names host entry && (entry.public_key ≟ key)

  abbrev pub pins : Bytes → Pin Key → Bool
  pins host pin = text_eq pin.host host

  abbrev pub pins_key : Bytes → Key → Pin Key → Bool
  pins_key host key pin = pins host pin && (pin.key ≟ key)

  scan_file-any :
      (seen : Bool) (l : List (Entry Key)) (host : Bytes) (key : Key)
      → scan_file hmac seen l host key
        ≡ (if any (holds host key) l then found else ended (seen || any (names host) l))
  unfolding scan_file
  scan_file-any seen [] host key = ground arith
  scan_file-any seen (e ∷ l) host key =
      ground (arith, scan_file-any true l host key, scan_file-any seen l host key)

  scan_accepted-any :
      (seen : Bool) (l : List (Pin Key)) (host : Bytes) (key : Key)
      → scan_accepted hmac seen l host key
        ≡ (if any (pins_key host key) l then found else ended (seen || any (pins host) l))
  unfolding scan_accepted
  scan_accepted-any seen [] host key = ground arith
  scan_accepted-any seen (e ∷ l) host key =
      ground (arith, scan_accepted-any true l host key, scan_accepted-any seen l host key)

  -- The book records the key for the host, and records some key for it.
  abbrev pub records_key : KnownHosts Key → Bytes → Key → Bool
  records_key book host key =
      any (holds host key) book.file_entries || any (pins_key host key) book.accepted

  abbrev pub has_entry : KnownHosts Key → Bytes → Bool
  has_entry book host = any (names host) book.file_entries || any (pins host) book.accepted

  pub lookup_any :
      (book : KnownHosts Key) (host : Bytes) (key : Key)
      → lookup hmac book host key ≡ (
          if records_key book host key
          then known
          else if has_entry book host
          then changed
          else unknown)
  unfolding lookup
  lookup_any book host key = ground (
    arith,
    scan_file-any false book.file_entries host key,
    scan_accepted-any false book.accepted host key,
    scan_accepted-any true book.accepted host key,
  )

  abbrev pub Records : KnownHosts Key → Bytes → Key → Type 0
  Records book host key =
      ((entry : Entry Key) × In entry book.file_entries
        × (host_pattern_matches hmac entry.host_patterns host ≡ true)
        × (entry.public_key ≡ key))
      ⊎ In (record { host = host; key = key }) book.accepted

  abbrev pub HasEntry : KnownHosts Key → Bytes → Type 0
  HasEntry book host =
      ((entry : Entry Key) × In entry book.file_entries
        × (host_pattern_matches hmac entry.host_patterns host ≡ true))
      ⊎ ((key : Key) × In (record { host = host; key = key }) book.accepted)

  pin_at :
      (host : Bytes) (key : Key) (pin : Pin Key) (l : List (Pin Key))
      → pin.host ≡ host
      → pin.key ≡ key
      → In pin l
      → In (record { host = host; key = key }) l
  pin_at host key pin l eh ek m =
      subst (λ h. In (record { host = h; key = key }) l) eh
        (subst (λ k. In (record { host = pin.host; key = k }) l) ek m)

  records_key-Records :
      (book : KnownHosts Key) (host : Bytes) (key : Key)
      → records_key book host key ≡ true
      → Records book host key
  records_key-Records book host key h = elim (Bool-cases (any (holds host key) book.file_entries)) [
    | inl e ↦
        let (entry, m, q) = any_iff-In (holds host key) book.file_entries e in
        let (n, k) = (&&_iff (names host entry) (entry.public_key ≟ key)).0 q in
        inl (entry, m, n, ≟→eq entry.public_key key k)
    | inr e ↦
        let (pin, m, q) = any_iff-In (pins_key host key) book.accepted (ground arith) in
        let (n, k) = (&&_iff (pins host pin) (pin.key ≟ key)).0 q in
        inr (pin_at host key pin book.accepted (text_eq→eq pin.host host n) (≟→eq pin.key key k) m)
  ]

  pub records_key_iff :
      (book : KnownHosts Key) (host : Bytes) (key : Key)
      → (records_key book host key ≡ true) ↔ Records book host key
  records_key_iff book host key = (
    records_key-Records book host key,
    (λ h.
        ||_true (any (holds host key) book.file_entries) (any (pins_key host key) book.accepted)
          (elim h [
            | inl (entry, m, n, k) ↦ inl (
                any-In (holds host key) entry book.file_entries m
                  ((&&_iff (names host entry) (entry.public_key ≟ key)).1 (n, rw k (≟_refl key))))
            | inr m ↦ inr (
                any-In (pins_key host key) (record { host = host; key = key }) book.accepted m
                  ((&&_iff (text_eq host host) (key ≟ key)).1 (text_eq_refl host, ≟_refl key)))
          ])),
  )

  has_entry-HasEntry :
      (book : KnownHosts Key) (host : Bytes) → has_entry book host ≡ true → HasEntry book host
  has_entry-HasEntry book host h = elim (Bool-cases (any (names host) book.file_entries)) [
    | inl e ↦ inl (any_iff-In (names host) book.file_entries e)
    | inr e ↦
        let (pin, m, q) = any_iff-In (pins host) book.accepted (ground arith) in
        inr (pin.key, pin_at host pin.key pin book.accepted (text_eq→eq pin.host host q) refl m)
  ]

  pub has_entry_iff :
      (book : KnownHosts Key) (host : Bytes) → (has_entry book host ≡ true) ↔ HasEntry book host
  has_entry_iff book host = (
    has_entry-HasEntry book host,
    (λ h. ||_true (any (names host) book.file_entries) (any (pins host) book.accepted) (elim h [
      | inl (entry, m, n) ↦ inl (any-In (names host) entry book.file_entries m n)
      | inr (key, m) ↦ inr (
          any-In (pins host) (record { host = host; key = key }) book.accepted m
            (text_eq_refl host))
    ])),
  )

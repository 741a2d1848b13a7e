-- ===== src/KnownHosts/Book.antt =====
-- The book of host keys: `KnownHosts`, `lookup`, `record` and `verify_host_key` of
-- crates/anne-de-breuil/src/adapters/ssh_transport/known_hosts.rs. A key is its key data, which is
-- all that is compared; `fingerprint` stands for the library's SHA-256 fingerprint. The mutex is
-- held for one call at a time, so the book is passed through the operations.
pub mod Lookup
pub mod Trust
use anne_de_breuil.Prelude.{Bool, true, false, Option, List, [], ◌∷◌, ◌++◌, if◌then◌else◌, Eq, ◌≟◌}
use anne_de_breuil.Bytes.{Bytes}
use anne_de_breuil.Text.{Text, text_eq}
use anne_de_breuil.KnownHosts.{HostPatterns, host_pattern_matches}

pub data HostKeyStatus : Type 0 where
  known unknown changed : HostKeyStatus

-- `ssh_key::known_hosts::Entry`, less the marker, which is not read here.
pub record Entry (Key : Type 0) : Type 0 where
  pub host_patterns : HostPatterns
  pub public_key : Key

-- A host and the key that was accepted for it.
pub record Pin (Key : Type 0) : Type 0 where
  pub host : Bytes
  pub key : Key

pub record KnownHosts (Key : Type 0) : Type 0 where
  pub file_entries : List (Entry Key)
  pub accepted : List (Pin Key)

-- The two errors of `TransportError` that a host key leads to.
pub data TransportError : Type 0 where
  unknown_host_key : Text → TransportError
  host_key_changed : TransportError

pub data Verdict : Type 0 where
  verified : Verdict
  refused : TransportError → Verdict

-- Where a loop of `lookup` stops: at the key, or at the end with `host_has_any_entry`.
pub data Scan : Type 0 where
  found : Scan
  ended : Bool → Scan

module _ {Key : Type 0} ⦃key_eq : Eq Key⦄ (hmac : Bytes → Bytes → Option Bytes) where
  pub scan_file : Bool → List (Entry Key) → Bytes → Key → Scan
  scan_file seen [] host key = ended seen
  scan_file seen (entry ∷ l) host key =
      let hit = scan_file true l host key in
      let missed = scan_file seen l host key in
      if host_pattern_matches hmac entry.host_patterns host
      then if entry.public_key ≟ key then found else hit
      else missed

  pub scan_accepted : Bool → List (Pin Key) → Bytes → Key → Scan
  scan_accepted seen [] host key = ended seen
  scan_accepted seen (pin ∷ l) host key =
      let hit = scan_accepted true l host key in
      let missed = scan_accepted seen l host key in
      if text_eq pin.host host then if pin.key ≟ key then found else hit else missed

  -- `KnownHosts::lookup`.
  unfoldable pub lookup : KnownHosts Key → Bytes → Key → HostKeyStatus
  unfolding scan_file scan_accepted
  lookup book host key = elim (scan_file false book.file_entries host key) [
    | found ↦ known
    | ended seen ↦ elim (scan_accepted seen book.accepted host key) [
      | found ↦ known
      | ended seen ↦ if seen then changed else unknown
    ]
  ]

  -- `KnownHosts::record`.
  abbrev pub record_key : KnownHosts Key → Bytes → Key → KnownHosts Key
  record_key book host key = record book {
    accepted = book.accepted ++ (record { host = host; key = key } ∷ []);
  }

  -- `verify_host_key`: the book behind the call, and what it returns.
  unfoldable pub verify_host_key :
      (Key → Text) → KnownHosts Key → Bytes → Key → Bool → KnownHosts Key × Verdict
  unfolding lookup
  verify_host_key fingerprint book host key accept_new = elim (lookup book host key) [
    | known ↦ (book, verified)
    | unknown ↦
        if accept_new
        then (record_key book host key, verified)
        else (book, refused (unknown_host_key (fingerprint key)))
    | changed ↦ (book, refused host_key_changed)
  ]

-- ===== src/KnownHosts.antt =====
-- crates/anne-de-breuil/src/adapters/ssh_transport/known_hosts.rs: the keys that SSH hosts may show.
-- The parsed entries come from the `ssh-key` library; `hmac` stands for the HMAC-SHA1 of the `hmac`
-- and `sha1` libraries, with `none` where a key is refused.
pub mod Patterns
pub mod Book
use anne_de_breuil.Prelude.{
  ℕ, zero, suc, ◌+◌, ◌-◌, ◌*◌, ◌/◌, ◌%◌, ◌^◌, ◌≤◌, ◌<◌, ◌≡◌, refl, sym, ap, ◌∙◌, subst, ◌≢◌, ◌↔◌,
  ◌⊎◌, inl, inr, Bool, true, false, not, ◌&&◌, ◌||◌, Option, none, some, List, [], ◌∷◌, ◌++◌, map,
  arith, ltb, leb, ◌==◌, if◌then◌else◌, ==_iff, ==_refl, Bool-cases, Option-cases, Bool-ext, length,
  take, drop, is_empty, all, filter, find?, any, length-append, In, All, Eq, ◌≟◌, ≟→eq, ≟_refl,
  ℕ_discrete,
}
use anne_de_breuil.Bytes.{Bytes}
use anne_de_breuil.Text.{text_eq}

-- `glob_match_bytes`. The calls of the branches are made first.
pub glob_match_bytes : Bytes → Bytes → Bool
glob_match_bytes [] [] = true
glob_match_bytes [] (d ∷ text) = false
glob_match_bytes (c ∷ pattern) [] =
    let skipped = glob_match_bytes pattern [] in if c == b'*' then skipped else false
glob_match_bytes (c ∷ pattern) (d ∷ text) =
    let skipped = glob_match_bytes pattern (d ∷ text) in
    let eaten = glob_match_bytes (c ∷ pattern) text in
    let next = glob_match_bytes pattern text in
    if c == b'*'
    then skipped || eaten
    else if c == b'?'
    then next
    else if c == d
    then next
    else false

-- `ssh_key::known_hosts::HostPatterns`.
pub data HostPatterns : Type 0 where
  patterns : List Bytes → HostPatterns
  hashed_name : Bytes → Bytes → HostPatterns

-- `raw.strip_prefix('!')`: whether the pattern negates, and the pattern.
unfoldable pub strip_negation : Bytes → Bool × Bytes
strip_negation [] = (false, [])
strip_negation (c ∷ rest) = if c == b'!' then (true, rest) else (false, c ∷ rest)

-- The loop of `host_pattern_matches`, with its variable `matched`.
pub patterns_from : Bool → List Bytes → Bytes → Bool
patterns_from matched [] host = matched
patterns_from matched (raw ∷ list) host =
    let hit = patterns_from true list host in
    let missed = patterns_from matched list host in
    let (negate, pattern) = strip_negation raw in
    if glob_match_bytes pattern host then if negate then false else hit else missed

module _ (hmac : Bytes → Bytes → Option Bytes) where
  -- `hashed_match`.
  unfoldable pub hashed_match : Bytes → Bytes → Bytes → Bool
  hashed_match key digest host = elim (hmac key host) [
    | none ↦ false
    | some mac ↦ text_eq mac digest
  ]

  -- `host_pattern_matches`.
  unfoldable pub host_pattern_matches : HostPatterns → Bytes → Bool
  unfolding patterns_from hashed_match
  host_pattern_matches (patterns list) host = patterns_from false list host
  host_pattern_matches (hashed_name salt hash) host = hashed_match salt hash host

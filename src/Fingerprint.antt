-- ===== src/Fingerprint.antt =====
-- Fingerprints of services: crates/anne-de-breuil/src/domain/fingerprint.rs. The regular expressions
-- are a library's: `compile_regex` stands for `Regex::new`, and a compiled one for its `is_match` and
-- its first capture group. The catalogue, a TOML file that the build embeds, is the list of its
-- entries.
pub mod Catalogue
pub mod Nesting
pub mod Pushed
pub mod Matched
pub mod Evidenced
use anne_de_breuil.Prelude.{
  ◌>>=◌, ℕ, zero, suc, ◌+◌, ◌-◌, ◌*◌, ◌/◌, ◌%◌, ◌^◌, ◌≤◌, ◌<◌, ◌≡◌, refl, sym, ap, ◌∙◌, subst, ◌≢◌,
  ◌↔◌, ◌⊎◌, inl, inr, Bool, true, false, not, ◌&&◌, ◌||◌, Option, none, some, List, [], ◌∷◌, ◌++◌,
  map, arith, ltb, leb, ◌==◌, if◌then◌else◌, ==_iff, ==_refl, Bool-cases, Option-cases, Bool-ext,
  length, take, drop, is_empty, all, filter, find?, any, length-append, In, All, Eq, ◌≟◌, ≟→eq,
  ≟_refl, ℕ_discrete,
}
use anne_de_breuil.Text.{Text, codes, to_ascii_lowercase, eq_ignore_ascii_case, utf8_len}
use anne_de_breuil.Text.Lines.{lines, starts_with}
use anne_de_breuil.Identity.{
  Evidence, Evidence-eq, port_assignment, banner_match, http_header, http_body_pattern,
  tls_certificate_subject, alpn_protocol, process_name, Confidence, ServiceCategory,
  ServiceIdentity, new, with_version, to_option,
}

pub record Regex : Type 0 where
  pub is_match : Text → Bool
  pub first_group : Text → Option Text

-- `CompiledFingerprint`; a header matcher is its name in lower case and its pattern.
pub record CompiledFingerprint : Type 0 where
  pub name : Text
  pub category : ServiceCategory
  pub confidence : Confidence
  pub header : Option (Text × Regex)
  pub body_prefix : Option Text
  pub body_pattern : Option Regex
  pub tls_subject_pattern : Option Regex
  pub banner_pattern : Option Regex
  pub alpn : Option (List Text)
  pub version_capture : Option Regex

unfoldable pub body_has_prefixed_line : Text → Text → Bool
body_has_prefixed_line body prefix = any (λ line. starts_with line prefix) (lines body)

-- `matched.contains(&item)`.
abbrev pub holds_item : Evidence → List Evidence → Bool
holds_item item matched = any (λ e. e ≟ item) matched

unfoldable pub push_unique : List Evidence → Evidence → List Evidence
push_unique matched item = if holds_item item matched then matched else matched ++ (item ∷ [])

-- The loop of one matcher: what it hits is pushed.
unfoldable pub push_hits : (Evidence → Bool) → List Evidence → List Evidence → List Evidence
unfolding push_unique
push_hits hit [] matched = matched
push_hits hit (item ∷ l) matched =
    push_hits hit l (if hit item then push_unique matched item else matched)

-- What each matcher hits.
unfoldable pub header_hits : Text × Regex → Evidence → Bool
header_hits header (http_header name value) =
    eq_ignore_ascii_case name header.0 && header.1.is_match value
header_hits header e = false

unfoldable pub prefix_hits : Text → Evidence → Bool
unfolding body_has_prefixed_line
prefix_hits prefix (http_body_pattern snippet) = body_has_prefixed_line snippet prefix
prefix_hits prefix e = false

unfoldable pub body_hits : Regex → Evidence → Bool
body_hits pattern (http_body_pattern snippet) = pattern.is_match snippet
body_hits pattern e = false

unfoldable pub subject_hits : Regex → Evidence → Bool
subject_hits pattern (tls_certificate_subject subject) = pattern.is_match subject
subject_hits pattern e = false

unfoldable pub banner_hits : Regex → Evidence → Bool
banner_hits pattern (banner_match banner) = pattern.is_match banner
banner_hits pattern e = false

unfoldable pub alpn_hits : List Text → Evidence → Bool
alpn_hits protocols (alpn_protocol protocol) =
    any (λ candidate. eq_ignore_ascii_case candidate protocol) protocols
alpn_hits protocols e = false

-- `if let Some(m) = &self.matcher { for item in evidence { … } }`.
unfoldable pub run_matcher :
    {M : Type 0} → Option M → (M → Evidence → Bool) → List Evidence → List Evidence → List Evidence
unfolding push_hits
run_matcher none hits evidence matched = matched
run_matcher (some m) hits evidence matched = push_hits (hits m) evidence matched

-- The matchers in their order.
unfoldable pub matched_by : CompiledFingerprint → List Evidence → List Evidence
unfolding run_matcher header_hits prefix_hits body_hits subject_hits banner_hits alpn_hits
matched_by entry evidence =
    let m1 = run_matcher entry.header header_hits evidence [] in
    let m2 = run_matcher entry.body_prefix prefix_hits evidence m1 in
    let m3 = run_matcher entry.body_pattern body_hits evidence m2 in
    let m4 = run_matcher entry.tls_subject_pattern subject_hits evidence m3 in
    let m5 = run_matcher entry.banner_pattern banner_hits evidence m4 in
    run_matcher entry.alpn alpn_hits evidence m5

-- The text of an item that has one to search.
text_of : Evidence → Option Text
text_of (http_header name value) = some value
text_of (http_body_pattern snippet) = some snippet
text_of (banner_match banner) = some banner
text_of (tls_certificate_subject subject) = some subject
text_of (alpn_protocol protocol) = none
text_of (port_assignment registry_name) = none
text_of (process_name name) = none

unfoldable pub extract_version : Regex → List Evidence → Option Text
unfolding text_of
extract_version pattern [] = none
extract_version pattern (item ∷ l) = elim (text_of item >>= pattern.first_group) [
  | some v ↦ some v
  | none ↦ extract_version pattern l
]

versioned : ServiceIdentity → Option Text → ServiceIdentity
versioned identity none = identity
versioned identity (some v) = with_version identity v

-- `CompiledFingerprint::try_match`.
unfoldable pub try_match : CompiledFingerprint → List Evidence → Option ServiceIdentity
unfolding matched_by extract_version versioned
try_match entry evidence =
    let matched = matched_by entry evidence in
    let version = entry.version_capture >>= (λ pattern. extract_version pattern matched) in
    if is_empty matched then none else (do
      identity ← to_option (new entry.name entry.category entry.confidence matched)
      some (versioned identity version))

-- `filter_map` over the catalogue.
unfoldable pub fingerprint : List CompiledFingerprint → List Evidence → List ServiceIdentity
unfolding try_match
fingerprint [] evidence = []
fingerprint (entry ∷ l) evidence = elim (try_match entry evidence) [
  | none ↦ fingerprint l evidence
  | some identity ↦ identity ∷ fingerprint l evidence
]

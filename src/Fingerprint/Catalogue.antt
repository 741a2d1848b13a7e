-- ===== src/Fingerprint/Catalogue.antt =====
-- How the catalogue's entries are checked and compiled
-- (crates/anne-de-breuil/src/domain/fingerprint.rs).
use anne_de_breuil.Prelude.{
  ℕ, Bool, true, false, not, ◌&&◌, ◌||◌, Option, none, some, List, [], ◌∷◌, ltb, ◌==◌,
  if◌then◌else◌,
}
use anne_de_breuil.Text.{Text, to_ascii_lowercase, utf8_len}
use anne_de_breuil.Identity.{Confidence, ServiceCategory}
use anne_de_breuil.Fingerprint.{Regex, CompiledFingerprint}

abbrev pub max_pattern_len : ℕ
max_pattern_len = 256

pub record HeaderMatcherRaw : Type 0 where
  pub name : Text
  pub pattern : Text

pub record MatchersRaw : Type 0 where
  pub header : Option HeaderMatcherRaw
  pub body_prefix : Option Text
  pub body_pattern : Option Text
  pub tls_subject_pattern : Option Text
  pub banner_pattern : Option Text
  pub alpn : Option (List Text)
  pub version_capture : Option Text

pub record FingerprintEntryRaw : Type 0 where
  pub name : Text
  pub category : ServiceCategory
  pub confidence : Confidence
  pub matchers : MatchersRaw

-- `InvalidRegex` drops the library's own error value.
pub data CatalogueError : Type 0 where
  pattern_too_long : Text → ℕ → CatalogueError
  nested_unbounded_quantifier : Text → CatalogueError
  invalid_regex : Text → CatalogueError
  no_matchers : Text → CatalogueError

-- `Result<A, CatalogueError>`.
pub data Checked {ℓ} (A : Type ℓ) : Type ℓ where
  bad : CatalogueError → Checked A
  good : A → Checked A

infixl 5 ◌>>=◌
abbrev ◌>>=◌ {ℓ κ} : {A : Type ℓ} {B : Type κ} → Checked A → (A → Checked B) → Checked B
bad e >>= f = bad e
good a >>= f = f a

abbrev is_none {ℓ} : {A : Type ℓ} → Option A → Bool
is_none none = true
is_none (some a) = false

-- `matches!(next, '*' | '+' | '?' | '{')` of the next character, if there is one.
unfoldable pub next_is_quantifier : Text → Bool
next_is_quantifier [] = false
next_is_quantifier (c ∷ s) = c == b'*' || c == b'+' || c == b'?' || c == b'{'

unfoldable pub mark_quantifier : List Bool → List Bool
mark_quantifier [] = []
mark_quantifier (top ∷ stack) = true ∷ stack

-- `group_has_quantifier.pop().unwrap_or(false)`, and the stack that is left.
abbrev pub popped : List Bool → Bool
popped [] = false
popped (top ∷ stack) = top

abbrev pub rest_of : List Bool → List Bool
rest_of [] = []
rest_of (top ∷ stack) = stack

-- The stack after a character that is neither escaped nor closes a group.
unfoldable pub stack_after : ℕ → Bool → List Bool → List Bool
unfolding mark_quantifier
stack_after ch was_just_opened stack =
    if ch == b'('
    then false ∷ stack
    else if ch == b'*' || ch == b'+' || ch == b'{' || (ch == b'?' && not was_just_opened)
    then mark_quantifier stack
    else stack

-- The loop; the stack's top is the group that is open innermost. `escaped` says that a backslash
-- stands in front.
unfoldable pub nested_from : List Bool → Bool → Bool → Text → Bool
unfolding stack_after next_is_quantifier
nested_from stack opened escaped [] = false
nested_from stack opened true (ch ∷ s) = nested_from stack false false s
nested_from stack opened false (ch ∷ s) =
    let skipped = nested_from stack false true s in
    let closed = nested_from (rest_of stack) false false s in
    let further = nested_from (stack_after ch opened stack) (ch == b'(') false s in
    if ch == b'\\'
    then skipped
    else if ch == b')'
    then (popped stack && next_is_quantifier s) || closed
    else further

unfoldable pub has_nested_unbounded_quantifier : Text → Bool
unfolding nested_from
has_nested_unbounded_quantifier = nested_from [] false false

unfoldable pub check_complexity : Text → Checked (Unit {0})
unfolding has_nested_unbounded_quantifier
check_complexity pattern =
    if ltb max_pattern_len (utf8_len pattern)
    then bad (pattern_too_long pattern (utf8_len pattern))
    else if has_nested_unbounded_quantifier pattern
    then bad (nested_unbounded_quantifier pattern)
    else good tt

-- `ok_or`-like: what the library does not compile is an error.
regex_or : Text → Option Regex → Checked Regex
regex_or pattern none = bad (invalid_regex pattern)
regex_or pattern (some regex) = good regex

module _ (compile_regex : Text → Option Regex) where
  unfoldable pub compile_pattern : Text → Checked Regex
  unfolding check_complexity regex_or
  compile_pattern pattern = do
    checked ← check_complexity pattern
    regex_or pattern (compile_regex pattern)

  -- `.map(compile_pattern).transpose()?`.
  compile_optional : Option Text → Checked (Option Regex)
  unfolding compile_pattern
  compile_optional none = good none
  compile_optional (some pattern) = do regex ← compile_pattern pattern; good (some regex)

  compile_header : Option HeaderMatcherRaw → Checked (Option (Text × Regex))
  unfolding compile_pattern
  compile_header none = good none
  compile_header (some header) = do
    regex ← compile_pattern header.pattern
    good (some (to_ascii_lowercase header.name, regex))

  -- `CompiledFingerprint::compile`.
  unfoldable pub compile : FingerprintEntryRaw → Checked CompiledFingerprint
  unfolding compile_optional compile_header
  compile entry = do
    header ← compile_header entry.matchers.header
    body_pattern ← compile_optional entry.matchers.body_pattern
    tls_subject_pattern ← compile_optional entry.matchers.tls_subject_pattern
    banner_pattern ← compile_optional entry.matchers.banner_pattern
    version_capture ← compile_optional entry.matchers.version_capture
    (if is_none header
          && is_none entry.matchers.body_prefix
          && is_none body_pattern
          && is_none tls_subject_pattern
          && is_none banner_pattern
          && is_none entry.matchers.alpn
        then bad (no_matchers entry.name)
        else good (record {
          name = entry.name;
          category = entry.category;
          confidence = entry.confidence;
          header = header;
          body_prefix = entry.matchers.body_prefix;
          body_pattern = body_pattern;
          tls_subject_pattern = tls_subject_pattern;
          banner_pattern = banner_pattern;
          alpn = entry.matchers.alpn;
          version_capture = version_capture;
        }))

  -- `build_catalogue`, from the entries of the file: what does not compile is dropped.
  unfoldable pub build_catalogue : List FingerprintEntryRaw → List CompiledFingerprint
  unfolding compile
  build_catalogue [] = []
  build_catalogue (entry ∷ l) = elim (compile entry) [
    | bad e ↦ build_catalogue l
    | good c ↦ c ∷ build_catalogue l
  ]

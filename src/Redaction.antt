-- ===== src/Redaction.antt =====
-- Redaction of secrets: crates/anne-de-breuil/src/domain/redaction.rs. The regular expressions are
-- a library's: `compile` stands for `Regex::new`, and a compiled pattern for its `find_iter`, which
-- gives the spans of the matches in an input.
pub mod Claims
pub mod Matches
pub mod TakenOut
pub mod Output
use anne_de_breuil.Prelude.{
  ℕ, zero, suc, ◌+◌, ◌-◌, ◌*◌, ◌/◌, ◌%◌, ◌^◌, ◌≤◌, ◌<◌, ◌≡◌, refl, sym, ap, ◌∙◌, subst, ◌≢◌, ◌↔◌,
  ◌⊎◌, inl, inr, Bool, true, false, not, ◌&&◌, ◌||◌, Option, none, some, List, [], ◌∷◌, ◌++◌, map,
  arith, ltb, leb, ◌==◌, if◌then◌else◌, ==_iff, ==_refl, Bool-cases, Option-cases, Bool-ext, length,
  take, drop, is_empty, all, filter, find?, any, length-append, In, All, Eq, ◌≟◌, ≟→eq, ≟_refl,
  ℕ_discrete,
}
use anne_de_breuil.Bytes.{Bytes, slice}
use anne_de_breuil.Text.{Text, codes}
use anne_de_breuil.Sort.{sort_by}

pub data SecretCategory : Type 0 where
  password_assignment : SecretCategory
  connection_string_password : SecretCategory
  bearer_token : SecretCategory
  pem_block : SecretCategory
  aws_key_id : SecretCategory
  high_entropy_token : SecretCategory

-- `{category:?}`.
unfoldable pub category_debug : SecretCategory → Text
category_debug password_assignment = codes "PasswordAssignment"
category_debug connection_string_password = codes "ConnectionStringPassword"
category_debug bearer_token = codes "BearerToken"
category_debug pem_block = codes "PemBlock"
category_debug aws_key_id = codes "AwsKeyId"
category_debug high_entropy_token = codes "HighEntropyToken"

pub record Redacted : Type 0 where
  pub inner : Option Bytes
  pub category : SecretCategory
  pub offset : ℕ

abbrev pub raw_patterns : List (Text × SecretCategory)
raw_patterns =
    (codes "-----BEGIN [A-Z ]+-----", pem_block)
    ∷ (codes "AKIA[0-9A-Z]{16}", aws_key_id)
    ∷ (codes "(?i)bearer\\s+[A-Za-z0-9\\-._~+/]+=*", bearer_token)
    ∷ (codes "(?i)password\\s*=\\s*[^;\\s]+;", connection_string_password)
    ∷ (codes "(?i)\\bpassword\\s*=\\s*\\S+", password_assignment)
    ∷ (codes "(?i)\\bpwd\\s*[:=]\\s*\\S+", password_assignment)
    ∷ (codes "[A-Za-z0-9+/]{40,}={0,2}", high_entropy_token)
    ∷ []

-- A match, from its start to its end.
pub record Span : Type 0 where
  pub start : ℕ
  pub end : ℕ

abbrev pub FindIter : Type 0
FindIter = Bytes → List Span

-- `filter_map` over the raw patterns: what does not compile is dropped.
unfoldable pub compile_all :
    (Text → Option FindIter) → List (Text × SecretCategory) → List (FindIter × SecretCategory)
compile_all compile [] = []
compile_all compile (p ∷ l) = elim (compile p.0) [
  | none ↦ compile_all compile l
  | some regex ↦ (regex, p.1) ∷ compile_all compile l
]

unfoldable pub secret_patterns : (Text → Option FindIter) → List (FindIter × SecretCategory)
unfolding compile_all
secret_patterns compile = compile_all compile raw_patterns

abbrev pub ranges_overlap : ℕ → ℕ → ℕ → ℕ → Bool
ranges_overlap a_start a_end b_start b_end = ltb a_start b_end && ltb b_start a_end

pub record Claim : Type 0 where
  pub start : ℕ
  pub end : ℕ
  pub category : SecretCategory

abbrev pub overlaps : Span → Claim → Bool
overlaps s c = ranges_overlap s.start s.end c.start c.end

-- One candidate: skipped if it overlaps a claimed span, else claimed.
unfoldable pub claim_one : SecretCategory → Span → List Claim → List Claim
claim_one category s claimed =
    if any (overlaps s) claimed
    then claimed
    else claimed ++ (record { start = s.start; end = s.end; category = category } ∷ [])

-- The candidates of one pattern.
unfoldable pub claim_spans : SecretCategory → List Span → List Claim → List Claim
unfolding claim_one
claim_spans category [] claimed = claimed
claim_spans category (s ∷ l) claimed = claim_spans category l (claim_one category s claimed)

-- The candidates of every pattern, in the order of the patterns.
unfoldable pub claim_all : List (FindIter × SecretCategory) → Bytes → List Claim → List Claim
unfolding claim_spans
claim_all [] input claimed = claimed
claim_all (p ∷ l) input claimed = claim_all l input (claim_spans p.1 (p.0 input) claimed)

-- The claimed spans after the sort by start.
unfoldable pub claims : List (FindIter × SecretCategory) → Bytes → List Claim
unfolding claim_all
claims patterns input = sort_by (λ (a b : Claim). leb a.start b.start) (claim_all patterns input [])

-- `slice`: nothing where the range is none of the input. The ends of matches lie between
-- characters, so `str::get`'s test of that is left out.
unfoldable pub slice_or_empty : Bytes → ℕ → ℕ → Bytes
slice_or_empty input start end = elim (slice input start end) [ none ↦ [] | some s ↦ s ]

-- `[REDACTED:{category:?}]`.
unfoldable pub replacement : SecretCategory → Bytes
unfolding category_debug
replacement category = codes "[REDACTED:" ++ (category_debug category ++ codes "]")

-- The loop that writes the output, from a cursor on.
unfoldable pub write_out : Bytes → ℕ → List Claim → Bytes
unfolding slice_or_empty replacement
write_out input cursor [] = slice_or_empty input cursor (length input)
write_out input cursor (c ∷ l) =
    slice_or_empty input cursor c.start ++ (replacement c.category ++ write_out input c.end l)

abbrev pub marker_of : Claim → Redacted
marker_of c = record { inner = none; category = c.category; offset = c.start }

unfoldable pub redact : (Text → Option FindIter) → Bytes → Bytes × List Redacted
unfolding claims write_out secret_patterns
redact compile input =
    let claimed = claims (secret_patterns compile) input in
    (write_out input 0 claimed, map marker_of claimed)

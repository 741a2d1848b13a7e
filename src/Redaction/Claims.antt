-- ===== src/Redaction/Claims.antt =====
-- Which spans `redact` claims (crates/anne-de-breuil/src/domain/redaction.rs).
use anne_de_breuil.Prelude.{
  All-append, ℕ, ◌≤◌, ◌<◌, ◌≡◌, inl, inr, Bool, false, List, [], ◌∷◌, ◌++◌, arith, leb, Bool-cases,
  length, any, All,
}
use anne_de_breuil.Redaction.{
  SecretCategory, Span, Claim, FindIter, ranges_overlap, overlaps, claim_one, claim_spans,
  claim_all, claims,
}
use anne_de_breuil.Bytes.{Bytes}
use anne_de_breuil.Sort.{sort_by, insert_by}
use anne_de_breuil.Sort.Contents.{sort_by-All}
use anne_de_breuil.Prelude.{All-append}

-- Two claims share no position.
abbrev pub Apart : Claim → Claim → Type 0
Apart c d = ranges_overlap c.start c.end d.start d.end ≡ false

abbrev AllApart : List Claim → Type 0
AllApart [] = Unit {0}
AllApart (c ∷ l) = All (λ d. Apart c d) l × AllApart l

-- What every span of a library of patterns obeys: it is not empty, and ends in the input.
abbrev pub IsSpanOf : Bytes → Span → Type 0
IsSpanOf input s = (s.start < s.end) × (s.end ≤ length input)

abbrev pub Matches : Bytes → List (FindIter × SecretCategory) → Type 0
Matches input [] = Unit {0}
Matches input (p ∷ l) = All (IsSpanOf input) (p.0 input) × Matches input l

-- Claims in the order of the input, from `lo` on, none empty and none beyond `hi`.
abbrev pub Chain : ℕ → ℕ → List Claim → Type 0
Chain lo hi [] = Unit {0}
Chain lo hi (c ∷ l) = (lo ≤ c.start) × (c.start < c.end) × (c.end ≤ hi) × Chain c.end hi l

abbrev IsClaimIn : Bytes → Claim → Type 0
IsClaimIn input c = (c.start < c.end) × (c.end ≤ length input)

Apart-sym : (c d : Claim) → Apart c d → Apart d c
Apart-sym c d h = ground arith

All-Apart-last :
    (c d : Claim) (l : List Claim)
    → All (λ x. Apart c x) l
    → Apart c d
    → All (λ x. Apart c x) (l ++ (d ∷ []))
All-Apart-last c d l h k = All-append (λ x. Apart c x) l (d ∷ []) h (k, tt)

AllApart-last :
    (s : Span) (category : SecretCategory) (l : List Claim)
    → any (overlaps s) l ≡ false
    → AllApart l
    → AllApart (l ++ (record { start = s.start; end = s.end; category = category } ∷ []))
AllApart-last s category [] h k = (tt, tt)
AllApart-last s category (c ∷ l) h k = (
  All-Apart-last c (record { start = s.start; end = s.end; category = category }) l k.0
      (ground arith),
  AllApart-last s category l (ground arith) k.1,
)

claim_one-AllApart :
    (category : SecretCategory) (s : Span) (l : List Claim)
    → AllApart l
    → AllApart (claim_one category s l)
unfolding claim_one
claim_one-AllApart category s l h = elim (Bool-cases (any (overlaps s) l)) [
  | inl e ↦ rw e h
  | inr e ↦ rw e (AllApart-last s category l e h)
]

claim_one-All :
    (input : Bytes) (category : SecretCategory) (s : Span) (l : List Claim)
    → IsSpanOf input s
    → All (IsClaimIn input) l
    → All (IsClaimIn input) (claim_one category s l)
unfolding claim_one
claim_one-All input category s l h k = elim (Bool-cases (any (overlaps s) l)) [
  | inl e ↦ rw e k
  | inr e ↦ rw e (All-append (IsClaimIn input) l _ k (h, tt))
]

claim_spans-AllApart :
    (category : SecretCategory) (ss : List Span) (l : List Claim)
    → AllApart l
    → AllApart (claim_spans category ss l)
unfolding claim_spans
claim_spans-AllApart category [] l h = h
claim_spans-AllApart category (s ∷ ss) l h =
    claim_spans-AllApart category ss (claim_one category s l) (claim_one-AllApart category s l h)

claim_spans-All :
    (input : Bytes) (category : SecretCategory) (ss : List Span) (l : List Claim)
    → All (IsSpanOf input) ss
    → All (IsClaimIn input) l
    → All (IsClaimIn input) (claim_spans category ss l)
unfolding claim_spans
claim_spans-All input category [] l h k = k
claim_spans-All input category (s ∷ ss) l h k =
    claim_spans-All input category ss (claim_one category s l) h.1
      (claim_one-All input category s l h.0 k)

claim_all-AllApart :
    (ps : List (FindIter × SecretCategory)) (input : Bytes) (l : List Claim)
    → AllApart l
    → AllApart (claim_all ps input l)
unfolding claim_all
claim_all-AllApart [] input l h = h
claim_all-AllApart (p ∷ ps) input l h =
    claim_all-AllApart ps input _ (claim_spans-AllApart p.1 (p.0 input) l h)

claim_all-All :
    (ps : List (FindIter × SecretCategory)) (input : Bytes) (l : List Claim)
    → Matches input ps
    → All (IsClaimIn input) l
    → All (IsClaimIn input) (claim_all ps input l)
unfolding claim_all
claim_all-All [] input l h k = k
claim_all-All (p ∷ ps) input l h k =
    claim_all-All ps input _ h.1 (claim_spans-All input p.1 (p.0 input) l h.0 k)

abbrev pub earlier : Claim → Claim → Bool
earlier a b = leb a.start b.start

-- A claim apart from the others of a chain goes in without breaking it.
insert-Chain :
    (lo hi : ℕ) (c : Claim) (l : List Claim)
    → lo ≤ c.start
    → c.start < c.end
    → c.end ≤ hi
    → All (λ d. Apart c d) l
    → Chain lo hi l
    → Chain lo hi (insert_by earlier c l)
unfolding insert_by
insert-Chain lo hi c [] a b d h k = (a, b, d, tt)
insert-Chain lo hi c (x ∷ l) a b d h k = elim (Bool-cases (earlier c x)) [
  | inl e ↦ rw e (a, b, d, (ground arith, k.1, k.2, k.3))
  | inr e ↦ rw e (k.0, k.1, k.2, insert-Chain x.end hi c l (ground arith) b d h.1 k.3)
]

sort-Chain :
    (input : Bytes) (l : List Claim)
    → AllApart l
    → All (IsClaimIn input) l
    → Chain 0 (length input) (sort_by earlier l)
unfolding sort_by
sort-Chain input [] h k = tt
sort-Chain input (c ∷ l) h k =
    insert-Chain 0 (length input) c (sort_by earlier l) (omega arith) k.0.0 k.0.1
      (sort_by-All earlier (λ d. Apart c d) l h.0) (sort-Chain input l h.1 k.1)

-- If every match of the patterns is a span of the input that is not empty, the claims of `redact`
-- stand in the order of the input, none is empty, no two overlap and none goes beyond the end.
pub claims-Chain :
    (patterns : List (FindIter × SecretCategory)) (input : Bytes)
    → Matches input patterns
    → Chain 0 (length input) (claims patterns input)
unfolding claims
claims-Chain patterns input h =
    sort-Chain input (claim_all patterns input []) (claim_all-AllApart patterns input [] tt)
      (claim_all-All patterns input [] h tt)

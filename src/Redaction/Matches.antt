-- ===== src/Redaction/Matches.antt =====
-- Which matches become claims of `redact` (crates/anne-de-breuil/src/domain/redaction.rs).
use anne_de_breuil.Prelude.{
  ◌<◌, ◌≡◌, refl, sym, ◌∙◌, subst, inl, inr, Bool, true, List, [], ◌∷◌, arith, Bool-cases, any, In,
  All,
}
use anne_de_breuil.Prelude.{any_append, All-append, All-In}
use anne_de_breuil.Redaction.{
  SecretCategory, Span, Claim, FindIter, overlaps, claim_one, claim_spans, claim_all, claims,
}
use anne_de_breuil.Bytes.{Bytes}
use anne_de_breuil.Sort.Contents.{sort_by-All, sort_by-any}
use anne_de_breuil.Redaction.Claims.{earlier}

-- A claim once made stays.
claim_one-any :
    (p : Claim → Bool) (category : SecretCategory) (s : Span) (l : List Claim)
    → any p l ≡ true
    → any p (claim_one category s l) ≡ true
unfolding claim_one
claim_one-any p category s l h = elim (Bool-cases (any (overlaps s) l)) [
  | inl e ↦ rw e h
  | inr e ↦ rw (e, any_append p l _, h)
]

claim_spans-any :
    (p : Claim → Bool) (category : SecretCategory) (ss : List Span) (l : List Claim)
    → any p l ≡ true
    → any p (claim_spans category ss l) ≡ true
unfolding claim_spans
claim_spans-any p category [] l h = h
claim_spans-any p category (s ∷ ss) l h =
    claim_spans-any p category ss _ (claim_one-any p category s l h)

claim_all-any :
    (p : Claim → Bool) (ps : List (FindIter × SecretCategory)) (input : Bytes) (l : List Claim)
    → any p l ≡ true
    → any p (claim_all ps input l) ≡ true
unfolding claim_all
claim_all-any p [] input l h = h
claim_all-any p (q ∷ ps) input l h =
    claim_all-any p ps input _ (claim_spans-any p q.1 (q.0 input) l h)

-- After its turn, a span that is not empty meets a claim: its own, or an earlier one.
claim_one-overlaps :
    (category : SecretCategory) (s : Span) (l : List Claim)
    → s.start < s.end
    → any (overlaps s) (claim_one category s l) ≡ true
unfolding claim_one
claim_one-overlaps category s l h = elim (Bool-cases (any (overlaps s) l)) [
  | inl e ↦ rw e e
  | inr e ↦ rw (e, any_append (overlaps s) l _) (ground arith)
]

claim_spans-overlaps :
    (category : SecretCategory) (s : Span) (ss : List Span) (l : List Claim)
    → In s ss
    → s.start < s.end
    → any (overlaps s) (claim_spans category ss l) ≡ true
unfolding claim_spans
claim_spans-overlaps category s [] l m h = absurd m
claim_spans-overlaps category s (t ∷ ss) l (inl m) h =
    claim_spans-any (overlaps s) category ss _ (rw (sym m) (claim_one-overlaps category s l h))
claim_spans-overlaps category s (t ∷ ss) l (inr m) h = claim_spans-overlaps category s ss _ m h

claim_all-overlaps :
    (ps : List (FindIter × SecretCategory)) (input : Bytes) (p : FindIter × SecretCategory)
    (s : Span) (l : List Claim)
    → In p ps
    → In s (p.0 input)
    → s.start < s.end
    → any (overlaps s) (claim_all ps input l) ≡ true
unfolding claim_all
claim_all-overlaps [] input p s l m n h = absurd m
claim_all-overlaps (q ∷ ps) input p s l (inl m) n h =
    claim_all-any (overlaps s) ps input _
      (claim_spans-overlaps q.1 s (q.0 input) l (subst (λ z. In s (z.0 input)) m n) h)
claim_all-overlaps (q ∷ ps) input p s l (inr m) n h = claim_all-overlaps ps input p s _ m n h

-- Whatever is claimed first, every match of every pattern that is not empty overlaps a claim.
pub claims-overlaps :
    (patterns : List (FindIter × SecretCategory)) (input : Bytes) (p : FindIter × SecretCategory)
    (s : Span)
    → In p patterns
    → In s (p.0 input)
    → s.start < s.end
    → any (overlaps s) (claims patterns input) ≡ true
unfolding claims
claims-overlaps patterns input p s m n h =
    sort_by-any earlier (overlaps s) (claim_all patterns input [])
    ∙ claim_all-overlaps patterns input p s [] m n h

-- Where a claim comes from: a match of a pattern, under the pattern's category.
abbrev pub IsMatch : List (FindIter × SecretCategory) → Bytes → Claim → Type 0
IsMatch patterns input c =
    (p : FindIter × SecretCategory) × In p patterns
    × In (record { start = c.start; end = c.end }) (p.0 input)
    × (p.1 ≡ c.category)

module _ (patterns : List (FindIter × SecretCategory)) (input : Bytes) where
  claim_spans-IsMatch :
      (p : FindIter × SecretCategory) (ss : List Span) (l : List Claim)
      → In p patterns
      → ((s : Span) → In s ss → In s (p.0 input))
      → All (IsMatch patterns input) l
      → All (IsMatch patterns input) (claim_spans p.1 ss l)
  unfolding claim_spans claim_one
  claim_spans-IsMatch p [] l m n h = h
  claim_spans-IsMatch p (s ∷ ss) l m n h = elim (Bool-cases (any (overlaps s) l)) [
    | inl e ↦ rw e (claim_spans-IsMatch p ss l m (λ t i. n t (inr i)) h)
    | inr e ↦ rw e (
        claim_spans-IsMatch p ss _ m (λ t i. n t (inr i))
          (All-append (IsMatch patterns input) l _ h ((p, m, n s (inl refl), refl), tt)))
  ]

  claim_all-IsMatch :
      (ps : List (FindIter × SecretCategory)) (l : List Claim)
      → ((p : FindIter × SecretCategory) → In p ps → In p patterns)
      → All (IsMatch patterns input) l
      → All (IsMatch patterns input) (claim_all ps input l)
  unfolding claim_all
  claim_all-IsMatch [] l m h = h
  claim_all-IsMatch (p ∷ ps) l m h =
      claim_all-IsMatch ps _ (λ q i. m q (inr i))
        (claim_spans-IsMatch p (p.0 input) l (m p (inl refl)) (λ s i. i) h)

-- Every claim is a match of one of the patterns, under that pattern's category.
pub claims-IsMatch :
    (patterns : List (FindIter × SecretCategory)) (input : Bytes) (c : Claim)
    → In c (claims patterns input)
    → IsMatch patterns input c
unfolding claims
claims-IsMatch patterns input c m =
    All-In (IsMatch patterns input) c _
      (sort_by-All earlier (IsMatch patterns input) (claim_all patterns input [])
        (claim_all-IsMatch patterns input patterns [] (λ p i. i) tt))
      m

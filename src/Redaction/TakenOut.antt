-- ===== src/Redaction/TakenOut.antt =====
-- What of a match `redact` takes out (crates/anne-de-breuil/src/domain/redaction.rs).
use anne_de_breuil.Prelude.{
  ℕ, zero, suc, ◌+◌, ◌≤◌, ◌<◌, ◌≡◌, refl, ◌∙◌, subst, inl, inr, true, Option, List, [], ◌∷◌, ◌++◌,
  arith, Bool-cases, length, take, drop, any, In, leb, All-In,
}
use mathlib.Core.List.{append_assoc}
use anne_de_breuil.Bytes.{Bytes}
use anne_de_breuil.Text.{Text}
use anne_de_breuil.Redaction.{
  SecretCategory, Span, Claim, FindIter, overlaps, claims, secret_patterns, redact,
}
use anne_de_breuil.Redaction.Claims.{Chain, IsSpanOf, Matches, claims-Chain}
use anne_de_breuil.Redaction.Matches.{claims-overlaps}
use anne_de_breuil.Redaction.Output.{covers, in_place_of, rewritten, redact-rewritten}

-- A claim that overlaps a span covers one of its positions.
overlaps-covers :
    (s : Span) (lo hi : ℕ) (cl : List Claim)
    → Chain lo hi cl
    → s.start < s.end
    → any (overlaps s) cl ≡ true
    → (i : ℕ) × (s.start ≤ i) × (i < s.end) × (i < hi) × (any (covers i) cl ≡ true)
overlaps-covers s lo hi [] h k o = cc
overlaps-covers s lo hi (c ∷ cl) h k o = elim (Bool-cases (overlaps s c)) [
  | inr z ↦
      let (i, a, b, d, e) = overlaps-covers s c.end hi cl h.3 k (ground (arith, o, z)) in
      (i, a, b, d, ground (arith, e))
  | inl z ↦ elim (Bool-cases (leb s.start c.start)) [
    | inl y ↦ (
      c.start,
      ground (arith, y),
      ground (arith, z),
      omega (arith, h.1, h.2),
      ground (arith, h.1),
    )
    | inr y ↦ (s.start, omega arith, k, ground (arith, z, h.2), ground (arith, y, z))
  ]
]

Matches-In :
    (input : Bytes) (l : List (FindIter × SecretCategory)) (p : FindIter × SecretCategory)
    (s : Span)
    → Matches input l
    → In p l
    → In s (p.0 input)
    → s.start < s.end
Matches-In input [] p s h m n = absurd m
Matches-In input (q ∷ l) p s h (inl m) n =
    (All-In (IsSpanOf input) s (q.0 input) h.0 (subst (λ z. In s (z.0 input)) m n)).0
Matches-In input (q ∷ l) p s h (inr m) n = Matches-In input l p s h.1 m n

-- The rewriting at a covered position, and in front of it and behind it.
rewritten-split :
    (cl : List Claim) (k i m : ℕ) (s : Bytes)
    → k + i ≡ m
    → i < length s
    → any (covers m) cl ≡ true
    → rewritten cl k s
      ≡ rewritten cl k (take i s) ++ (in_place_of m cl ++ rewritten cl (suc m) (drop (suc i) s))
unfolding rewritten
rewritten-split cl k i m [] q h e = ground arith
rewritten-split cl k zero m (b ∷ s) q h e = let same : k ≡ m = omega (arith, q) in rw (same, e) refl
rewritten-split cl k (suc i) m (b ∷ s) q h e =
    let rest = rewritten-split cl (suc k) i m s (omega (arith, q)) (omega (arith, h)) e in
    elim (Bool-cases (any (covers k) cl)) [
      | inl z ↦ rw (z, rest, append_assoc (in_place_of k cl)) refl
      | inr z ↦ rw (z, rest) refl
    ]

-- At one position of the span at least, the output has what stands in place of that byte by the claims
-- (a marker or nothing), between what it has for the bytes in front and behind.
abbrev pub TakenOut : (Text → Option FindIter) → Bytes → Span → Type 0
TakenOut compile input s =
    let cl = claims (secret_patterns compile) input in
    (i : ℕ) × (s.start ≤ i)
    × (i < s.end)
    × (i < length input)
    × ((redact compile input).0
        ≡ rewritten cl 0 (take i input)
          ++ (in_place_of i cl ++ rewritten cl (suc i) (drop (suc i) input)))

-- If every match of the patterns is a span of the input that is not empty, then of every match of
-- every pattern `redact` takes out a part: the output has, at one position of the match at least,
-- what stands in place of that byte by the claims, a marker or nothing, between what it has for the
-- bytes in front of it and behind it.
pub redact-TakenOut :
    (compile : Text → Option FindIter) (input : Bytes) (p : FindIter × SecretCategory) (s : Span)
    → Matches input (secret_patterns compile)
    → In p (secret_patterns compile)
    → In s (p.0 input)
    → TakenOut compile input s
redact-TakenOut compile input p s h m n =
    let patterns = secret_patterns compile in
    let k = Matches-In input patterns p s h m n in
    let cl = claims patterns input in
    let (i, a, b, d, e) =
      overlaps-covers s 0 (length input) cl (claims-Chain patterns input h) k
        (claims-overlaps patterns input p s m n k) in
    (
      i,
      a,
      b,
      d,
      redact-rewritten compile input h ∙ rewritten-split cl 0 i i input (omega arith) d e,
    )

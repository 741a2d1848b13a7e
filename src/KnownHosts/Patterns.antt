-- ===== src/KnownHosts/Patterns.antt =====
-- What host patterns mean: `glob_match_bytes` and `host_pattern_matches` of
-- crates/anne-de-breuil/src/adapters/ssh_transport/known_hosts.rs.
use anne_de_breuil.Prelude.{
  Option, any_iff-In, &&_iff, any-In, ℕ, ◌≡◌, refl, sym, ap, ◌∙◌, ◌≢◌, ◌↔◌, ◌⊎◌, inl, inr, Bool,
  true, false, not, ◌&&◌, ◌||◌, List, [], ◌∷◌, ◌++◌, arith, ◌==◌, if◌then◌else◌, Bool-cases, any,
  In,
}
use anne_de_breuil.Bytes.{Bytes}
use anne_de_breuil.KnownHosts.{
  host_pattern_matches, patterns, patterns_from, glob_match_bytes, strip_negation,
}

-- What a pattern matches: a star any run of bytes, a question mark any byte, others themselves.
abbrev pub Matches : Bytes → Bytes → Type 0
Matches [] text = text ≡ []
Matches (c ∷ pattern) text =
    ((c ≡ b'*') × ((run : Bytes) × (rest : Bytes) × (text ≡ run ++ rest) × Matches pattern rest))
    ⊎ ((c ≢ b'*')
        × ((d : ℕ) × (rest : Bytes) × (text ≡ d ∷ rest)
            × ((c ≡ b'?') ⊎ (c ≡ d))
            × Matches pattern rest))

star_grows : (c d : ℕ) (p t : Bytes) → c ≡ b'*' → Matches (c ∷ p) t → Matches (c ∷ p) (d ∷ t)
star_grows c d p t star (inl (_, (run, rest, e, m))) = inl (star, (d ∷ run, rest, ap (◌∷◌ d) e, m))
star_grows c d p t star (inr (n, _)) = absurd (n star)

-- The tests of the last case, in turn.
data GlobStep (c d : ℕ) (p t : Bytes) : Type 0 where
  skip : c ≡ b'*' → glob_match_bytes p (d ∷ t) ≡ true → GlobStep c d p t
  eat : c ≡ b'*' → glob_match_bytes (c ∷ p) t ≡ true → GlobStep c d p t
  same : c ≢ b'*' → (c ≡ b'?') ⊎ (c ≡ d) → glob_match_bytes p t ≡ true → GlobStep c d p t

GlobStep-of : (c d : ℕ) (p t : Bytes) → glob_match_bytes (c ∷ p) (d ∷ t) ≡ true → GlobStep c d p t
unfolding glob_match_bytes
GlobStep-of c d p t h = elim (Bool-cases (c == b'*')) [
  | inl e ↦ elim (Bool-cases (glob_match_bytes p (d ∷ t))) [
    | inl f ↦ skip (ground arith) f
    | inr f ↦ eat (ground arith) (ground arith)
  ]
  | inr e ↦ same (ground arith) (ground arith) (ground arith)
]

glob-Matches : (pattern text : Bytes) → glob_match_bytes pattern text ≡ true → Matches pattern text
unfolding glob_match_bytes
glob-Matches [] [] h = refl
glob-Matches [] (d ∷ t) h = ground arith
glob-Matches (c ∷ p) [] h = inl (ground arith, ([], [], refl, glob-Matches p [] (ground arith)))
glob-Matches (c ∷ p) (d ∷ t) h = elim (GlobStep-of c d p t h) [
  | skip star f ↦ inl (star, ([], d ∷ t, refl, glob-Matches p (d ∷ t) f))
  | eat star f ↦ star_grows c d p t star (glob-Matches (c ∷ p) t f)
  | same n k f ↦ inr (n, (d, t, refl, k, glob-Matches p t f))
]

run_matches :
    (p run rest : Bytes)
    → glob_match_bytes p rest ≡ true
    → glob_match_bytes (b'*' ∷ p) (run ++ rest) ≡ true
unfolding glob_match_bytes
run_matches p [] [] h = ground arith
run_matches p [] (d ∷ rest) h = ground arith
run_matches p (d ∷ run) rest h = ground (arith, run_matches p run rest h)

same_matches :
    (c d : ℕ) (p t : Bytes)
    → c ≢ b'*'
    → (c ≡ b'?') ⊎ (c ≡ d)
    → glob_match_bytes p t ≡ true
    → glob_match_bytes (c ∷ p) (d ∷ t) ≡ true
unfolding glob_match_bytes
same_matches c d p t n k m = ground arith

Matches-glob : (pattern text : Bytes) → Matches pattern text → glob_match_bytes pattern text ≡ true
unfolding glob_match_bytes
Matches-glob [] text h = rw h refl
Matches-glob (c ∷ p) text (inl (star, (run, rest, e, m))) =
    rw (star, e) (run_matches p run rest (Matches-glob p rest m))
Matches-glob (c ∷ p) text (inr (n, (d, rest, e, k, m))) =
    rw e (same_matches c d p rest n k (Matches-glob p rest m))

-- `glob_match_bytes` matches exactly if each star can stand for a run of bytes, each question mark
-- for one byte, and each other byte for itself, so that the text comes out.
pub glob_match_bytes_iff :
    (pattern text : Bytes) → (glob_match_bytes pattern text ≡ true) ↔ Matches pattern text
glob_match_bytes_iff pattern text = (glob-Matches pattern text, Matches-glob pattern text)

-- A pattern of a list that matches, with a `!` or without one.
abbrev hits : Bool → Bytes → Bytes → Bool
hits negate host raw =
    (if negate then (strip_negation raw).0 else not (strip_negation raw).0)
    && glob_match_bytes (strip_negation raw).1 host

patterns_from-any :
    (matched : Bool) (list : List Bytes) (host : Bytes)
    → patterns_from matched list host
      ≡ ((matched || any (hits false host) list) && not (any (hits true host) list))
unfolding patterns_from
patterns_from-any matched [] host = ground arith
patterns_from-any matched (raw ∷ list) host =
    ground (arith, patterns_from-any true list host, patterns_from-any matched list host)

abbrev pub Hits : Bool → Bytes → Bytes → Type 0
Hits negate host raw = ((strip_negation raw).0 ≡ negate) × Matches (strip_negation raw).1 host

hits_iff : (negate : Bool) (host raw : Bytes) → (hits negate host raw ≡ true) ↔ Hits negate host raw
hits_iff negate host raw = ground (arith, glob_match_bytes_iff (strip_negation raw).1 host)

not-any :
    (negate : Bool) (list : List Bytes) (host : Bytes)
    → not (any (hits negate host) list) ≡ true
      ↔ ((raw : Bytes) → In raw list → ¬ Hits negate host raw)
not-any negate list host = (
  (λ h raw m k.
      ground (arith, any-In (hits negate host) raw list m ((hits_iff negate host raw).1 k))),
  (λ h. elim (Bool-cases (any (hits negate host) list)) [
    | inl e ↦
        let (raw, m, q) = any_iff-In (hits negate host) list e in
        absurd (h raw m ((hits_iff negate host raw).0 q))
    | inr e ↦ rw e refl
  ]),
)

patterns_from_iff :
    (list : List Bytes) (host : Bytes)
    → (patterns_from false list host ≡ true) ↔ (
        ((raw : Bytes) × In raw list × Hits false host raw)
        × ((raw : Bytes) → In raw list → ¬ Hits true host raw))
patterns_from_iff list host =
    let e = patterns_from-any false list host in
    (
      (λ h.
          let (plain, none_negated) =
            (&&_iff (any (hits false host) list) (not (any (hits true host) list))).0 (sym e ∙ h) in
          let (raw, m, q) = any_iff-In (hits false host) list plain in
          ((raw, m, (hits_iff false host raw).0 q), (not-any true list host).0 none_negated)),
      (λ ((raw, m, k), n).
          e
          ∙ (&&_iff (any (hits false host) list) (not (any (hits true host) list))).1 (
            any-In (hits false host) raw list m ((hits_iff false host raw).1 k),
            (not-any true list host).1 n,
          )),
    )

-- A list of patterns accepts a host exactly if a plain one of them matches it and no negated one
-- does, in whatever order they stand.
pub host_pattern_matches_iff :
    (hmac : Bytes → Bytes → Option Bytes) (list : List Bytes) (host : Bytes)
    → (host_pattern_matches hmac (patterns list) host ≡ true) ↔ (
        ((raw : Bytes) × In raw list × Hits false host raw)
        × ((raw : Bytes) → In raw list → ¬ Hits true host raw))
unfolding host_pattern_matches
host_pattern_matches_iff hmac list host = patterns_from_iff list host

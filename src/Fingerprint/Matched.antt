-- ===== src/Fingerprint/Matched.antt =====
-- What the matchers of a fingerprint leave (crates/anne-de-breuil/src/domain/fingerprint.rs).
use anne_de_breuil.Prelude.{◌≡◌, ◌⊎◌, inl, inr, Bool, true, Option, none, some, List, [], In}
use anne_de_breuil.Identity.{Evidence, Evidence-eq}
use anne_de_breuil.Fingerprint.{
  CompiledFingerprint, header_hits, prefix_hits, body_hits, subject_hits, banner_hits, alpn_hits,
  run_matcher, matched_by,
}
use anne_de_breuil.Fingerprint.Pushed.{
  Distinct, push_hits-Distinct, In-push_hits, hit-push_hits, push_hits-In,
}

-- An item that a matcher hits, if the entry has the matcher.
abbrev pub HitBy : {M : Type 0} → Option M → (M → Evidence → Bool) → Evidence → Type 0
HitBy none hits e = ⊥
HitBy (some m) hits e = hits m e ≡ true

-- An item that one of the entry's matchers hits.
abbrev pub Hit : CompiledFingerprint → Evidence → Type 0
Hit entry e =
    HitBy entry.header header_hits e
    ⊎ (HitBy entry.body_prefix prefix_hits e
        ⊎ (HitBy entry.body_pattern body_hits e
            ⊎ (HitBy entry.tls_subject_pattern subject_hits e
                ⊎ (HitBy entry.banner_pattern banner_hits e ⊎ HitBy entry.alpn alpn_hits e))))

module _ {M : Type 0} (hits : M → Evidence → Bool) (l : List Evidence) where
  run_matcher-Distinct :
      (o : Option M) (m : List Evidence) → Distinct m → Distinct (run_matcher o hits l m)
  unfolding run_matcher
  run_matcher-Distinct none m d = d
  run_matcher-Distinct (some p) m d = push_hits-Distinct (hits p) l m d

  In-run_matcher :
      (o : Option M) (m : List Evidence) (e : Evidence) → In e m → In e (run_matcher o hits l m)
  unfolding run_matcher
  In-run_matcher none m e k = k
  In-run_matcher (some p) m e k = In-push_hits (hits p) l m e k

  HitBy-run_matcher :
      (o : Option M) (m : List Evidence) (e : Evidence)
      → In e l
      → HitBy o hits e
      → In e (run_matcher o hits l m)
  unfolding run_matcher
  HitBy-run_matcher none m e k h = absurd h
  HitBy-run_matcher (some p) m e k h = hit-push_hits (hits p) l m e k h

  run_matcher-HitBy :
      (o : Option M) (m : List Evidence) (e : Evidence)
      → In e (run_matcher o hits l m)
      → In e m ⊎ (In e l × HitBy o hits e)
  unfolding run_matcher
  run_matcher-HitBy none m e k = inl k
  run_matcher-HitBy (some p) m e k = push_hits-In (hits p) l m e k

module _ (entry : CompiledFingerprint) (l : List Evidence) where
  pub matched_by-Distinct : Distinct (matched_by entry l)
  unfolding matched_by
  matched_by-Distinct = run_matcher-Distinct alpn_hits l entry.alpn _ (
      run_matcher-Distinct banner_hits l entry.banner_pattern _ (
        run_matcher-Distinct subject_hits l entry.tls_subject_pattern _ (
          run_matcher-Distinct body_hits l entry.body_pattern _ (
            run_matcher-Distinct prefix_hits l entry.body_prefix _
              (run_matcher-Distinct header_hits l entry.header [] tt)))))

  pub matched_by-Hit : (e : Evidence) → In e (matched_by entry l) → In e l × Hit entry e
  unfolding matched_by
  matched_by-Hit e m = elim (run_matcher-HitBy alpn_hits l entry.alpn _ e m) [
    | inr h ↦ (h.0, inr (inr (inr (inr (inr h.1)))))
    | inl m5 ↦ elim (run_matcher-HitBy banner_hits l entry.banner_pattern _ e m5) [
      | inr h ↦ (h.0, inr (inr (inr (inr (inl h.1)))))
      | inl m4 ↦ elim (run_matcher-HitBy subject_hits l entry.tls_subject_pattern _ e m4) [
        | inr h ↦ (h.0, inr (inr (inr (inl h.1))))
        | inl m3 ↦ elim (run_matcher-HitBy body_hits l entry.body_pattern _ e m3) [
          | inr h ↦ (h.0, inr (inr (inl h.1)))
          | inl m2 ↦ elim (run_matcher-HitBy prefix_hits l entry.body_prefix _ e m2) [
            | inr h ↦ (h.0, inr (inl h.1))
            | inl m1 ↦ elim (run_matcher-HitBy header_hits l entry.header [] e m1) [
              | inr h ↦ (h.0, inl h.1)
              | inl m0 ↦ absurd m0
            ]
          ]
        ]
      ]
    ]
  ]

  -- What is pushed by a matcher is still there after the ones behind it.
  keep5 : (e : Evidence) (m : List Evidence) → In e m → In e (run_matcher entry.alpn alpn_hits l m)
  keep5 e m k = In-run_matcher alpn_hits l entry.alpn m e k

  keep4 :
      (e : Evidence) (m : List Evidence)
      → In e m
      → In e (run_matcher entry.alpn alpn_hits l (run_matcher entry.banner_pattern banner_hits l m))
  keep4 e m k = keep5 e _ (In-run_matcher banner_hits l entry.banner_pattern m e k)

  pub Hit-matched_by : (e : Evidence) → In e l → Hit entry e → In e (matched_by entry l)
  unfolding matched_by
  Hit-matched_by e k h =
      let k4 = λ (m : List Evidence) (q : In e m). keep4 e m q in
      let k3 = λ (m : List Evidence) (q : In e m).
        k4 _ (In-run_matcher subject_hits l entry.tls_subject_pattern m e q) in
      let k2 = λ (m : List Evidence) (q : In e m).
        k3 _ (In-run_matcher body_hits l entry.body_pattern m e q) in
      let k1 = λ (m : List Evidence) (q : In e m).
        k2 _ (In-run_matcher prefix_hits l entry.body_prefix m e q) in
      elim h [
        | inl a ↦ k1 _ (HitBy-run_matcher header_hits l entry.header _ e k a)
        | inr h ↦ elim h [
          | inl a ↦ k2 _ (HitBy-run_matcher prefix_hits l entry.body_prefix _ e k a)
          | inr h ↦ elim h [
            | inl a ↦ k3 _ (HitBy-run_matcher body_hits l entry.body_pattern _ e k a)
            | inr h ↦ elim h [
              | inl a ↦ k4 _ (HitBy-run_matcher subject_hits l entry.tls_subject_pattern _ e k a)
              | inr h ↦ elim h [
                | inl a ↦ keep5 e _ (HitBy-run_matcher banner_hits l entry.banner_pattern _ e k a)
                | inr a ↦ HitBy-run_matcher alpn_hits l entry.alpn _ e k a
              ]
            ]
          ]
        ]
      ]

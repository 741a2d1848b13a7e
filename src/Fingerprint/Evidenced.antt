-- ===== src/Fingerprint/Evidenced.antt =====
-- What evidence a fingerprint rests on (crates/anne-de-breuil/src/domain/fingerprint.rs).
use anne_de_breuil.Prelude.{
  ◌≡◌, refl, ◌≢◌, ◌↔◌, ◌⊎◌, inl, inr, Bool, false, Option, none, some, List, [], ◌∷◌, arith,
  is_empty, In,
}
use anne_de_breuil.Prelude.{◌>>=◌, In-ne-nil}
use anne_de_breuil.Text.{Text}
use anne_de_breuil.Identity.{
  Evidence, Evidence-eq, is_port_assignment_only, ServiceIdentity, with_version, port_assignment,
  banner_match, http_header, http_body_pattern, tls_certificate_subject, alpn_protocol,
  process_name,
}
use anne_de_breuil.Identity.Believed.{made, Observed, new_iff-Justified}
use anne_de_breuil.Fingerprint.{
  CompiledFingerprint, header_hits, prefix_hits, body_hits, subject_hits, banner_hits, alpn_hits,
  matched_by, versioned, try_match, extract_version,
}
use anne_de_breuil.Fingerprint.Pushed.{Distinct}
use anne_de_breuil.Fingerprint.Matched.{
  HitBy, Hit, matched_by-Distinct, matched_by-Hit, Hit-matched_by,
}

no_HitBy :
    {M : Type 0} (o : Option M) (hits : M → Evidence → Bool) (e : Evidence)
    → ((m : M) → hits m e ≡ false)
    → HitBy o hits e
    → ⊥
no_HitBy none hits e n h = h
no_HitBy (some m) hits e n h = let k = n m in ground (arith, h, k)

-- No matcher hits a bare port number.
Hit-Observed : (entry : CompiledFingerprint) (e : Evidence) → Hit entry e → Observed e
unfolding header_hits prefix_hits body_hits subject_hits banner_hits alpn_hits
    is_port_assignment_only
Hit-Observed entry (port_assignment n) h = absurd (elim h [
  | inl a ↦ no_HitBy entry.header header_hits (port_assignment n) (λ _. refl) a
  | inr h ↦ elim h [
    | inl a ↦ no_HitBy entry.body_prefix prefix_hits (port_assignment n) (λ _. refl) a
    | inr h ↦ elim h [
      | inl a ↦ no_HitBy entry.body_pattern body_hits (port_assignment n) (λ _. refl) a
      | inr h ↦ elim h [
        | inl a ↦ no_HitBy entry.tls_subject_pattern subject_hits (port_assignment n) (λ _. refl) a
        | inr h ↦ elim h [
          | inl a ↦ no_HitBy entry.banner_pattern banner_hits (port_assignment n) (λ _. refl) a
          | inr a ↦ no_HitBy entry.alpn alpn_hits (port_assignment n) (λ _. refl) a
        ]
      ]
    ]
  ]
])
Hit-Observed entry (banner_match n) h = refl
Hit-Observed entry (http_header n v) h = refl
Hit-Observed entry (http_body_pattern n) h = refl
Hit-Observed entry (tls_certificate_subject n) h = refl
Hit-Observed entry (alpn_protocol n) h = refl
Hit-Observed entry (process_name n) h = refl

-- What an identity that was found looks like, next to the entry that found it.
abbrev pub Backed : CompiledFingerprint → List Evidence → ServiceIdentity → Type 0
Backed entry l i =
    (i.name ≡ entry.name)
    × (i.category ≡ entry.category)
    × (i.confidence ≡ entry.confidence)
    × Distinct i.evidence
    × ((e : Evidence) → In e i.evidence ↔ (In e l × Hit entry e))

Backed-versioned :
    (entry : CompiledFingerprint) (l : List Evidence) (i : ServiceIdentity) (v : Option Text)
    → Backed entry l i
    → Backed entry l (versioned i v)
unfolding versioned with_version
Backed-versioned entry l i none b = b
Backed-versioned entry l i (some v) b = b

-- An identity made of what was matched.
Backed-made :
    (entry : CompiledFingerprint) (l : List Evidence)
    → Backed entry l (made entry.name entry.category entry.confidence (matched_by entry l))
Backed-made entry l = (
  refl,
  refl,
  refl,
  matched_by-Distinct entry l,
  (λ e. ((matched_by-Hit entry l e), (λ h. Hit-matched_by entry l e h.0 h.1))),
)

nil-or-not : (l : List Evidence) → (l ≡ []) ⊎ ((is_empty l ≡ false) × ((e : Evidence) × In e l))
nil-or-not [] = inl refl
nil-or-not (e ∷ l) = inr (refl, (e, inl refl))

-- An entry of the catalogue either identifies the service: under its name, category and confidence,
-- on the evidence of exactly the items that its matchers hit, of which there are some, and each of
-- them once; or it does not, and none of its matchers hits any item.
pub try_match_lem :
    (entry : CompiledFingerprint) (l : List Evidence)
    → ((i : ServiceIdentity) × (try_match entry l ≡ some i) × (i.evidence ≢ []) × Backed entry l i)
      ⊎ ((try_match entry l ≡ none) × ((e : Evidence) → In e l → Hit entry e → ⊥))
unfolding try_match versioned with_version
try_match_lem entry l = elim (nil-or-not (matched_by entry l)) [
  | inl z ↦
      inr (rw z refl, (λ e m h. In-ne-nil e (matched_by entry l) (Hit-matched_by entry l e m h) z))
  | inr q ↦
      let e = q.1.0 in
      let k = q.1.1 in
      let hit = matched_by-Hit entry l e k in
      let n = In-ne-nil e (matched_by entry l) k in
      let first = made entry.name entry.category entry.confidence (matched_by entry l) in
      let made_ok =
        (new_iff-Justified entry.name entry.category entry.confidence (matched_by entry l) first).1
          ((n, inr (e, k, Hit-Observed entry e hit.1)), refl) in
      let v = entry.version_capture >>= (λ pattern. extract_version pattern (matched_by entry l)) in
      let b = Backed-versioned entry l first v (Backed-made entry l) in
      inl (versioned first v, rw (q.0, made_ok) refl, In-ne-nil e _ ((b.4 e).1 hit), b)
]

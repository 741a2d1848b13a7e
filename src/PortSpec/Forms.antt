-- ===== src/PortSpec/Forms.antt =====
-- Which texts are read as any port, and which as a list
-- (crates/anne-de-breuil/src/domain/port_spec.rs).
use anne_de_breuil.Prelude.{
  ◌≡◌, ◌↔◌, refl, sym, ap, ◌∙◌, subst, ◌⊎◌, inl, inr, true, false, List, [], ◌∷◌, arith, ◌||◌,
  Bool-cases, is_empty,
}
use anne_de_breuil.Error.{Result, ok, >>=-eq-ok, collect}
use anne_de_breuil.PortSpec.{
  PortSpec, PortSpecs, any, list, nil, cons, of_list, from_str_trimmed, parse_parts, parse_part,
  from_str,
}
use anne_de_breuil.PortSpec.Equation.{from_str-equation}
use anne_de_breuil.PortSpec.Plain.{IsPlain, parse_part-IsPlain}
use anne_de_breuil.Text.{
  Text, codes, trim, contains, split, text_eq, text_eq_refl, text_eq→eq, lower, to_ascii_lowercase,
  eq_ignore_ascii_case,
}

-- The text says any port: a star, or the word in whatever case.
abbrev pub SaysAny : Text → Type 0
SaysAny s = (s ≡ b'*' ∷ []) ⊎ (to_ascii_lowercase s ≡ codes "any")

-- The pieces of a list are read one by one.
abbrev pub ReadParts : List Text → PortSpecs → Type 0
ReadParts [] nil = Unit {0}
ReadParts [] (cons spec specs) = ⊥
ReadParts (s ∷ l) nil = ⊥
ReadParts (s ∷ l) (cons spec specs) = (from_str (trim s) ≡ ok spec) × ReadParts l specs

ok_same : {A : Type 0} (a b : A) → ◌≡◌ {A = Result A} (ok a) (ok b) → a ≡ b
ok_same a b h = cc

list_same : (a b : PortSpecs) → list a ≡ list b → a ≡ b
list_same a b h = cc

collect-ReadParts :
    (l : List Text) (specs : List PortSpec)
    → collect (λ part. from_str (trim part)) l ≡ ok specs
    → ReadParts l (of_list specs)
collect-ReadParts [] specs h = subst (λ z. ReadParts [] (of_list z)) (ok_same [] specs h) tt
collect-ReadParts (s ∷ l) specs h =
    let (b, hb, rest) = >>=-eq-ok (from_str (trim s)) _ h in
    let (bs, hbs, last) = >>=-eq-ok (collect (λ part. from_str (trim part)) l) _ rest in
    let read = collect-ReadParts l bs hbs in
    subst (λ z. ReadParts (s ∷ l) (of_list z)) (ok_same (b ∷ bs) specs last) (hb, read)

ReadParts-collect :
    (l : List Text) (specs : PortSpecs)
    → ReadParts l specs
    → (found : List PortSpec) × (collect (λ part. from_str (trim part)) l ≡ ok found)
      × (of_list found ≡ specs)
ReadParts-collect [] nil h = ([], refl, refl)
ReadParts-collect [] (cons spec specs) h = absurd h
ReadParts-collect (s ∷ l) nil h = absurd h
ReadParts-collect (s ∷ l) (cons spec specs) h =
    let (found, e, f) = ReadParts-collect l specs h.1 in
    (spec ∷ found, rw (h.0, e) refl, ap (cons spec) f)

SaysAny-iff :
    (s : Text)
    → ((text_eq s (b'*' ∷ []) || eq_ignore_ascii_case s (codes "any")) ≡ true) ↔ SaysAny s
unfolding eq_ignore_ascii_case to_ascii_lowercase lower
SaysAny-iff s = (
  (λ h. elim (Bool-cases (text_eq s (b'*' ∷ []))) [
    | inl z ↦ inl (text_eq→eq s (b'*' ∷ []) z)
    | inr z ↦ inr (text_eq→eq (to_ascii_lowercase s) (codes "any") (rw z at h))
  ]),
  (λ h. elim h [
    | inl e ↦ let z : text_eq s (b'*' ∷ []) ≡ true = rw e (text_eq_refl (b'*' ∷ [])) in rw z refl
    | inr e ↦
        let z : text_eq (to_ascii_lowercase s) (codes "any") ≡ true =
          rw e (text_eq_refl (codes "any")) in
        ground (arith, z)
  ]),
)

contains-lower : (s : Text) → contains b',' (to_ascii_lowercase s) ≡ contains b',' s
unfolding to_ascii_lowercase lower
contains-lower [] = refl
contains-lower (c ∷ s) = ground (arith, contains-lower s)

-- A text with a comma does not say any.
comma-not-any : (s : Text) → contains b',' s ≡ true → ¬ SaysAny s
comma-not-any s h (inl e) =
    let none : contains b',' s ≡ false = ap (contains b',') e in ground (arith, none, h)
comma-not-any s h (inr e) =
    let none : contains b',' s ≡ false = sym (contains-lower s) ∙ ap (contains b',') e in
    ground (arith, none, h)

SaysAny-filled : (s : Text) → SaysAny s → is_empty s ≡ false
unfolding to_ascii_lowercase
SaysAny-filled [] (inl e) = cc
SaysAny-filled [] (inr e) = cc
SaysAny-filled (c ∷ s) h = refl

comma_filled : (s : Text) → contains b',' s ≡ true → is_empty s ≡ false
comma_filled [] h = cc
comma_filled (c ∷ s) h = refl

says_no_any :
    (s : Text)
    → ¬ SaysAny s
    → (text_eq s (b'*' ∷ []) || eq_ignore_ascii_case s (codes "any")) ≡ false
says_no_any s n =
    elim (Bool-cases (text_eq s (b'*' ∷ []) || eq_ignore_ascii_case s (codes "any"))) [
      | inl z ↦ absurd (n ((SaysAny-iff s).0 z))
      | inr z ↦ z
    ]

parse_parts-list :
    (s : Text) (spec : PortSpec)
    → parse_parts from_str s ≡ ok spec
    → (specs : List PortSpec) × (collect (λ part. from_str (trim part)) (split b',' s) ≡ ok specs)
      × (list (of_list specs) ≡ spec)
unfolding parse_parts
parse_parts-list s spec h =
    let (specs, e, last) = >>=-eq-ok (collect (λ part. from_str (trim part)) (split b',' s)) _ h in
    (specs, e, ok_same _ spec last)

parse_parts-ReadParts :
    (s : Text) (l : PortSpecs) → (parse_parts from_str s ≡ ok (list l)) ↔ ReadParts (split b',' s) l
unfolding parse_parts
parse_parts-ReadParts s l = (
  (λ h.
      let (specs, e, same) = parse_parts-list s (list l) (unfold parse_parts in h) in
      subst (ReadParts (split b',' s)) (list_same (of_list specs) l same)
        (collect-ReadParts (split b',' s) specs e)),
  (λ h.
      let (found, e, same) = ReadParts-collect (split b',' s) l h in
      rw e (ap (λ z. ok (list z)) same)),
)

-- The three ways of a trimmed text: it says any, has a comma, or is read as a plain spec.
module _ (input s : Text) where
  from_str_trimmed-any : SaysAny s → from_str_trimmed from_str input s ≡ ok any
  unfolding from_str_trimmed
  from_str_trimmed-any h = rw (SaysAny-filled s h, (SaysAny-iff s).1 h) refl

  from_str_trimmed_list :
      contains b',' s ≡ true → from_str_trimmed from_str input s ≡ parse_parts from_str s
  unfolding from_str_trimmed
  from_str_trimmed_list h = rw (comma_filled s h, says_no_any s (comma-not-any s h), h) refl

  from_str_trimmed-IsPlain :
      {spec : PortSpec}
      → ¬ SaysAny s
      → contains b',' s ≡ false
      → from_str_trimmed from_str input s ≡ ok spec
      → IsPlain spec
  unfolding from_str_trimmed parse_part
  from_str_trimmed-IsPlain {spec} n h e = elim (Bool-cases (is_empty s)) [
    | inl z ↦ let failed = rw z at e in cc
    | inr z ↦ parse_part-IsPlain s {spec = spec} (rw (z, says_no_any s n, h) at e)
  ]

  SaysAny-of : from_str_trimmed from_str input s ≡ ok any → SaysAny s
  SaysAny-of e = elim (Bool-cases (text_eq s (b'*' ∷ []) || eq_ignore_ascii_case s (codes "any"))) [
    | inl z ↦ (SaysAny-iff s).0 z
    | inr z ↦
        let n : ¬ SaysAny s = λ h. ground (arith, z, (SaysAny-iff s).1 h) in
        elim (Bool-cases (contains b',' s)) [
          | inl c ↦
              let (specs, f, same) = parse_parts-list s any (sym (from_str_trimmed_list c) ∙ e) in
              cc
          | inr c ↦ absurd (from_str_trimmed-IsPlain {spec = any} n c e)
        ]
  ]

  comma_of :
      (l : PortSpecs) → from_str_trimmed from_str input s ≡ ok (list l) → contains b',' s ≡ true
  comma_of l e = elim (Bool-cases (contains b',' s)) [
    | inl c ↦ c
    | inr c ↦ elim (Bool-cases (text_eq s (b'*' ∷ []) || eq_ignore_ascii_case s (codes "any"))) [
      | inl z ↦ let q = sym (from_str_trimmed-any ((SaysAny-iff s).0 z)) ∙ e in cc
      | inr z ↦ absurd (
          from_str_trimmed-IsPlain {spec = list l} (λ h. ground (arith, z, (SaysAny-iff s).1 h)) c
            e)
    ]
  ]

-- `from_str` reads a text, but for white space around it, as any port exactly if it is a star or
-- the word any in whatever case; and as a list exactly if it has a comma and its pieces between the
-- commas are read, one by one, as the list's members.
pub from_str_iff-SaysAny :
    (input : Text) (l : PortSpecs)
    → ((from_str input ≡ ok any) ↔ SaysAny (trim input))
      × ((from_str input ≡ ok (list l))
          ↔ ((contains b',' (trim input) ≡ true) × ReadParts (split b',' (trim input)) l))
from_str_iff-SaysAny input l =
    let s = trim input in
    let body = from_str-equation input in
    (
      ((λ e. SaysAny-of input s (sym body ∙ e)), (λ h. body ∙ from_str_trimmed-any input s h)),
      (
        (λ e.
            let c = comma_of input s l (sym body ∙ e) in
            (
              c,
              (parse_parts-ReadParts s l).0
                  (sym (from_str_trimmed_list input s c) ∙ (sym body ∙ e)),
            )),
        (λ (c, h). body ∙ (from_str_trimmed_list input s c ∙ (parse_parts-ReadParts s l).1 h)),
      ),
    )

-- ===== src/Fingerprint/Nesting.antt =====
-- Nested quantifiers in a pattern (crates/anne-de-breuil/src/domain/fingerprint.rs).
use anne_de_breuil.Prelude.{
  ℕ, ◌≡◌, refl, inl, inr, Bool, true, false, not, ◌&&◌, ◌||◌, List, [], ◌∷◌, ◌++◌, arith, ◌==◌,
  Bool-cases, any, All,
}
use anne_de_breuil.Text.{Text}
use anne_de_breuil.Fingerprint.Catalogue.{
  next_is_quantifier, mark_quantifier, rest_of, stack_after, nested_from,
  has_nested_unbounded_quantifier,
}

-- No backslash; and neither a backslash nor a parenthesis.
abbrev pub Unescaped : Text → Type 0
Unescaped s = All (λ c. (c == b'\\') ≡ false) s

abbrev pub IsFlat : Text → Type 0
IsFlat s = All (λ c. ((c == b'\\') ≡ false) × ((c == b'(') ≡ false) × ((c == b')') ≡ false)) s

-- `*`, `+` or `{`, which are quantifiers wherever they stand.
abbrev pub is_repeat : ℕ → Bool
is_repeat c = c == b'*' || c == b'+' || c == b'{'

-- What is found behind a prefix without escapes is found with it.
nested_behind :
    (p s : Text) (stack : List Bool) (opened : Bool)
    → Unescaped p
    → ((stack : List Bool) (opened : Bool) → nested_from stack opened false s ≡ true)
    → nested_from stack opened false (p ++ s) ≡ true
unfolding nested_from
nested_behind [] s stack opened u h = h stack opened
nested_behind (c ∷ p) s stack opened u h = ground (
  arith,
  u.0,
  nested_behind p s (rest_of stack) false u.1 h,
  nested_behind p s (stack_after c opened stack) (c == b'(') u.1 h,
)

-- A flat character leaves the open group open, marked if it was or if the character repeats.
stack_after-flat :
    (c : ℕ) (top opened : Bool) (stack : List Bool)
    → (c == b'(') ≡ false
    → (t : Bool) × (stack_after c opened (top ∷ stack) ≡ t ∷ stack)
      × ((top || is_repeat c) ≡ true → t ≡ true)
unfolding stack_after mark_quantifier
stack_after-flat c top opened stack f =
    elim (Bool-cases (is_repeat c || (c == b'?' && not opened))) [
      | inl e ↦ (true, ground (arith, e, f), (λ _. refl))
      | inr e ↦ (top, ground (arith, e, f), (λ h. ground (arith, h, e)))
    ]

-- Inside a flat group that has a quantifier already, or has one ahead, the group's end is met with one.
nested_at_end :
    (body s : Text) (q : ℕ) (top opened : Bool) (stack : List Bool)
    → IsFlat body
    → (top || any is_repeat body) ≡ true
    → next_is_quantifier (q ∷ []) ≡ true
    → nested_from (top ∷ stack) opened false (body ++ (b')' ∷ q ∷ s)) ≡ true
unfolding nested_from next_is_quantifier stack_after mark_quantifier
nested_at_end [] s q top opened stack f h k = ground arith
nested_at_end (c ∷ body) s q top opened stack f h k =
    let (t, e, m) = stack_after-flat c top opened stack f.0.1 in
    let g : (t || any is_repeat body) ≡ true = elim (Bool-cases (top || is_repeat c)) [
      | inl y ↦ let z = m y in ground (arith, z)
      | inr n ↦ ground (arith, h, n)
    ] in
    ground (arith, f.0, e, nested_at_end body s q t (c == b'(') stack f.1 g k)

-- A pattern that holds a group with `*`, `+` or `{` in it, neither an escape nor a further group,
-- and a quantifier right behind it, is found to be nested, whatever follows; in front of it there
-- may be anything but a backslash.
pub nested-found :
    (p body s : Text) (q : ℕ)
    → Unescaped p
    → IsFlat body
    → any is_repeat body ≡ true
    → next_is_quantifier (q ∷ []) ≡ true
    → has_nested_unbounded_quantifier (p ++ (b'(' ∷ (body ++ (b')' ∷ q ∷ s)))) ≡ true
unfolding has_nested_unbounded_quantifier nested_from stack_after mark_quantifier
nested-found p body s q u f h k =
    nested_behind p _ [] false u (λ stack opened. nested_at_end body s q false true stack f h k)

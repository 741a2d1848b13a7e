-- ===== src/Prelude/Decided.antt =====
-- `==` of a type with a derived `PartialEq`: the Boolean of a decision.
use mathlib.Core.Path.{◌≡◌}
use mathlib.Core.Bool.{Bool, true, false}
use native.Mathlib.Omega.{arith}

pub record Eq {ℓ} (A : Type ℓ) : Type ℓ where
  pub eq_dec : Discrete A

infix 50 ◌≟◌
abbrev pub ◌≟◌ {ℓ} : {A : Type ℓ} ⦃e : Eq A⦄ → A → A → Bool
◌≟◌ ⦃e⦄ a b = elim (e.eq_dec a b) [ yes _ ↦ true | no _ ↦ false ]

module _ {A : Type 0} ⦃e : Eq A⦄ where
  pub ≟→eq : (a b : A) → (a ≟ b) ≡ true → a ≡ b
  ≟→eq a b h = ground arith

  pub ≟_refl : (a : A) → (a ≟ a) ≡ true
  ≟_refl a = ground arith

  pub ≟→ne : (a b : A) → (a ≟ b) ≡ false → a ≡ b → ⊥
  ≟→ne a b h k = ground arith

  pub ne→≟ : (a b : A) → (a ≡ b → ⊥) → (a ≟ b) ≡ false
  ne→≟ a b h = ground arith

-- ===== src/Sort.antt =====
-- The stable sort of the standard library (`sort`, `sort_by_key`), as insertion from the right.
pub mod Contents
use anne_de_breuil.Prelude.{Bool, List, [], ◌∷◌, if◌then◌else◌}

-- An element goes before the first that is not below it, so equals keep their order.
unfoldable pub insert_by {ℓ} : {A : Type ℓ} → (A → A → Bool) → A → List A → List A
insert_by le x [] = x ∷ []
insert_by le x (y ∷ l) = let rest = insert_by le x l in if le x y then x ∷ y ∷ l else y ∷ rest

unfoldable pub sort_by {ℓ} : {A : Type ℓ} → (A → A → Bool) → List A → List A
unfolding insert_by
sort_by le [] = []
sort_by le (x ∷ l) = insert_by le x (sort_by le l)

-- ===== src/Sort/Contents.antt =====
-- A sort keeps what the list holds.
use anne_de_breuil.Prelude.{
  suc, ◌≡◌, refl, inl, inr, Bool, ◌||◌, List, [], ◌∷◌, arith, Bool-cases, length, any, All,
}
use anne_de_breuil.Sort.{insert_by, sort_by}

module _ {A : Type 0} (le : A → A → Bool) where
  pub insert_by-All :
      (P : A → Type 0) (x : A) (l : List A) → P x → All P l → All P (insert_by le x l)
  unfolding insert_by
  insert_by-All P x [] h k = (h, tt)
  insert_by-All P x (y ∷ l) h k = elim (Bool-cases (le x y)) [
    | inl e ↦ rw e (h, k)
    | inr e ↦ rw e (k.0, insert_by-All P x l h k.1)
  ]

  pub sort_by-All : (P : A → Type 0) (l : List A) → All P l → All P (sort_by le l)
  unfolding sort_by
  sort_by-All P [] h = h
  sort_by-All P (x ∷ l) h = insert_by-All P x _ h.0 (sort_by-All P l h.1)

  insert_by-any : (p : A → Bool) (x : A) (l : List A) → any p (insert_by le x l) ≡ (p x || any p l)
  unfolding insert_by
  insert_by-any p x [] = refl
  insert_by-any p x (y ∷ l) = ground (arith, insert_by-any p x l)

  pub sort_by-any : (p : A → Bool) (l : List A) → any p (sort_by le l) ≡ any p l
  unfolding sort_by
  sort_by-any p [] = refl
  sort_by-any p (x ∷ l) = rw (insert_by-any p x (sort_by le l), sort_by-any p l)

  pub length-insert_by : (x : A) (l : List A) → length (insert_by le x l) ≡ suc (length l)
  unfolding insert_by
  length-insert_by x [] = refl
  length-insert_by x (y ∷ l) = ground (arith, length-insert_by x l)

  pub length-sort_by : (l : List A) → length (sort_by le l) ≡ length l
  unfolding sort_by
  length-sort_by [] = refl
  length-sort_by (x ∷ l) = rw (length-insert_by x (sort_by le l), length-sort_by l)

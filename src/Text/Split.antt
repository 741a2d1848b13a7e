-- ===== src/Text/Split.antt =====
-- The pieces of `split` and `split_once`.
use anne_de_breuil.Prelude.{
  ap, ◌∙◌, map, ℕ, true, ◌≤◌, length, ◌≡◌, refl, false, some, none, List, [], ◌∷◌, ◌++◌, arith,
  ◌==◌, All,
}
use anne_de_breuil.Text.{Text, contains, push_first, split, push_before, split_once, join}

abbrev pub Lacks : ℕ → Text → Type 0
Lacks sep s = contains sep s ≡ false

All-push_first :
    (sep c : ℕ) (l : List Text)
    → (c == sep) ≡ false
    → All (Lacks sep) l
    → All (Lacks sep) (push_first c l)
unfolding push_first
All-push_first sep c [] h k = (ground arith, tt)
All-push_first sep c (s ∷ l) h k = (ground arith, k.1)

-- No piece holds the separator.
pub split-Lacks : (sep : ℕ) (s : Text) → All (Lacks sep) (split sep s)
unfolding split
split-Lacks sep [] = (refl, tt)
split-Lacks sep (c ∷ s) = ground (arith, split-Lacks sep s, All-push_first sep c (split sep s))

push_first-cons : (c : ℕ) (s : Text) (l : List Text) → push_first c (s ∷ l) ≡ (c ∷ s) ∷ l
unfolding push_first
push_first-cons c s l = refl

-- A text with no separator is one piece.
pub split_one : (sep : ℕ) (s : Text) → Lacks sep s → split sep s ≡ s ∷ []
unfolding split push_first
split_one sep [] h = refl
split_one sep (c ∷ s) h = ground (arith, split_one sep s)

-- Up to the first separator is the first piece.
pub split_cons : (sep : ℕ) (s t : Text) → Lacks sep s → split sep (s ++ (sep ∷ t)) ≡ s ∷ split sep t
unfolding split push_first
split_cons sep [] t h = ground arith
split_cons sep (c ∷ s) t h = ground (arith, split_cons sep s t)

pub split_once_cons :
    (sep : ℕ) (s t : Text) → Lacks sep s → split_once sep (s ++ (sep ∷ t)) ≡ some (s, t)
unfolding split_once push_before
split_once_cons sep [] t h = ground arith
split_once_cons sep (c ∷ s) t h = ground (arith, split_once_cons sep s t)

pub split_once-none : (sep : ℕ) (s : Text) → Lacks sep s → split_once sep s ≡ none
unfolding split_once push_before
split_once-none sep [] h = refl
split_once-none sep (c ∷ s) h = ground (arith, split_once-none sep s)

length-push_first : (c : ℕ) (l : List Text) → length l ≤ length (push_first c l)
unfolding push_first
length-push_first c [] = omega arith
length-push_first c (s ∷ l) = omega arith

split_pos : (sep : ℕ) (s : Text) → 1 ≤ length (split sep s)
unfolding split
split_pos sep [] = omega arith
split_pos sep (c ∷ s) = ground (arith, length-push_first c (split sep s), split_pos sep s)

-- A text that holds the separator has two pieces at least.
pub split_two : (sep : ℕ) (s : Text) → contains sep s ≡ true → 2 ≤ length (split sep s)
unfolding split
split_two sep [] h = cc
split_two sep (c ∷ s) h =
    ground (arith, length-push_first c (split sep s), split_pos sep s, split_two sep s)

abbrev pub blank : Text → Text
blank s = b' ' ∷ s

split-blank :
    (s t : Text) (l : List Text) → split b',' s ≡ t ∷ l → split b',' (blank s) ≡ blank t ∷ l
unfolding split push_first
split-blank s t l h = ground arith

-- `join(", ")` of texts with no comma splits at the commas; all pieces but the first keep a blank.
pub split-join :
    (s : Text) (l : List Text)
    → All (Lacks b',') (s ∷ l)
    → split b',' (join (s ∷ l)) ≡ s ∷ map blank l
split-join s [] h = split_one b',' s h.0
split-join s (t ∷ l) h =
    split_cons b',' s (blank (join (t ∷ l))) h.0
    ∙ ap (◌∷◌ s) (split-blank (join (t ∷ l)) t (map blank l) (split-join t l h.1))

-- ===== src/Text/Lines.antt =====
-- `lines`, `splitn` and `starts_with` of `str`.
use anne_de_breuil.Prelude.{
  filter, not, ℕ, zero, suc, Bool, true, false, ◌&&◌, none, some, List, [], ◌∷◌, ◌==◌,
  if◌then◌else◌, is_empty,
}
use anne_de_breuil.Text.{is_whitespace, push_first, Text, split, split_once}

-- `strip_suffix('\r')`, kept where there is none.
strip_cr : Text → Text
strip_cr [] = []
strip_cr (c ∷ []) = if c == 13 then [] else c ∷ []
strip_cr (c ∷ d ∷ s) = c ∷ strip_cr (d ∷ s)

-- The pieces between line feeds, as lines: an unfinished last one is kept as it is.
finished : List Text → List Text
unfolding strip_cr
finished [] = []
finished (s ∷ []) = if is_empty s then [] else s ∷ []
finished (s ∷ t ∷ l) = strip_cr s ∷ finished (t ∷ l)

-- `str::lines`.
unfoldable pub lines : Text → List Text
unfolding finished
lines s = finished (split 10 s)

-- `splitn` at a `char`: at most `n` pieces.
unfoldable pub splitn : ℕ → ℕ → Text → List Text
splitn zero sep s = []
splitn (suc zero) sep s = s ∷ []
splitn (suc (suc n)) sep s = elim (split_once sep s) [
  | none ↦ s ∷ []
  | some p ↦ p.0 ∷ splitn (suc n) sep p.1
]

-- `starts_with` a `str`.
unfoldable pub starts_with : Text → Text → Bool
starts_with s [] = true
starts_with [] (p ∷ prefix) = false
starts_with (c ∷ s) (p ∷ prefix) = c == p && starts_with s prefix

-- The pieces between white space, the empty ones too.
pieces : Text → List Text
pieces [] = [] ∷ []
pieces (c ∷ s) = let rest = pieces s in if is_whitespace c then [] ∷ rest else push_first c rest

-- `split_whitespace`.
unfoldable pub split_whitespace : Text → List Text
unfolding pieces
split_whitespace s = filter (λ piece. not (is_empty piece)) (pieces s)

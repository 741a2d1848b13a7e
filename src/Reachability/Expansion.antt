-- ===== src/Reachability/Expansion.antt =====
-- Placeholders of program filters (crates/anne-de-breuil/src/domain/reachability.rs).
use mathlib.Core.List.{append_assoc, append-nil}
use anne_de_breuil.Prelude.{
  ◌≡◌, refl, Bool, false, Option, none, some, [], ◌∷◌, ◌++◌, arith, ◌==◌, filter, any,
}
use anne_de_breuil.Names.{ProcessPath}
use anne_de_breuil.Reachability.{
  expand_from, expand_env_vars, compare_program_paths, program_filter_matches,
}
use anne_de_breuil.Text.{Text}

-- With no value for any name the text comes out as it went in, whatever `%` it holds.
mutual
  unfolding expand_from

  expand_from_plain : (s : Text) → expand_from (λ _. none) none s ≡ s
  expand_from_plain [] = refl
  expand_from_plain (c ∷ s) = ground (arith, expand_from_plain s, expand_from_open s [])

  expand_from_open : (s name : Text) → expand_from (λ _. none) (some name) s ≡ (b'%' ∷ name) ++ s
  expand_from_open [] name = ground (arith, append-nil name)
  expand_from_open (c ∷ s) [] = ground (arith, expand_from_plain s, expand_from_open s (c ∷ []))
  expand_from_open (c ∷ s) (d ∷ name) = ground (
    arith,
    expand_from_plain s,
    expand_from_open s ((d ∷ name) ++ (c ∷ [])),
    append_assoc name (b'%' ∷ []) s,
    append_assoc name (c ∷ []) s,
  )

-- A text with no `%` comes out as it went in, whatever values the lookup has.
pub expand_env_vars_literal :
    (lookup : Text → Option Text) (s : Text)
    → any (λ c. c == b'%') s ≡ false
    → expand_env_vars s lookup ≡ s
unfolding expand_from
expand_env_vars_literal lookup [] h = refl
expand_env_vars_literal lookup (c ∷ s) h = ground (arith, expand_env_vars_literal lookup s)

-- A program filter is compared with an endpoint's program path as it is written: the expansion of
-- its environment placeholders makes no difference.
pub program_filter_matches_verbatim :
    (windows : Bool) (filter path : ProcessPath)
    → program_filter_matches windows filter (some path)
      ≡ compare_program_paths windows filter.as_str path.as_str
unfolding program_filter_matches
program_filter_matches_verbatim windows filter path = rw (expand_from_plain filter.as_str)

-- ===== src/CgroupUnit.antt =====
-- The systemd unit of a process:
-- crates/anne-de-breuil/src/adapters/linux_collector/cgroup_unit.rs.
use anne_de_breuil.Prelude.{
  ℕ, suc, ◌-◌, ◌≡◌, refl, ◌∙◌, ap, Bool, true, false, Option, none, some, List, [], ◌∷◌, ◌++◌,
  if◌then◌else◌, drop, length, leb, ◌&&◌, All, ◌>>=◌,
}
use anne_de_breuil.Text.{Text, codes, text_eq, split, split_once}
use anne_de_breuil.Text.Lines.{lines, splitn}
use anne_de_breuil.Text.Split.{Lacks, split_once_cons}

-- `ends_with` a `str`.
unfoldable pub ends_with : Text → Text → Bool
ends_with s suffix =
    leb (length suffix) (length s) && text_eq (drop (length s - length suffix) s) suffix

-- `rev().find(...)`.
unfoldable pub find_last : (Text → Bool) → List Text → Option Text
find_last f [] = none
find_last f (s ∷ l) = elim (find_last f l) [ none ↦ if f s then some s else none | some t ↦ some t ]

third : List Text → Option Text
third (a ∷ b ∷ c ∷ l) = some c
third _ = none

abbrev pub is_service : Text → Bool
is_service segment = ends_with segment (codes ".service")

unfoldable pub extract_from_cgroup_line : Text → Option Text
unfolding third find_last
extract_from_cgroup_line line = do
  path ← third (splitn 3 b':' line)
  find_last is_service (split b'/' path)

-- `find_map`.
unfoldable pub find_unit : List Text → Option Text
unfolding extract_from_cgroup_line
find_unit [] = none
find_unit (line ∷ l) = elim (extract_from_cgroup_line line) [
  | none ↦ find_unit l
  | some unit ↦ some unit
]

unfoldable pub extract_systemd_unit_from_cgroup : Text → Option Text
unfolding find_unit
extract_systemd_unit_from_cgroup contents = find_unit (lines contents)

find_last-none : (f : Text → Bool) (l : List Text) → All (λ s. f s ≡ false) l → find_last f l ≡ none
unfolding find_last
find_last-none f [] h = refl
find_last-none f (s ∷ l) h = rw (find_last-none f l h.1, h.0) refl

find_last_lem :
    (f : Text → Bool) (before : List Text) (s : Text) (after : List Text)
    → f s ≡ true
    → All (λ t. f t ≡ false) after
    → find_last f (before ++ s ∷ after) ≡ some s
unfolding find_last
find_last_lem f [] s after h k = rw (find_last-none f after k, h) refl
find_last_lem f (t ∷ before) s after h k = rw (find_last_lem f before s after h k) refl

splitn_step :
    (n sep : ℕ) (s a b : Text)
    → split_once sep s ≡ some (a, b)
    → splitn (suc (suc n)) sep s ≡ a ∷ splitn (suc n) sep b
unfolding splitn
splitn_step n sep s a b e = rw (splitn, e) refl

splitn_cgroup :
    (hierarchy controllers path : Text)
    → Lacks b':' hierarchy
    → Lacks b':' controllers
    → splitn 3 b':' (hierarchy ++ b':' ∷ (controllers ++ b':' ∷ path))
      ≡ hierarchy ∷ controllers ∷ path ∷ []
unfolding splitn
splitn_cgroup hierarchy controllers path h k =
    splitn_step 1 b':' _ hierarchy (controllers ++ b':' ∷ path)
      (split_once_cons b':' hierarchy (controllers ++ b':' ∷ path) h)
    ∙ ap (◌∷◌ hierarchy)
        (splitn_step 0 b':' _ controllers path (split_once_cons b':' controllers path k))

-- A line of a process's cgroups gives the unit that is the last segment of its path that ends in
-- `.service`, whatever scopes or slices lie in it or around it.
pub extract_from_cgroup_line_lem :
    (hierarchy controllers path : Text) (before after : List Text) (unit : Text)
    → Lacks b':' hierarchy
    → Lacks b':' controllers
    → split b'/' path ≡ before ++ unit ∷ after
    → is_service unit ≡ true
    → All (λ t. is_service t ≡ false) after
    → extract_from_cgroup_line (hierarchy ++ b':' ∷ (controllers ++ b':' ∷ path)) ≡ some unit
unfolding extract_from_cgroup_line third
extract_from_cgroup_line_lem hierarchy controllers path before after unit h k e s a =
    rw (splitn_cgroup hierarchy controllers path h k, e)
      (find_last_lem is_service before unit after s a)

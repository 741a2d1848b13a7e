-- ===== src/PortSpec/Labels.antt =====
-- `display_label` of a concrete port spec is a text that `from_str` reads back
-- (crates/anne-de-breuil/src/domain/port_spec.rs).
use anne_de_breuil.Prelude.{
  ◌++◌, append-ne-nil, ℕ, ◌≤◌, ◌≡◌, refl, ◌∙◌, ◌≢◌, List, [], ◌∷◌, arith, All,
}
use anne_de_breuil.Error.{collect, ok}
use anne_de_breuil.PortSpec.{
  suc, true, map, ap, parse_parts, contains, join, length, of_list, PortSpec, PortSpecs, single,
  range, list, nil, cons, count, display_label, labels, from_str_trimmed, from_str,
}
use anne_de_breuil.PortSpec.Equation.{from_str-equation}
use anne_de_breuil.Text.{trim_end, Text, trim, eq_ignore_ascii_case, is_whitespace}
use anne_de_breuil.Text.Split.{split-join, blank, Lacks}
use anne_de_breuil.Text.Trim.{trim-cons, trim_end-append, trim_end_solid, trim-blank}
use anne_de_breuil.PortSpec.Marks.{
  AllConcrete, IsConcrete, IsLegible, IsMark, Lacks-marks, any-All, from_str-label, label-IsMark,
  trim_marks,
}

-- A text of marks, not empty.
abbrev IsLabel : Text → Type 0
IsLabel s = All IsMark s × (s ≢ [])

-- The members' labels, read one by one with the blanks that `join` puts before them.
labels-All : (l : PortSpecs) → AllConcrete l → All (λ s. All IsMark s × (s ≢ [])) (labels l)
unfolding display_label
labels-All nil h = tt
labels-All (cons s l) h = (label-IsMark s h.0, labels-All l h.1)

abbrev to_list : PortSpecs → List PortSpec
to_list nil = []
to_list (cons s l) = s ∷ to_list l

of_list-to_list : (l : PortSpecs) → of_list (to_list l) ≡ l
of_list-to_list nil = refl
of_list-to_list (cons s l) = ap (cons s) (of_list-to_list l)

length-labels : (l : PortSpecs) → length (labels l) ≡ count l
unfolding display_label
length-labels nil = refl
length-labels (cons s l) = ap suc (length-labels l)

from_str-blank : (s : PortSpec) → IsConcrete s → from_str (trim (blank (display_label s))) ≡ ok s
from_str-blank s h =
    rw (trim-blank (display_label s), trim_marks (display_label s) (label-IsMark s h).0)
      (from_str-label s h)

collect-labels :
    (l : PortSpecs)
    → AllConcrete l
    → collect (λ part. from_str (trim part)) (map blank (labels l)) ≡ ok (to_list l)
unfolding display_label
collect-labels nil h = refl
collect-labels (cons s l) h = rw (from_str-blank s h.0, collect-labels l h.1)

join-ne-nil : (s : Text) (l : List Text) → s ≢ [] → join (s ∷ l) ≢ []
join-ne-nil s [] ne = ne
join-ne-nil s (t ∷ l) ne = append-ne-nil s _ _

trim_end-join :
    (s : Text) (l : List Text) → All IsLabel (s ∷ l) → trim_end (join (s ∷ l)) ≡ join (s ∷ l)
unfolding is_whitespace
trim_end-join s [] h = trim_end_solid s (any-All IsMark is_whitespace (λ c k. ground arith) s h.0.0)
trim_end-join s (t ∷ l) h =
    trim_end-append s (b',' ∷ blank (join (t ∷ l)))
      (trim_end-append (b',' ∷ b' ' ∷ []) (join (t ∷ l)) (trim_end-join t l h.1)
        (join-ne-nil t l h.1.0.1))
      (λ e. cc)

contains-append : (s t : Text) → contains b',' (s ++ (b',' ∷ t)) ≡ true
contains-append [] t = refl
contains-append (c ∷ s) t = ground (arith, contains-append s t)

-- `from_str` on a text that begins with a mark, ends with no blank and holds a comma.
from_str_listed :
    (c : ℕ) (s : Text)
    → IsMark c
    → trim_end (c ∷ s) ≡ c ∷ s
    → contains b',' (c ∷ s) ≡ true
    → from_str (c ∷ s) ≡ parse_parts from_str (c ∷ s)
unfolding from_str_trimmed eq_ignore_ascii_case is_whitespace
from_str_listed c s m e k =
    ground (arith, from_str-equation (c ∷ s), trim-cons c s (ground arith) e)

All-Lacks : (l : List Text) → All IsLabel l → All (Lacks b',') l
All-Lacks [] h = tt
All-Lacks (s ∷ l) h = (Lacks-marks s h.0.0, All-Lacks l h.1)

from_str-join :
    (s t : Text) (l : List Text)
    → All IsLabel (s ∷ t ∷ l)
    → from_str (join (s ∷ t ∷ l)) ≡ parse_parts from_str (join (s ∷ t ∷ l))
from_str-join [] t l h = absurd (h.0.1 refl)
from_str-join (c ∷ s) t l h =
    from_str_listed c _ h.0.0.0 (trim_end-join (c ∷ s) (t ∷ l) h)
      (contains-append (c ∷ s) (blank (join (t ∷ l))))

parse_parts-labels :
    (s : PortSpec) (l : PortSpecs)
    → AllConcrete (cons s l)
    → parse_parts from_str (join (display_label s ∷ labels l)) ≡ ok (list (cons s l))
unfolding parse_parts
parse_parts-labels s l h = ground (
  arith,
  split-join (display_label s) (labels l) (
    Lacks-marks (display_label s) (label-IsMark s h.0).0,
    All-Lacks (labels l) (labels-All l h.1),
  ),
  trim_marks (display_label s) (label-IsMark s h.0).0,
  from_str-label s h.0,
  collect-labels l h.1,
  of_list-to_list l,
)

label_short : (l : PortSpecs) → count l ≤ 4 → display_label (list l) ≡ join (labels l)
unfolding display_label
label_short l h = ground arith

-- The label of a valid port, of a valid range, or of a list of two to four of those, is read back
-- by `from_str` as the same spec.
pub from_str-display_label : (s : PortSpec) → IsLegible s → from_str (display_label s) ≡ ok s
unfolding display_label
from_str-display_label (single p) h = from_str-label (single p) h
from_str-display_label (range r) h = from_str-label (range r) h
from_str-display_label (list nil) h = absurd (omega arith)
from_str-display_label (list (cons s nil)) h = absurd (omega arith)
from_str-display_label (list (cons s (cons t l))) h = rw (label_short (cons s (cons t l)) h.2) (
    from_str-join (display_label s) (display_label t) (labels l)
      (labels-All (cons s (cons t l)) h.0)
    ∙ parse_parts-labels s (cons t l) h.0)
from_str-display_label _ h = absurd h

-- ===== src/PortSpec/Equation.antt =====
-- `from_str` calls itself on the parts of a comma list (crates/anne-de-breuil/src/domain/port_spec.rs):
-- the fuel of the model never runs out.
use anne_de_breuil.Prelude.{ℕ, suc, ◌≡◌, refl, List, [], ◌∷◌, ◌==◌, All}
use anne_de_breuil.Error.{Result, collect}
use anne_de_breuil.PortSpec.{PortSpec, from_str_body, from_str_trimmed, from_str_fuel, from_str}
use anne_de_breuil.Text.Split.{Lacks, split-Lacks}
use anne_de_breuil.Text.Trim.{any-trim}
use anne_de_breuil.Text.{Text, trim, split}

-- Two parsers of parts that agree wherever there is no comma.
abbrev Agree : (Text → Result PortSpec) → (Text → Result PortSpec) → Type 0
Agree p q = (s : Text) → Lacks b',' s → p s ≡ q s

collect-Agree :
    (p q : Text → Result PortSpec) (l : List Text)
    → Agree p q
    → All (Lacks b',') l
    → collect (λ part. p (trim part)) l ≡ collect (λ part. q (trim part)) l
collect-Agree p q [] a h = refl
collect-Agree p q (s ∷ l) a h =
    rw (a (trim s) (any-trim (λ d. d == b',') s h.0), collect-Agree p q l a h.1)

from_str_body-Agree :
    (p q : Text → Result PortSpec) (input : Text)
    → Agree p q
    → from_str_body p input ≡ from_str_body q input
unfolding from_str_trimmed
from_str_body-Agree p q input a =
    rw (collect-Agree p q (split b',' (trim input)) a (split-Lacks b',' (trim input)))

from_str_body-Lacks :
    (p q : Text → Result PortSpec) (input : Text)
    → Lacks b',' input
    → from_str_body p input ≡ from_str_body q input
unfolding from_str_trimmed
from_str_body-Lacks p q input h = rw (any-trim (λ d. d == b',') input h)

from_str_fuel-Agree : (f g : ℕ) → Agree (from_str_fuel (suc f)) (from_str_fuel (suc g))
unfolding from_str_fuel
from_str_fuel-Agree f g s h = from_str_body-Lacks (from_str_fuel f) (from_str_fuel g) s h

-- Any fuel from two on gives what `from_str` gives.
pub from_str_fuel-eq : (f : ℕ) (input : Text) → from_str_fuel (suc (suc f)) input ≡ from_str input
unfolding from_str from_str_fuel
from_str_fuel-eq f input = from_str_body-Agree _ _ input (from_str_fuel-Agree f 0)

-- `from_str`, which runs on two levels of fuel, satisfies at every text the equation by which the
-- source defines it: the parts of a comma list are read by `from_str` itself.
pub from_str-equation : (input : Text) → from_str input ≡ from_str_body from_str input
unfolding from_str from_str_fuel
from_str-equation input = from_str_body-Agree _ _ input (from_str_fuel-Agree 0 1)

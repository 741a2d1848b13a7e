-- ===== src/Tests/Firewall.antt =====
-- Rules, verdicts and port specs at concrete inputs.
use anne_de_breuil.PortSpec.Forms.{SaysAny, ReadParts, from_str_iff-SaysAny}
use anne_de_breuil.Text.{trim, contains, split}
use anne_de_breuil.PortSpec.{PortSpecs, any, single, list, nil, cons}
use anne_de_breuil.Prelude.{true, ◌↔◌}
use anne_de_breuil.Prelude.{◌≡◌, refl, ◌↔◌, false, List, [], ◌∷◌, arith, ◌++◌, map}
use anne_de_breuil.Text.{codes}
use anne_de_breuil.Error.{ok}
use anne_de_breuil.Tests.Data.{ssh, rule, port}
use anne_de_breuil.PortSpec.{
  PortSpec, any, single, range, list, of_list, display_label, from_str, from_str_body,
}
use anne_de_breuil.PortSpec.WellFormed.{IsWellFormed, from_str-IsWellFormed}
use anne_de_breuil.PortSpec.Labels.{from_str-display_label}
use anne_de_breuil.Firewall.{allow, block, outbound, FirewallRule}
use anne_de_breuil.Reachability.{evaluate, blocked}
use anne_de_breuil.Reachability.Verdicts.{Means, evaluate_iff-Means}
use anne_de_breuil.Reachability.Rules.{switched, evaluate-SameRules, evaluate-switched}

-- 22 and 8000-8100.
abbrev ports : PortSpec
ports = list (of_list (single (port 22) ∷ range (record { start = 8000; end = 8100 }) ∷ []))

abbrev rules : List FirewallRule
rules = rule allow any ∷ rule block ports ∷ []

evaluate_iff-Means_example :
    ((evaluate false ssh rules []).reachability ≡ blocked) ↔ Means false ssh rules blocked
evaluate_iff-Means_example = evaluate_iff-Means false ssh rules [] blocked

evaluate-SameRules_example :
    (evaluate false ssh (rules ++ rules) []).reachability
    ≡ (evaluate false ssh rules []).reachability
evaluate-SameRules_example =
    evaluate-SameRules false ssh (rules ++ rules) rules
      (λ r. ((λ m. ground arith), (λ m. ground arith))) [] []

evaluate-switched_example :
    (evaluate false ssh (map (switched false outbound) rules) []).reachability
    ≡ (evaluate false ssh rules []).reachability
evaluate-switched_example = evaluate-switched false ssh false outbound rules []

from_str-display_label_example : from_str (display_label ports) ≡ ok ports
from_str-display_label_example = from_str-display_label ports (
  ((
    (omega arith, omega arith),
    (((omega arith, omega arith), (omega arith, omega arith), omega arith), tt),
  )),
  omega arith,
  omega arith,
)

from_str-IsWellFormed_example : IsWellFormed ports
unfolding from_str anne_de_breuil.Text.trim anne_de_breuil.Text.text_eq
    anne_de_breuil.Text.eq_ignore_ascii_case anne_de_breuil.Text.split
    anne_de_breuil.Text.split_once anne_de_breuil.PortSpec.Keyword.from_name
    anne_de_breuil.Text.from_str_radix anne_de_breuil.Port.port_try_from
    anne_de_breuil.Port.range_try_from
from_str-IsWellFormed_example = from_str-IsWellFormed (codes "22, 8000-8100") ports refl

-- A list of any and a port.
abbrev any_and_port : PortSpecs
any_and_port = cons any (cons (single (record { get = 80 })) nil)

from_str_iff-SaysAny_example :
    ((from_str (codes "any,80") ≡ ok any) ↔ SaysAny (trim (codes "any,80")))
    × ((from_str (codes "any,80") ≡ ok (list any_and_port)) ↔ (
        (contains b',' (trim (codes "any,80")) ≡ true)
        × ReadParts (split b',' (trim (codes "any,80"))) any_and_port))
from_str_iff-SaysAny_example = from_str_iff-SaysAny (codes "any,80") any_and_port

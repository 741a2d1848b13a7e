-- ===== src/Identity/Registry.antt =====
-- The registry of assigned ports: crates/anne-de-breuil/src/domain/port_registry.rs. `raw` stands
-- for the text of the registry file, which the build embeds.
pub mod Rows
use anne_de_breuil.Prelude.{
  ◌>>=◌, ℕ, ◌&&◌, Option, none, some, List, [], ◌∷◌, map, ◌==◌, if◌then◌else◌, is_empty, ◌≟◌,
}
use anne_de_breuil.Text.{Text, codes, text_eq, parse_u16}
use anne_de_breuil.Text.Lines.{lines, splitn}
use anne_de_breuil.Identity.{ServiceIdentity, new, to_option, port_assignment, other, assigned}
use anne_de_breuil.Firewall.{Protocol, tcp, udp, Protocol-eq}
use anne_de_breuil.Port.{Port}

pub record RegistryEntry : Type 0 where
  pub name : Text

-- The map, the newest insertion first.
abbrev pub Registry : Type 0
Registry = List (ℕ × Protocol × RegistryEntry)

-- `match protocol_field`.
unfoldable pub protocol_of_field : Text → Option Protocol
protocol_of_field s =
    if text_eq s (codes "tcp") then some tcp else if text_eq s (codes "udp") then some udp else none

-- What one line inserts, if anything.
unfoldable pub row_of : Text → Option (ℕ × Protocol × RegistryEntry)
unfolding protocol_of_field
row_of line = elim (splitn 4 9 line) [
  | port_field ∷ protocol_field ∷ name_field ∷ rest ↦ do
    port ← parse_u16 port_field
    protocol ← protocol_of_field protocol_field
    if is_empty name_field then none else some (port, protocol, record { name = name_field })
  | _ ↦ none
]

-- `HashMap::insert` of what a line gives.
insert_row : Option (ℕ × Protocol × RegistryEntry) → Registry → Registry
insert_row none map = map
insert_row (some row) map = row ∷ map

-- The loop over the lines.
insert_rows : List Text → Registry → Registry
unfolding insert_row
insert_rows [] map = map
insert_rows (line ∷ l) map = insert_rows l (insert_row (row_of line) map)

unfoldable pub build_registry : Text → Registry
unfolding insert_rows
build_registry raw = insert_rows (lines raw) []

-- `HashMap::get`.
unfoldable pub get_entry : Registry → ℕ → Protocol → Option RegistryEntry
get_entry [] port protocol = none
get_entry (row ∷ l) port protocol =
    let rest = get_entry l port protocol in
    if row.0 == port && row.1 ≟ protocol then some row.2 else rest

identity_of_entry : RegistryEntry → Option ServiceIdentity
identity_of_entry entry =
    to_option (new entry.name other assigned (port_assignment entry.name ∷ []))

unfoldable pub identity_for_port : Text → Port → Protocol → Option ServiceIdentity
unfolding build_registry identity_of_entry get_entry
identity_for_port raw port protocol = do
  entry ← get_entry (build_registry raw) port.get protocol
  identity_of_entry entry

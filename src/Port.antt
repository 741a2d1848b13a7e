-- ===== src/Port.antt =====
-- Ports and port ranges: crates/anne-de-breuil/src/domain/port.rs and `PortRange` of port_spec.rs.
use anne_de_breuil.Prelude.{
  ℕ, Bool, ◌&&◌, ◌||◌, Option, none, some, ◌∷◌, ◌++◌, ltb, leb, ◌==◌, if◌then◌else◌,
}
use anne_de_breuil.Error.{invalid_port, malformed_port_spec, Result, ok, err}
use anne_de_breuil.Text.{Text, trim, parse_u16, to_string}

-- A `u16` that is not zero.
pub record Port : Type 0 where
  pub get : ℕ

-- `impl TryFrom<u16> for Port`.
unfoldable pub port_try_from : ℕ → Result Port
port_try_from value = if value == 0 then err (invalid_port value) else ok (record { get = value })

parsed : Text → Option ℕ → Result Port
unfolding port_try_from
parsed s none = err (malformed_port_spec s)
parsed s (some value) = port_try_from value

-- `impl FromStr for Port`.
unfoldable pub port_from_str : Text → Result Port
unfolding parsed
port_from_str s = parsed s (parse_u16 (trim s))

-- Both ends belong to the range.
pub record PortRange : Type 0 where
  pub start : ℕ
  pub end : ℕ

-- The text of a range, as `format!("{start}-{end}")` writes it.
abbrev pub range_text : ℕ → ℕ → Text
range_text start end = to_string start ++ (b'-' ∷ to_string end)

-- `impl TryFrom<(u16, u16)> for PortRange`.
unfoldable pub range_try_from : ℕ → ℕ → Result PortRange
range_try_from start end =
    if start == 0 || end == 0 || ltb end start
    then err (malformed_port_spec (range_text start end))
    else ok (record { start = start; end = end })

-- `PortRange::contains`.
unfoldable pub range_contains : PortRange → Port → Bool
range_contains r port = leb r.start port.get && leb port.get r.end

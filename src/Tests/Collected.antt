-- ===== src/Tests/Collected.antt =====
-- A collection from a host with one socket, a listing of two sockets, and a rule of Windows.
use anne_de_breuil.Prelude.{
  ℕ, ◌≡◌, refl, Option, none, some, List, [], ◌∷◌, ◌++◌, arith, map, filter,
}
use anne_de_breuil.Text.{Text, codes, split, from_str_radix, is_whitespace, push_first, to_digit}
use anne_de_breuil.Text.Lines.{lines, split_whitespace}
use anne_de_breuil.FirewallJoin.{WmiFirewallRule, WmiPortFilter, assemble_rules}
use anne_de_breuil.FirewallJoin.Rows.{Assembled, assemble_rules-Assembled}
use anne_de_breuil.ProcNet.{parse_proc_net_tcp}
use anne_de_breuil.ProcNet.Addresses.{hex8, hex4}
use anne_de_breuil.ProcNet.Rows.{Socket, Row, is_listening, reported, parse_proc_net_tcp-rows}
use anne_de_breuil.Endpoint.{IpAddr, v4}
use anne_de_breuil.Firewall.{tcp}
use anne_de_breuil.Names.{unknown}
use anne_de_breuil.Collect.{Sources, RawEndpoint, CollectedEndpoint, done, resolved}
use anne_de_breuil.Collect.Pointwise.{Pointwise}

abbrev any_address : Text → Option IpAddr
any_address s = some (v4 0)

abbrev socket : RawEndpoint
socket = record {
  protocol = codes "tcp";
  local_address = codes "0.0.0.0";
  local_port = 22;
  owning_pid = some 7;
}

abbrev host_with : RawEndpoint → Sources
host_with raw = record {
  listening_endpoints = done (raw ∷ []);
  describe = λ pid. done (some (record { pid = 7; path = none; command_line = none }));
  hosted_services = λ pid. done (
      record { name = codes "sshd"; display_name = codes "SSH" }
      ∷ record { name = codes "audit"; display_name = codes "Audit" }
      ∷ []);
  verify = λ path. done unknown;
}

abbrev endpoint : CollectedEndpoint
endpoint = record {
  protocol = tcp;
  bind_address = record { ip = v4 0 };
  port = record { get = 22 };
  owning_process =
      resolved (record { get = 7 }) none
        (record { as_str = codes "audit" } ∷ record { as_str = codes "sshd" } ∷ []) unknown none;
}

abbrev write_ip : IpAddr → Text
write_ip ip = codes "127.0.0.1"

abbrev find_pid : ℕ → Option ℕ
find_pid inode = some 7

abbrev listening_line : Text
listening_line = codes "0: 0100007F:0016 00000000:0000 0A 0:0 00:0 0 0 0 1234 1"

abbrev established_line : Text
established_line = codes " 1: 0100007F:0016 0200007F:C000 01 0:0 00:0 0 0 0 1235"

abbrev listing : Text
listing = codes "sl local" ++ 10 ∷ listening_line ++ 10 ∷ established_line ++ 10 ∷ []

abbrev two_sockets : List Socket
two_sockets =
    record { address = 0x0100_007F; port = 22; state = codes "0A"; inode = 1234 }
    ∷ record { address = 0x0100_007F; port = 22; state = codes "01"; inode = 1235 }
    ∷ []

listing-rows : Pointwise Row (listening_line ∷ established_line ∷ []) two_sockets
unfolding split_whitespace hex8 hex4 from_str_radix is_whitespace push_first to_digit
listing-rows = (
  (
    codes "0:",
    codes "00000000:0000",
    codes "0:0",
    codes "00:0",
    codes "0",
    codes "0",
    codes "0",
    codes "1234",
    codes "1" ∷ [],
    omega arith,
    omega arith,
    refl,
    refl,
  ),
  (
    (
      codes "1:",
      codes "0200007F:C000",
      codes "0:0",
      codes "00:0",
      codes "0",
      codes "0",
      codes "0",
      codes "1235",
      [],
      omega arith,
      omega arith,
      refl,
      refl,
    ),
    tt,
  ),
)

listing-lines : lines listing ≡ codes "sl local" ∷ listening_line ∷ established_line ∷ []
unfolding lines split
listing-lines = refl

parse_proc_net_tcp-rows_example :
    parse_proc_net_tcp write_ip find_pid listing
    ≡ map (reported write_ip find_pid (codes "tcp")) (filter is_listening two_sockets)
parse_proc_net_tcp-rows_example =
    parse_proc_net_tcp-rows write_ip find_pid listing (codes "sl local")
      (listening_line ∷ established_line ∷ []) two_sockets listing-lines listing-rows

abbrev web_rule : WmiFirewallRule
web_rule = record {
  instance_id = codes "{A1}";
  display_name = codes "Web";
  direction = 1;
  action = 1;
  enabled = 1;
  policy_store_source_type = 0;
}

abbrev web_port : WmiPortFilter
web_port = record {
  instance_id = codes "{A1}";
  protocol = some (codes "TCP");
  local_port = some (codes "443");
}

assemble_rules-Assembled_example :
    Pointwise
      (Assembled (web_port ∷ []) [] [])
      (web_rule ∷ [])
      (assemble_rules (web_rule ∷ []) (web_port ∷ []) [] [])
assemble_rules-Assembled_example = assemble_rules-Assembled (web_port ∷ []) [] [] (web_rule ∷ [])

-- ===== src/Tests/Data.antt =====
-- Sample endpoints, rules and scans.
use anne_de_breuil.Prelude.{ℕ, true, none, some, List, []}
use anne_de_breuil.Text.{codes}
use anne_de_breuil.Port.{Port}
use anne_de_breuil.PortSpec.{PortSpec}
use anne_de_breuil.Names.{ProcessPath, unsigned}
use anne_de_breuil.Firewall.{Protocol, tcp, udp, RuleAction, inbound, local, FirewallRule}
use anne_de_breuil.Endpoint.{IpAddr, v4, Exposure, loopback, all_interfaces, Endpoint}
use anne_de_breuil.Snapshot.{ScanSnapshot, execute}

abbrev pub port : ℕ → Port
port n = record { get = n }

abbrev pub sshd : ProcessPath
sshd = record { as_str = codes "/usr/sbin/sshd" }

abbrev pub chrome : ProcessPath
chrome = record { as_str = codes "/opt/chrome" }

-- 0.0.0.0 and 127.0.0.1.
abbrev pub wildcard : IpAddr
wildcard = v4 0

abbrev pub home : IpAddr
home = v4 2_130_706_433

abbrev pub listener : Protocol → IpAddr → Exposure → ℕ → ProcessPath → Endpoint
listener protocol addr exposure n path = record {
  protocol = protocol;
  bind_address = record { ip = addr };
  port = port n;
  process_id = some (record { get = 4242 });
  process_path = some path;
  hosted_services = [];
  signature_status = unsigned;
  exposure = exposure;
  command_line = none;
}

-- sshd on all interfaces, mDNS twice on the same port, and a service at home.
abbrev pub ssh : Endpoint
ssh = listener tcp wildcard all_interfaces 22 sshd

abbrev pub mdns_sshd : Endpoint
mdns_sshd = listener udp wildcard all_interfaces 5353 sshd

abbrev pub mdns_chrome : Endpoint
mdns_chrome = listener udp wildcard all_interfaces 5353 chrome

abbrev pub local_http : Endpoint
local_http = listener tcp home loopback 80 chrome

abbrev pub rule : RuleAction → PortSpec → FirewallRule
rule action spec = record {
  rule_id = record { as_uuid = 7 };
  display_name = codes "a rule";
  direction = inbound;
  action = action;
  protocol = tcp;
  port_spec = spec;
  program_filter = none;
  service_filter = none;
  enabled = true;
  policy_store = local;
}

abbrev pub scan : List Endpoint → List FirewallRule → ScanSnapshot ℕ
scan endpoints rules = record {
  host_id = record { as_uuid = 1 };
  scan_id = record { as_uuid = 2 };
  collected_at = 0;
  collector_version = codes "0.1";
  endpoints = endpoints;
  firewall_rules = rules;
  profiles = [];
  strategy = execute;
}

-- ===== src/Endpoint.antt =====
-- Endpoints: crates/anne-de-breuil/src/domain/endpoint.rs, bind_address.rs and exposure.rs.
use anne_de_breuil.Prelude.{ℕ, ◌/◌, ◌^◌, Bool, Option, List, ◌==◌, if◌then◌else◌, Eq}
use anne_de_breuil.Firewall.{Protocol}
use anne_de_breuil.Names.{ProcessId, ProcessPath, ServiceName, SignatureStatus}
use anne_de_breuil.Port.{Port}
use anne_de_breuil.Sort.{sort_by}
use anne_de_breuil.Text.{Text, text_leb}

-- `std::net::IpAddr`, by the number that the address's bytes write.
pub data IpAddr : Type 0 where
  v4 v6 : ℕ → IpAddr

-- `is_loopback`: 127.0.0.0/8 and ::1.
abbrev pub is_loopback : IpAddr → Bool
is_loopback (v4 bits) = bits / 2 ^ 24 == 127
is_loopback (v6 bits) = bits == 1

-- `is_unspecified`: 0.0.0.0 and ::.
abbrev pub is_unspecified : IpAddr → Bool
is_unspecified (v4 bits) = bits == 0
is_unspecified (v6 bits) = bits == 0

pub record BindAddress : Type 0 where
  pub ip : IpAddr

pub data Exposure : Type 0 where
  loopback specific_interface all_interfaces : Exposure

-- `Exposure::classify`.
unfoldable pub classify : IpAddr → Exposure
classify addr =
    if is_loopback addr
    then loopback
    else if is_unspecified addr
    then all_interfaces
    else specific_interface

pub record Endpoint : Type 0 where
  pub protocol : Protocol
  pub bind_address : BindAddress
  pub port : Port
  pub process_id : Option ProcessId
  pub process_path : Option ProcessPath
  pub hosted_services : List ServiceName
  pub signature_status : SignatureStatus
  pub exposure : Exposure
  pub command_line : Option Text

-- `Endpoint::new`: the services sorted, the exposure derived from the address.
unfoldable pub new :
    Protocol
    → BindAddress
    → Port
    → Option ProcessId
    → Option ProcessPath
    → List ServiceName
    → SignatureStatus
    → Option Text
    → Endpoint
unfolding classify
new protocol bind_address port process_id process_path services signature_status command_line =
    record {
      protocol = protocol;
      bind_address = bind_address;
      port = port;
      process_id = process_id;
      process_path = process_path;
      hosted_services = sort_by (λ (s t : ServiceName). text_leb s.as_str t.as_str) services;
      signature_status = signature_status;
      exposure = classify bind_address.ip;
      command_line = command_line;
    }

unfoldable pub Exposure-discrete : Discrete Exposure
Exposure-discrete = hlevel

instance abbrev pub Exposure-eq : Eq Exposure
Exposure-eq = record { eq_dec = Exposure-discrete }

-- ===== src/PortSpec/Keyword.antt =====
-- `DynamicKeyword` of crates/anne-de-breuil/src/domain/port_spec.rs.
use anne_de_breuil.Prelude.{Option, none, some, if◌then◌else◌}
use anne_de_breuil.Text.{Text, codes, text_eq, to_ascii_lowercase}

pub data DynamicKeyword : Type 0 where
  rpc rpc_ep_map ip_https_in mdns teredo play_to_discovery : DynamicKeyword

-- The `match` of `from_name`, on the lowercase name.
lookup_name : Text → Option DynamicKeyword
lookup_name s =
    if text_eq s (codes "rpc")
    then some rpc
    else if text_eq s (codes "rpcepmap")
    then some rpc_ep_map
    else if text_eq s (codes "iphttpsin")
    then some ip_https_in
    else if text_eq s (codes "mdns")
    then some mdns
    else if text_eq s (codes "teredo")
    then some teredo
    else if text_eq s (codes "playtodiscovery")
    then some play_to_discovery
    else none

-- `DynamicKeyword::from_name`.
unfoldable pub from_name : Text → Option DynamicKeyword
unfolding lookup_name
from_name name = lookup_name (to_ascii_lowercase name)

-- `DynamicKeyword::canonical_name`.
unfoldable pub canonical_name : DynamicKeyword → Text
canonical_name rpc = codes "RPC"
canonical_name rpc_ep_map = codes "RPCEPMap"
canonical_name ip_https_in = codes "IPHTTPSIn"
canonical_name mdns = codes "mDNS"
canonical_name teredo = codes "Teredo"
canonical_name play_to_discovery = codes "PlayToDiscovery"

-- ===== src/Collect/Pointwise.antt =====
-- What is collected of what the platform reports
-- (crates/anne-de-breuil/src/application/collect.rs).
use anne_de_breuil.Prelude.{ℕ, ◌≡◌, ◌≢◌, ◌⊎◌, Option, none, some, List, [], ◌∷◌}
use anne_de_breuil.Text.{Text}
use anne_de_breuil.Error.{ok}
use anne_de_breuil.Endpoint.{IpAddr}
use anne_de_breuil.Port.{port_try_from}
use anne_de_breuil.Firewall.{protocol_from_str}
use anne_de_breuil.Names.{ProcessId, ProcessPath, ServiceName, SignatureStatus}
use anne_de_breuil.Collect.{
  bind_address_from_str, done, RawEndpoint, RawProcess, Sources, ProcessAttribution, resolved,
  process_gone, unresolved, CollectedEndpoint, path_of, signature_of,
}

-- Two lists side by side.
abbrev pub Pointwise : {A B : Type 0} → (A → B → Type 0) → List A → List B → Type 0
Pointwise R [] [] = Unit {0}
Pointwise R [] (b ∷ m) = ⊥
Pointwise R (a ∷ l) [] = ⊥
Pointwise R (a ∷ l) (b ∷ m) = R a b × Pointwise R l m

module _ (sources : Sources) where
  -- A described process: gone, or resolved with its own path and command line.
  abbrev pub Described : ProcessId → ProcessAttribution → Type 0
  Described pid a =
      ((sources.describe pid ≡ done none) × (a ≡ process_gone))
      ⊎ ((p : RawProcess) × (path : Option ProcessPath) × (services : List ServiceName)
          × (signature : SignatureStatus) × (sources.describe pid ≡ done (some p))
          × (path_of p.path ≡ done path)
          × (signature_of sources path ≡ done signature)
          × (a ≡ resolved pid path services signature p.command_line))

  -- What is attributed to a process id: nothing without one and to 0, else what describes it.
  abbrev pub Attributed : Option ℕ → ProcessAttribution → Type 0
  Attributed none a = a ≡ unresolved
  Attributed (some n) a =
      ((n ≡ 0) × (a ≡ unresolved)) ⊎ ((n ≢ 0) × Described (record { get = n }) a)

  module _ (parse_ip : Text → Option IpAddr) where
    -- An endpoint collected from a raw one: each of its parts is that of the raw one, parsed.
    abbrev pub Collects : RawEndpoint → CollectedEndpoint → Type 0
    Collects raw c =
        (protocol_from_str raw.protocol ≡ ok c.protocol)
        × (bind_address_from_str parse_ip raw.local_address ≡ ok c.bind_address)
        × (port_try_from raw.local_port ≡ ok c.port)
        × Attributed raw.owning_pid c.owning_process

    -- The endpoints of the host, each collected from its raw one.
    abbrev pub Collected : List CollectedEndpoint → Type 0
    Collected out =
        (raws : List RawEndpoint) × (sources.listening_endpoints ≡ done raws)
        × Pointwise Collects raws out

-- ===== src/Lib.antt =====
-- The core of Anne de Breuil, a scanner that records which network endpoints a host exposes, what
-- its firewall says about each, and what changed between two scans.
--
-- A collector gathers raw endpoints and firewall rules on a host; they become validated domain
-- values; a snapshot holds those of one scan; `evaluate` decides from the rules whether an endpoint
-- can be reached; `diff` compares two snapshots and grades each change. On Linux the firewall's
-- policy is decoded from netlink messages. A remote host is scanned over SSH, behind a check of its
-- key; `run_fanout` scans the hosts of an inventory at once and retries a failed scan; a portal shows
-- the scans within a budget of requests. What a probe observes of a service is evidence, from which
-- the catalogue of fingerprints identifies it. A report model puts the scans of all hosts together,
-- with the secrets in command lines redacted.
--
-- Text          texts as lists of code points, with what the program uses of the standard
--               library
-- Error         crates/anne-de-breuil/src/domain/error.rs: `DomainError`, and results with their
--               `?`
-- Port          crates/anne-de-breuil/src/domain/port.rs, and `PortRange` of domain/port_spec.rs
-- PortSpec      crates/anne-de-breuil/src/domain/port_spec.rs: `from_str`, `matches`,
--               `display_label`; PortSpec/Keyword has `DynamicKeyword`
-- Names         crates/anne-de-breuil/src/domain/process.rs, service.rs, publisher.rs,
--               host_address.rs, and `ProcessId` of ids.rs
-- Firewall      crates/anne-de-breuil/src/domain/firewall_rule.rs, policy_store.rs, profile.rs,
--               protocol.rs
-- Sort          the stable sort that the constructors call
-- Endpoint      crates/anne-de-breuil/src/domain/endpoint.rs, bind_address.rs, exposure.rs
-- Snapshot      crates/anne-de-breuil/src/domain/snapshot.rs, target_strategy.rs
-- Reachability  crates/anne-de-breuil/src/domain/reachability.rs: `evaluate`, `rule_applies`,
--               program filters
-- Drift         crates/anne-de-breuil/src/domain/drift.rs: `diff`, `severity_for`
-- ProfilePorts  crates/anne-de-breuil/src/domain/profile_ports.rs: `summarize_inbound_ports`
-- Bytes         byte buffers: slices, machine integers, UTF-8
-- NftWire       crates/anne-de-breuil/src/adapters/linux_collector/nft_wire.rs: requests,
--               messages, attributes, chains; NftWire/Items has what the kernel may say of a
--               chain, NftWire/Rules the rules made of them, and
--               `RawRule` of crates/anne-de-breuil/src/application/collect.rs
-- KnownHosts    crates/anne-de-breuil/src/adapters/ssh_transport/known_hosts.rs: host patterns;
--               KnownHosts/Book has `KnownHosts`, `lookup` and `verify_host_key`
-- Redaction     crates/anne-de-breuil/src/domain/redaction.rs: `redact`
-- Identity      crates/anne-de-breuil/src/domain/evidence.rs, confidence.rs, service_category.rs,
--               service_identity.rs, attribution.rs, reconciliation.rs, mismatch.rs;
--               Identity/Registry has port_registry.rs
-- Fingerprint   crates/anne-de-breuil/src/domain/fingerprint.rs: `try_match`, `fingerprint`;
--               Fingerprint/Catalogue has the checks and the compilation of the entries
-- Report        crates/anne-de-breuil/src/domain/report_model.rs: `ReportModel::build`;
--               Report/Views has the views of the domain's types
-- Store         crates/anne-de-breuil/src/adapters/snapshot_store/fs.rs: `put`, `get`, `list`
-- Annotations   crates/anne-de-breuil/src/domain/annotations.rs: `select_annotation`,
--               `executive_summary`
-- Fanout        crates/anne-de-breuil/src/application/fanout.rs: `run_fanout`, `scan_one_host`
-- RateLimit     crates/anne-de-breuil/src/adapters/portal/rate_limit.rs: `check`
-- Collect       crates/anne-de-breuil/src/application/collect.rs: `collect_endpoints`
-- ProcNet       crates/anne-de-breuil/src/adapters/linux_collector/proc_net.rs
-- CgroupUnit    crates/anne-de-breuil/src/adapters/linux_collector/cgroup_unit.rs
-- FirewallMapping
--               crates/anne-de-breuil-cli/src/application/firewall_mapping.rs:
--               `firewall_rules_from_raw`, `firewall_profiles_from_raw`
-- FirewallJoin  crates/anne-de-breuil/src/adapters/windows_collector/firewall_join.rs:
--               `assemble_rules`, `profiles_from_wmi`
-- Retry         crates/anne-de-breuil/src/application/fanout.rs: `with_retry`
-- Tests         sample data, and the theorems at concrete inputs
--
-- State and conventions. The domain's values are immutable. The book of host keys and the buckets of
-- the rate limiter are state, which their operations take and return; the mutex around each is held
-- for a whole call, so calls come one after another.
-- A `match`, an early return or a `?` is a case of the function or a `do` block. `cfg(windows)`
-- is a Boolean argument, which is true on Windows. Numbers are natural numbers; the theorems
-- about bytes bound them by the width of the field. The hash maps of `diff` and of
-- `assemble_rules` are lookups in a list, in which the last entry with a key wins.
-- A fan-out is a step relation on the states of its tasks: the runtime picks any step that is
-- possible. The regular expression engine is a parameter: a pattern is what the engine finds with it.
-- A store is the index and the content files of its directory; the writes of a `put` are a list,
-- of which a crash leaves a beginning done.
-- The clock, the jitter of a retry and the outcome of each attempt are arguments.
--
-- Fuel. `from_str` calls itself on the parts of a comma list, which hold no comma, so two levels are
-- enough. The loops over netlink messages and attributes move by at least 16 and 4 bytes, so one
-- round for each byte of the buffer, and one more, is enough.
--
-- Not modelled: serde, the I/O of the collectors, the SQLite store, the rest of the web portal,
-- rendering of reports, and the command line. The parser of IP literals is a parameter of
-- `host_address_try_from` and of the collection of endpoints, the sources of a collection are its
-- argument, as is the search for the process behind a socket. The parser of UUIDs and the hash
-- behind a rule id are parameters of the mapping of rules. HMAC-SHA1 and the fingerprint of a key
-- are parameters of the book of host keys, and time is a type parameter of a snapshot.
mod Prelude
pub mod Text
pub mod Error
pub mod Port
pub mod PortSpec
pub mod Names
pub mod Firewall
pub mod FirewallMapping
pub mod FirewallJoin
pub mod Sort
pub mod Endpoint
pub mod Reachability
pub mod Snapshot
pub mod Drift
pub mod Bytes
pub mod NftWire
pub mod KnownHosts
pub mod RateLimit
pub mod ProfilePorts
pub mod Redaction
pub mod Identity
pub mod Fingerprint
pub mod Fanout
pub mod Report
pub mod Store
pub mod Annotations
pub mod Collect
pub mod ProcNet
pub mod CgroupUnit
pub mod Retry
pub mod Tests

-- ===== src/ProcNet.antt =====
-- The listening sockets of Linux: crates/anne-de-breuil/src/adapters/linux_collector/proc_net.rs. How
-- the standard library writes an address, `show_ip`, and the process behind a socket's inode, which
-- is looked for under /proc, are arguments.
pub mod Addresses
pub mod Rows
use anne_de_breuil.Prelude.{
  ℕ, zero, suc, ◌+◌, ◌-◌, ◌*◌, ◌/◌, ◌%◌, ◌^◌, ◌≤◌, ◌<◌, ◌≡◌, refl, sym, ap, ◌∙◌, subst, ◌≢◌, ◌↔◌,
  ◌⊎◌, inl, inr, Bool, true, false, not, ◌&&◌, ◌||◌, Option, none, some, List, [], ◌∷◌, ◌++◌, map,
  arith, ltb, leb, ◌==◌, if◌then◌else◌, ==_iff, ==_refl, Bool-cases, Option-cases, Bool-ext, length,
  take, drop, is_empty, all, filter, find?, any, length-append, In, All, Eq, ◌≟◌, ≟→eq, ≟_refl,
  ℕ_discrete,
}
use anne_de_breuil.Prelude.{◌>>=◌}
use anne_de_breuil.Bytes.{Bytes, to_utf8, from_utf8, le32, from_be_bytes}
use anne_de_breuil.Text.{Text, codes, split_once, from_str_radix, eq_ignore_ascii_case}
use anne_de_breuil.Text.Lines.{lines, split_whitespace}
use anne_de_breuil.Endpoint.{IpAddr, v4, v6}
use anne_de_breuil.Collect.{RawEndpoint}

abbrev pub tcp_listen : Text
tcp_listen = codes "0A"

-- `chunks(8)`, for as many rounds as chunks are to come.
unfoldable pub chunks : ℕ → Bytes → List Bytes
chunks zero bytes = []
chunks (suc n) bytes = take 8 bytes ∷ chunks n (drop 8 bytes)

-- One word, as the bytes that it stands for in memory.
unfoldable pub word_bytes : Bytes → Option Bytes
word_bytes chunk = do
  chunk_str ← from_utf8 chunk
  word ← from_str_radix 0x1_0000_0000 16 chunk_str
  some (le32 word)

unfoldable pub all_words : List Bytes → Option Bytes
unfolding word_bytes
all_words [] = some []
all_words (chunk ∷ l) = do bytes ← word_bytes chunk; rest ← all_words l; some (bytes ++ rest)

-- `match bytes.as_slice()`: four bytes are an IPv4 address, sixteen an IPv6 one.
unfoldable pub address_of : Bytes → Option IpAddr
address_of bytes =
    if length bytes == 4
    then some (v4 (from_be_bytes bytes))
    else if length bytes == 16
    then some (v6 (from_be_bytes bytes))
    else none

-- `decode_hex_addr` up to the text of the address.
unfoldable pub decode_hex_ip : Text → Option IpAddr
unfolding chunks all_words address_of
decode_hex_ip hex =
    let hex_bytes = to_utf8 hex in
    let words = length hex_bytes / 8 in
    if words == 0 || not (length hex_bytes % 8 == 0)
    then none
    else (do bytes ← all_words (chunks words hex_bytes); address_of bytes)

-- What `nth` leaves of the fields: the field, and the ones behind it.
nth : ℕ → List Text → Option (Text × List Text)
nth n [] = none
nth zero (s ∷ l) = some (s, l)
nth (suc n) (s ∷ l) = nth n l

-- The states that are wanted: all, or one.
wanted : Option Text → Text → Bool
wanted none state = true
wanted (some want) state = eq_ignore_ascii_case state want

module _ (show_ip : IpAddr → Text) (inode_to_pid : ℕ → Option ℕ) where
  unfoldable pub decode_hex_addr : Text → Option Text
  unfolding decode_hex_ip
  decode_hex_addr hex = do ip ← decode_hex_ip hex; some (show_ip ip)

  endpoint_from : Text → Text → ℕ → Option RawEndpoint
  unfolding decode_hex_addr
  endpoint_from protocol local inode = do
    parts ← split_once b':' local
    local_address ← decode_hex_addr parts.0
    local_port ← from_str_radix 0x1_0000 16 parts.1
    some (record {
      protocol = protocol;
      local_address = local_address;
      local_port = local_port;
      owning_pid = inode_to_pid inode;
    })

  unfoldable pub parse_fields : Text → Text → Option Text → Option RawEndpoint
  unfolding nth wanted endpoint_from
  parse_fields line protocol want_state = do
    local ← nth 1 (split_whitespace line)
    state ← nth 1 local.1
    late ← (if wanted want_state state.0 then nth 5 state.1 else none)
    inode ← from_str_radix 0x1_0000_0000_0000_0000 10 late.0
    endpoint_from protocol local.0 inode

  -- `filter_map` over the lines.
  unfoldable pub endpoints_of : (Text → Option RawEndpoint) → List Text → List RawEndpoint
  endpoints_of f [] = []
  endpoints_of f (line ∷ l) = elim (f line) [
    | none ↦ endpoints_of f l
    | some e ↦ e ∷ endpoints_of f l
  ]

  unfoldable pub parse_proc_net_tcp : Text → List RawEndpoint
  unfolding parse_fields endpoints_of
  parse_proc_net_tcp contents =
      endpoints_of (λ line. parse_fields line (codes "tcp") (some tcp_listen))
        (drop 1 (lines contents))

  unfoldable pub parse_proc_net_udp : Text → List RawEndpoint
  unfolding parse_fields endpoints_of
  parse_proc_net_udp contents =
      endpoints_of (λ line. parse_fields line (codes "udp") none) (drop 1 (lines contents))

-- ===== src/ProcNet/Rows.antt =====
-- A row of a listing (crates/anne-de-breuil/src/adapters/linux_collector/proc_net.rs).
use anne_de_breuil.Prelude.{
  ℕ, ◌<◌, ◌≡◌, refl, Bool, false, Option, none, some, List, [], ◌∷◌, ◌++◌, arith, ◌==◌,
  if◌then◌else◌, ◌%◌, ◌/◌, Bool-cases, inl, inr, map, filter,
}
use anne_de_breuil.Bytes.{from_be_bytes, le32}
use anne_de_breuil.Text.{Text, codes, from_str_radix, eq_ignore_ascii_case}
use anne_de_breuil.Text.Lines.{lines, split_whitespace}
use anne_de_breuil.Text.Split.{Lacks, split_once_cons}
use anne_de_breuil.Endpoint.{IpAddr, v4}
use anne_de_breuil.Collect.{RawEndpoint}
use anne_de_breuil.Collect.Pointwise.{Pointwise}
use anne_de_breuil.ProcNet.{
  tcp_listen, nth, wanted, decode_hex_addr, endpoint_from, parse_fields, endpoints_of,
  parse_proc_net_tcp,
}
use anne_de_breuil.ProcNet.Addresses.{
  hex_digit, hex8, hex4, from_str_radix-hex4, decode_hex_ip-hex8,
}

colon-hex_digit : (d : ℕ) → d < 16 → (hex_digit d == b':') ≡ false
colon-hex_digit d h = ground arith

hex8-Lacks : (w : ℕ) → Lacks b':' (hex8 w)
unfolding hex8
hex8-Lacks w =
    let colon : (d : ℕ) → (hex_digit (d % 16) == b':') ≡ false =
      λ d. colon-hex_digit (d % 16) (omega arith) in
    rw
      (
        colon (w / 268_435_456),
        colon (w / 16_777_216),
        colon (w / 1_048_576),
        colon (w / 65_536),
        colon (w / 4096),
        colon (w / 256),
        colon (w / 16),
        colon w,
      )
      refl

-- A socket as the kernel lists it.
pub record Socket : Type 0 where
  pub address : ℕ
  pub port : ℕ
  pub state : Text
  pub inode : ℕ

-- A line of a listing: its fields are a number, the address and the port, the peer's, the state, five
-- more, the inode, and others, with any white space in between.
abbrev pub Row : Text → Socket → Type 0
Row line socket =
    (sl peer tx tm retrnsmt uid timer inode : Text) × (rest : List Text) × (socket.address
      < 0x1_0000_0000)
    × (socket.port < 0x1_0000)
    × (from_str_radix 0x1_0000_0000_0000_0000 10 inode ≡ some socket.inode)
    × (split_whitespace line
        ≡ sl
          ∷ (hex8 socket.address ++ b':' ∷ hex4 socket.port)
          ∷ peer
          ∷ socket.state
          ∷ tx
          ∷ tm
          ∷ retrnsmt
          ∷ uid
          ∷ timer
          ∷ inode
          ∷ rest)

abbrev pub is_listening : Socket → Bool
is_listening socket = eq_ignore_ascii_case socket.state tcp_listen

module _ (show_ip : IpAddr → Text) (inode_to_pid : ℕ → Option ℕ) where
  endpoint_from-hex :
      (protocol : Text) (address port inode : ℕ)
      → address < 0x1_0000_0000
      → port < 0x1_0000
      → endpoint_from show_ip inode_to_pid protocol (hex8 address ++ b':' ∷ hex4 port) inode
        ≡ some (record {
          protocol = protocol;
          local_address = show_ip (v4 (from_be_bytes (le32 address)));
          local_port = port;
          owning_pid = inode_to_pid inode;
        })
  unfolding endpoint_from decode_hex_addr
  endpoint_from-hex protocol address port inode h k =
      rw
        (
          split_once_cons b':' (hex8 address) (hex4 port) (hex8-Lacks address),
          decode_hex_ip-hex8 address h,
          from_str_radix-hex4 port k,
        )
        refl

  -- What is to be reported of a socket.
  abbrev pub reported : Text → Socket → RawEndpoint
  reported protocol socket = record {
    protocol = protocol;
    local_address = show_ip (v4 (from_be_bytes (le32 socket.address)));
    local_port = socket.port;
    owning_pid = inode_to_pid socket.inode;
  }

  parse_fields-Row :
      (line protocol : Text) (want : Option Text) (socket : Socket)
      → Row line socket
      → parse_fields show_ip inode_to_pid line protocol want
        ≡ (if wanted want socket.state then some (reported protocol socket) else none)
  unfolding parse_fields nth
  parse_fields-Row line protocol want socket
        (sl, peer, tx, tm, retrnsmt, uid, timer, inode, rest, h, k, i, e) =
      rw e (elim (Bool-cases (wanted want socket.state)) [
        | inl z ↦ rw (z, i) (endpoint_from-hex protocol socket.address socket.port socket.inode h k)
        | inr z ↦ rw z refl
      ])

  endpoints_of-rows :
      (protocol : Text) (want : Option Text) (l : List Text) (sockets : List Socket)
      → Pointwise Row l sockets
      → endpoints_of show_ip inode_to_pid
          (λ line. parse_fields show_ip inode_to_pid line protocol want)
          l
        ≡ map (reported protocol) (filter (λ (socket : Socket). wanted want socket.state) sockets)
  unfolding endpoints_of
  endpoints_of-rows protocol want [] [] h = refl
  endpoints_of-rows protocol want [] (socket ∷ sockets) h = elim h [ ]
  endpoints_of-rows protocol want (line ∷ l) [] h = elim h [ ]
  endpoints_of-rows protocol want (line ∷ l) (socket ∷ sockets) h = ground (
    arith,
    parse_fields-Row line protocol want socket h.0,
    endpoints_of-rows protocol want l sockets h.1,
  )

  -- A listing of TCP sockets, a header and then a row for each, is parsed as the endpoints of the
  -- sockets that listen, in order: with the address whose bytes the kernel writes as one word, the
  -- port, and the process behind the inode.
  pub parse_proc_net_tcp-rows :
      (contents header : Text) (l : List Text) (sockets : List Socket)
      → lines contents ≡ header ∷ l
      → Pointwise Row l sockets
      → parse_proc_net_tcp show_ip inode_to_pid contents
        ≡ map (reported (codes "tcp")) (filter is_listening sockets)
  unfolding parse_proc_net_tcp wanted
  parse_proc_net_tcp-rows contents header l sockets e h =
      rw e (endpoints_of-rows (codes "tcp") (some tcp_listen) l sockets h)

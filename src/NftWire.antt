-- ===== src/NftWire.antt =====
-- crates/anne-de-breuil/src/adapters/linux_collector/nft_wire.rs: nftables chain dumps over netlink.
-- Offsets are `usize` values that stay far below its limit, so their sums do not wrap.
pub mod Rules
pub mod Fuel
pub mod Policies
pub mod Messages
pub mod Buffers
pub mod Items
pub mod Chains
pub mod Attributes
use anne_de_breuil.Prelude.{
  ◌>>=◌, ℕ, zero, suc, ◌+◌, ◌-◌, ◌*◌, ◌/◌, ◌%◌, ◌^◌, ◌≤◌, ◌<◌, ◌≡◌, refl, sym, ap, ◌∙◌, subst, ◌≢◌,
  ◌↔◌, ◌⊎◌, inl, inr, Bool, true, false, not, ◌&&◌, ◌||◌, Option, none, some, List, [], ◌∷◌, ◌++◌,
  map, arith, ltb, leb, ◌==◌, if◌then◌else◌, ==_iff, ==_refl, Bool-cases, Option-cases, Bool-ext,
  length, take, drop, is_empty, all, filter, find?, any, length-append, In, All, Eq, ◌≟◌, ≟→eq,
  ≟_refl, ℕ_discrete,
}
use anne_de_breuil.Bytes.{
  Bytes, slice, from_le_bytes, from_be_bytes, le16, le32, next_multiple_of_4, from_utf8,
}
use mathlib.Core.Option
use anne_de_breuil.Text.{Text, codes}

-- The message types, the flags and the attribute types, as the source computes them.
abbrev pub nfnl_subsys_nftables : ℕ
nfnl_subsys_nftables = 10

abbrev pub newchain_msg_type : ℕ
newchain_msg_type = nfnl_subsys_nftables * 256 + 3

abbrev pub getchain_msg_type : ℕ
getchain_msg_type = nfnl_subsys_nftables * 256 + 4

abbrev pub nlmsg_error : ℕ
nlmsg_error = 2

abbrev pub nlmsg_done : ℕ
nlmsg_done = 3

-- `attr_type & NLA_TYPE_MASK`: the low fourteen bits.
abbrev pub masked : ℕ → ℕ
masked attr_type = attr_type % 0x4000

abbrev pub nf_inet_local_in : ℕ
nf_inet_local_in = 1

abbrev pub nf_drop : ℕ
nf_drop = 0

pub record NftChain : Type 0 where
  pub table : Option Text
  pub name : Option Text
  pub hooknum : Option ℕ
  pub policy : Option ℕ

pub data RulesetQueryError : Type 0 where
  permission_denied unreachable : RulesetQueryError

-- `encode_getchain_dump_request`, field by field: 0x0301 is `NLM_F_REQUEST | NLM_F_DUMP`.
unfoldable pub encode_getchain_dump_request : ℕ → Bytes
encode_getchain_dump_request seq =
    le32 20
    ++ (le16 getchain_msg_type ++ (le16 0x0301 ++ (le32 seq ++ (le32 0 ++ (0 ∷ 0 ∷ 0 ∷ 0 ∷ [])))))

pub record BufferOutcome : Type 0 where
  pub chains : List NftChain
  pub done : Bool
  pub error : Option RulesetQueryError

-- `try_into().ok().map(..)` of a slice of the right size.
unfoldable pub read_u16_le : Bytes → ℕ → Option ℕ
read_u16_le buf offset = Option.map from_le_bytes (slice buf offset (offset + 2))

unfoldable pub read_u32_le : Bytes → ℕ → Option ℕ
read_u32_le buf offset = Option.map from_le_bytes (slice buf offset (offset + 4))

-- An `i32`; `negsuc n` is -(n + 1).
pub data ℤ : Type 0 where
  pos : ℕ → ℤ
  negsuc : ℕ → ℤ

-- The integer of a 32-bit pattern in two's complement.
abbrev pub signed32 : ℕ → ℤ
signed32 w = if ltb w (2 ^ 31) then pos w else negsuc (2 ^ 32 - w - 1)

unfoldable pub read_i32_le : Bytes → ℕ → Option ℤ
unfolding read_u32_le
read_i32_le buf offset = Option.map signed32 (read_u32_le buf offset)

-- `classify_errno`: -1 and -13 are `-EPERM` and `-EACCES`.
unfoldable pub classify_errno : ℤ → RulesetQueryError
classify_errno (pos n) = unreachable
classify_errno (negsuc n) = if n == 0 || n == 12 then permission_denied else unreachable

-- A message: its type, its declared length, its payload.
pub record Message : Type 0 where
  pub msg_type : ℕ
  pub msg_len : ℕ
  pub payload : Bytes

-- `if n < least { return None; }`.
abbrev at_least : ℕ → ℕ → Option ℕ
at_least least n = if ltb n least then none else some n

-- `read_nl_message`.
unfoldable pub read_nl_message : Bytes → ℕ → Option Message
read_nl_message buf offset = do
  declared ← read_u32_le buf offset
  msg_type ← read_u16_le buf (offset + 4)
  len ← at_least 16 declared
  payload ← slice buf (offset + 16) (offset + len)
  some (record { msg_type = msg_type; msg_len = len; payload = payload })

pub record Attr : Type 0 where
  pub nla_type : ℕ
  pub value : Bytes

-- One round of `iter_nlattrs`: the attribute at the offset and the offset behind it.
unfoldable pub read_nlattr : Bytes → ℕ → Option (Attr × ℕ)
read_nlattr buf offset = do
  declared ← read_u16_le buf offset
  nla_type ← read_u16_le buf (offset + 2)
  nla_len ← at_least 4 declared
  value ← slice buf (offset + 4) (offset + nla_len)
  some (record { nla_type = nla_type; value = value }, offset + next_multiple_of_4 nla_len)

-- What the loop of `iter_nlattrs` pushes from an offset on. Each round moves the offset by four at
-- least, so `suc (length buf)` rounds are enough.
unfoldable pub nlattrs_from : ℕ → Bytes → ℕ → List Attr
nlattrs_from zero buf offset = []
nlattrs_from (suc f) buf offset =
    let found : List Attr = elim (read_nlattr buf offset) [
      | none ↦ []
      | some (attr, next) ↦ attr ∷ nlattrs_from f buf next
    ] in
    if leb (offset + 4) (length buf) then found else []

unfoldable pub iter_nlattrs : Bytes → List Attr
unfolding nlattrs_from
iter_nlattrs buf = nlattrs_from (suc (length buf)) buf 0

abbrev pub last_is_nul : Bytes → Bool
last_is_nul [] = false
last_is_nul (b ∷ []) = b == 0
last_is_nul (b ∷ c ∷ s) = last_is_nul (c ∷ s)

-- `decode_nla_string`.
unfoldable pub decode_nla_string : Bytes → Option Text
decode_nla_string value =
    let trimmed = if last_is_nul value then take (length value - 1) value else value in
    if is_empty trimmed then none else from_utf8 trimmed

unfoldable pub decode_nla_u32_be : Bytes → Option ℕ
decode_nla_u32_be value = Option.map from_be_bytes (slice value 0 4)

-- The inner loop over the attributes of a hook.
hook_attr : NftChain → Attr → NftChain
hook_attr chain attr =
    if masked attr.nla_type == 1
    then record chain { hooknum = decode_nla_u32_be attr.value }
    else chain

fold {ℓ} : {A : Type ℓ} → (NftChain → A → NftChain) → NftChain → List A → NftChain
fold f chain [] = chain
fold f chain (a ∷ l) = fold f (f chain a) l

-- The `match` of `parse_chain_payload` on one attribute.
chain_attr : NftChain → Attr → NftChain
unfolding hook_attr fold
chain_attr chain attr =
    let kind = masked attr.nla_type in
    if kind == 1
    then record chain { table = decode_nla_string attr.value }
    else if kind == 3
    then record chain { name = decode_nla_string attr.value }
    else if kind == 4
    then fold hook_attr chain (iter_nlattrs attr.value)
    else if kind == 5
    then record chain { policy = decode_nla_u32_be attr.value }
    else chain

-- `NftChain::default()`.
abbrev pub no_chain : NftChain
no_chain = record { table = none; name = none; hooknum = none; policy = none }

-- `parse_chain_payload`.
unfoldable pub parse_chain_payload : Bytes → Option NftChain
unfolding chain_attr fold
parse_chain_payload payload =
    Option.map (λ attrs. fold chain_attr no_chain (iter_nlattrs attrs))
      (slice payload 4 (length payload))

abbrev pub push_chain : BufferOutcome → Option NftChain → BufferOutcome
push_chain out none = out
push_chain out (some chain) = record out { chains = out.chains ++ (chain ∷ []) }

-- `read_i32_le(payload, 0).unwrap_or(0)`.
abbrev pub errno_of : Bytes → ℤ
errno_of payload = elim (read_i32_le payload 0) [ none ↦ pos 0 | some n ↦ n ]

-- The loop of `parse_nl_buffer`. Each round moves the offset by sixteen at least.
unfoldable pub messages_from : ℕ → Bytes → ℕ → BufferOutcome → BufferOutcome
messages_from zero buf offset out = out
messages_from (suc f) buf offset out = elim (read_nl_message buf offset) [
  | none ↦ out
  | some m ↦
      let next = offset + next_multiple_of_4 m.msg_len in
      let with_chain = messages_from f buf next (push_chain out (parse_chain_payload m.payload)) in
      let skipped = messages_from f buf next out in
      if m.msg_type == nlmsg_done
      then record out { done = true }
      else if m.msg_type == nlmsg_error
      then record out { error = some (classify_errno (errno_of m.payload)); done = true }
      else if m.msg_type == newchain_msg_type
      then with_chain
      else skipped
]

-- `BufferOutcome::default()`.
abbrev pub no_outcome : BufferOutcome
no_outcome = record { chains = []; done = false; error = none }

-- `parse_nl_buffer`.
unfoldable pub parse_nl_buffer : Bytes → BufferOutcome
unfolding messages_from
parse_nl_buffer buf = messages_from (suc (length buf)) buf 0 no_outcome

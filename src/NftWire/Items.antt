-- ===== src/NftWire/Items.antt =====
-- What the kernel may say of a chain in a `NEWCHAIN` message, on the wire: the messages that
-- crates/anne-de-breuil/src/adapters/linux_collector/nft_wire.rs reads.
use anne_de_breuil.Prelude.{
  ℕ, ◌+◌, ◌<◌, ◌%◌, ◌≢◌, Option, none, some, List, [], ◌∷◌, ◌++◌, map, length, All,
}
use anne_de_breuil.Bytes.{Bytes}
use anne_de_breuil.Bytes.Slices.{be32, IsAscii}
use anne_de_breuil.Text.{Text}
use anne_de_breuil.NftWire.{Attr, NftChain}
use anne_de_breuil.NftWire.Attributes.{encoded, IsSendable}

-- An attribute of a hook: its number, or any other, such as its priority.
pub data HookItem : Type 0 where
  number : ℕ → HookItem
  other_of_hook : Attr → HookItem

-- An attribute of a chain: its table, its name, its hook, its policy, or any other, such as its handle,
-- its use count, its type or its flags.
pub data ChainItem : Type 0 where
  in_table : Text → ChainItem
  named : Text → ChainItem
  on_hook : List HookItem → ChainItem
  with_policy : ℕ → ChainItem
  other_of_chain : Attr → ChainItem

-- A string as the kernel sends it: ended by a NUL.
abbrev pub terminated : Text → Bytes
terminated s = s ++ (0 ∷ [])

abbrev pub hook_attr_of : HookItem → Attr
hook_attr_of (number n) = record { nla_type = 1; value = be32 n }
hook_attr_of (other_of_hook a) = a

-- 0x8000 is `NLA_F_NESTED`.
abbrev pub attr_of : ChainItem → Attr
attr_of (in_table s) = record { nla_type = 1; value = terminated s }
attr_of (named s) = record { nla_type = 3; value = terminated s }
attr_of (on_hook l) = record { nla_type = 0x8004; value = encoded (map hook_attr_of l) }
attr_of (with_policy n) = record { nla_type = 5; value = be32 n }
attr_of (other_of_chain a) = a

-- The payload: the family, the version and the id of the resource, then the attributes.
unfoldable pub chain_payload : Bytes → List ChainItem → Bytes
chain_payload nfgenmsg items = nfgenmsg ++ encoded (map attr_of items)

-- The type of an attribute, without the two flags.
abbrev pub type_of : Attr → ℕ
type_of a = a.nla_type % 16_384

-- A name that the kernel accepts: ASCII, not empty, and short enough for its attribute.
abbrev pub IsName : Text → Type 0
IsName s = All IsAscii s × (s ≢ []) × (length s < 1024)

abbrev pub IsHookItem : HookItem → Type 0
IsHookItem (number n) = n < 4_294_967_296
IsHookItem (other_of_hook a) = IsSendable a × (type_of a ≢ 1)

abbrev pub IsChainItem : ChainItem → Type 0
IsChainItem (in_table s) = IsName s
IsChainItem (named s) = IsName s
IsChainItem (on_hook l) = All IsHookItem l × (4 + length (encoded (map hook_attr_of l)) < 65_536)
IsChainItem (with_policy n) = n < 4_294_967_296
IsChainItem (other_of_chain a) =
    IsSendable a × (type_of a ≢ 1) × (type_of a ≢ 3) × (type_of a ≢ 4) × (type_of a ≢ 5)

-- What is said later counts, else what was said before.
abbrev pub later : {A : Type 0} → Option A → Option A → Option A
later none before = before
later (some a) before = some a

-- What the attributes say, each of the last that says it.
abbrev pub number_said : List HookItem → Option ℕ
number_said [] = none
number_said (number n ∷ l) = later (number_said l) (some n)
number_said (other_of_hook a ∷ l) = number_said l

abbrev pub table_said : List ChainItem → Option Text
table_said [] = none
table_said (in_table s ∷ l) = later (table_said l) (some s)
table_said (_ ∷ l) = table_said l

abbrev pub name_said : List ChainItem → Option Text
name_said [] = none
name_said (named s ∷ l) = later (name_said l) (some s)
name_said (_ ∷ l) = name_said l

abbrev pub hook_said : List ChainItem → Option ℕ
hook_said [] = none
hook_said (on_hook hook ∷ l) = later (hook_said l) (number_said hook)
hook_said (_ ∷ l) = hook_said l

abbrev pub policy_said : List ChainItem → Option ℕ
policy_said [] = none
policy_said (with_policy n ∷ l) = later (policy_said l) (some n)
policy_said (_ ∷ l) = policy_said l

-- The chain that the attributes describe.
abbrev pub described : List ChainItem → NftChain
described l = record {
  table = table_said l;
  name = name_said l;
  hooknum = hook_said l;
  policy = policy_said l;
}

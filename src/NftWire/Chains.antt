-- ===== src/NftWire/Chains.antt =====
-- The payload of a `NEWCHAIN` message: `parse_chain_payload` of
-- crates/anne-de-breuil/src/adapters/linux_collector/nft_wire.rs against what the kernel writes.
use anne_de_breuil.Prelude.{
  ap, sym, ◌∙◌, map, ℕ, ◌+◌, ◌-◌, ◌<◌, ◌≡◌, refl, subst, ◌≢◌, true, Option, none, some, List, [],
  ◌∷◌, ◌++◌, arith, length, take, length-append, All,
}
use anne_de_breuil.Bytes.{Bytes, slice}
use anne_de_breuil.Bytes.Slices.{
  slice_piece, take_append, be32, from_be_bytes-be32, IsAscii, from_utf8_ascii,
}
use mathlib.Core.List.{append-nil}
use anne_de_breuil.Text.{Text}
use anne_de_breuil.NftWire.{
  Attr, NftChain, last_is_nul, decode_nla_string, decode_nla_u32_be, hook_attr, fold, chain_attr,
  no_chain, parse_chain_payload,
}
use anne_de_breuil.NftWire.Items.{
  HookItem, number, other_of_hook, ChainItem, in_table, named, on_hook, with_policy, other_of_chain,
  terminated, hook_attr_of, attr_of, chain_payload, type_of, IsHookItem, IsChainItem, later,
  number_said, table_said, name_said, hook_said, policy_said, described,
}
use anne_de_breuil.NftWire.Attributes.{encoded, IsSendable, iter_nlattrs-encoded}

decode_nla_u32_be-be32 : (n : ℕ) → n < 4_294_967_296 → decode_nla_u32_be (be32 n) ≡ some n
unfolding decode_nla_u32_be
decode_nla_u32_be-be32 n h = rw (slice_piece [] (be32 n) [], from_be_bytes-be32 n h) refl

last_is_nul-terminated : (s : Text) → last_is_nul (terminated s) ≡ true
last_is_nul-terminated [] = refl
last_is_nul-terminated (c ∷ []) = refl
last_is_nul-terminated (c ∷ d ∷ s) = last_is_nul-terminated (d ∷ s)

take-terminated : (s : Text) → take (length (terminated s) - 1) (terminated s) ≡ s
take-terminated s =
    let size : length (terminated s) - 1 ≡ length s = ground (arith, length-append s (0 ∷ [])) in
    rw (size, take_append s (0 ∷ [])) refl

decode_nla_string-terminated :
    (s : Text) → All IsAscii s → s ≢ [] → decode_nla_string (terminated s) ≡ some s
unfolding decode_nla_string
decode_nla_string-terminated [] h ne = absurd (ne refl)
decode_nla_string-terminated (c ∷ s) h ne =
    rw (last_is_nul-terminated (c ∷ s), take-terminated (c ∷ s), from_utf8_ascii (c ∷ s) h) refl

later_assoc : {A : Type 0} (x y z : Option A) → later (later x y) z ≡ later x (later y z)
later_assoc none y z = refl
later_assoc (some a) y z = refl

-- What is said of a chain, on top of what was known before.
abbrev on_top : NftChain → NftChain → NftChain
on_top said c = record {
  table = later said.table c.table;
  name = later said.name c.name;
  hooknum = later said.hooknum c.hooknum;
  policy = later said.policy c.policy;
}

hook_attr_other : (c : NftChain) (a : Attr) → type_of a ≢ 1 → hook_attr c a ≡ c
unfolding hook_attr
hook_attr_other c a h = ground (arith, h)

fold-hook_attr_of :
    (c : NftChain) (l : List HookItem)
    → All IsHookItem l
    → fold hook_attr c (map hook_attr_of l) ≡ record c { hooknum = later (number_said l) c.hooknum }
unfolding fold hook_attr
fold-hook_attr_of c [] h = refl
fold-hook_attr_of c (number n ∷ l) h =
    ap (λ o. fold hook_attr (record c { hooknum = o }) (map hook_attr_of l))
      (decode_nla_u32_be-be32 n h.0)
    ∙ (fold-hook_attr_of (record c { hooknum = some n }) l h.1
        ∙ ap (λ o. record c { hooknum = o }) (sym (later_assoc (number_said l) (some n) c.hooknum)))
fold-hook_attr_of c (other_of_hook a ∷ l) h =
    ap (λ z. fold hook_attr z (map hook_attr_of l)) (hook_attr_other c a h.0.1)
    ∙ fold-hook_attr_of c l h.1

hook_attr_of-IsSendable :
    (l : List HookItem) → All IsHookItem l → All IsSendable (map hook_attr_of l)
hook_attr_of-IsSendable [] h = tt
hook_attr_of-IsSendable (number n ∷ l) h =
    ((omega arith, omega arith), hook_attr_of-IsSendable l h.1)
hook_attr_of-IsSendable (other_of_hook a ∷ l) h = (h.0.0, hook_attr_of-IsSendable l h.1)

attr_of-IsSendable_one : (item : ChainItem) → IsChainItem item → IsSendable (attr_of item)
attr_of-IsSendable_one (in_table s) h = (ground (arith, length-append s (0 ∷ []), h.2), omega arith)
attr_of-IsSendable_one (named s) h = (ground (arith, length-append s (0 ∷ []), h.2), omega arith)
attr_of-IsSendable_one (on_hook l) h = (h.1, omega arith)
attr_of-IsSendable_one (with_policy n) h = (omega arith, omega arith)
attr_of-IsSendable_one (other_of_chain a) h = h.0

attr_of-IsSendable : (l : List ChainItem) → All IsChainItem l → All IsSendable (map attr_of l)
attr_of-IsSendable [] h = tt
attr_of-IsSendable (item ∷ l) h = (attr_of-IsSendable_one item h.0, attr_of-IsSendable l h.1)

-- One attribute adds what it says.
chain_attr-attr_of :
    (c : NftChain) (item : ChainItem)
    → IsChainItem item
    → chain_attr c (attr_of item) ≡ on_top (described (item ∷ [])) c
unfolding chain_attr
chain_attr-attr_of c (in_table s) h = rw (decode_nla_string-terminated s h.0 h.1) refl
chain_attr-attr_of c (named s) h = rw (decode_nla_string-terminated s h.0 h.1) refl
chain_attr-attr_of c (on_hook l) h =
    rw (iter_nlattrs-encoded (map hook_attr_of l) (hook_attr_of-IsSendable l h.0))
      (fold-hook_attr_of c l h.0)
chain_attr-attr_of c (with_policy n) h = rw (decode_nla_u32_be-be32 n h) refl
chain_attr-attr_of c (other_of_chain a) h = ground (arith, h)

on_top-described :
    (item : ChainItem) (l : List ChainItem) (c : NftChain)
    → on_top (described l) (on_top (described (item ∷ [])) c) ≡ on_top (described (item ∷ l)) c
on_top-described (in_table s) l c = rw (later_assoc (table_said l) (some s) c.table) refl
on_top-described (named s) l c = rw (later_assoc (name_said l) (some s) c.name) refl
on_top-described (on_hook hook) l c =
    rw (later_assoc (hook_said l) (number_said hook) c.hooknum) refl
on_top-described (with_policy n) l c = rw (later_assoc (policy_said l) (some n) c.policy) refl
on_top-described (other_of_chain a) l c = refl

fold-attr_of :
    (l : List ChainItem) (c : NftChain)
    → All IsChainItem l
    → fold chain_attr c (map attr_of l) ≡ on_top (described l) c
unfolding fold
fold-attr_of [] c h = refl
fold-attr_of (item ∷ l) c h =
    ap (λ z. fold chain_attr z (map attr_of l)) (chain_attr-attr_of c item h.0)
    ∙ (fold-attr_of l (on_top (described (item ∷ [])) c) h.1 ∙ on_top-described item l c)

later-none : {A : Type 0} (x : Option A) → later x none ≡ x
later-none none = refl
later-none (some a) = refl

on_top-no_chain : (c : NftChain) → on_top c no_chain ≡ c
on_top-no_chain c =
    rw (later-none c.table, later-none c.name, later-none c.hooknum, later-none c.policy) refl

slice_behind : (g s : Bytes) → slice (g ++ s) (length g) (length (g ++ s)) ≡ some s
slice_behind g s =
    let piece =
      subst (λ r. slice (g ++ r) (length g) (length g + length s) ≡ some s) (append-nil s)
        (slice_piece g s []) in
    rw (length-append g s) piece

-- Whatever attributes the kernel describes a chain by, in whatever order and with whatever others
-- among them (names of ASCII, not empty, shorter than 1,024 bytes; numbers of 32 bits),
-- `parse_chain_payload` reads the chain that they describe from the payload, behind any four bytes of
-- header.
pub parse_chain_payload-chain_payload :
    (g : Bytes) (items : List ChainItem)
    → length g ≡ 4
    → All IsChainItem items
    → parse_chain_payload (chain_payload g items) ≡ some (described items)
unfolding parse_chain_payload chain_payload
parse_chain_payload-chain_payload g items e h =
    rw
      (
        ← e,
        slice_behind g (encoded (map attr_of items)),
        iter_nlattrs-encoded (map attr_of items) (attr_of-IsSendable items h),
        fold-attr_of items no_chain h,
      )
      (ap some (on_top-no_chain (described items)))

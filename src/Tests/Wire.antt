-- ===== src/Tests/Wire.antt =====
-- A dump of two chains on the wire.
use anne_de_breuil.Prelude.{◌≡◌, refl, ◌↔◌, true, none, some, List, [], ◌∷◌, ◌++◌, In, All, arith}
use anne_de_breuil.Text.{codes}
use anne_de_breuil.Bytes.{Bytes, le32}
use anne_de_breuil.NftWire.Fuel.{messages_from-fuel}
use anne_de_breuil.NftWire.{
  messages_from, no_outcome, Attr, NftChain, parse_nl_buffer, nlmsg_done, nlmsg_error,
  permission_denied,
}
use anne_de_breuil.NftWire.Attributes.{encoded}
use anne_de_breuil.NftWire.Items.{
  ChainItem, in_table, named, on_hook, with_policy, other_of_chain, number, other_of_hook,
  IsChainItem, chain_payload,
}
use anne_de_breuil.NftWire.Attributes.{nlattr, padding, zeros}
use anne_de_breuil.Bytes.{next_multiple_of_4}
use anne_de_breuil.NftWire.Messages.{framed}
use anne_de_breuil.NftWire.Buffers.{
  Announced, IsAnnounced, stream, parse_nl_buffer-done, parse_nl_buffer-error,
}
use anne_de_breuil.NftWire.Rules.{classify_ruleset, chains, failed, no_policy_source}
use anne_de_breuil.NftWire.Policies.{IsInbound, no_policy_source_iff}
use anne_de_breuil.Prelude.{ℕ, Option}
use anne_de_breuil.Text.{Text}
use anne_de_breuil.Reachability.{Reachability}
use anne_de_breuil.FirewallMapping.Verdict.{Decides, firewall_rules_from_raw-Decides}
use anne_de_breuil.Tests.Data.{ssh}

-- No rule id is a UUID, and the hash of a text is the text.
abbrev parse_nothing : Text → Option ℕ
parse_nothing s = none

abbrev first_bytes : Bytes → Bytes
first_bytes b = b

abbrev input : NftChain
input = record {
  table = some (codes "filter");
  name = some (codes "input");
  hooknum = some 1;
  policy = some 0;
}

-- What the kernel says of that chain, with its handle and the priority of its hook.
abbrev items : List ChainItem
items =
    in_table (codes "filter")
    ∷ other_of_chain (record { nla_type = 2; value = 0 ∷ 0 ∷ 0 ∷ 7 ∷ [] })
    ∷ named (codes "input")
    ∷ on_hook (number 1 ∷ other_of_hook (record { nla_type = 2; value = 0 ∷ 0 ∷ 0 ∷ 0 ∷ [] }) ∷ [])
    ∷ with_policy 0
    ∷ []

abbrev nfgenmsg : Bytes
nfgenmsg = 2 ∷ 0 ∷ 0 ∷ 0 ∷ []

abbrev header : Bytes
header = 0 ∷ 2 ∷ 1 ∷ 0 ∷ 0 ∷ 0 ∷ 9 ∷ 0 ∷ 0 ∷ 0 ∷ []

abbrev dump : List Announced
dump = record { rest_of_header = header; nfgenmsg = nfgenmsg; items = items } ∷ []

abbrev attrs : List Attr
attrs =
    record { nla_type = 3; value = 104 ∷ 105 ∷ 0 ∷ [] } ∷ record { nla_type = 9; value = [] } ∷ []

items-IsChainItem : All IsChainItem items
unfolding encoded nlattr padding zeros next_multiple_of_4
items-IsChainItem = ground arith

dump-IsAnnounced : All IsAnnounced dump
unfolding chain_payload encoded nlattr padding zeros next_multiple_of_4
dump-IsAnnounced = ((items-IsChainItem, refl, refl, omega arith), tt)

parse_nl_buffer-done_example :
    parse_nl_buffer (stream dump ++ (framed nlmsg_done header [] ++ []))
    ≡ record { chains = input ∷ []; done = true; error = none }
parse_nl_buffer-done_example =
    parse_nl_buffer-done dump header [] [] dump-IsAnnounced refl (omega arith)

parse_nl_buffer-error_example :
    parse_nl_buffer
      (stream dump ++ (framed nlmsg_error header (le32 4_294_967_295 ++ nfgenmsg) ++ []))
    ≡ record { chains = input ∷ []; done = true; error = some permission_denied }
parse_nl_buffer-error_example =
    parse_nl_buffer-error dump header nfgenmsg [] 4_294_967_295 dump-IsAnnounced refl (omega arith)
      (omega arith)

firewall_rules_from_raw-Decides_example :
    Decides parse_nothing first_bytes true ssh (input ∷ []) [] Reachability.blocked
firewall_rules_from_raw-Decides_example =
    firewall_rules_from_raw-Decides parse_nothing first_bytes true ssh (input ∷ []) []
      Reachability.blocked

no_policy_source_iff_example :
    (classify_ruleset (failed permission_denied) true ≡ no_policy_source)
    × (classify_ruleset (chains (input ∷ [])) true ≡ no_policy_source
        ↔ ((true ≡ true) × ((c : NftChain) → In c (input ∷ []) → ¬ IsInbound c)))
no_policy_source_iff_example = no_policy_source_iff (input ∷ []) permission_denied true

messages_from-fuel_example :
    messages_from 4 (20 ∷ 0 ∷ 0 ∷ []) 0 no_outcome ≡ messages_from 9 (20 ∷ 0 ∷ 0 ∷ []) 0 no_outcome
messages_from-fuel_example =
    messages_from-fuel 4 9 (20 ∷ 0 ∷ 0 ∷ []) 0 no_outcome (omega arith) (omega arith)

-- ===== src/NftWire/Buffers.antt =====
-- Buffers of netlink messages: `parse_nl_buffer` of
-- crates/anne-de-breuil/src/adapters/linux_collector/nft_wire.rs.
use anne_de_breuil.Prelude.{
  ℕ, suc, ◌+◌, ◌-◌, ◌≤◌, ◌<◌, ◌≡◌, refl, sym, ◌∙◌, true, false, none, some, List, [], ◌∷◌, ◌++◌,
  map, arith, length, length-append, All,
}
use anne_de_breuil.Bytes.{Bytes, le32, next_multiple_of_4}
use anne_de_breuil.NftWire.{
  errno_of, NftChain, BufferOutcome, read_nl_message, messages_from, parse_nl_buffer, push_chain,
  no_outcome, newchain_msg_type, nlmsg_done, nlmsg_error, parse_chain_payload, classify_errno,
}
use anne_de_breuil.NftWire.Messages.{
  framed, read_nl_message-framed, length-framed, errno_read, kind_of, classify_errno-signed32,
  read_nl_message-cut,
}
use anne_de_breuil.NftWire.Chains.{parse_chain_payload-chain_payload}
use anne_de_breuil.NftWire.Items.{ChainItem, IsChainItem, chain_payload, described}
use mathlib.Core.List.{append_assoc, append-nil}

-- A message that announces a chain, by what the kernel says of it.
pub record Announced : Type 0 where
  pub rest_of_header : Bytes
  pub nfgenmsg : Bytes
  pub items : List ChainItem

abbrev pub payload_of : Announced → Bytes
payload_of a = chain_payload a.nfgenmsg a.items

-- The chain that the message describes.
abbrev pub chain_of : Announced → NftChain
chain_of a = described a.items

abbrev pub message_of : Announced → Bytes
message_of a = framed newchain_msg_type a.rest_of_header (payload_of a)

unfoldable pub stream : List Announced → Bytes
stream [] = []
stream (a ∷ l) = message_of a ++ stream l

abbrev pub IsAnnounced : Announced → Type 0
IsAnnounced a =
    All IsChainItem a.items
    × (length a.rest_of_header ≡ 10)
    × (length a.nfgenmsg ≡ 4)
    × (16 + length (payload_of a) < 4_294_967_296)

with_chains : BufferOutcome → List Announced → BufferOutcome
with_chains out l = record out { chains = out.chains ++ map chain_of l }

with_chains-nil : (out : BufferOutcome) → with_chains out [] ≡ out
unfolding with_chains
with_chains-nil out = rw (append-nil out.chains) refl

with_chains-cons :
    (out : BufferOutcome) (a : Announced) (l : List Announced)
    → with_chains (push_chain out (some (chain_of a))) l ≡ with_chains out (a ∷ l)
unfolding with_chains
with_chains-cons out a l = rw (append_assoc out.chains (chain_of a ∷ []) (map chain_of l)) refl

step-newchain :
    (f : ℕ) (buf : Bytes) (o : ℕ) (out : BufferOutcome) (n : ℕ) (v : Bytes) (c : NftChain)
    → read_nl_message buf o
      ≡ some (record { msg_type = newchain_msg_type; msg_len = n; payload = v })
    → parse_chain_payload v ≡ some c
    → messages_from (suc f) buf o out
      ≡ messages_from f buf (o + next_multiple_of_4 n) (push_chain out (some c))
unfolding messages_from
step-newchain f buf o out n v c e p = ground (arith, e, p)

-- The loop passes over the announced chains one by one, and pushes each.
messages_from-stream :
    (k : ℕ) (p rest : Bytes) (l : List Announced) (out : BufferOutcome)
    → All IsAnnounced l
    → messages_from (length l + k) (p ++ (stream l ++ rest)) (length p) out
      ≡ messages_from k (p ++ (stream l ++ rest)) (length p + length (stream l)) (with_chains out l)
unfolding stream
messages_from-stream k p rest [] out h =
    let none_left : 0 + k ≡ k = omega arith in
    let still : length p + 0 ≡ length p = omega arith in
    rw (none_left, still, with_chains-nil out) refl
messages_from-stream k p rest (a ∷ l) out h =
    let m = message_of a in
    let buf = p ++ ((m ++ stream l) ++ rest) in
    let read =
      read_nl_message-framed p (stream l ++ rest) newchain_msg_type a.rest_of_header (payload_of a)
        (omega arith) h.0.3 h.0.1 in
    let parsed = parse_chain_payload-chain_payload a.nfgenmsg a.items h.0.2 h.0.0 in
    let next : length (p ++ m) ≡ length p + next_multiple_of_4 (16 + length (payload_of a)) =
      rw (length-append p m, length-framed newchain_msg_type a.rest_of_header (payload_of a) h.0.1)
        refl in
    let inner : buf ≡ p ++ (m ++ (stream l ++ rest)) = rw (append_assoc m (stream l) rest) refl in
    let outer : buf ≡ (p ++ m) ++ (stream l ++ rest) =
      inner ∙ sym (append_assoc p m (stream l ++ rest)) in
    let fuel : suc (length l) + k ≡ suc (length l + k) = omega arith in
    let end : length (p ++ m) + length (stream l) ≡ length p + length (m ++ stream l) =
      omega (arith, length-append p m, length-append m (stream l)) in
    let first : messages_from (suc (length l + k)) buf (length p) out
        ≡ messages_from (length l + k) buf (length (p ++ m)) (push_chain out (some (chain_of a))) =
      rw (next, inner)
        (step-newchain (length l + k) (p ++ (m ++ (stream l ++ rest))) (length p) out
          (16 + length (payload_of a)) (payload_of a) (chain_of a) read parsed) in
    let later : messages_from (length l + k) buf (length (p ++ m))
          (push_chain out (some (chain_of a)))
        ≡ messages_from k buf (length p + length (m ++ stream l)) (with_chains out (a ∷ l)) =
      rw (← end, ← with_chains-cons out a l, outer)
        (messages_from-stream k (p ++ m) rest l (push_chain out (some (chain_of a))) h.1) in
    rw fuel (first ∙ later)

step-done :
    (f : ℕ) (buf : Bytes) (o : ℕ) (out : BufferOutcome) (n : ℕ) (v : Bytes)
    → read_nl_message buf o ≡ some (record { msg_type = nlmsg_done; msg_len = n; payload = v })
    → messages_from (suc f) buf o out ≡ record out { done = true }
unfolding messages_from
step-done f buf o out n v e = ground (arith, e)

step-error :
    (f : ℕ) (buf : Bytes) (o : ℕ) (out : BufferOutcome) (n : ℕ) (v : Bytes)
    → read_nl_message buf o ≡ some (record { msg_type = nlmsg_error; msg_len = n; payload = v })
    → messages_from (suc f) buf o out
      ≡ record out { error = some (classify_errno (errno_of v)); done = true }
unfolding messages_from
step-error f buf o out n v e = ground (arith, e)

length-stream_le : (l : List Announced) → All IsAnnounced l → length l ≤ length (stream l)
unfolding stream framed
length-stream_le [] h = omega arith
length-stream_le (a ∷ l) h =
    ground (arith, length-stream_le l h.1, length-append (message_of a) (stream l))

parse_nl_buffer-stream :
    (rest : Bytes) (l : List Announced)
    → All IsAnnounced l
    → (k : ℕ) × (parse_nl_buffer (stream l ++ rest)
        ≡ messages_from (suc k) (stream l ++ rest) (length (stream l)) (with_chains no_outcome l))
unfolding parse_nl_buffer
parse_nl_buffer-stream rest l h =
    let b = length-stream_le l h in
    let buf = stream l ++ rest in
    let k = length buf - length l in
    let fuel : suc (length buf) ≡ length l + suc k =
      omega (arith, b, length-append (stream l) rest) in
    let start : 0 + length (stream l) ≡ length (stream l) = omega arith in
    (k, rw (fuel, ← start) (messages_from-stream (suc k) [] rest l no_outcome h))

step-cut :
    (f : ℕ) (buf : Bytes) (o : ℕ) (out : BufferOutcome)
    → read_nl_message buf o ≡ none
    → messages_from (suc f) buf o out ≡ out
unfolding messages_from
step-cut f buf o out e = ground (arith, e)

-- Of a buffer that holds messages that announce chains and then `NLMSG_DONE`, `parse_nl_buffer`
-- gives the chains that the messages describe, in order, done and without an error, whatever stands
-- behind the end. A message may hold any attributes in any order, also those of a hook, that the
-- program does not know; names are ASCII, not empty and shorter than 1,024 bytes, numbers have 32
-- bits, and attributes and messages fit their lengths' 16 and 32 bits.
pub parse_nl_buffer-done :
    (l : List Announced) (r v rest : Bytes)
    → All IsAnnounced l
    → length r ≡ 10
    → 16 + length v < 4_294_967_296
    → parse_nl_buffer (stream l ++ (framed nlmsg_done r v ++ rest))
      ≡ record { chains = map chain_of l; done = true; error = none }
unfolding with_chains
parse_nl_buffer-done l r v rest h hr hv =
    let (k, e) = parse_nl_buffer-stream (framed nlmsg_done r v ++ rest) l h in
    let read = read_nl_message-framed (stream l) rest nlmsg_done r v (omega arith) hv hr in
    e
    ∙ step-done k (stream l ++ (framed nlmsg_done r v ++ rest)) (length (stream l))
        (with_chains no_outcome l) (16 + length v) v read

-- Of a buffer that holds messages that announce chains (by any attributes in any order; names of
-- ASCII, not empty, shorter than 1,024 bytes; numbers of 32 bits; attributes and messages that fit
-- their lengths) and then `NLMSG_ERROR` with a 32-bit error number and any request quoted behind
-- it, `parse_nl_buffer` gives the chains that the messages describe, done, with the error:
-- permission denied for `-EPERM` and `-EACCES`, unreachable for every other number.
pub parse_nl_buffer-error :
    (l : List Announced) (r quoted rest : Bytes) (w : ℕ)
    → All IsAnnounced l
    → length r ≡ 10
    → w < 4_294_967_296
    → 20 + length quoted < 4_294_967_296
    → parse_nl_buffer (stream l ++ (framed nlmsg_error r (le32 w ++ quoted) ++ rest))
      ≡ record { chains = map chain_of l; done = true; error = some (kind_of w) }
unfolding with_chains
parse_nl_buffer-error l r quoted rest w h hr hw hq =
    let v = le32 w ++ quoted in
    let (k, e) = parse_nl_buffer-stream (framed nlmsg_error r v ++ rest) l h in
    let read =
      read_nl_message-framed (stream l) rest nlmsg_error r v (omega arith) (omega (arith, hq)) hr in
    let kind : classify_errno (errno_of v) ≡ (kind_of w) =
      rw (errno_read w quoted hw) (classify_errno-signed32 w hw) in
    rw (← kind) (
      e
      ∙ step-error k (stream l ++ (framed nlmsg_error r v ++ rest)) (length (stream l))
          (with_chains no_outcome l) (16 + length v) v read)

-- Of a buffer that holds the messages of any chains that the kernel can announce and then less than
-- a message header, `parse_nl_buffer` gives the chains that they describe, not done and without an error.
pub parse_nl_buffer-cut :
    (l : List Announced) (cut : Bytes)
    → All IsAnnounced l
    → length cut < 16
    → parse_nl_buffer (stream l ++ cut)
      ≡ record { chains = map chain_of l; done = false; error = none }
unfolding with_chains
parse_nl_buffer-cut l cut h b =
    let (k, e) = parse_nl_buffer-stream cut l h in
    e
    ∙ step-cut k (stream l ++ cut) (length (stream l)) (with_chains no_outcome l)
        (read_nl_message-cut (stream l) cut b)

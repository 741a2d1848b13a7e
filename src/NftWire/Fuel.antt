-- ===== src/NftWire/Fuel.antt =====
-- The loops of crates/anne-de-breuil/src/adapters/linux_collector/nft_wire.rs end: the rounds that
-- `parse_nl_buffer` and `iter_nlattrs` are given are enough.
use anne_de_breuil.Prelude.{
  zero, suc, sym, ◌∙◌, refl, ℕ, zero, suc, ◌+◌, ◌≤◌, ◌<◌, ◌≡◌, refl, sym, ◌∙◌, inl, inr, none, some,
  arith, ltb, Bool-cases, Option-cases, length,
}
use anne_de_breuil.Bytes.{Bytes, slice, next_multiple_of_4}
use anne_de_breuil.NftWire.{
  Message, Attr, BufferOutcome, read_u16_le, read_u32_le, read_nl_message, read_nlattr,
  nlattrs_from, messages_from, push_chain, parse_chain_payload,
}

slice-some : (buf v : Bytes) (a b : ℕ) → slice buf a b ≡ some v → b ≤ length buf
unfolding slice
slice-some buf v a b h = ground arith

-- A message lies in its buffer, and is as long as a header at least.
read_nl_message-some :
    (buf : Bytes) (o : ℕ) (m : Message)
    → read_nl_message buf o ≡ some m
    → (16 ≤ m.msg_len) × (o + m.msg_len ≤ length buf)
unfolding read_nl_message
read_nl_message-some buf o m h = elim (Option-cases (read_u32_le buf o)) [
  | inl e ↦ ground (arith, e)
  | inr (len, e) ↦ elim (Option-cases (read_u16_le buf (o + 4))) [
    | inl f ↦ ground (arith, e, f)
    | inr (t, f) ↦ elim (Bool-cases (ltb len 16)) [
      | inl g ↦ ground (arith, e, f, g)
      | inr g ↦ elim (Option-cases (slice buf (o + 16) (o + len))) [
        | inl k ↦ ground (arith, e, f, g, k)
        | inr (v, k) ↦ ground (arith, e, f, g, k, slice-some buf v (o + 16) (o + len) k)
      ]
    ]
  ]
]

next_multiple_of_4_le : (n : ℕ) → n ≤ next_multiple_of_4 n
unfolding next_multiple_of_4
next_multiple_of_4_le n = omega arith

nothing_left : (buf : Bytes) (o : ℕ) → length buf < o → read_nl_message buf o ≡ none
nothing_left buf o h = elim (Option-cases (read_nl_message buf o)) [
  | inl e ↦ e
  | inr (m, e) ↦ absurd (let (a, b) = read_nl_message-some buf o m e in omega (arith, a, b))
]

messages_from-none :
    (f : ℕ) (buf : Bytes) (o : ℕ) (out : BufferOutcome)
    → read_nl_message buf o ≡ none
    → messages_from f buf o out ≡ out
unfolding messages_from
messages_from-none zero buf o out e = refl
messages_from-none (suc f) buf o out e = ground (arith, e)

-- Any number of rounds of the loop of `parse_nl_buffer` that is above the number of bytes left of
-- the buffer comes to the same.
pub messages_from-fuel :
    (f g : ℕ) (buf : Bytes) (o : ℕ) (out : BufferOutcome)
    → length buf < o + f
    → length buf < o + g
    → messages_from f buf o out ≡ messages_from g buf o out
unfolding messages_from
messages_from-fuel zero g buf o out hf hg =
    sym (messages_from-none g buf o out (nothing_left buf o (omega arith)))
messages_from-fuel (suc f) zero buf o out hf hg =
    messages_from-none (suc f) buf o out (nothing_left buf o (omega arith))
messages_from-fuel (suc f) (suc g) buf o out hf hg = elim (Option-cases (read_nl_message buf o)) [
  | inl e ↦ messages_from-none (suc f) buf o out e ∙ sym (messages_from-none (suc g) buf o out e)
  | inr (m, e) ↦
      let (a, b) = read_nl_message-some buf o m e in
      let c = next_multiple_of_4_le m.msg_len in
      let with_chain =
        messages_from-fuel f g buf (o + next_multiple_of_4 m.msg_len)
          (push_chain out (parse_chain_payload m.payload)) (omega (arith, a, c))
          (omega (arith, a, c)) in
      let skipped =
        messages_from-fuel f g buf (o + next_multiple_of_4 m.msg_len) out (omega (arith, a, c))
          (omega (arith, a, c)) in
      ground (arith, e, with_chain, skipped)
]

read_nlattr-next :
    (buf : Bytes) (o : ℕ) (a : Attr) (next : ℕ) → read_nlattr buf o ≡ some (a, next) → o + 4 ≤ next
unfolding read_nlattr
read_nlattr-next buf o a next h = elim (Option-cases (read_u16_le buf o)) [
  | inl e ↦ ground (arith, e)
  | inr (len, e) ↦ elim (Option-cases (read_u16_le buf (o + 2))) [
    | inl f ↦ ground (arith, e, f)
    | inr (t, f) ↦ elim (Bool-cases (ltb len 4)) [
      | inl g ↦ ground (arith, e, f, g)
      | inr g ↦ elim (Option-cases (slice buf (o + 4) (o + len))) [
        | inl k ↦ ground (arith, e, f, g, k)
        | inr (v, k) ↦ ground (arith, e, f, g, k, next_multiple_of_4_le len)
      ]
    ]
  ]
]

-- Any number of rounds of the loop of `iter_nlattrs` that is above the number of bytes left of the
-- buffer comes to the same.
pub nlattrs_from-fuel :
    (f g : ℕ) (buf : Bytes) (o : ℕ)
    → length buf < o + f
    → length buf < o + g
    → nlattrs_from f buf o ≡ nlattrs_from g buf o
unfolding nlattrs_from
nlattrs_from-fuel zero zero buf o hf hg = refl
nlattrs_from-fuel zero (suc g) buf o hf hg = ground arith
nlattrs_from-fuel (suc f) zero buf o hf hg = ground arith
nlattrs_from-fuel (suc f) (suc g) buf o hf hg = elim (Option-cases (read_nlattr buf o)) [
  | inl e ↦ ground (arith, e)
  | inr ((a, next), e) ↦
      let n = read_nlattr-next buf o a next e in
      let rest = nlattrs_from-fuel f g buf next (omega (arith, n)) (omega (arith, n)) in
      ground (arith, e, rest)
]

-- ===== src/NftWire/Attributes.antt =====
-- Attribute sequences of netlink: `iter_nlattrs` of
-- crates/anne-de-breuil/src/adapters/linux_collector/nft_wire.rs reads back what the kernel's
-- `nla_put` writes.
use anne_de_breuil.Prelude.{
  ℕ, zero, suc, ◌+◌, ◌-◌, ◌≤◌, ◌<◌, ◌≡◌, refl, ap, subst, some, List, [], ◌∷◌, ◌++◌, arith, length,
  length-append, All,
}
use anne_de_breuil.Bytes.{Bytes, slice, le16, next_multiple_of_4}
use anne_de_breuil.Bytes.Slices.{slice-append, slice_piece, from_le_bytes-le16}
use anne_de_breuil.NftWire.{Attr, read_u16_le, read_nlattr, nlattrs_from, iter_nlattrs}
use mathlib.Core.List.{append_assoc}

-- That many bytes of padding.
unfoldable pub zeros : ℕ → Bytes
zeros zero = []
zeros (suc n) = 0 ∷ zeros n

length-zeros : (n : ℕ) → length (zeros n) ≡ n
unfolding zeros
length-zeros zero = refl
length-zeros (suc n) = ap suc (length-zeros n)

-- The padding behind a length.
unfoldable pub padding : ℕ → Bytes
padding n = zeros (next_multiple_of_4 n - n)

-- An attribute on the wire: its length, its type, its value, and zeros up to the alignment.
unfoldable pub nlattr : Attr → Bytes
nlattr a =
    le16 (4 + length a.value) ++ (le16 a.nla_type ++ (a.value ++ padding (4 + length a.value)))

unfoldable pub encoded : List Attr → Bytes
encoded [] = []
encoded (a ∷ l) = nlattr a ++ encoded l

-- The attribute fits the wire's 16-bit fields.
abbrev pub IsSendable : Attr → Type 0
IsSendable a = (4 + length a.value < 65_536) × (a.nla_type < 65_536)

pub length_padded :
    (v : Bytes) (n : ℕ)
    → length (v ++ padding (n + length v)) + n ≡ next_multiple_of_4 (n + length v)
unfolding padding next_multiple_of_4
length_padded v n = ground (
  arith,
  length-append v (padding (n + length v)),
  length-zeros (next_multiple_of_4 (n + length v) - (n + length v)),
)

length-nlattr : (a : Attr) → length (nlattr a) ≡ next_multiple_of_4 (4 + length a.value)
unfolding nlattr
length-nlattr a = ground (arith, length_padded a.value 4)

-- A 16-bit field at an offset.
pub read_u16_le_at :
    (p s : Bytes) (n k : ℕ)
    → n < 65_536
    → slice s k (k + 2) ≡ some (le16 n)
    → read_u16_le (p ++ s) (length p + k) ≡ some n
unfolding read_u16_le
read_u16_le_at p s n k h e =
    let assoc : length p + k + 2 ≡ length p + (k + 2) = omega arith in
    rw (assoc, slice-append p s k (k + 2), e, from_le_bytes-le16 n h) refl

read_nlattr-nlattr :
    (p rest : Bytes) (a : Attr)
    → IsSendable a
    → read_nlattr (p ++ (nlattr a ++ rest)) (length p)
      ≡ some (a, length p + next_multiple_of_4 (4 + length a.value))
unfolding read_nlattr nlattr
read_nlattr-nlattr p rest a h =
    let v = a.value in
    let pad = padding (4 + length v) in
    let head = le16 (4 + length v) ++ le16 a.nla_type in
    let s = head ++ (v ++ pad ++ rest) in
    let start : length p + 0 ≡ length p = omega arith in
    let len : read_u16_le (p ++ s) (length p) ≡ some (4 + length v) =
      subst (λ o. read_u16_le (p ++ s) o ≡ some (4 + length v)) start
        (read_u16_le_at p s (4 + length v) 0 h.0
          (slice_piece [] (le16 (4 + length v)) (le16 a.nla_type ++ (v ++ pad ++ rest)))) in
    let ty : read_u16_le (p ++ s) (length p + 2) ≡ some a.nla_type =
      read_u16_le_at p s a.nla_type 2 h.1
        (slice_piece (le16 (4 + length v)) (le16 a.nla_type) (v ++ pad ++ rest)) in
    let piece : slice s 4 (4 + length v) ≡ some v =
      rw (append_assoc v pad rest) (slice_piece head v (pad ++ rest)) in
    let val : slice (p ++ s) (length p + 4) (length p + (4 + length v)) ≡ some v =
      rw (slice-append p s 4 (4 + length v)) piece in
    ground (arith, len, ty, val)

length-nlattr_le : (a : Attr) → 4 ≤ length (nlattr a)
unfolding nlattr
length-nlattr_le a = omega arith

nlattrs_from-encoded :
    (f : ℕ) (p : Bytes) (l : List Attr)
    → All IsSendable l
    → length l ≤ f
    → nlattrs_from f (p ++ encoded l) (length p) ≡ l
unfolding nlattrs_from encoded
nlattrs_from-encoded zero p [] h b = refl
nlattrs_from-encoded (suc f) p [] h b = ground (arith, length-append p [])
nlattrs_from-encoded zero p (a ∷ l) h b = ground arith
nlattrs_from-encoded (suc f) p (a ∷ l) h b =
    let s = nlattr a ++ encoded l in
    let size : length (p ++ s) ≡ length p + (length (nlattr a) + length (encoded l)) =
      rw (length-append p s, length-append (nlattr a) (encoded l)) refl in
    let next : length (p ++ nlattr a) ≡ length p + next_multiple_of_4 (4 + length a.value) =
      rw (length-append p (nlattr a), length-nlattr a) refl in
    let rest = nlattrs_from-encoded f (p ++ nlattr a) l h.1 (omega arith) in
    let rest' : nlattrs_from f (p ++ s) (length p + next_multiple_of_4 (4 + length a.value)) ≡ l =
      rw (← next, ← append_assoc p (nlattr a) (encoded l)) rest in
    let first = read_nlattr-nlattr p (encoded l) a h.0 in
    ground (arith, first, rest', size, length-nlattr_le a)

pub length-encoded_one :
    (a : Attr) → length (encoded (a ∷ [])) ≡ next_multiple_of_4 (4 + length a.value)
unfolding encoded
length-encoded_one a = rw (length-append (nlattr a) [], length-nlattr a) (omega arith)

length-encoded_le : (l : List Attr) → length l ≤ length (encoded l)
unfolding encoded
length-encoded_le [] = omega arith
length-encoded_le (a ∷ l) =
    ground (arith, length-encoded_le l, length-nlattr_le a, length-append (nlattr a) (encoded l))

-- `iter_nlattrs` reads back every sequence of attributes whose types and lengths fit the 16 bits
-- that the wire format has for them.
pub iter_nlattrs-encoded : (l : List Attr) → All IsSendable l → iter_nlattrs (encoded l) ≡ l
unfolding iter_nlattrs
iter_nlattrs-encoded l h =
    nlattrs_from-encoded (suc (length (encoded l))) [] l h (ground (arith, length-encoded_le l))

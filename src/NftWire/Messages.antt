-- ===== src/NftWire/Messages.antt =====
-- Messages of netlink: `read_nl_message` and `read_i32_le` of
-- crates/anne-de-breuil/src/adapters/linux_collector/nft_wire.rs.
use anne_de_breuil.Prelude.{
  ℕ, ◌+◌, ◌<◌, ◌≡◌, refl, ap, subst, inl, inr, ◌||◌, none, some, [], ◌∷◌, ◌++◌, arith, ltb, ◌==◌,
  if◌then◌else◌, Bool-cases, Option-cases, length, length-append,
}
use anne_de_breuil.Bytes.{Bytes, slice, le16, le32, next_multiple_of_4}
use anne_de_breuil.Bytes.Slices.{slice_piece, slice-append, from_le_bytes-le32}
use anne_de_breuil.NftWire.{
  encode_getchain_dump_request, getchain_msg_type, pos, read_u16_le, signed32, RulesetQueryError,
  read_i32_le, unreachable, permission_denied, errno_of, read_nl_message, read_u32_le,
  classify_errno, ℤ,
}
use anne_de_breuil.NftWire.Attributes.{zeros, padding, length_padded, read_u16_le_at}
use mathlib.Core.Option
use mathlib.Core.List.{append_assoc}

-- A message on the wire: length, type, flags, sequence number and port of the header, the payload,
-- and zeros up to the alignment.
unfoldable pub framed : ℕ → Bytes → Bytes → Bytes
framed msg_type rest_of_header payload =
    le32 (16 + length payload)
    ++ (le16 msg_type ++ (rest_of_header ++ (payload ++ padding (16 + length payload))))

read_u32_le_at :
    (p s : Bytes) (n k : ℕ)
    → n < 4_294_967_296
    → slice s k (k + 4) ≡ some (le32 n)
    → read_u32_le (p ++ s) (length p + k) ≡ some n
unfolding read_u32_le
read_u32_le_at p s n k h e =
    let assoc : length p + k + 4 ≡ length p + (k + 4) = omega arith in
    rw (assoc, slice-append p s k (k + 4), e, from_le_bytes-le32 n h) refl

pub read_nl_message-framed :
    (p rest : Bytes) (t : ℕ) (r payload : Bytes)
    → t < 65_536
    → 16 + length payload < 4_294_967_296
    → length r ≡ 10
    → read_nl_message (p ++ (framed t r payload ++ rest)) (length p)
      ≡ some (record { msg_type = t; msg_len = 16 + length payload; payload = payload })
unfolding read_nl_message framed
read_nl_message-framed p rest t r v ht hv hr =
    let pad = padding (16 + length v) in
    let tail = (r ++ (v ++ pad)) ++ rest in
    let s = le32 (16 + length v) ++ (le16 t ++ tail) in
    let head = le32 (16 + length v) ++ (le16 t ++ r) in
    let start : length p + 0 ≡ length p = omega arith in
    let len : read_u32_le (p ++ s) (length p) ≡ some (16 + length v) =
      subst (λ o. read_u32_le (p ++ s) o ≡ some (16 + length v)) start
        (read_u32_le_at p s (16 + length v) 0 hv
          (slice_piece [] (le32 (16 + length v)) (le16 t ++ tail))) in
    let ty = read_u16_le_at p s t 4 ht (slice_piece (le32 (16 + length v)) (le16 t) tail) in
    let size : length head ≡ 16 = omega (arith, hr) in
    let regroup : tail ≡ r ++ (v ++ (pad ++ rest)) =
      rw (append_assoc r (v ++ pad) rest, append_assoc v pad rest) refl in
    let apart : slice (head ++ (v ++ (pad ++ rest))) 16 (16 + length v) ≡ some v =
      subst (λ o. slice (head ++ (v ++ (pad ++ rest))) o (o + length v) ≡ some v) size
        (slice_piece head v (pad ++ rest)) in
    let piece : slice s 16 (16 + length v) ≡ some v = rw regroup apart in
    let val : slice (p ++ s) (length p + 16) (length p + (16 + length v)) ≡ some v =
      rw (slice-append p s 16 (16 + length v)) piece in
    ground (arith, len, ty, val)

pub length-framed :
    (t : ℕ) (r v : Bytes)
    → length r ≡ 10
    → length (framed t r v) ≡ next_multiple_of_4 (16 + length v)
unfolding framed
length-framed t r v h =
    ground (arith, length_padded v 16, length-append r (v ++ padding (16 + length v)))

-- The number of an error, whatever is quoted behind it.
pub errno_read :
    (w : ℕ) (quoted : Bytes) → w < 4_294_967_296 → errno_of (le32 w ++ quoted) ≡ signed32 w
unfolding read_i32_le read_u32_le
errno_read w quoted h =
    let word : read_u32_le (le32 w ++ quoted) 0 ≡ some w =
      rw (slice_piece [] (le32 w) quoted, from_le_bytes-le32 w h) refl in
    ap (λ o. elim (Option.map signed32 o) as (λ _. ℤ) [ none ↦ pos 0 | some n ↦ n ]) word

-- 2 ^ 32 - 1 and 2 ^ 32 - 13 are `-EPERM` and `-EACCES`.
abbrev pub kind_of : ℕ → RulesetQueryError
kind_of w = if w == 4_294_967_295 || w == 4_294_967_283 then permission_denied else unreachable

pub classify_errno-signed32 : (w : ℕ) → w < 4_294_967_296 → classify_errno (signed32 w) ≡ kind_of w
unfolding classify_errno
classify_errno-signed32 w h = ground arith

slice_beyond : (buf : Bytes) (a b : ℕ) → length buf < b → slice buf a b ≡ none
unfolding slice
slice_beyond buf a b h = ground arith

-- Less than a header is no message.
pub read_nl_message-cut :
    (p cut : Bytes) → length cut < 16 → read_nl_message (p ++ cut) (length p) ≡ none
unfolding read_nl_message
read_nl_message-cut p cut b = elim (Option-cases (read_u32_le (p ++ cut) (length p))) [
  | inl e ↦ rw e refl
  | inr (len, e) ↦ elim (Option-cases (read_u16_le (p ++ cut) (length p + 4))) [
    | inl f ↦ rw (e, f) refl
    | inr (t, f) ↦ elim (Bool-cases (ltb len 16)) [
      | inl g ↦ rw (e, f, g) refl
      | inr g ↦
          rw
            (
              e,
              f,
              g,
              slice_beyond (p ++ cut) (length p + 16) (length p + len)
                  (ground (arith, length-append p cut)),
            )
            refl
    ]
  ]
]

-- The request of `encode_getchain_dump_request` is one complete message: whatever stands behind it,
-- it is read as a message of the type that asks for the chains, twenty bytes long, whose payload is
-- four zeros.
pub read_nl_message-encode_getchain_dump_request :
    (seq : ℕ) (rest : Bytes)
    → read_nl_message (encode_getchain_dump_request seq ++ rest) 0
      ≡ some (record { msg_type = getchain_msg_type; msg_len = 20; payload = 0 ∷ 0 ∷ 0 ∷ 0 ∷ [] })
unfolding encode_getchain_dump_request framed padding zeros next_multiple_of_4
read_nl_message-encode_getchain_dump_request seq rest =
    read_nl_message-framed [] rest getchain_msg_type (le16 0x0301 ++ (le32 seq ++ le32 0))
      (0 ∷ 0 ∷ 0 ∷ 0 ∷ []) (omega arith) (omega arith) refl

-- ===== src/Bytes/Slices.antt =====
-- Slices of appended buffers, and integers read back from their bytes.
use anne_de_breuil.Prelude.{
  ◌%◌, ◌/◌, ℕ, suc, ◌+◌, ◌-◌, ◌<◌, ◌≡◌, refl, ap, some, [], ◌∷◌, ◌++◌, arith, length, take, drop,
  length-append, All,
}
use anne_de_breuil.Bytes.{
  Bytes, slice, from_le_bytes, from_be_bytes, be_onto, le16, le32, utf8_from, lead, push_char,
  from_utf8,
}

drop_append : (p s : Bytes) (n : ℕ) → drop (length p + n) (p ++ s) ≡ drop n s
drop_append [] s n = let e : 0 + n ≡ n = omega arith in rw e
drop_append (b ∷ p) s n =
    let e : suc (length p) + n ≡ suc (length p + n) = omega arith in rw e (drop_append p s n)

-- A slice behind a prefix is a slice of what follows it.
pub slice-append :
    (p s : Bytes) (a b : ℕ) → slice (p ++ s) (length p + a) (length p + b) ≡ slice s a b
unfolding slice
slice-append p s a b =
    let e : length p + b - (length p + a) ≡ b - a = omega arith in
    ground (arith, drop_append p s a, e, length-append p s)

pub take_append : (p s : Bytes) → take (length p) (p ++ s) ≡ p
take_append [] s = refl
take_append (b ∷ p) s = ap (◌∷◌ b) (take_append p s)

drop_prefix : (p s : Bytes) → drop (length p) (p ++ s) ≡ s
drop_prefix [] s = refl
drop_prefix (b ∷ p) s = drop_prefix p s

pub take_all : (s : Bytes) → take (length s) s ≡ s
take_all [] = refl
take_all (x ∷ s) = ap (◌∷◌ x) (take_all s)

-- The slice that a piece takes up is the piece.
pub slice_piece : (p v s : Bytes) → slice (p ++ (v ++ s)) (length p) (length p + length v) ≡ some v
unfolding slice
slice_piece p v s =
    let size : length p + length v - length p ≡ length v = omega arith in
    ground (
      arith,
      size,
      drop_prefix p (v ++ s),
      take_append v s,
      length-append p (v ++ s),
      length-append v s,
    )

pub from_le_bytes-le16 : (n : ℕ) → n < 65_536 → from_le_bytes (le16 n) ≡ n
from_le_bytes-le16 n h = omega arith

pub from_le_bytes-le32 : (n : ℕ) → n < 4_294_967_296 → from_le_bytes (le32 n) ≡ n
from_le_bytes-le32 n h = omega arith

-- `to_be_bytes` of a `u32`.
abbrev pub be32 : ℕ → Bytes
be32 n = (n / 16_777_216 % 256) ∷ (n / 65_536 % 256) ∷ (n / 256 % 256) ∷ (n % 256) ∷ []

pub from_be_bytes-be32 : (n : ℕ) → n < 4_294_967_296 → from_be_bytes (be32 n) ≡ n
unfolding from_be_bytes be_onto
from_be_bytes-be32 n h = omega arith

-- A byte of ASCII.
abbrev pub IsAscii : ℕ → Type 0
IsAscii b = b < 0x80

lead_ascii : (b : ℕ) → b < 0x80 → lead b ≡ some (record { more = 0; head = b; lo = 0; hi = 0 })
unfolding lead
lead_ascii b h = ground arith

utf8_from_ascii : (s : Bytes) (head lo hi : ℕ) → All IsAscii s → utf8_from 0 head lo hi s ≡ some s
unfolding utf8_from push_char
utf8_from_ascii [] head lo hi h = refl
utf8_from_ascii (b ∷ s) head lo hi h = ground (arith, lead_ascii b h.0, utf8_from_ascii s b 0 0 h.1)

pub from_utf8_ascii : (s : Bytes) → All IsAscii s → from_utf8 s ≡ some s
unfolding from_utf8
from_utf8_ascii s h = utf8_from_ascii s 0 0 0 h

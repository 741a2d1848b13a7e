-- ===== src/Bytes.antt =====
-- Byte buffers: slices, machine integers and UTF-8, as the standard library reads them.
pub mod Slices
use anne_de_breuil.Prelude.{
  ℕ, zero, suc, ◌+◌, ◌-◌, ◌*◌, ◌/◌, ◌%◌, ◌^◌, ◌≤◌, ◌<◌, ◌≡◌, refl, sym, ap, ◌∙◌, subst, ◌≢◌, ◌↔◌,
  ◌⊎◌, inl, inr, Bool, true, false, not, ◌&&◌, ◌||◌, Option, none, some, List, [], ◌∷◌, ◌++◌, map,
  arith, ltb, leb, ◌==◌, if◌then◌else◌, ==_iff, ==_refl, Bool-cases, Option-cases, Bool-ext, length,
  take, drop, is_empty, all, filter, find?, any, length-append, In, All, Eq, ◌≟◌, ≟→eq, ≟_refl,
  ℕ_discrete,
}
use mathlib.Core.Option
use anne_de_breuil.Text.{Text}

abbrev pub Bytes : Type 0
Bytes = List ℕ

-- `buf.get(from..to)`.
unfoldable pub slice : Bytes → ℕ → ℕ → Option Bytes
slice buf from to =
    if leb from to && leb to (length buf) then some (take (to - from) (drop from buf)) else none

-- `u16::from_le_bytes`, `u32::from_le_bytes`: the low byte first.
abbrev pub from_le_bytes : Bytes → ℕ
from_le_bytes [] = 0
from_le_bytes (b ∷ s) = b + 256 * from_le_bytes s

be_onto : ℕ → Bytes → ℕ
be_onto acc [] = acc
be_onto acc (b ∷ s) = be_onto (acc * 256 + b) s

-- `u32::from_be_bytes`.
unfoldable pub from_be_bytes : Bytes → ℕ
unfolding be_onto
from_be_bytes = be_onto 0

-- `to_le_bytes` of a `u16` and of a `u32`.
abbrev pub le16 : ℕ → Bytes
le16 n = (n % 256) ∷ (n / 256 % 256) ∷ []

abbrev pub le32 : ℕ → Bytes
le32 n = (n % 256) ∷ (n / 256 % 256) ∷ (n / 65_536 % 256) ∷ (n / 16_777_216 % 256) ∷ []

-- `usize::next_multiple_of(4)`.
unfoldable pub next_multiple_of_4 : ℕ → ℕ
next_multiple_of_4 n = (n + 3) / 4 * 4

-- What a first byte of UTF-8 announces: how many bytes follow, its own bits, and the range of the
-- next byte.
record Lead : Type 0 where
  more : ℕ
  head : ℕ
  lo : ℕ
  hi : ℕ

lead : ℕ → Option Lead
lead b =
    if ltb b 0x80
    then some (record { more = 0; head = b; lo = 0; hi = 0 })
    else if ltb b 0xc2
    then none
    else if ltb b 0xe0
    then some (record { more = 1; head = b - 0xc0; lo = 0x80; hi = 0xbf })
    else if b == 0xe0
    then some (record { more = 2; head = 0; lo = 0xa0; hi = 0xbf })
    else if b == 0xed
    then some (record { more = 2; head = 0xd; lo = 0x80; hi = 0x9f })
    else if ltb b 0xf0
    then some (record { more = 2; head = b - 0xe0; lo = 0x80; hi = 0xbf })
    else if b == 0xf0
    then some (record { more = 3; head = 0; lo = 0x90; hi = 0xbf })
    else if ltb b 0xf4
    then some (record { more = 3; head = b - 0xf0; lo = 0x80; hi = 0xbf })
    else if b == 0xf4
    then some (record { more = 3; head = 4; lo = 0x80; hi = 0x8f })
    else none

-- The character so far, in front of the rest once no byte of it is missing.
push_char : ℕ → ℕ → Option Text → Option Text
push_char zero c rest = Option.map (◌∷◌ c) rest
push_char (suc more) c rest = rest

-- With `more` bytes of a character to come, `head` read of it, and the next one in `lo..=hi`.
utf8_from : ℕ → ℕ → ℕ → ℕ → Bytes → Option Text
utf8_from zero head lo hi [] = some []
utf8_from (suc more) head lo hi [] = none
utf8_from zero head lo hi (b ∷ s) = elim (lead b) [
  | none ↦ none
  | some l ↦ push_char l.more l.head (utf8_from l.more l.head l.lo l.hi s)
]
utf8_from (suc more) head lo hi (b ∷ s) =
    let c = head * 64 + (b - 0x80) in
    let rest = push_char more c (utf8_from more c 0x80 0xbf s) in
    if leb lo b && leb b hi then rest else none

-- `core::str::from_utf8`.
unfoldable pub from_utf8 : Bytes → Option Text
unfolding utf8_from lead push_char
from_utf8 = utf8_from 0 0 0 0

-- The UTF-8 of a code point, and of a text (`as_bytes`).
abbrev pub encode_char : ℕ → Bytes
encode_char c =
    if ltb c 0x80
    then c ∷ []
    else if ltb c 0x800
    then (0xc0 + c / 64) ∷ (0x80 + c % 64) ∷ []
    else if ltb c 0x1_0000
    then (0xe0 + c / 4096) ∷ (0x80 + c / 64 % 64) ∷ (0x80 + c % 64) ∷ []
    else (0xf0 + c / 262_144) ∷ (0x80 + c / 4096 % 64) ∷ (0x80 + c / 64 % 64) ∷ (0x80 + c % 64) ∷ []

unfoldable pub to_utf8 : Text → Bytes
to_utf8 [] = []
to_utf8 (c ∷ s) = encode_char c ++ to_utf8 s

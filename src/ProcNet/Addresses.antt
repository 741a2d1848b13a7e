-- ===== src/ProcNet/Addresses.antt =====
-- Addresses as the kernel writes them
-- (crates/anne-de-breuil/src/adapters/linux_collector/proc_net.rs).
use anne_de_breuil.Prelude.{
  ℕ, ◌+◌, ◌-◌, ◌*◌, ◌/◌, ◌%◌, ◌<◌, ◌≡◌, refl, ap, ◌∙◌, subst, false, Option, none, some, [], ◌∷◌,
  arith, ltb, ◌==◌, if◌then◌else◌, length, take, All,
}
use anne_de_breuil.Bytes.{to_utf8, le32, from_be_bytes}
use anne_de_breuil.Bytes.Slices.{IsAscii, take_all, from_utf8_ascii}
use anne_de_breuil.Text.{Text, to_digit, digits_onto, digits_value, below, from_str_radix}
use anne_de_breuil.Endpoint.{v4}
use anne_de_breuil.ProcNet.{chunks, word_bytes, all_words, address_of, decode_hex_ip}

-- `%X` of a digit, and `%08X` of a word.
abbrev pub hex_digit : ℕ → ℕ
hex_digit d = if ltb d 10 then b'0' + d else b'A' + (d - 10)

unfoldable pub hex8 : ℕ → Text
hex8 w =
    hex_digit (w / 268_435_456 % 16)
    ∷ hex_digit (w / 16_777_216 % 16)
    ∷ hex_digit (w / 1_048_576 % 16)
    ∷ hex_digit (w / 65_536 % 16)
    ∷ hex_digit (w / 4096 % 16)
    ∷ hex_digit (w / 256 % 16)
    ∷ hex_digit (w / 16 % 16)
    ∷ hex_digit (w % 16)
    ∷ []

to_digit-hex_digit : (d : ℕ) → d < 16 → to_digit 16 (hex_digit d) ≡ some d
unfolding to_digit
to_digit-hex_digit d h = ground arith

hex_digit-IsAscii : (d : ℕ) → d < 16 → IsAscii (hex_digit d)
hex_digit-IsAscii d h = ground arith

digits_onto-nil : (n : ℕ) → digits_onto 16 n [] ≡ some n
unfolding digits_onto
digits_onto-nil n = refl

hex_digit-plus : (d : ℕ) → d < 16 → (hex_digit d == b'+') ≡ false
hex_digit-plus d h = ground arith

digits_onto-cons :
    (acc d : ℕ) (s : Text)
    → d < 16
    → digits_onto 16 acc (hex_digit d ∷ s) ≡ digits_onto 16 (acc * 16 + d) s
unfolding digits_onto
digits_onto-cons acc d s h =
    ap (λ (o : Option ℕ). elim o [ none ↦ none | some e ↦ digits_onto 16 (acc * 16 + e) s ])
      (to_digit-hex_digit d h)

from_str_radix-cons :
    (bound c n : ℕ) (s : Text)
    → (c == b'+') ≡ false
    → digits_onto 16 0 (c ∷ s) ≡ some n
    → n < bound
    → from_str_radix bound 16 (c ∷ s) ≡ some n
unfolding from_str_radix digits_value below
from_str_radix-cons bound c n s p q r = rw (p, q) (ground (arith, r))

-- The digits of a word, one by one.
module _ (w : ℕ) (h : w < 0x1_0000_0000) where
  word_of_digits :
      ((((((((0 * 16 + w / 268_435_456 % 16) * 16 + w / 16_777_216 % 16) * 16 + w / 1_048_576 % 16)
                          * 16
                        + w / 65_536 % 16)
                      * 16
                    + w / 4096 % 16)
                  * 16
                + w / 256 % 16)
              * 16
            + w / 16 % 16)
          * 16
        + w % 16)
      ≡ w
  word_of_digits = omega (arith, h)

  digits_onto-hex8 : digits_onto 16 0 (hex8 w) ≡ some w
  unfolding hex8
  digits_onto-hex8 =
      digits_onto-cons 0 (w / 268_435_456 % 16) _ (omega arith)
      ∙ digits_onto-cons _ (w / 16_777_216 % 16) _ (omega arith)
      ∙ digits_onto-cons _ (w / 1_048_576 % 16) _ (omega arith)
      ∙ digits_onto-cons _ (w / 65_536 % 16) _ (omega arith)
      ∙ digits_onto-cons _ (w / 4096 % 16) _ (omega arith)
      ∙ digits_onto-cons _ (w / 256 % 16) _ (omega arith)
      ∙ digits_onto-cons _ (w / 16 % 16) _ (omega arith)
      ∙ digits_onto-cons _ (w % 16) [] (omega arith)
      ∙ (digits_onto-nil _ ∙ ap some word_of_digits)

  from_str_radix-hex8 : from_str_radix 0x1_0000_0000 16 (hex8 w) ≡ some w
  unfolding hex8
  from_str_radix-hex8 =
      from_str_radix-cons 0x1_0000_0000 _ w _ (hex_digit-plus _ (omega arith)) digits_onto-hex8 h

  hex8-IsAscii : All IsAscii (hex8 w)
  unfolding hex8
  hex8-IsAscii =
      let digit : (d : ℕ) → IsAscii (hex_digit (d % 16)) =
        λ d. hex_digit-IsAscii (d % 16) (omega arith) in
      (digit _, (digit _, (digit _, (digit _, (digit _, (digit _, (digit _, (digit _, tt))))))))

-- `%04X` of a port.
unfoldable pub hex4 : ℕ → Text
hex4 n =
    hex_digit (n / 4096 % 16)
    ∷ hex_digit (n / 256 % 16)
    ∷ hex_digit (n / 16 % 16)
    ∷ hex_digit (n % 16)
    ∷ []

module _ (n : ℕ) (h : n < 0x1_0000) where
  port_of_digits :
      (((0 * 16 + n / 4096 % 16) * 16 + n / 256 % 16) * 16 + n / 16 % 16) * 16 + n % 16 ≡ n
  port_of_digits = omega (arith, h)

  digits_onto-hex4 : digits_onto 16 0 (hex4 n) ≡ some n
  unfolding hex4
  digits_onto-hex4 =
      digits_onto-cons 0 (n / 4096 % 16) _ (omega arith)
      ∙ digits_onto-cons _ (n / 256 % 16) _ (omega arith)
      ∙ digits_onto-cons _ (n / 16 % 16) _ (omega arith)
      ∙ digits_onto-cons _ (n % 16) [] (omega arith)
      ∙ (digits_onto-nil _ ∙ ap some port_of_digits)

  pub from_str_radix-hex4 : from_str_radix 0x1_0000 16 (hex4 n) ≡ some n
  unfolding hex4
  from_str_radix-hex4 =
      from_str_radix-cons 0x1_0000 _ n _ (hex_digit-plus _ (omega arith)) digits_onto-hex4 h

to_utf8_ascii : (s : Text) → All IsAscii s → to_utf8 s ≡ s
unfolding to_utf8
to_utf8_ascii [] h = refl
to_utf8_ascii (c ∷ s) h = ground (arith, h.0, to_utf8_ascii s h.1)

take_whole : (s : Text) → length s ≡ 8 → take 8 s ≡ s
take_whole s l = subst (λ (n : ℕ). take n s ≡ s) l (take_all s)

-- Eight characters of ASCII that are a word.
decode_hex_ip-word :
    (s : Text) (w : ℕ)
    → length s ≡ 8
    → All IsAscii s
    → from_str_radix 0x1_0000_0000 16 s ≡ some w
    → decode_hex_ip s ≡ some (v4 (from_be_bytes (le32 w)))
unfolding decode_hex_ip chunks all_words word_bytes address_of
decode_hex_ip-word s w l a e =
    rw (to_utf8_ascii s a, l)
      (let f : word_bytes (take 8 s) ≡ some (le32 w) =
          rw (take_whole s l, from_utf8_ascii s a, e) refl in
        rw f refl)

-- An IPv4 address that the kernel writes as the hexadecimal digits of a word is read as the address
-- whose four bytes are those of the word, the lowest first.
pub decode_hex_ip-hex8 :
    (w : ℕ) → w < 0x1_0000_0000 → decode_hex_ip (hex8 w) ≡ some (v4 (from_be_bytes (le32 w)))
unfolding hex8
decode_hex_ip-hex8 w h =
    decode_hex_ip-word (hex8 w) w refl (hex8-IsAscii w h) (from_str_radix-hex8 w h)

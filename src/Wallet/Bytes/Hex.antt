-- ===== src/Wallet/Bytes/Hex.antt =====
-- Hexadecimal text of bytes reads back, and reading accepts exactly well-formed text.
use cardano_on_evm.Prelude.{
  ℕ, ◌+◌, ◌*◌, ◌/◌, ◌%◌, ◌<◌, ◌≡◌, refl, true, [], ◌∷◌, arith, ok, Str, Bytes, IsBytes, has_prefix,
  to_lower, map, &&_parts, length,
}
use cardano_on_evm.Wallet.Bytes.{
  is_hex_digit, all_hex, hex_value, parse_pairs, strip_0x, from_hex, hex_char, to_hex,
}

pub hex_char-is_hex : (d : ℕ) → d < 16 → is_hex_digit (hex_char d) ≡ true
unfolding is_hex_digit hex_char
hex_char-is_hex d h = ground arith

hex_value-hex_char : (d : ℕ) → d < 16 → hex_value (hex_char d) ≡ d
unfolding hex_value hex_char
hex_value-hex_char d h = ground arith

hex_value-lt : (c : ℕ) → is_hex_digit c ≡ true → hex_value c < 16
unfolding hex_value is_hex_digit
hex_value-lt c h = ground arith

hex_char-hex_value : (c : ℕ) → is_hex_digit c ≡ true → hex_char (hex_value c) ≡ to_lower c
unfolding hex_value is_hex_digit hex_char to_lower
hex_char-hex_value c h = ground arith

pub all_hex-to_hex : (bs : Bytes) → IsBytes bs → all_hex (to_hex bs) ≡ true
unfolding all_hex to_hex
all_hex-to_hex [] h = refl
all_hex-to_hex (b ∷ bs) h =
    rw (hex_char-is_hex (b / 16) (omega arith), hex_char-is_hex (b % 16) (omega arith))
      (all_hex-to_hex bs h.1)

pub length-to_hex : (bs : Bytes) → length (to_hex bs) ≡ 2 * length bs
unfolding to_hex
length-to_hex [] = omega arith
length-to_hex (b ∷ bs) = omega (arith, length-to_hex bs)

pub parse_pairs-to_hex : (bs : Bytes) → IsBytes bs → parse_pairs (to_hex bs) ≡ bs
unfolding parse_pairs to_hex
parse_pairs-to_hex [] h = refl
parse_pairs-to_hex (b ∷ bs) h = ground (
  arith,
  hex_value-hex_char (b / 16) (omega arith),
  hex_value-hex_char (b % 16) (omega arith),
  parse_pairs-to_hex bs h.1,
)

-- No digit is the `x` of a prefix.
strip_0x-to_hex : (bs : Bytes) → strip_0x (to_hex bs) ≡ to_hex bs
unfolding strip_0x to_hex has_prefix
strip_0x-to_hex [] = refl
strip_0x-to_hex (b ∷ bs) = ground arith

-- The hexadecimal text of bytes reads back as the bytes.
pub from_hex-to_hex : (bs : Bytes) → IsBytes bs → from_hex (to_hex bs) ≡ ok bs
unfolding from_hex
from_hex-to_hex bs h =
    rw (strip_0x-to_hex bs)
      (rw (length-to_hex bs, all_hex-to_hex bs h, parse_pairs-to_hex bs h) (ground arith))

parse_pairs-IsBytes : (s : Str) → all_hex s ≡ true → IsBytes (parse_pairs s)
unfolding parse_pairs all_hex
parse_pairs-IsBytes [] h = tt
parse_pairs-IsBytes (a ∷ []) h = tt
parse_pairs-IsBytes (a ∷ b ∷ s) h =
    let (ha, t) = &&_parts (is_hex_digit a) _ h in
    let (hb, hs) = &&_parts (is_hex_digit b) _ t in
    (omega (arith, hex_value-lt a ha, hex_value-lt b hb), parse_pairs-IsBytes s hs)

to_hex-parse_pairs :
    (s : Str) → all_hex s ≡ true → length s % 2 ≡ 0 → to_hex (parse_pairs s) ≡ map to_lower s
unfolding parse_pairs all_hex to_hex
to_hex-parse_pairs [] h e = refl
to_hex-parse_pairs (a ∷ []) h e = absurd (omega arith)
to_hex-parse_pairs (a ∷ b ∷ s) h e =
    let (ha, t) = &&_parts (is_hex_digit a) _ h in
    let (hb, hs) = &&_parts (is_hex_digit b) _ t in
    let la = hex_value-lt a ha in
    let lb = hex_value-lt b hb in
    let high : (hex_value a * 16 + hex_value b) / 16 ≡ hex_value a = omega arith in
    let low : (hex_value a * 16 + hex_value b) % 16 ≡ hex_value b = omega arith in
    rw (high, low, hex_char-hex_value a ha, hex_char-hex_value b hb)
      (rw (to_hex-parse_pairs s hs (omega arith)))

-- What `from_hex` accepts: an even number of digits behind an optional prefix.
from_hex-eq-ok :
    (hex : Str) (bs : Bytes)
    → from_hex hex ≡ ok bs
    → (length (strip_0x hex) % 2 ≡ 0)
      × (all_hex (strip_0x hex) ≡ true)
      × (parse_pairs (strip_0x hex) ≡ bs)
unfolding from_hex
from_hex-eq-ok hex bs h = ground arith

-- A text that is accepted reads as bytes, and their hexadecimal text is the accepted one without a
-- leading "0x" and in lower case.
pub to_hex-from_hex :
    (hex : Str) (bs : Bytes)
    → from_hex hex ≡ ok bs
    → IsBytes bs × (to_hex bs ≡ map to_lower (strip_0x hex))
to_hex-from_hex hex bs h =
    let (even, digits, e) = from_hex-eq-ok hex bs h in
    rw (← e) (parse_pairs-IsBytes _ digits, to_hex-parse_pairs _ digits even)

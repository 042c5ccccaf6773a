-- ===== src/Wallet/Bytes.antt =====
-- packages/wallet/src/bytes.ts: hexadecimal text, byte comparison and concatenation.
pub mod Hex
pub mod Compare
use Prim.Native.Nat.{bit_or, bit_xor}
use cardano_on_evm.Prelude.{
  ℕ, zero, suc, ◌+◌, ◌-◌, ◌*◌, ◌/◌, ◌%◌, Bool, true, false, not, ◌&&◌, ◌||◌, List, [], ◌∷◌, ◌++◌,
  Result, ok, err, Str, Bytes, codes, has_prefix, ◌==◌, leb, if◌then◌else◌, length, take, drop,
  replicate,
}

-- One character of `/^[0-9a-f]*$/i`.
unfoldable pub is_hex_digit : ℕ → Bool
is_hex_digit c = leb b'0' c && leb c b'9' || (leb b'a' c && leb c b'f' || leb b'A' c && leb c b'F')

unfoldable pub all_hex : Str → Bool
unfolding is_hex_digit
all_hex [] = true
all_hex (c ∷ s) = is_hex_digit c && all_hex s

-- The value of a digit that `Number.parseInt(_, 16)` accepts.
unfoldable pub hex_value : ℕ → ℕ
hex_value c = if leb c b'9' then c - b'0' else if leb c b'F' then c - b'A' + 10 else c - b'a' + 10

-- `raw.match(/../g)`, each pair parsed.
unfoldable pub parse_pairs : Str → Bytes
unfolding hex_value
parse_pairs [] = []
parse_pairs (a ∷ []) = []
parse_pairs (a ∷ b ∷ s) = (hex_value a * 16 + hex_value b) ∷ parse_pairs s

-- `hex.startsWith('0x') ? hex.slice(2) : hex`
unfoldable pub strip_0x : Str → Str
strip_0x hex = if has_prefix (codes "0x") hex then drop 2 hex else hex

unfoldable pub from_hex : Str → Result Bytes
from_hex hex =
    let raw = strip_0x hex in
    if not (length raw % 2 == 0) || not (all_hex raw)
    then err "Invalid hexadecimal encoding"
    else ok (parse_pairs raw)

-- A digit below 16 of `toString(16)`.
unfoldable pub hex_char : ℕ → ℕ
hex_char d = if leb d 9 then b'0' + d else b'a' + (d - 10)

-- `b.toString(16).padStart(2, '0')` of a byte, joined.
unfoldable pub to_hex : Bytes → Str
unfolding hex_char
to_hex [] = []
to_hex (b ∷ bs) = hex_char (b / 16) ∷ hex_char (b % 16) ∷ to_hex bs

-- The loop `difference |= a[i] ^ b[i]` over the indices of `a`.
unfoldable pub difference : Bytes → Bytes → ℕ → ℕ
difference [] b d = d
difference (x ∷ a) [] d = difference a [] (bit_or d (bit_xor x 0))
difference (x ∷ a) (y ∷ b) d = difference a b (bit_or d (bit_xor x y))

unfoldable pub equal_bytes : Bytes → Bytes → Bool
unfolding difference
equal_bytes a b = if not (length a == length b) then false else difference a b 0 == 0

-- `result.set(part, offset)`
unfoldable pub write_at : Bytes → ℕ → Bytes → Bytes
write_at result offset part = take offset result ++ part ++ drop (offset + length part) result

unfoldable pub total_length : List Bytes → ℕ
total_length [] = 0
total_length (p ∷ parts) = length p + total_length parts

-- The loop that copies each part behind the ones before it.
unfoldable pub copy_parts : Bytes → ℕ → List Bytes → Bytes
unfolding write_at
copy_parts result offset [] = result
copy_parts result offset (p ∷ parts) =
    copy_parts (write_at result offset p) (offset + length p) parts

unfoldable pub concat_bytes : List Bytes → Bytes
unfolding total_length copy_parts
concat_bytes parts = copy_parts (replicate (total_length parts) 0) 0 parts

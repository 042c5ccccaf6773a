-- ===== src/Wallet/Address.antt =====
-- packages/wallet/src/address.ts: Cardano addresses as text, their bytes and key hashes.
pub mod Parse
use cardano_on_evm.Prelude.{
  ℕ, ◌+◌, ◌/◌, ◌%◌, Bool, true, false, not, ◌&&◌, ◌||◌, List, [], ◌∷◌, ◌++◌, Option, none, some,
  map, Result, ok, err, ◌>>=◌, ◌>>◌, throw_if, Str, Bytes, codes, has_prefix, str_eq, first_byte,
  ◌==◌, if◌then◌else◌, length, take, drop,
}
use cardano_on_evm.Wallet.Bytes.{from_hex, to_hex, equal_bytes}

pub data CardanoCredential : Type 0 where
  payment stake : CardanoCredential

abbrev pub is_stake : CardanoCredential → Bool
is_stake payment = false
is_stake stake = true

-- `network` is 0 or 1, `kind` is the field `type`: 0, 2, 6 or 14.
pub record CardanoAddress : Type 0 where
  pub bytes : Bytes
  pub hex : Str
  pub network : ℕ
  pub kind : ℕ
  pub credential : CardanoCredential
  pub key_hash : Bytes

-- `@scure/base`: `bech32.decode(text, limit)` gives a prefix and 5-bit words, or throws.
pub record Bech32 : Type 0 where
  pub decode : Str → ℕ → Result (Str × List ℕ)
  pub from_words : List ℕ → Result (List ℕ)

-- `/^(addr|stake)(_test)?1/`
unfoldable pub is_bech32_address : Str → Bool
is_bech32_address input =
    has_prefix (codes "addr1") input
    || has_prefix (codes "addr_test1") input
    || has_prefix (codes "stake1") input
    || has_prefix (codes "stake_test1") input

-- `Uint8Array.from` keeps the low eight bits of each number.
abbrev pub to_bytes : List ℕ → Bytes
to_bytes = map (λ n. n % 256)

unfoldable pub credential_of : ℕ → CardanoCredential
credential_of kind = if kind == 14 then stake else payment

unfoldable pub address_length : ℕ → ℕ
address_length kind = if kind == 0 || kind == 2 then 57 else 29

unfoldable pub is_supported_kind : ℕ → Bool
is_supported_kind kind = kind == 0 || kind == 2 || kind == 6 || kind == 14

unfoldable pub expected_prefix : ℕ → ℕ → Str
unfolding credential_of
expected_prefix kind network =
    codes (if is_stake (credential_of kind) then "stake" else "addr")
    ++ codes (if network == 0 then "_test" else "")

abbrev pub differs_from : Option ℕ → ℕ → Bool
differs_from none network = false
differs_from (some expected) network = not (network == expected)

abbrev pub prefix_differs : Option Str → Str → Bool
prefix_differs none wanted = false
prefix_differs (some prefix) wanted = not (str_eq prefix wanted)

abbrev pub address_of : Bytes → CardanoAddress
address_of bytes = record {
  bytes = bytes;
  hex = to_hex bytes;
  network = first_byte bytes % 16;
  kind = first_byte bytes / 16;
  credential = credential_of (first_byte bytes / 16);
  key_hash = take 28 (drop 1 bytes);
}

-- The checks on the bytes of an address, and on the prefix if the text had one.
unfoldable pub check_address : Option Str → Bytes → Option ℕ → Result CardanoAddress
check_address prefix bytes expected = do
  throw_if (length bytes == 0) "Empty Cardano address"
  let kind = first_byte bytes / 16
  let network = first_byte bytes % 16
  throw_if (not (network == 0) && not (network == 1)) "Unsupported Cardano network"
  throw_if (differs_from expected network) "Cardano network mismatch"
  throw_if (not (is_supported_kind kind)) "Unsupported Cardano address type"
  throw_if (not (length bytes == address_length kind)) "Invalid Cardano address length"
  throw_if (prefix_differs prefix (expected_prefix kind network)) "Cardano address prefix mismatch"
  ok (address_of bytes)

module _ (bech32 : Bech32) where
  unfoldable pub parse_cardano_address : Str → Option ℕ → Result CardanoAddress
  parse_cardano_address input expected =
      if is_bech32_address input
      then (do
        (prefix, words) ← bech32.decode input 120
        numbers ← bech32.from_words words
        check_address (some prefix) (to_bytes numbers) expected)
      else (do bytes ← from_hex input; check_address none bytes expected)

-- `blake2b(publicKey, { dkLen: 28 })` is a parameter.
module _ (blake2b_224 : Bytes → Bytes) where
  unfoldable pub assert_address_key : CardanoAddress → Bytes → Result (Unit {0})
  assert_address_key address public_key =
      throw_if
        (not (length public_key == 32)
          || not (equal_bytes address.key_hash (blake2b_224 public_key)))
        "Public key does not match the address credential"

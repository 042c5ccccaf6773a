-- ===== src/Tests/Wallet.antt =====
-- packages/wallet on concrete inputs.
use mathlib.Core.List.{flatten}
use cardano_on_evm.Prelude.{err, ltb, if◌then◌else◌}
use cardano_on_evm.Prelude.{
  ◌≡◌, ◌↔◌, refl, false, true, [], ◌∷◌, map, some, arith, ok, Bytes, IsBytes, codes, length,
  has_prefix, to_lower,
}
use cardano_on_evm.Prelude.Int.{pos, negsuc}
use cardano_on_evm.Wallet.Bytes.{
  from_hex, strip_0x, all_hex, parse_pairs, to_hex, equal_bytes, concat_bytes,
}
use cardano_on_evm.Wallet.Bytes.Hex.{from_hex-to_hex, to_hex-from_hex}
use cardano_on_evm.Wallet.Bytes.Compare.{equal_bytes_iff, concat_bytes-eq-flatten}
use cardano_on_evm.Wallet.Utf8.{utf8_encode}
use cardano_on_evm.Wallet.Cbor.{
  Cbor, num_key, text_key, num, bytes, text, array, object, nil, cons, end, entry, key_mem,
  decode_cbor, encode_cbor,
}
use cardano_on_evm.Wallet.Cbor.RoundTrip.{decode_cbor-encode_cbor}
use cardano_on_evm.Wallet.Address.{parse_cardano_address, address_of, differs_from}
use cardano_on_evm.Wallet.Address.Parse.{
  IsAddress, parse_cardano_address-IsAddress, parse_cardano_address-hex,
}
use cardano_on_evm.Wallet.Cip8.Sound.{
  Authorizes, verify_cip8_signature-Authorizes, verify_cip8_signature_binds,
}
use cardano_on_evm.Tests.Samples.{
  toy_crypto, no_bech32, sample_address, sample_message, sample_verified, run_verify,
  verified_sample,
}

from_hex-to_hex_example : from_hex (to_hex (0xde ∷ 0xad ∷ [])) ≡ ok (0xde ∷ 0xad ∷ [])
from_hex-to_hex_example = from_hex-to_hex (0xde ∷ 0xad ∷ []) (omega arith)

read_upper : from_hex (codes "0xDEad") ≡ ok (0xde ∷ 0xad ∷ [])
unfolding from_hex strip_0x all_hex parse_pairs has_prefix
read_upper = refl

to_hex-from_hex_example :
    IsBytes (0xde ∷ 0xad ∷ [])
    × (to_hex (0xde ∷ 0xad ∷ []) ≡ map to_lower (strip_0x (codes "0xDEad")))
to_hex-from_hex_example = to_hex-from_hex (codes "0xDEad") (0xde ∷ 0xad ∷ []) read_upper

equal_bytes_iff_example :
    (equal_bytes (1 ∷ 2 ∷ []) (1 ∷ 3 ∷ []) ≡ true) ↔ (◌≡◌ {A = Bytes} (1 ∷ 2 ∷ []) (1 ∷ 3 ∷ []))
equal_bytes_iff_example = equal_bytes_iff (1 ∷ 2 ∷ []) (1 ∷ 3 ∷ [])

concat_bytes-eq-flatten_example :
    concat_bytes ((1 ∷ []) ∷ [] ∷ (2 ∷ 3 ∷ []) ∷ []) ≡ flatten ((1 ∷ []) ∷ [] ∷ (2 ∷ 3 ∷ []) ∷ [])
concat_bytes-eq-flatten_example = concat_bytes-eq-flatten ((1 ∷ []) ∷ [] ∷ (2 ∷ 3 ∷ []) ∷ [])

-- {1: -8, "a": [h'00ff', "hi"]}
abbrev nested : Cbor
nested = object (
    entry (num_key (pos 1)) (num (negsuc 7)) (
      entry (text_key (codes "a"))
        (array (cons (bytes (0 ∷ 255 ∷ [])) (cons (text (codes "hi")) nil))) end))

decode_cbor-encode_cbor_example :
    (p : Bytes) × (encode_cbor nested ≡ ok p)
    × (decode_cbor p false ≡ (if ltb 16384 (length p) then err "CBOR size limit" else ok nested))
decode_cbor-encode_cbor_example =
    decode_cbor-encode_cbor nested false (unfold utf8_encode key_mem in ground arith)

parsed_sample :
    parse_cardano_address no_bech32 (to_hex sample_address) (some 0)
    ≡ ok (address_of sample_address)
unfolding run_verify
parsed_sample = refl

parse_cardano_address-IsAddress_example :
    IsAddress (address_of sample_address)
    × (differs_from (some 0) (address_of sample_address).network ≡ false)
parse_cardano_address-IsAddress_example =
    parse_cardano_address-IsAddress no_bech32 (to_hex sample_address) (some 0)
      (address_of sample_address) parsed_sample

parse_cardano_address-hex_example :
    parse_cardano_address no_bech32 (address_of sample_address).hex (some 0)
    ≡ ok (address_of sample_address)
parse_cardano_address-hex_example =
    parse_cardano_address-hex no_bech32 (to_hex sample_address) (some 0) (address_of sample_address)
      parsed_sample

verify_cip8_signature-Authorizes_example :
    Authorizes toy_crypto no_bech32
      (record { address = to_hex sample_address; network = 0; payload = 1 ∷ 2 ∷ [] })
      (sample_verified (1 ∷ 2 ∷ []))
verify_cip8_signature-Authorizes_example =
    verify_cip8_signature-Authorizes toy_crypto no_bech32 (sample_message (1 ∷ 2 ∷ []))
      (record { address = to_hex sample_address; network = 0; payload = 1 ∷ 2 ∷ [] })
      (sample_verified (1 ∷ 2 ∷ [])) verified_sample

verify_cip8_signature_binds_example :
    (◌≡◌ {A = Bytes} (1 ∷ 2 ∷ []) (1 ∷ 2 ∷ []))
    × ((sample_verified (1 ∷ 2 ∷ [])).address.bytes ≡ (sample_verified (1 ∷ 2 ∷ [])).address.bytes)
verify_cip8_signature_binds_example =
    verify_cip8_signature_binds toy_crypto no_bech32 (sample_message (1 ∷ 2 ∷ []))
      (sample_message (1 ∷ 2 ∷ []))
      (record { address = to_hex sample_address; network = 0; payload = 1 ∷ 2 ∷ [] })
      (record { address = to_hex sample_address; network = 0; payload = 1 ∷ 2 ∷ [] })
      (sample_verified (1 ∷ 2 ∷ [])) (sample_verified (1 ∷ 2 ∷ [])) refl verified_sample
      verified_sample

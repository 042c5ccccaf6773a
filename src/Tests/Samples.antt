-- ===== src/Tests/Samples.antt =====
-- Sample data: a key, its address, a COSE_Sign1 message and a COSE_Key, with stand-ins for the
-- hash, the curve and bech32.
use cardano_on_evm.Prelude.{
  ℕ, suc, ◌≡◌, refl, true, false, [], ◌∷◌, Result, ok, err, Bytes, codes, take, replicate, length,
  leb,
}
use cardano_on_evm.Prelude.Int.{pos, negsuc, int_eq}
use cardano_on_evm.Prelude.{str_eq, has_prefix}
use cardano_on_evm.Wallet.Bytes.{
  from_hex, strip_0x, all_hex, parse_pairs, to_hex, equal_bytes, concat_bytes,
}
use cardano_on_evm.Wallet.Utf8.{utf8_encode, utf8_decode}
use cardano_on_evm.Wallet.Cbor.{
  num_key, text_key, num, bool, bytes, array, object, nil, cons, end, entry, key_eq, key_mem,
  decode_cbor, read, read_item, read_behind, read_payload, read_entries, read_items, read_simple,
  read_length, as_key, check_minimal, big_endian, take_bytes, encode_cbor, encode_key,
  encode_string, encode_num, head,
}
use cardano_on_evm.Wallet.Address.{
  Bech32, parse_cardano_address, check_address, assert_address_key, address_of, credential_of,
  address_length, is_supported_kind, expected_prefix, is_bech32_address,
}
use cardano_on_evm.Wallet.Connector.Session.{Cip30, resolved}
use cardano_on_evm.Wallet.Cip8.{
  Crypto, DataSignature, Expected, VerifiedCip8, verify_cip8_signature, read_message, check_content,
  read_key, check_signature, check_key_id, cip8_sign_structure, four_items, as_map, as_bytes,
  only_keys, get, is_num, is_false,
}

abbrev pub toy_crypto : Crypto
toy_crypto = record {
  blake2b_224 = λ b. take 28 b;
  is_point = λ key. true;
  is_small_order = λ key. false;
  is_torsion_free = λ key. true;
  verify = λ signature message key. leb (length key) (length message);
}

abbrev pub no_bech32 : Bech32
no_bech32 = record { decode = λ text limit. err "bad checksum"; from_words = λ words. ok words }

abbrev pub sample_key : Bytes
sample_key = replicate 32 7

-- Type 6, network 0: an enterprise address of a test network.
abbrev pub sample_address : Bytes
sample_address = 96 ∷ replicate 28 7

abbrev get_ok : Result Bytes → Bytes
get_ok (ok b) = b
get_ok (err e) = []

unfoldable pub sample_headers : Bytes
unfolding encode_cbor encode_key encode_string encode_num head concat_bytes utf8_encode
sample_headers = get_ok (
    encode_cbor (
      object (
        entry (num_key (pos 1)) (num (negsuc 7))
          (entry (text_key (codes "address")) (bytes sample_address) end))))

unfoldable pub sample_message : Bytes → DataSignature
unfolding encode_cbor encode_key encode_string encode_num head concat_bytes utf8_encode to_hex
    sample_headers
sample_message payload = record {
  signature = to_hex (
      get_ok (
        encode_cbor (
          array (
            cons (bytes sample_headers) (
              cons (object (entry (text_key (codes "hashed")) (bool false) end))
                (cons (bytes payload) (cons (bytes (replicate 64 9)) nil)))))));
  key = to_hex (
      get_ok (
        encode_cbor (
          object (
            entry (num_key (pos 1)) (num (pos 1)) (
              entry (num_key (pos 3)) (num (negsuc 7)) (
                entry (num_key (negsuc 0)) (num (pos 6))
                  (entry (num_key (negsuc 1)) (bytes sample_key) end)))))));
}

unfoldable pub sample_verified : Bytes → VerifiedCip8
unfolding sample_headers cip8_sign_structure to_hex credential_of
sample_verified payload = record {
  public_key = sample_key;
  protected_headers = sample_headers;
  signature = replicate 64 9;
  sign_structure = get_ok (cip8_sign_structure sample_headers payload);
  address = address_of sample_address;
}

-- `verify_cip8_signature` with all its parts open, to run it.
unfoldable pub run_verify : DataSignature → Expected → Result VerifiedCip8
unfolding verify_cip8_signature read_message check_content read_key check_signature check_key_id
    cip8_sign_structure four_items as_map as_bytes only_keys get is_num is_false from_hex strip_0x
    all_hex parse_pairs to_hex equal_bytes concat_bytes has_prefix str_eq int_eq utf8_encode
    utf8_decode key_eq key_mem decode_cbor read read_item read_behind read_payload read_entries
    read_items read_simple read_length as_key check_minimal big_endian take_bytes encode_cbor
    encode_key encode_string encode_num head parse_cardano_address check_address assert_address_key
    credential_of address_length is_supported_kind expected_prefix is_bech32_address
run_verify = verify_cip8_signature toy_crypto no_bech32

pub verified_sample :
    verify_cip8_signature toy_crypto no_bech32
      (sample_message (1 ∷ 2 ∷ []))
      (record { address = to_hex sample_address; network = 0; payload = 1 ∷ 2 ∷ [] })
    ≡ ok (sample_verified (1 ∷ 2 ∷ []))
unfolding run_verify sample_message sample_verified
verified_sample = refl

-- A wallet that keeps its account and its network; its state counts the calls.
abbrev pub sample_wallet : Bytes → Cip30 ℕ
sample_wallet payload = record {
  name = codes "lace";
  api_version = codes "0.1.0";
  enable = λ n. (resolved tt, suc n);
  get_network_id = λ n. (resolved 0, suc n);
  get_change_address = λ n. (resolved (to_hex sample_address), suc n);
  get_used_addresses = λ n. (resolved (to_hex sample_address ∷ []), suc n);
  get_reward_addresses = λ n. (resolved [], suc n);
  sign_data = λ address bytes n. (resolved (sample_message payload), suc n);
}

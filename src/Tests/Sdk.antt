-- ===== src/Tests/Sdk.antt =====
-- packages/sdk/src/index.ts with stand-ins for viem, on the sample key.
use cardano_on_evm.Prelude.{
  ℕ, suc, ◌≡◌, refl, [], ◌∷◌, ◌++◌, ok, Bytes, codes, replicate, str_eq, has_prefix, includes,
}
use cardano_on_evm.Wallet.Bytes.{
  to_hex, from_hex, all_hex, is_hex_digit, hex_value, parse_pairs, strip_0x,
}
use cardano_on_evm.Wallet.Address.{
  payment, parse_cardano_address, check_address, credential_of, address_length, is_supported_kind,
  expected_prefix, is_bech32_address,
}
use cardano_on_evm.Enrollment.Identity.{TableIdentityConfig, TableIdentity, prefixed_hex}
use cardano_on_evm.Protocol.Operation.{is_hex_bytes}
use cardano_on_evm.Protocol.Identity.{Viem, table_config_hash, is_some_hex, bytes32, get_addresses}
use cardano_on_evm.Sdk.Account.{
  Sdk, CardanoAccount, table_account, table_identity, experimental_general, config_hash_of,
  resolve_account_config,
}
use cardano_on_evm.Sdk.Signing.{
  CardanoWalletAdapter, SignedOperation, has_address, need_address, signed_operation,
}
use cardano_on_evm.Tests.Samples.{
  toy_crypto, no_bech32, sample_key, sample_address, sample_message, sample_verified,
}
use cardano_on_evm.Tests.Operation.{any_address, sample_sender, sample_operation}
use cardano_on_evm.Tests.Calls.{toy_codec}

-- Every hash is the same, every text an address, and every encoding empty.
abbrev pub toy_viem : Viem
toy_viem = record {
  keccak256 = λ s. codes "0x0102";
  string_to_hex = λ s. s;
  get_address = any_address;
  encode_parameters = λ values. codes "0x";
  encode_function = λ name values. codes "0x";
  create2_address = λ factory salt hash. sample_sender;
  create_address = λ from nonce. sample_sender;
  bytes_to_hex = λ b. prefixed_hex b;
}

abbrev pub toy_sdk : Sdk
toy_sdk = record {
  viem = toy_viem;
  codec = toy_codec;
  user_operation_hash = λ op chain entry. codes "0x03";
  execute_selector = codes "0x8dd7712f";
  crypto = toy_crypto;
  affine_x = λ key. 1;
}

abbrev pub small_config : TableIdentityConfig
small_config = record {
  chain_id = 1;
  entry_point = codes "0xe";
  kernel_implementation = codes "0xa";
  kernel_factory = codes "0xb";
  table_factory = codes "0xc";
  validator_creation_code = codes "0x60";
  namespace = codes "0x" ++ replicate 64 b'0';
  index = 0;
}

pub small_config_hash : config_hash_of toy_sdk (table_account small_config) ≡ ok (codes "0x0102")
unfolding config_hash_of table_config_hash is_some_hex bytes32 get_addresses is_hex_bytes has_prefix
    all_hex is_hex_digit includes str_eq
small_config_hash = refl

pub small_config_resolved :
    resolve_account_config toy_sdk (table_account small_config) ≡ ok (table_account small_config)
unfolding resolve_account_config
small_config_resolved = let e = small_config_hash in rw e

abbrev sample_identity : TableIdentity
sample_identity = record {
  public_key = prefixed_hex sample_key;
  protected_headers = codes "0x";
  validator = sample_sender;
  validator_salt = codes "0x";
  validator_init_code_hash = codes "0x";
  account = sample_sender;
  account_salt = codes "0x";
  actual_account_salt = codes "0x";
  initialize_data = codes "0x";
  factory_data = codes "0x";
  proxy_init_code_hash = codes "0x";
  config_hash = codes "0x";
}

abbrev sample_account : CardanoAccount
sample_account = record {
  profile = experimental_general;
  cardano_address = to_hex sample_address;
  cardano_network = 0;
  credential = payment;
  public_key = prefixed_hex sample_key;
  protected_header_hash = codes "0x0102";
  identity = table_identity sample_identity;
  config = table_account small_config;
}

-- A wallet that counts its calls.
abbrev pub toy_wallet : Bytes → CardanoWalletAdapter ℕ
toy_wallet payload = record {
  network = λ n. (ok 0, suc n);
  addresses = λ credential n. (ok (to_hex sample_address ∷ []), suc n);
  sign_data = λ address bytes n. (ok (sample_message payload), suc n);
}

pub address_available :
    need_address toy_sdk no_bech32 0 (to_hex sample_address) (to_hex sample_address ∷ []) ≡ ok tt
unfolding need_address has_address parse_cardano_address check_address credential_of address_length
    is_supported_kind expected_prefix is_bech32_address from_hex strip_0x has_prefix all_hex
    is_hex_digit hex_value parse_pairs to_hex str_eq
address_available = refl

pub payload_bytes : from_hex (codes "0x0102") ≡ ok (1 ∷ 2 ∷ [])
unfolding from_hex strip_0x has_prefix all_hex is_hex_digit hex_value parse_pairs
payload_bytes = refl

abbrev sample_signed : SignedOperation
sample_signed =
    signed_operation toy_sdk no_bech32 sample_operation (codes "0x0102")
      (sample_message (1 ∷ 2 ∷ [])) (sample_verified (1 ∷ 2 ∷ []))

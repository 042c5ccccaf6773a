-- ===== src/Tests/Identity.antt =====
-- packages/enrollment/src/identity.ts with a stand-in for Keccak-256, on the key of the base point.
use cardano_on_evm.Prelude.{
  true, ℕ, ◌+◌, ◌%◌, err, arith, ◌≡◌, refl, [], ◌∷◌, ◌++◌, ok, Result, Str, Bytes, IsBytes, codes,
  replicate, length, has_prefix, to_lower,
}
use cardano_on_evm.Wallet.Bytes.{all_hex, parse_pairs, to_hex, concat_bytes}
use cardano_on_evm.Wallet.Utf8.{utf8_encode}
use cardano_on_evm.Enrollment.Identity
use cardano_on_evm.Enrollment.Identity.{
  TableIdentityConfig, TableIdentity, derive_backend_table_identity,
}
use cardano_on_evm.Enrollment.Identity.Chains.{derive_backend_table_identity_elsewhere}
use cardano_on_evm.Tests.Samples.{toy_crypto}

-- The compressed base point of Ed25519: y = 4/5, with an even x.
abbrev base_key : Bytes
base_key = 0x58 ∷ replicate 31 0x66

test_x :
    Identity.recovered_x base_key
    ≡ (15112221349535400772501151409588531511454012693041857206046113283949847762202, true)
unfolding Identity.recovered_x Identity.pow_loop Identity.little_endian
test_x = refl

abbrev toy_keccak : Bytes → Bytes
toy_keccak b = replicate 32 (1 + length b % 255)

toy_keccak-IsBytes : (b : Bytes) → IsBytes (toy_keccak b)
toy_keccak-IsBytes b = omega arith

abbrev sample_place : ℕ → Str
sample_place n = codes "0x" ++ to_hex (replicate 20 n)

unfoldable sample_config : TableIdentityConfig
unfolding to_hex
sample_config = record {
  chain_id = 8453;
  entry_point = sample_place 1;
  kernel_implementation = sample_place 2;
  kernel_factory = sample_place 3;
  table_factory = sample_place 4;
  validator_creation_code = codes "0x6001";
  namespace = codes "0x" ++ to_hex (replicate 32 5);
  index = 7;
}

abbrev sample_key_text : Str
sample_key_text = codes "0x" ++ to_hex base_key

unfoldable run_derive : Result TableIdentity
unfolding derive_backend_table_identity Identity.identity_behind Identity.backend_table_config_hash
    Identity.creation_code Identity.deployment_words Identity.validator_code Identity.create2
    Identity.check_point Identity.recover_x Identity.recovered_x Identity.pow_loop
    Identity.little_endian Identity.initialize_call Identity.proxy_code Identity.factory_call
    Identity.text_hash Identity.dynamic Identity.address_word Identity.all_zero Identity.fixed
    Identity.word Identity.number_bytes Identity.prefixed_hex Identity.prefixed_bytes has_prefix
    all_hex parse_pairs to_hex concat_bytes utf8_encode to_lower sample_config
run_derive =
    derive_backend_table_identity toy_crypto (λ key. (Identity.recovered_x key).0) toy_keccak
      sample_key_text (codes "0xa0") sample_config

abbrev identity_of : Result TableIdentity → TableIdentity → TableIdentity
identity_of (ok i) d = i
identity_of (err e) d = d

abbrev no_identity : TableIdentity
no_identity = record {
  public_key = [];
  protected_headers = [];
  validator = [];
  validator_salt = [];
  validator_init_code_hash = [];
  account = [];
  account_salt = [];
  actual_account_salt = [];
  initialize_data = [];
  factory_data = [];
  proxy_init_code_hash = [];
  config_hash = [];
}

derived_sample :
    derive_backend_table_identity toy_crypto
      (λ key. (Identity.recovered_x key).0)
      toy_keccak
      sample_key_text
      (codes "0xa0")
      sample_config
    ≡ ok (identity_of run_derive no_identity)
unfolding run_derive
derived_sample = refl

derive_backend_table_identity_elsewhere_example :
    (hash : Str) × (derive_backend_table_identity toy_crypto
        (λ key. (Identity.recovered_x key).0)
        toy_keccak
        sample_key_text
        (codes "0xa0")
        (record sample_config { chain_id = 1 })
      ≡ ok (record (identity_of run_derive no_identity) { config_hash = hash }))
derive_backend_table_identity_elsewhere_example =
    derive_backend_table_identity_elsewhere toy_crypto (λ key. (Identity.recovered_x key).0)
      toy_keccak toy_keccak-IsBytes sample_key_text (codes "0xa0") sample_config
      (identity_of run_derive no_identity) 1 derived_sample refl

-- ===== src/Enrollment/Identity/Profiles.antt =====
-- packages/enrollment/src/identity.ts: the backend's derivation of the identity of a profile, over the
-- configuration and the identity that packages/protocol/src/profiles.ts declares.
use cardano_on_evm.Prelude.{
  ℕ, ◌+◌, Bool, not, ◌||◌, List, [], ◌∷◌, Result, ok, ◌>>=◌, ◌>>◌, throw_if, String, Str, Bytes,
  codes, ltb, ◌==◌, length, take, drop, replicate,
}
use cardano_on_evm.Wallet.Bytes.{concat_bytes}
use cardano_on_evm.Wallet.Cip8.{Crypto}
use cardano_on_evm.Enrollment.Service.{is_positive_safe}
use cardano_on_evm.Enrollment.Identity.{
  TableIdentity, prefixed_bytes, prefixed_hex, word, fixed, all_zero, address_word, dynamic,
  text_hash, create2, recover_x, derive_backend_table_identity,
}
use cardano_on_evm.Protocol.Profiles.{
  Profile, general, restricted, ProfileIdentityConfig, ProfileIdentity, table_config,
  profile_number,
}

-- `policyWord`: an address in a word, zero or not.
unfoldable pub policy_word : Str → Result Bytes
policy_word value = do decoded ← fixed value 20; ok (concat_bytes (replicate 12 0 ∷ decoded ∷ []))

-- Whether the policy's address, code hash and configuration are not what the profile may have.
unfoldable pub differs_from_profile : Profile → Bytes → Bytes → Bytes → Bool
differs_from_profile general policy code_hash config =
    not (all_zero policy) || not (all_zero code_hash) || ltb 0 (length config)
differs_from_profile restricted policy code_hash config = all_zero policy || all_zero code_hash

-- What the three encodings of a preparation share: the policy, its code hash, and the two tails.
pub record PolicyWords : Type 0 where
  pub policy : Bytes
  pub code_hash : Bytes
  pub header_tail : Bytes
  pub config_tail : Bytes

unfoldable pub policy_words : ProfileIdentityConfig → Bytes → Result PolicyWords
policy_words config headers = do
  header_tail ← dynamic headers
  policy_config ← prefixed_bytes config.policy_config
  config_tail ← dynamic policy_config
  policy ← policy_word config.policy
  code_hash ← fixed config.policy_code_hash 32
  ok (record {
    policy = policy;
    code_hash = code_hash;
    header_tail = header_tail;
    config_tail = config_tail;
  })

-- The key, its coordinate and the policy as arguments: `first` is the offset of the headers.
unfoldable pub preparation_arguments : ℕ → Bytes → ℕ → PolicyWords → Result (List Bytes)
preparation_arguments first key x words = do
  x_word ← word x
  headers_offset ← word first
  config_offset ← word (first + length words.header_tail)
  ok (
      key ∷ x_word ∷ headers_offset ∷ words.policy ∷ config_offset ∷ words.code_hash
      ∷ words.header_tail ∷ words.config_tail ∷ [])

module _ (crypto : Crypto) (affine_x : Bytes → ℕ) (keccak : Bytes → Bytes) where
  abbrev digest : String → Bytes
  digest text = text_hash crypto affine_x keccak (codes text)

  unfoldable pub backend_profile_config_hash : ProfileIdentityConfig → Result Str
  backend_profile_config_hash config = do
    throw_if (not (is_positive_safe config.chain_id)) "Invalid profile or chain"
    policy ← fixed config.policy 20
    code_hash ← fixed config.policy_code_hash 32
    policy_config ← prefixed_bytes config.policy_config
    throw_if
        (ltb 16384 (length policy_config)
          || differs_from_profile config.profile policy code_hash policy_config)
        "Profile policy mismatch"
    validator_code ← prefixed_bytes config.validator_creation_code
    factory_code ← prefixed_bytes config.profile_factory_creation_code
    throw_if (length validator_code == 0 || length factory_code == 0)
        "Missing profile creation bytecode"
    number ← word (profile_number config.profile)
    chain ← word config.chain_id
    entry_point ← address_word config.entry_point
    implementation ← address_word config.kernel_implementation
    table ← address_word config.table_factory
    preparation ← address_word config.profile_preparation_factory
    policy_address ← policy_word config.policy
    namespace ← fixed config.namespace 32
    index ← word config.index
    ok (
        prefixed_hex (
          keccak (
            concat_bytes (
              digest "cardano-kernel:identity:v1:profile:portable"
              ∷ number
              ∷ chain
              ∷ entry_point
              ∷ implementation
              ∷ table
              ∷ preparation
              ∷ keccak validator_code
              ∷ keccak factory_code
              ∷ policy_address
              ∷ code_hash
              ∷ keccak policy_config
              ∷ namespace
              ∷ index
              ∷ []))))

  -- The creation code of the profile's factory with its constructor.
  unfoldable pub profile_factory_code :
      ProfileIdentityConfig → Bytes → ℕ → PolicyWords → Result Bytes
  profile_factory_code config key x words = do
    implementation ← address_word config.kernel_implementation
    table ← address_word config.table_factory
    arguments ← preparation_arguments 256 key x words
    code ← prefixed_bytes config.profile_factory_creation_code
    ok (concat_bytes (code ∷ concat_bytes (implementation ∷ table ∷ arguments) ∷ []))

  -- The hook is the first contract that the factory creates: RLP of its address and the nonce 1.
  unfoldable pub profile_hook : Profile → Str → Result Str
  profile_hook general factory = ok (prefixed_hex (replicate 20 0))
  profile_hook restricted factory = do
    front ← prefixed_bytes (codes "0xd694")
    creator ← fixed factory 20
    ok (prefixed_hex (drop 12 (keccak (concat_bytes (front ∷ creator ∷ (1 ∷ []) ∷ [])))))

  -- `initialize` with the hook.
  unfoldable pub initialize_with : Str → Str → Result Bytes
  initialize_with validator hook = do
    deployed ← fixed validator 20
    hook_word ← policy_word hook
    w160 ← word 160
    w192 ← word 192
    w224 ← word 224
    w0 ← word 0
    ok (
        concat_bytes (
          take 4 (digest "initialize(bytes21,address,bytes,bytes,bytes[])")
          ∷ (1 ∷ [])
          ∷ deployed
          ∷ replicate 11 0
          ∷ hook_word
          ∷ w160
          ∷ w192
          ∷ w224
          ∷ w0
          ∷ w0
          ∷ w0
          ∷ []))

  unfoldable pub backend_profile_hash :
      ProfileIdentityConfig → Bytes → Bytes → PolicyWords → Result Str
  backend_profile_hash config key headers words = do
    implementation ← address_word config.kernel_implementation
    table ← address_word config.table_factory
    entry_point ← address_word config.entry_point
    policy_config ← prefixed_bytes config.policy_config
    ok (
        prefixed_hex (
          keccak (
            concat_bytes (
              digest "cardano-kernel:profile:v1"
              ∷ implementation
              ∷ table
              ∷ entry_point
              ∷ key
              ∷ keccak headers
              ∷ words.policy
              ∷ words.code_hash
              ∷ keccak policy_config
              ∷ []))))

  -- All that is not in the table identity `base`, whose account is replaced.
  unfoldable pub profile_behind :
      Str → Str → ProfileIdentityConfig → TableIdentity → Result ProfileIdentity
  profile_behind public_key protected_headers config base = do
    key ← fixed public_key 32
    headers ← prefixed_bytes protected_headers
    x ← recover_x crypto affine_x keccak key
    words ← policy_words config headers
    factory_code ← profile_factory_code config key x words
    let init_hash = keccak factory_code
    factory ←
        create2 crypto affine_x keccak config.profile_preparation_factory
          (digest "cardano-kernel:profile-preparation:v1") init_hash
    hook ← profile_hook config.profile factory
    initialize ← initialize_with base.validator hook
    namespace ← fixed config.namespace 32
    index ← word config.index
    let salt =
        keccak (concat_bytes (digest "cardano-kernel:profile-account:v1" ∷ namespace ∷ index ∷ []))
    let actual_salt = keccak (concat_bytes (initialize ∷ salt ∷ []))
    proxy_hash ← prefixed_bytes base.proxy_init_code_hash
    account ← create2 crypto affine_x keccak factory actual_salt proxy_hash
    profile_hash ← backend_profile_hash config key headers words
    arguments ← preparation_arguments 192 key x words
    ok (record {
      base = record base {
        account = account;
        account_salt = prefixed_hex salt;
        actual_account_salt = prefixed_hex actual_salt;
        initialize_data = prefixed_hex initialize;
        factory_data = prefixed_hex (
            concat_bytes
              (take 4 (digest "createAccount(bytes32,uint256)") ∷ namespace ∷ index ∷ []));
      };
      profile_factory = factory;
      profile_factory_init_code_hash = prefixed_hex init_hash;
      hook = hook;
      profile_hash = profile_hash;
      preparation_data = prefixed_hex (
          concat_bytes
            (take 4 (digest "prepare(bytes32,uint256,bytes,address,bytes,bytes32)") ∷ arguments));
    })

  unfoldable pub derive_backend_profile_identity :
      Str → Str → ProfileIdentityConfig → Result ProfileIdentity
  derive_backend_profile_identity public_key protected_headers config = do
    hash ← backend_profile_config_hash config
    base ←
        derive_backend_table_identity crypto affine_x keccak public_key protected_headers
          (table_config config)
    profile_behind public_key protected_headers config (record base { config_hash = hash })

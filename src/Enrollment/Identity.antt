-- ===== src/Enrollment/Identity.antt =====
-- packages/enrollment/src/identity.ts: the backend's derivation of the table identity, which builds
-- the ABI words itself. Keccak-256 and the curve are parameters.
pub mod Chains
pub mod Profiles
use cardano_on_evm.Prelude.{
  ℕ, zero, suc, ◌+◌, ◌-◌, ◌*◌, ◌/◌, ◌%◌, ◌^◌, Bool, true, false, not, ◌&&◌, ◌||◌, List, [], ◌∷◌,
  ◌++◌, map, Result, ok, err, ◌>>=◌, ◌>>◌, throw_if, String, Str, Bytes, codes, has_prefix,
  to_lower, ltb, ◌==◌, if◌then◌else◌, length, take, drop, replicate,
}
use cardano_on_evm.Wallet.Bytes.{all_hex, parse_pairs, to_hex, concat_bytes}
use cardano_on_evm.Wallet.Utf8.{utf8_encode}
use cardano_on_evm.Wallet.Cip8.{Crypto}
use cardano_on_evm.Enrollment.Service.{is_positive_safe}

pub record TableIdentityConfig : Type 0 where
  pub chain_id : ℕ
  pub entry_point : Str
  pub kernel_implementation : Str
  pub kernel_factory : Str
  pub table_factory : Str
  pub validator_creation_code : Str
  pub namespace : Str
  pub index : ℕ

pub record TableIdentity : Type 0 where
  pub public_key : Str
  pub protected_headers : Str
  pub validator : Str
  pub validator_salt : Str
  pub validator_init_code_hash : Str
  pub account : Str
  pub account_salt : Str
  pub actual_account_salt : Str
  pub initialize_data : Str
  pub factory_data : Str
  pub proxy_init_code_hash : Str
  pub config_hash : Str

-- `bytes`: the text must have the prefix.
unfoldable pub prefixed_bytes : Str → Result Bytes
prefixed_bytes value = do
  throw_if (not (has_prefix (codes "0x") value && length value % 2 == 0 && all_hex (drop 2 value)))
      "Invalid hex bytes"
  ok (parse_pairs (drop 2 value))

unfoldable pub prefixed_hex : Bytes → Str
prefixed_hex value = codes "0x" ++ to_hex value

-- The lowest `size` bytes of a number, the highest of them first.
unfoldable pub number_bytes : ℕ → ℕ → Bytes
number_bytes zero n = []
number_bytes (suc size) n = number_bytes size (n / 256) ++ (n % 256) ∷ []

-- `word`: a uint256 as 32 bytes.
unfoldable pub word : ℕ → Result Bytes
word n = if ltb n (2 ^ 256) then ok (number_bytes 32 n) else err "Invalid uint256"

unfoldable pub fixed : Str → ℕ → Result Bytes
fixed value size = do
  decoded ← prefixed_bytes value
  throw_if (not (length decoded == size)) "Wrong fixed-byte length"
  ok decoded

unfoldable pub all_zero : Bytes → Bool
all_zero [] = true
all_zero (b ∷ bs) = b == 0 && all_zero bs

-- `address`: 20 bytes, not all zero, in a word.
unfoldable pub address_word : Str → Result Bytes
address_word value = do
  decoded ← fixed value 20
  throw_if (all_zero decoded) "Zero identity deployment"
  ok (concat_bytes (replicate 12 0 ∷ decoded ∷ []))

-- `dynamic`: the length in a word, then the bytes, padded to whole words.
unfoldable pub dynamic : Bytes → Result Bytes
dynamic value = do
  size ← word (length value)
  ok (concat_bytes (size ∷ value ∷ replicate ((32 - length value % 32) % 32) 0 ∷ []))

-- `p`, and `mod` of a number that is not negative.
abbrev pub field_prime : ℕ
field_prime = 2 ^ 255 - 19

-- `pow`: the loop on the bits of the exponent, at most `bits` of them.
unfoldable pub pow_loop : ℕ → ℕ → ℕ → ℕ → ℕ → ℕ
pow_loop zero p r v n = r
pow_loop (suc bits) p r v n =
    let rest = pow_loop bits p (if n % 2 == 1 then r * v % p else r) (v * v % p) (n / 2) in
    if n == 0 then r else rest

abbrev pub pow_mod : ℕ → ℕ → ℕ
pow_mod v n = pow_loop 256 field_prime 1 (v % field_prime) n

-- The bytes of a number, the lowest first.
unfoldable pub little_endian : Bytes → ℕ
little_endian [] = 0
little_endian (b ∷ bs) = b + 256 * little_endian bs

-- What `recoverX` computes before it compares. A negative number is written by adding a multiple of p.
unfoldable pub recovered_x : Bytes → ℕ × Bool
recovered_x key =
    let p = field_prime in
    let compressed = little_endian key in
    let sign = compressed / 2 ^ 255 in
    let y = compressed % 2 ^ 255 in
    let d = (p - 121665) * pow_mod 121666 (p - 2) % p in
    let x2 = (y * y + p - 1) * pow_mod (d * y * y + 1) (p - 2) % p in
    let root = pow_mod x2 ((p + 3) / 8) in
    let x = if root * root % p == x2 then root else root * pow_mod 2 ((p - 1) / 4) % p in
    let signed = if x % 2 == sign then x else p - x in (signed, signed * signed % p == x2)

module _ (crypto : Crypto) (affine_x : Bytes → ℕ) (keccak : Bytes → Bytes) where
  unfoldable pub text_hash : Str → Bytes
  text_hash text = keccak (utf8_encode text)

  -- `create2`: the last 20 bytes of the hash.
  unfoldable pub create2 : Str → Bytes → Bytes → Result Str
  create2 factory salt init_hash = do
    deployer ← fixed factory 20
    ok (
        prefixed_hex
          (drop 12 (keccak (concat_bytes ((255 ∷ []) ∷ deployer ∷ salt ∷ init_hash ∷ [])))))

  unfoldable pub check_point : Bytes → Result (Unit {0})
  check_point key = do
    throw_if (not (crypto.is_point key)) "bad point"
    throw_if (crypto.is_small_order key || not (crypto.is_torsion_free key))
        "Unsupported key subgroup"

  unfoldable pub recover_x : Bytes → Result ℕ
  recover_x key = do
    check_point key
    let (x, square) = recovered_x key
    throw_if (not square || not (x == affine_x key)) "Invalid compressed key"
    ok x

  unfoldable pub creation_code : TableIdentityConfig → Result Bytes
  creation_code config = do
    code ← prefixed_bytes config.validator_creation_code
    throw_if (length code == 0) "Missing validator creation code"
    ok code

  -- The words that the configuration hash and the account salt share, from the entry point to the
  -- index: neither the domain nor the chain.
  unfoldable pub deployment_words : TableIdentityConfig → Bytes → Result (List Bytes)
  deployment_words config code = do
    entry_point ← address_word config.entry_point
    implementation ← address_word config.kernel_implementation
    factory ← address_word config.kernel_factory
    table ← address_word config.table_factory
    namespace ← fixed config.namespace 32
    index ← word config.index
    ok (entry_point ∷ implementation ∷ factory ∷ table ∷ keccak code ∷ namespace ∷ index ∷ [])

  unfoldable pub backend_table_config_hash : TableIdentityConfig → Result Str
  backend_table_config_hash config = do
    throw_if (not (is_positive_safe config.chain_id)) "Invalid identity chain"
    code ← creation_code config
    chain ← word config.chain_id
    words ← deployment_words config code
    ok (
        prefixed_hex (
          keccak (
            concat_bytes (
              text_hash (codes "cardano-kernel:identity:v1:experimental-general:portable")
              ∷ chain
              ∷ words))))

  -- `initialize(bytes21,address,bytes,bytes,bytes[])`
  unfoldable pub initialize_call : Str → Result Bytes
  initialize_call validator = do
    deployed ← fixed validator 20
    w0 ← word 0
    w160 ← word 160
    w192 ← word 192
    w224 ← word 224
    ok (
        concat_bytes (
          take 4 (text_hash (codes "initialize(bytes21,address,bytes,bytes,bytes[])"))
          ∷ (1 ∷ [])
          ∷ deployed
          ∷ replicate 11 0
          ∷ w0
          ∷ w160
          ∷ w192
          ∷ w224
          ∷ w0
          ∷ w0
          ∷ w0
          ∷ []))

  unfoldable pub proxy_code : Str → Result Bytes
  proxy_code implementation = do
    front ← prefixed_bytes (codes "0x603d3d8160223d3973")
    middle ← fixed implementation 20
    back ← prefixed_bytes (
        codes
          "0x60095155f3363d3d373d3d363d7f360894a13ba1a3210667c828492db98dca3e2076cc3735a920a3ca505d382bbc545af43d6000803e6038573d6000fd5b3d6000f3")
    ok (concat_bytes (front ∷ middle ∷ back ∷ []))

  -- The constructor's words behind the creation code of the validator.
  unfoldable pub validator_code : TableIdentityConfig → Bytes → Bytes → Bytes → ℕ → Result Bytes
  validator_code config code key headers x = do
    entry_point ← address_word config.entry_point
    x_word ← word x
    offset ← word 128
    tail ← dynamic headers
    ok (concat_bytes (code ∷ concat_bytes (entry_point ∷ key ∷ x_word ∷ offset ∷ tail ∷ []) ∷ []))

  unfoldable pub factory_call : Bytes → Bytes → Result Bytes
  factory_call account_salt initialize = do
    offset ← word 64
    tail ← dynamic initialize
    ok (
        concat_bytes (
          take 4 (text_hash (codes "createAccount(bytes,bytes32)"))
          ∷ offset
          ∷ account_salt
          ∷ tail
          ∷ []))

  -- The identity but for the configuration's hash, which is still empty. `safe` is the check of the
  -- chain, of which nothing else is read.
  unfoldable pub identity_behind : TableIdentityConfig → Bool → Str → Str → Result TableIdentity
  identity_behind config safe public_key protected_headers = do
    key ← fixed public_key 32
    headers ← prefixed_bytes protected_headers
    throw_if (length headers == 0 || ltb 256 (length headers) || not safe) "Invalid identity input"
    check_point key
    code ← creation_code config
    words ← deployment_words config code
    let account_salt =
        keccak (
          concat_bytes
            (text_hash (codes "cardano-kernel:identity:v1:experimental-general") ∷ words))
    x ← recover_x key
    let validator_salt = keccak (
        concat_bytes
          (text_hash (codes "cardano-kernel:prepared-table:v1") ∷ key ∷ keccak headers ∷ []))
    init_code ← validator_code config code key headers x
    let init_hash = keccak init_code
    validator ← create2 config.table_factory validator_salt init_hash
    initialize ← initialize_call validator
    let actual_salt = keccak (concat_bytes (initialize ∷ account_salt ∷ []))
    proxy ← proxy_code config.kernel_implementation
    factory_data ← factory_call account_salt initialize
    account ← create2 config.kernel_factory actual_salt (keccak proxy)
    ok (record {
      public_key = public_key;
      protected_headers = protected_headers;
      validator = validator;
      validator_salt = prefixed_hex validator_salt;
      validator_init_code_hash = prefixed_hex init_hash;
      account = account;
      account_salt = prefixed_hex account_salt;
      actual_account_salt = prefixed_hex actual_salt;
      initialize_data = prefixed_hex initialize;
      factory_data = prefixed_hex factory_data;
      proxy_init_code_hash = prefixed_hex (keccak proxy);
      config_hash = [];
    })

  unfoldable pub derive_backend_table_identity :
      Str → Str → TableIdentityConfig → Result TableIdentity
  derive_backend_table_identity public_key protected_headers config = do
    hash ← backend_table_config_hash config
    hash_bytes ← prefixed_bytes hash
    identity ←
        identity_behind config (is_positive_safe config.chain_id) (map to_lower public_key)
          (map to_lower protected_headers)
    ok (record identity { config_hash = prefixed_hex hash_bytes })

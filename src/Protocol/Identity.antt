-- ===== src/Protocol/Identity.antt =====
-- packages/protocol/src/identity.ts: the table identity, derived with viem. An identity's configuration
-- has the fields of its type and an index that is not negative.
use cardano_on_evm.Prelude.{
  ℕ, ◌^◌, Bool, not, ◌&&◌, ◌||◌, List, [], ◌∷◌, ◌++◌, map, Result, ok, ◌>>=◌, ◌>>◌, throw_if, Str,
  Bytes, codes, has_prefix, to_lower, includes, replicate, ltb, ◌==◌, length, drop,
}
use cardano_on_evm.Wallet.Bytes.{all_hex, parse_pairs}
use cardano_on_evm.Wallet.Cip8.{Crypto}
use cardano_on_evm.Enrollment.Service.{is_positive_safe}
use cardano_on_evm.Enrollment.Identity.{TableIdentityConfig, TableIdentity}
use cardano_on_evm.Protocol.Operation.{is_hex_bytes}

-- A value that is encoded: 32 bytes, an integer, an address, bytes, or an empty array of bytes.
pub data AbiValue : Type 0 where
  hash_value : Str → AbiValue
  integer_value : ℕ → AbiValue
  address_value : Str → AbiValue
  bytes_value : Str → AbiValue
  no_bytes : AbiValue

-- What the package uses of viem: `keccak256` of hexadecimal text, `stringToHex`, `getAddress`,
-- `encodeAbiParameters`, `encodeFunctionData` by the function's name, `getCreate2Address` from a
-- deployer, a salt and a hash, `getCreateAddress` from a deployer and a nonce, and `toHex` of bytes.
pub record Viem : Type 0 where
  pub keccak256 : Str → Str
  pub string_to_hex : Str → Str
  pub get_address : Str → Result Str
  pub encode_parameters : List AbiValue → Str
  pub encode_function : Str → List AbiValue → Str
  pub create2_address : Str → Str → Str → Str
  pub create_address : Str → ℕ → Str
  pub bytes_to_hex : Bytes → Str

abbrev pub identity_domain : Str
identity_domain = codes "cardano-kernel:identity:v1:experimental-general"

abbrev pub zero_address : Str
zero_address = codes "0x" ++ replicate 40 b'0'

unfoldable pub bytes32 : Str → Result Str
bytes32 v =
    throw_if (not (has_prefix (codes "0x") v && length v == 66 && all_hex (drop 2 v)))
      "Expected bytes32"
    >> ok v

-- `/^0x(?:[0-9a-fA-F]{2})+$/`
unfoldable pub is_some_hex : Str → Bool
is_some_hex v = is_hex_bytes v && ltb 2 (length v)

abbrev pub is_index : ℕ → Bool
is_index n = ltb n (2 ^ 256)

module _ (viem : Viem) where
  unfoldable pub table_domain : Str
  table_domain = viem.keccak256 (viem.string_to_hex (codes "cardano-kernel:prepared-table:v1"))

  unfoldable pub get_addresses : List Str → Result (List Str)
  get_addresses [] = ok []
  get_addresses (v ∷ vs) = do a ← viem.get_address v; rest ← get_addresses vs; ok (a ∷ rest)

  unfoldable pub table_config_hash : TableIdentityConfig → Result Str
  table_config_hash config = do
    throw_if (not (is_positive_safe config.chain_id) || not (is_index config.index))
        "Invalid identity chain or index"
    throw_if (not (is_some_hex config.validator_creation_code))
        "Expected linked validator creation bytecode"
    addresses ← get_addresses (
        config.entry_point ∷ config.kernel_implementation ∷ config.kernel_factory
        ∷ config.table_factory ∷ [])
    throw_if (includes zero_address addresses) "Identity deployments cannot be zero"
    namespace ← bytes32 config.namespace
    ok (
        viem.keccak256 (
          viem.encode_parameters (
            hash_value (viem.keccak256 (viem.string_to_hex (identity_domain ++ codes ":portable")))
              ∷ integer_value config.chain_id
              ∷ map address_value addresses
            ++ hash_value (viem.keccak256 config.validator_creation_code)
              ∷ hash_value namespace
              ∷ integer_value config.index
              ∷ [])))

  unfoldable pub kernel_proxy_init_code : Str → Result Str
  kernel_proxy_init_code implementation = do
    a ← viem.get_address implementation
    ok (
        map to_lower (
          codes "0x603d3d8160223d3973"
          ++ drop 2 a
          ++ codes
              "60095155f3363d3d373d3d363d7f360894a13ba1a3210667c828492db98dca3e2076cc3735a920a3ca505d382bbc545af43d6000803e6038573d6000fd5b3d6000f3"))

  -- `initialize` with a hook, of which the table identity has none.
  unfoldable pub initialize_data : Str → Str → Str
  initialize_data validator hook = map to_lower (
      viem.encode_function (codes "initialize") (
        bytes_value (codes "0x01" ++ drop 2 validator)
        ∷ address_value hook
        ∷ bytes_value (codes "0x")
        ∷ bytes_value (codes "0x")
        ∷ no_bytes
        ∷ []))

  unfoldable pub account_salt : TableIdentityConfig → Str
  account_salt config = viem.keccak256 (
      viem.encode_parameters (
        hash_value (viem.keccak256 (viem.string_to_hex identity_domain))
        ∷ address_value config.entry_point
        ∷ address_value config.kernel_implementation
        ∷ address_value config.kernel_factory
        ∷ address_value config.table_factory
        ∷ hash_value (viem.keccak256 config.validator_creation_code)
        ∷ hash_value config.namespace
        ∷ integer_value config.index
        ∷ []))

  module _ (crypto : Crypto) (affine_x : Bytes → ℕ) where
    -- `point.toAffine().x` of a key that is checked.
    unfoldable pub key_x : Str → Result ℕ
    key_x public_key = do
      let key = parse_pairs (drop 2 public_key)
      throw_if (not (crypto.is_point key)) "bad point"
      throw_if (crypto.is_small_order key || not (crypto.is_torsion_free key))
          "Unsupported key subgroup"
      ok (affine_x key)

    unfoldable pub validator_constructor : TableIdentityConfig → Str → ℕ → Str → Str
    validator_constructor config public_key x headers = viem.encode_parameters (
        address_value config.entry_point
        ∷ hash_value public_key
        ∷ integer_value x
        ∷ bytes_value headers
        ∷ [])

    unfoldable pub derive_table_identity : Str → Str → TableIdentityConfig → Result TableIdentity
    derive_table_identity given_key given_headers config = do
      config_hash ← table_config_hash config
      checked ← bytes32 given_key
      let public_key = map to_lower checked
      let headers = map to_lower given_headers
      throw_if (not (is_some_hex headers) || ltb 514 (length headers)) "Invalid protected headers"
      x ← key_x public_key
      let validator_salt = viem.keccak256 (
          viem.encode_parameters (
            hash_value table_domain
            ∷ hash_value public_key
            ∷ hash_value (viem.keccak256 headers)
            ∷ []))
      let init_code_hash = viem.keccak256 (
          config.validator_creation_code
          ++ drop 2 (validator_constructor config public_key x headers))
      let validator = viem.create2_address config.table_factory validator_salt init_code_hash
      let initialize = initialize_data validator zero_address
      let salt = account_salt config
      let actual_salt = viem.keccak256 (initialize ++ drop 2 salt)
      proxy ← kernel_proxy_init_code config.kernel_implementation
      let proxy_hash = viem.keccak256 proxy
      ok (record {
        public_key = public_key;
        protected_headers = headers;
        validator = validator;
        validator_salt = validator_salt;
        validator_init_code_hash = init_code_hash;
        account = viem.create2_address config.kernel_factory actual_salt proxy_hash;
        account_salt = salt;
        actual_account_salt = actual_salt;
        initialize_data = initialize;
        factory_data = map to_lower (
            viem.encode_function (codes "createAccount")
              (bytes_value initialize ∷ hash_value salt ∷ []));
        proxy_init_code_hash = proxy_hash;
        config_hash = config_hash;
      })

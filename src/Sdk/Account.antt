-- ===== src/Sdk/Account.antt =====
-- packages/sdk/src/index.ts: accounts of a verified key, their preparation, and the operations that are
-- made for them.
use cardano_on_evm.Prelude.{
  ℕ, Bool, true, false, not, List, [], ◌∷◌, ◌++◌, Result, ok, ◌>>=◌, ◌>>◌, throw_if, Str, Bytes,
  codes, drop, if◌then◌else◌,
}
use cardano_on_evm.Prelude.Json.{object}
use cardano_on_evm.Wallet.Bytes.{parse_pairs}
use cardano_on_evm.Wallet.Address.{CardanoCredential}
use cardano_on_evm.Wallet.Cip8.{Crypto, VerifiedCip8}
use cardano_on_evm.Enrollment.Identity.{TableIdentityConfig, TableIdentity}
use cardano_on_evm.Protocol.Operation.{
  Operation, integer, string, operation_to_json, operation_from_json,
}
use cardano_on_evm.Protocol.Calls.{Call, Codec, encode_calls, wrap_restricted_execution}
use cardano_on_evm.Protocol.Identity.{
  Viem, hash_value, integer_value, bytes_value, table_config_hash, derive_table_identity,
}
use cardano_on_evm.Protocol.Profiles.{
  Profile, restricted, ProfileIdentityConfig, ProfileIdentity, profile_config_hash,
  derive_profile_identity,
}

pub data AccountConfig : Type 0 where
  table_account : TableIdentityConfig → AccountConfig
  profile_account : ProfileIdentityConfig → AccountConfig

pub data AccountIdentity : Type 0 where
  table_identity : TableIdentity → AccountIdentity
  profile_identity : ProfileIdentity → AccountIdentity

pub data AccountProfile : Type 0 where
  experimental_general : AccountProfile
  with_profile : Profile → AccountProfile

pub record CardanoAccount : Type 0 where
  pub profile : AccountProfile
  pub cardano_address : Str
  pub cardano_network : ℕ
  pub credential : CardanoCredential
  pub public_key : Str
  pub protected_header_hash : Str
  pub identity : AccountIdentity
  pub config : AccountConfig

-- What the package takes from elsewhere: viem, the encoding of calls, the hash of a user operation, and
-- the curve.
pub record Sdk : Type 0 where
  pub viem : Viem
  pub codec : Codec
  pub user_operation_hash : Operation → ℕ → Str → Str
  pub execute_selector : Str
  pub crypto : Crypto
  pub affine_x : Bytes → ℕ

abbrev pub chain_of : AccountConfig → ℕ
chain_of (table_account c) = c.chain_id
chain_of (profile_account c) = c.chain_id

abbrev pub entry_point_of : AccountConfig → Str
entry_point_of (table_account c) = c.entry_point
entry_point_of (profile_account c) = c.entry_point

abbrev pub table_factory_of : AccountConfig → Str
table_factory_of (table_account c) = c.table_factory
table_factory_of (profile_account c) = c.table_factory

-- The fields that every identity has.
abbrev pub base_of : AccountIdentity → TableIdentity
base_of (table_identity i) = i
base_of (profile_identity i) = i.base

abbrev pub profile_of : AccountConfig → AccountProfile
profile_of (table_account c) = experimental_general
profile_of (profile_account c) = with_profile c.profile

abbrev pub is_restricted : AccountProfile → Bool
is_restricted (with_profile restricted) = true
is_restricted _ = false

-- `(account.identity as ProfileIdentity)`: a table identity has none of the fields of a profile.
abbrev pub profile_factory_of : AccountIdentity → Str
profile_factory_of (profile_identity i) = i.profile_factory
profile_factory_of (table_identity i) = []

abbrev pub preparation_of : AccountIdentity → Str
preparation_of (profile_identity i) = i.preparation_data
preparation_of (table_identity i) = []

unfoldable pub account_factory : CardanoAccount → Str
account_factory account = factory_by account.config
  where
    factory_by : AccountConfig → Str
    factory_by (profile_account c) = profile_factory_of account.identity
    factory_by (table_account c) = c.kernel_factory

pub record Preparation : Type 0 where
  pub to : Str
  pub call : Str
  pub value : ℕ

pub record GasAndFees : Type 0 where
  pub call_gas_limit : ℕ
  pub verification_gas_limit : ℕ
  pub pre_verification_gas : ℕ
  pub max_fee_per_gas : ℕ
  pub max_priority_fee_per_gas : ℕ

pub record OperationOptions : Type 0 where
  pub calls : List Call
  pub nonce : ℕ
  pub deploy : Bool
  pub gas_and_fees : GasAndFees

module _ (sdk : Sdk) where
  unfoldable pub config_hash_of : AccountConfig → Result Str
  config_hash_of (table_account c) = table_config_hash sdk.viem c
  config_hash_of (profile_account c) = profile_config_hash sdk.viem c

  -- The type of configurations has no field addressDerivationMode, which the code refuses in an object
  -- that was made outside its type.
  unfoldable pub resolve_account_config : AccountConfig → Result AccountConfig
  resolve_account_config config = do hash ← config_hash_of config; ok config

  unfoldable pub derive_identity : Str → Str → AccountConfig → Result AccountIdentity
  derive_identity key headers (table_account c) = do
    i ← derive_table_identity sdk.viem sdk.crypto sdk.affine_x key headers c
    ok (table_identity i)
  derive_identity key headers (profile_account c) = do
    i ← derive_profile_identity sdk.viem sdk.crypto sdk.affine_x key headers c
    ok (profile_identity i)

  unfoldable pub account_from_verified_key : VerifiedCip8 → AccountConfig → Result CardanoAccount
  account_from_verified_key verified config = do
    snapshot ← resolve_account_config config
    identity ←
        derive_identity (sdk.viem.bytes_to_hex verified.public_key)
          (sdk.viem.bytes_to_hex verified.protected_headers) snapshot
    ok (record {
      profile = profile_of snapshot;
      cardano_address = verified.address.hex;
      cardano_network = verified.address.network;
      credential = verified.address.credential;
      public_key = (base_of identity).public_key;
      protected_header_hash = sdk.viem.keccak256 (sdk.viem.bytes_to_hex verified.protected_headers);
      identity = identity;
      config = snapshot;
    })

  -- `Point.fromBytes` alone, with no check of the subgroup.
  unfoldable pub validator_preparation : CardanoAccount → Result Preparation
  validator_preparation account = do
    let key = parse_pairs (drop 2 account.public_key)
    throw_if (not (sdk.crypto.is_point key)) "bad point"
    ok (record {
      to = table_factory_of account.config;
      call = sdk.viem.encode_function (codes "prepare") (
          hash_value account.public_key
          ∷ integer_value (sdk.affine_x key)
          ∷ bytes_value (base_of account.identity).protected_headers
          ∷ []);
      value = 0;
    })

  unfoldable pub account_preparation : CardanoAccount → Result Preparation
  account_preparation account = prepare_by account.config
    where
      prepare_by : AccountConfig → Result Preparation
      prepare_by (table_account c) = validator_preparation account
      prepare_by (profile_account c) = ok (record {
        to = c.profile_preparation_factory;
        call = preparation_of account.identity;
        value = 0;
      })

  abbrev pub execution_data : AccountProfile → Str → Str
  execution_data profile execution =
      if is_restricted profile
      then wrap_restricted_execution sdk.codec sdk.execute_selector execution
      else execution

  abbrev pub deployment : CardanoAccount → Bool → Operation
  deployment account true =
      (codes "factory", string (account_factory account))
      ∷ (codes "factoryData", string (base_of account.identity).factory_data)
      ∷ []
  deployment account false = []

  unfoldable pub copied : Operation → Result Operation
  copied operation = operation_from_json sdk.viem.get_address (object (operation_to_json operation))

  unfoldable pub construct_operation : CardanoAccount → OperationOptions → Result Operation
  construct_operation account options = do
    execution ← encode_calls sdk.codec options.calls
    let g = options.gas_and_fees
    copied (
        (codes "sender", string (base_of account.identity).account)
          ∷ (codes "nonce", integer options.nonce)
          ∷ (codes "callData", string (execution_data account.profile execution))
          ∷ deployment account options.deploy
        ++ (codes "callGasLimit", integer g.call_gas_limit)
          ∷ (codes "verificationGasLimit", integer g.verification_gas_limit)
          ∷ (codes "preVerificationGas", integer g.pre_verification_gas)
          ∷ (codes "maxFeePerGas", integer g.max_fee_per_gas)
          ∷ (codes "maxPriorityFeePerGas", integer g.max_priority_fee_per_gas)
          ∷ (codes "signature", string (codes "0x"))
          ∷ [])

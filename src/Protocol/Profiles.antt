-- ===== src/Protocol/Profiles.antt =====
-- packages/protocol/src/profiles.ts: the identities of the profiles `general` and `restricted`, and the
-- configurations of their policies. In lower case an address has one spelling, and `localeCompare`
-- follows the order of its characters.
use cardano_on_evm.Prelude.{
  ℕ, Bool, true, false, not, ◌&&◌, ◌||◌, List, [], ◌∷◌, ◌++◌, map, Result, ok, ◌>>=◌, ◌>>◌,
  throw_if, Str, Bytes, codes, has_prefix, str_eq, to_lower, includes, replicate, ltb, ◌==◌,
  if◌then◌else◌, length, drop,
}
use cardano_on_evm.Wallet.Bytes.{all_hex}
use cardano_on_evm.Wallet.Connector.{unique}
use cardano_on_evm.Wallet.Cip8.{Crypto}
use cardano_on_evm.Enrollment.Service.{is_positive_safe}
use cardano_on_evm.Enrollment.Identity.{TableIdentityConfig, TableIdentity}
use cardano_on_evm.Protocol.Operation.{is_hex_bytes}
use cardano_on_evm.Protocol.Identity.{
  hash_value, integer_value, address_value, bytes_value, Viem, zero_address, is_some_hex, is_index,
  get_addresses, kernel_proxy_init_code, initialize_data, key_x, derive_table_identity,
}

pub data Profile : Type 0 where
  general restricted : Profile

pub record ProfileIdentityConfig : Type 0 where
  pub profile : Profile
  pub chain_id : ℕ
  pub entry_point : Str
  pub kernel_implementation : Str
  pub table_factory : Str
  pub validator_creation_code : Str
  pub namespace : Str
  pub index : ℕ
  pub profile_preparation_factory : Str
  pub profile_factory_creation_code : Str
  pub policy : Str
  pub policy_config : Str
  pub policy_code_hash : Str

-- `base` has the fields of a table identity.
pub record ProfileIdentity : Type 0 where
  pub base : TableIdentity
  pub profile_factory : Str
  pub profile_factory_init_code_hash : Str
  pub hook : Str
  pub profile_hash : Str
  pub preparation_data : Str

abbrev pub zero_hash : Str
zero_hash = codes "0x" ++ replicate 64 b'0'

-- `{ ...config, kernelFactory: config.profilePreparationFactory }`
abbrev pub table_config : ProfileIdentityConfig → TableIdentityConfig
table_config config = record {
  chain_id = config.chain_id;
  entry_point = config.entry_point;
  kernel_implementation = config.kernel_implementation;
  kernel_factory = config.profile_preparation_factory;
  table_factory = config.table_factory;
  validator_creation_code = config.validator_creation_code;
  namespace = config.namespace;
  index = config.index;
}

abbrev pub profile_number : Profile → ℕ
profile_number general = 0
profile_number restricted = 1

-- Whether the policy is not one that the profile may have.
unfoldable pub policy_mismatch : Profile → Str → Str → Str → Bool
policy_mismatch general policy config code_hash =
    not (str_eq policy zero_address)
    || not (str_eq config (codes "0x"))
    || not (str_eq code_hash zero_hash)
policy_mismatch restricted policy config code_hash =
    str_eq policy zero_address || str_eq code_hash zero_hash

unfoldable pub insert_by : {A : Type 0} → (A → A → Bool) → A → List A → List A
insert_by before x [] = x ∷ []
insert_by before x (y ∷ ys) =
    let behind = insert_by before x ys in if before x y then x ∷ y ∷ ys else y ∷ behind

unfoldable pub sort_by : {A : Type 0} → (A → A → Bool) → List A → List A
sort_by before [] = []
sort_by before (x ∷ xs) = insert_by before x (sort_by before xs)

-- The order of the characters.
unfoldable pub text_before : Str → Str → Bool
text_before [] t = true
text_before (c ∷ s) [] = false
text_before (c ∷ s) (d ∷ t) = let rest = text_before s t in if c == d then rest else ltb c d

pub record SelectorRule : Type 0 where
  pub target : Str
  pub selectors : List Str
  pub allow_empty : Bool
  pub allow_value : Bool

unfoldable pub lower_selectors : List Str → Result (List Str)
lower_selectors [] = ok []
lower_selectors (s ∷ ss) = do
  throw_if (not (has_prefix (codes "0x") s && length s == 10 && all_hex (drop 2 s)))
      "Expected bytes4 selector"
  rest ← lower_selectors ss
  ok (map to_lower s ∷ rest)

abbrev pub repeats : List Str → Bool
repeats ss = not (length (unique [] ss) == length ss)

module _ (viem : Viem) where
  unfoldable pub domain : Str → Str
  domain name = viem.keccak256 (viem.string_to_hex (codes "cardano-kernel:" ++ name ++ codes ":v1"))

  unfoldable pub profile_config_hash : ProfileIdentityConfig → Result Str
  profile_config_hash config = do
    throw_if (not (is_positive_safe config.chain_id) || not (is_index config.index))
        "Invalid profile, chain or index"
    addresses ← get_addresses viem (
        config.entry_point ∷ config.kernel_implementation ∷ config.table_factory
        ∷ config.profile_preparation_factory ∷ [])
    throw_if (includes zero_address addresses) "Zero profile infrastructure"
    throw_if
        (not (is_some_hex config.validator_creation_code)
          || not (is_some_hex config.profile_factory_creation_code))
        "Missing profile creation bytecode"
    throw_if
        (not (
            has_prefix (codes "0x") config.policy_code_hash
            && length config.policy_code_hash == 66
            && all_hex (drop 2 config.policy_code_hash))
          || not (
              has_prefix (codes "0x") config.namespace
              && length config.namespace == 66
              && all_hex (drop 2 config.namespace)))
        "Expected bytes32 profile input"
    throw_if (not (is_hex_bytes config.policy_config) || ltb 32770 (length config.policy_config))
        "Invalid policy configuration bytes"
    policy ← viem.get_address config.policy
    throw_if (policy_mismatch config.profile policy config.policy_config config.policy_code_hash)
        "Policy does not match selected profile"
    ok (
        viem.keccak256 (
          viem.encode_parameters (
            hash_value (
                viem.keccak256
                  (viem.string_to_hex (codes "cardano-kernel:identity:v1:profile:portable")))
              ∷ integer_value (profile_number config.profile)
              ∷ integer_value config.chain_id
              ∷ map address_value addresses
            ++ hash_value (viem.keccak256 config.validator_creation_code)
              ∷ hash_value (viem.keccak256 config.profile_factory_creation_code)
              ∷ address_value policy
              ∷ hash_value config.policy_code_hash
              ∷ hash_value (viem.keccak256 config.policy_config)
              ∷ hash_value config.namespace
              ∷ integer_value config.index
              ∷ [])))

  abbrev pub hook_of : Profile → Str → Str
  hook_of general factory = zero_address
  hook_of restricted factory = viem.create_address factory 1

  module _ (crypto : Crypto) (affine_x : Bytes → ℕ) where
    -- The constructor of the profile's factory.
    unfoldable pub factory_constructor : ProfileIdentityConfig → Str → ℕ → Str → Str
    factory_constructor config public_key x headers = viem.encode_parameters (
        address_value config.kernel_implementation
        ∷ address_value config.table_factory
        ∷ hash_value public_key
        ∷ integer_value x
        ∷ bytes_value headers
        ∷ address_value config.policy
        ∷ bytes_value config.policy_config
        ∷ hash_value config.policy_code_hash
        ∷ [])

    unfoldable pub profile_hash_of : ProfileIdentityConfig → Str → Str → Str
    profile_hash_of config public_key headers = viem.keccak256 (
        viem.encode_parameters (
          hash_value (domain (codes "profile"))
          ∷ address_value config.kernel_implementation
          ∷ address_value config.table_factory
          ∷ address_value config.entry_point
          ∷ hash_value public_key
          ∷ hash_value (viem.keccak256 headers)
          ∷ address_value config.policy
          ∷ hash_value config.policy_code_hash
          ∷ hash_value (viem.keccak256 config.policy_config)
          ∷ []))

    unfoldable pub preparation_call : ProfileIdentityConfig → Str → ℕ → Str → Str
    preparation_call config public_key x headers = map to_lower (
        viem.encode_function (codes "prepare") (
          hash_value public_key
          ∷ integer_value x
          ∷ bytes_value headers
          ∷ address_value config.policy
          ∷ bytes_value config.policy_config
          ∷ hash_value config.policy_code_hash
          ∷ []))

    unfoldable pub derive_profile_identity :
        Str → Str → ProfileIdentityConfig → Result ProfileIdentity
    derive_profile_identity public_key headers config = do
      config_hash ← profile_config_hash config
      base ← derive_table_identity viem crypto affine_x public_key headers (table_config config)
      x ← key_x viem crypto affine_x public_key
      let init_code_hash = viem.keccak256 (
          config.profile_factory_creation_code
          ++ drop 2 (factory_constructor config public_key x headers))
      let factory =
          viem.create2_address config.profile_preparation_factory
            (domain (codes "profile-preparation")) init_code_hash
      let hook = hook_of config.profile factory
      let initialize = initialize_data viem base.validator hook
      let salt = viem.keccak256 (
          viem.encode_parameters (
            hash_value (domain (codes "profile-account"))
            ∷ hash_value config.namespace
            ∷ integer_value config.index
            ∷ []))
      let actual_salt = viem.keccak256 (initialize ++ drop 2 salt)
      proxy ← kernel_proxy_init_code viem config.kernel_implementation
      let proxy_hash = viem.keccak256 proxy
      ok (record {
        base = record base {
          initialize_data = initialize;
          account_salt = salt;
          actual_account_salt = actual_salt;
          proxy_init_code_hash = proxy_hash;
          account = viem.create2_address factory actual_salt proxy_hash;
          factory_data = map to_lower (
              viem.encode_function (codes "createAccount")
                (hash_value config.namespace ∷ integer_value config.index ∷ []));
          config_hash = config_hash;
        };
        profile_factory = factory;
        profile_factory_init_code_hash = init_code_hash;
        hook = hook;
        profile_hash = profile_hash_of config public_key headers;
        preparation_data = preparation_call config public_key x headers;
      })

  -- The list of the targets that are encoded.
  unfoldable pub target_allowlist : List Str → Result (List Str)
  target_allowlist targets = do
    throw_if (length targets == 0 || ltb 64 (length targets)) "Supply 1..64 targets"
    addresses ← get_addresses viem targets
    let sorted = sort_by (λ a b. text_before (map to_lower a) (map to_lower b)) addresses
    throw_if (includes zero_address sorted || repeats sorted) "Targets must be nonzero and unique"
    ok sorted

  unfoldable pub normal_rule : SelectorRule → Result SelectorRule
  normal_rule rule = do
    lowered ← lower_selectors rule.selectors
    let selectors = sort_by text_before lowered
    throw_if
        (ltb 64 (length selectors)
          || (length selectors == 0 && not rule.allow_empty)
          || repeats selectors)
        "Invalid selector count or duplicate selector"
    target ← viem.get_address rule.target
    ok (record rule { target = target; selectors = selectors })

  unfoldable pub normal_rules : List SelectorRule → Result (List SelectorRule)
  normal_rules [] = ok []
  normal_rules (r ∷ rs) = do rule ← normal_rule r; rest ← normal_rules rs; ok (rule ∷ rest)

  abbrev pub rule_targets : List SelectorRule → List Str
  rule_targets rules = map (λ (r : SelectorRule). r.target) rules

  -- The list of the rules that are encoded.
  unfoldable pub selector_allowlist : List SelectorRule → Result (List SelectorRule)
  selector_allowlist rules = do
    throw_if (length rules == 0 || ltb 64 (length rules)) "Supply 1..64 rules"
    normal ← normal_rules rules
    let sorted =
        sort_by
          (λ (a b : SelectorRule). text_before (map to_lower a.target) (map to_lower b.target))
          normal
    throw_if (includes zero_address (rule_targets sorted) || repeats (rule_targets sorted))
        "Rule targets must be nonzero and unique"
    ok sorted

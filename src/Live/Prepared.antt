-- ===== src/Live/Prepared.antt =====
-- scripts/lib/live-context.ts: what is read of the chain before a prepared profile is trusted. The client
-- is a machine with a state; it reads at one block, or at the latest. The messages are without the name
-- of the contract and of the getter.
pub mod Context
use cardano_on_evm.Prelude.{
  ℕ, ◌+◌, ◌*◌, Bool, true, false, not, ◌&&◌, ◌||◌, List, [], ◌∷◌, ◌++◌, map, Option, none, some,
  Result, ok, err, ◌>>=◌, ◌>>◌, throw_if, Str, Bytes, codes, str_eq, to_lower, has_prefix, ◌==◌,
  if◌then◌else◌, length, take, drop, replicate,
}
use cardano_on_evm.Enrollment.Identity.{TableIdentity}
use cardano_on_evm.Protocol.Identity.{is_some_hex}
use cardano_on_evm.Protocol.Profiles.{
  Profile, general, restricted, ProfileIdentityConfig, ProfileIdentity, derive_profile_identity,
}
use cardano_on_evm.Submission.Adapters.{chain_call, pure_call, ◌>>>=◌}
use cardano_on_evm.Submission.Adapters
use cardano_on_evm.Submission.Inclusion.{same_text}
use cardano_on_evm.Sdk.Account.{
  Sdk, AccountConfig, table_account, profile_account, profile_identity, chain_of, entry_point_of,
  table_factory_of,
}
use cardano_on_evm.Sdk.Enrollment.{identity_fields}
use cardano_on_evm.Live.Artifacts.{
  Artifact, Build, find_artifact, bind_artifacts, implementation_of,
}
use cardano_on_evm.Live.Request.{live_entry_point}

abbrev pub kernel : Str
kernel = codes "0xd6CEDDe84be40893d153Be9d467CD6aD37875b28"

abbrev pub kernel_factory : Str
kernel_factory = codes "0x2577507b78c2008Ff367261CB6285d44ba5eF2E9"

-- The code with the bytes of one immutable set to zero.
abbrev pub mask : ℕ × ℕ → Str → Str
mask (start, size) code =
    take (start * 2) code ++ replicate (size * 2) b'0' ++ drop ((start + size) * 2) code

unfoldable pub mask_all : List (ℕ × ℕ) → Str → Str
mask_all [] code = code
mask_all (reference ∷ references) code = mask_all references (mask reference code)

-- `replace(/^0x/, '')`
abbrev pub without_prefix : Str → Str
without_prefix code = if has_prefix (codes "0x") code then drop 2 code else code

-- `matchesRuntime`
unfoldable pub matches_runtime : Str → Artifact → Bool
matches_runtime code artifact =
    let expected = without_prefix artifact.runtime.hexadecimal in
    is_some_hex code
    && length (drop 2 code) == length expected
    && str_eq (map to_lower (mask_all artifact.references (drop 2 code)))
        (map to_lower (mask_all artifact.references expected))

pub record Infrastructure : Type 0 where
  pub table_factory : Str
  pub profile_preparation_factory : Str

unfoldable pub check_factory_binding : AccountConfig → Infrastructure → Result (Unit {0})
check_factory_binding (profile_account c) infrastructure =
    throw_if
      (not (same_text c.profile_preparation_factory infrastructure.profile_preparation_factory))
      "Identity preparation factory differs from checked infrastructure"
check_factory_binding (table_account c) infrastructure =
    throw_if (not (same_text c.kernel_factory kernel_factory))
      "Identity Kernel factory differs from checked infrastructure"

unfoldable pub same_fields : List (Str × Str) → List (Str × Str) → Bool
same_fields [] [] = true
same_fields ((n, v) ∷ a) ((m, w) ∷ b) = str_eq n m && same_text v w && same_fields a b
same_fields _ _ = false

pub record ProfileClient (N : Type 0) : Type 0 where
  pub get_chain_id : Adapters.Call N ℕ
  pub get_code : Str → Adapters.Call N (Option Str)
  pub read_contract : Str → Str → Adapters.Call N Str

abbrev pub code_text : Option Str → Str
code_text none = []
code_text (some code) = code

module _ (sdk : Sdk) (sha256 : Bytes → Str) (build : Build) where
  unfoldable pub assert_live_config : AccountConfig → Infrastructure → Result (Unit {0})
  assert_live_config config infrastructure = do
    binding ← bind_artifacts sdk sha256 build config
    throw_if (not (chain_of config == 84532)) "Expected Base Sepolia identity configuration"
    throw_if (not (same_text (entry_point_of config) live_entry_point))
        "Identity EntryPoint differs from checked infrastructure"
    throw_if (not (same_text (implementation_of sdk sha256 build config) kernel))
        "Identity Kernel differs from checked infrastructure"
    throw_if (not (same_text (table_factory_of config) infrastructure.table_factory))
        "Identity table factory differs from checked infrastructure"
    check_factory_binding config infrastructure

  module _ {N : Type 0} (client : ProfileClient N) where
    unfoldable pub check_bindings : Str → List (Str × Str) → Adapters.Call N (Unit {0})
    check_bindings place [] = pure_call (ok tt)
    check_bindings place ((name, expected) ∷ rest) =
        let later = check_bindings place rest in
        client.read_contract place name >>>= λ actual.
        pure_call (throw_if (not (same_text actual expected)) "differs from configuration")
        >>>= λ done. later

    -- `verify`: the code at a place is the artifact's, and its getters return the bindings.
    unfoldable pub verify_contract : Str → Str → List (Str × Str) → Adapters.Call N (Unit {0})
    verify_contract place contract bindings = client.get_code place >>>= λ code.
        pure_call (find_artifact build contract) >>>= λ artifact.
        pure_call (
          throw_if (not (matches_runtime (code_text code) artifact))
            "runtime differs from current artifact")
        >>>= λ done. check_bindings place bindings

    unfoldable pub check_prediction : ProfileIdentityConfig → ProfileIdentity → Result (Unit {0})
    check_prediction config identity = do
      predicted ←
          derive_profile_identity sdk.viem sdk.crypto sdk.affine_x identity.base.public_key
            identity.base.protected_headers config
      throw_if
          (not (
            same_fields (identity_fields (profile_identity predicted))
              (identity_fields (profile_identity identity))))
          "Prepared profile prediction differs"

    abbrev pub verify_policy_code : ProfileIdentityConfig → Option Str → Result (Unit {0})
    verify_policy_code config none = err "Prepared policy bytecode differs from configuration"
    verify_policy_code config (some code) =
        throw_if
          (length code == 0
            || str_eq code (codes "0x")
            || not (str_eq (sdk.viem.keccak256 code) config.policy_code_hash))
          "Prepared policy bytecode differs from configuration"

    unfoldable pub verify_hook :
        Profile → ProfileIdentityConfig → ProfileIdentity → Adapters.Call N (Unit {0})
    verify_hook general config identity = pure_call (ok tt)
    verify_hook restricted config identity = client.get_code config.policy >>>= λ code.
        pure_call (verify_policy_code config code) >>>= λ done.
        verify_contract identity.hook (codes "RestrictedExecutionHook") (
          (codes "entryPoint", config.entry_point)
          ∷ (codes "policy", config.policy)
          ∷ (codes "policyCodeHash", config.policy_code_hash)
          ∷ (codes "configHash", sdk.viem.keccak256 config.policy_config)
          ∷ (codes "configuration", config.policy_config)
          ∷ [])

    unfoldable pub verify_contracts :
        ProfileIdentityConfig → ProfileIdentity → Adapters.Call N (Unit {0})
    verify_contracts config identity =
        verify_contract config.table_factory (codes "PreparedTableFactory")
          ((codes "entryPoint", config.entry_point) ∷ [])
        >>>= λ factory.
            verify_contract config.profile_preparation_factory (codes "ProfilePreparationFactory") (
              (codes "implementation", config.kernel_implementation)
              ∷ (codes "tableFactory", config.table_factory)
              ∷ [])
            >>>= λ preparation.
                verify_contract identity.profile_factory (codes "ProfileAccountFactory") (
                  (codes "implementation", config.kernel_implementation)
                  ∷ (codes "entryPoint", config.entry_point)
                  ∷ (codes "validator", identity.base.validator)
                  ∷ (codes "hook", identity.hook)
                  ∷ (codes "profileHash", identity.profile_hash)
                  ∷ (codes "initializeData", identity.base.initialize_data)
                  ∷ [])
                >>>= λ account.
                    verify_contract identity.base.validator (codes "PreparedTableValidator") (
                      (codes "entryPoint", config.entry_point)
                      ∷ (codes "publicKey", identity.base.public_key)
                      ∷ (
                        codes "protectedHeaderHash",
                        sdk.viem.keccak256 identity.base.protected_headers,
                      )
                      ∷ [])
                    >>>= λ validator. verify_hook config.profile config identity

    unfoldable pub verify_prepared_profile :
        ProfileIdentityConfig → ProfileIdentity → Adapters.Call N (Unit {0})
    verify_prepared_profile config identity =
        pure_call (bind_artifacts sdk sha256 build (profile_account config)) >>>= λ binding.
        client.get_chain_id >>>= λ chain.
        pure_call (
          throw_if (not (chain == config.chain_id))
            "Prepared profile chain differs from configuration")
        >>>= λ same. pure_call (check_prediction config identity) >>>= λ predicted.
            verify_contracts config identity

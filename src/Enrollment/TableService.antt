-- ===== src/Enrollment/TableService.antt =====
-- packages/enrollment/src/table-service.ts: the enrollment services of a table and of a profile, whose
-- scope and derivation come from the configuration of the server.
use cardano_on_evm.Prelude.{ℕ, Option, Result, ok, ◌>>=◌, ◌++◌, Str, Bytes, codes}
use cardano_on_evm.Wallet.Bytes.{to_hex}
use cardano_on_evm.Wallet.Cip8.{Crypto, VerifiedCip8}
use cardano_on_evm.Enrollment.Service.{Url, EnrollmentScope, create_enrollment_service}
use cardano_on_evm.Enrollment.Identity.{
  TableIdentityConfig, TableIdentity, backend_table_config_hash, derive_backend_table_identity,
}
use cardano_on_evm.Enrollment.Identity.Profiles.{
  backend_profile_config_hash, derive_backend_profile_identity,
}
use cardano_on_evm.Protocol.Profiles.{ProfileIdentityConfig, ProfileIdentity}

-- A service: what `createEnrollmentService` keeps of its options.
pub record EnrollmentService (Identity : Type 0) : Type 0 where
  pub scope : EnrollmentScope
  pub ttl_ms : ℕ
  pub derive_identity : VerifiedCip8 → Result Identity

pub record ServiceOptions (Config : Type 0) : Type 0 where
  pub application : Str
  pub cardano_network : ℕ
  pub config : Config
  pub ttl : Option ℕ

abbrev pub prefixed_text : Bytes → Str
prefixed_text value = codes "0x" ++ to_hex value

abbrev pub scope_with : {Config : Type 0} → ServiceOptions Config → ℕ → Str → EnrollmentScope
scope_with options chain hash = record {
  application = options.application;
  base_chain_id = chain;
  cardano_network = options.cardano_network;
  config_hash = hash;
}

module _ (crypto : Crypto) (affine_x : Bytes → ℕ) (keccak : Bytes → Bytes)
    (parse_url : Str → Result Url) where
  unfoldable pub create_table_enrollment_service :
      ServiceOptions TableIdentityConfig → Result (EnrollmentService TableIdentity)
  create_table_enrollment_service options = do
    hash ← backend_table_config_hash crypto affine_x keccak options.config
    (scope, ttl_ms) ←
        create_enrollment_service parse_url (scope_with options options.config.chain_id hash)
          options.ttl
    ok (record {
      scope = scope;
      ttl_ms = ttl_ms;
      derive_identity = λ verified.
          derive_backend_table_identity crypto affine_x keccak (prefixed_text verified.public_key)
            (prefixed_text verified.protected_headers) options.config;
    })

  unfoldable pub create_profile_enrollment_service :
      ServiceOptions ProfileIdentityConfig → Result (EnrollmentService ProfileIdentity)
  create_profile_enrollment_service options = do
    hash ← backend_profile_config_hash crypto affine_x keccak options.config
    (scope, ttl_ms) ←
        create_enrollment_service parse_url (scope_with options options.config.chain_id hash)
          options.ttl
    ok (record {
      scope = scope;
      ttl_ms = ttl_ms;
      derive_identity = λ verified.
          derive_backend_profile_identity crypto affine_x keccak (prefixed_text verified.public_key)
            (prefixed_text verified.protected_headers) options.config;
    })

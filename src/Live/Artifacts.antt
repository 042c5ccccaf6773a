-- ===== src/Live/Artifacts.antt =====
-- scripts/lib/address-artifacts.ts: the compiled contracts that an identity rests on, and the binding of
-- a configuration to them. The two files of the build are arguments; the digest is SHA-256 in
-- hexadecimal. An artifact is read once, as what the code takes from its JSON. The messages are without
-- the name of the contract.
use cardano_on_evm.Prelude.{
  ℕ, Bool, true, false, not, ◌&&◌, ◌||◌, List, [], ◌∷◌, ◌++◌, map, Result, ok, err, ◌>>=◌, ◌>>◌,
  throw_if, Str, Bytes, codes, str_eq, to_lower, ◌==◌, if◌then◌else◌, length,
}
use cardano_on_evm.Wallet.Bytes.{parse_pairs}
use cardano_on_evm.Wallet.Utf8.{utf8_encode}
use cardano_on_evm.Protocol.Identity.{is_some_hex}
use cardano_on_evm.Sdk.Account.{
  Sdk, AccountConfig, table_account, profile_account, config_hash_of, entry_point_of,
  table_factory_of,
}

-- The code of a contract in hexadecimal, and whether libraries are still to be linked.
pub record Bytecode : Type 0 where
  pub hexadecimal : Str
  pub has_links : Bool

-- `references` has the start and the length of the immutables; `source` is the artifact's JSON.
pub record Artifact : Type 0 where
  pub creation : Bytecode
  pub runtime : Bytecode
  pub references : List (ℕ × ℕ)
  pub source : Str

-- artifacts/contracts.json, by file and by contract, and artifacts/build.json.
pub record Build : Type 0 where
  pub contracts_bytes : Bytes
  pub build_bytes : Bytes
  pub is_portable : Bool
  pub contracts : List (Str × List (Str × Artifact))

pub record ArtifactRecord : Type 0 where
  pub name : Str
  pub artifact_sha256 : Str
  pub creation_sha256 : Str
  pub runtime_template_sha256 : Str

pub record ArtifactIdentity : Type 0 where
  pub contracts_sha256 : Str
  pub build_sha256 : Str
  pub artifacts : List ArtifactRecord

-- `portable` is whether the recorded mode is the one that the code expects.
pub record ArtifactBinding : Type 0 where
  pub portable : Bool
  pub artifact_identity : ArtifactIdentity
  pub factories : List (Str × Str)

abbrev pub artifact_names : List Str
artifact_names =
    codes "PreparedTableValidator"
    ∷ codes "PreparedTableFactory"
    ∷ codes "ProfileAccountFactory"
    ∷ codes "ProfilePreparationFactory"
    ∷ codes "Kernel"
    ∷ codes "KernelFactory"
    ∷ codes "RestrictedExecutionHook"
    ∷ codes "TargetAllowlistPolicy"
    ∷ codes "SelectorAllowlistPolicy"
    ∷ []

unfoldable pub named : Str → List (Str × Artifact) → List Artifact
named name [] = []
named name ((key, artifact) ∷ rest) =
    let others = named name rest in if str_eq key name then artifact ∷ others else others

unfoldable pub artifacts_named : Str → List (Str × List (Str × Artifact)) → List Artifact
artifacts_named name [] = []
artifacts_named name ((_, file) ∷ files) = named name file ++ artifacts_named name files

abbrev pub only_one : List Artifact → Result Artifact
only_one (artifact ∷ []) = ok artifact
only_one _ = err "Ambiguous contract artifact"

-- `find`
unfoldable pub find_artifact : Build → Str → Result Artifact
find_artifact build name = only_one (artifacts_named name build.contracts)

-- `/^(?:[a-fA-F0-9]{2})+$/` on the code, and no links.
unfoldable pub check_linked : Bytecode → Result (Unit {0})
check_linked code = do
  throw_if (not (is_some_hex (codes "0x" ++ code.hexadecimal))) "must be linked"
  throw_if code.has_links "has unresolved links"

unfoldable pub same_record : ArtifactRecord → ArtifactRecord → Bool
same_record a b =
    str_eq a.name b.name
    && str_eq a.artifact_sha256 b.artifact_sha256
    && str_eq a.creation_sha256 b.creation_sha256
    && str_eq a.runtime_template_sha256 b.runtime_template_sha256

unfoldable pub same_records : List ArtifactRecord → List ArtifactRecord → Bool
same_records [] [] = true
same_records (a ∷ as₁) (b ∷ bs) = same_record a b && same_records as₁ bs
same_records _ _ = false

unfoldable pub same_identity : ArtifactIdentity → ArtifactIdentity → Bool
same_identity a b =
    str_eq a.contracts_sha256 b.contracts_sha256
    && str_eq a.build_sha256 b.build_sha256
    && same_records a.artifacts b.artifacts

-- `assert.deepEqual` on objects of the same keys: the order of the entries does not count.
unfoldable pub has_entry : Str → Str → List (Str × Str) → Bool
has_entry name value [] = false
has_entry name value ((k, v) ∷ rest) = str_eq k name && str_eq v value || has_entry name value rest

unfoldable pub has_entries : List (Str × Str) → List (Str × Str) → Bool
has_entries [] recorded = true
has_entries ((k, v) ∷ rest) recorded = has_entry k v recorded && has_entries rest recorded

unfoldable pub same_factories : List (Str × Str) → List (Str × Str) → Bool
same_factories a b = length a == length b && has_entries a b

module _ (sdk : Sdk) (sha256 : Bytes → Str) (build : Build) where
  unfoldable pub artifact_record : Str → Result ArtifactRecord
  artifact_record name = do
    artifact ← find_artifact build name
    check_linked artifact.creation
    check_linked artifact.runtime
    ok (record {
      name = name;
      artifact_sha256 = sha256 (utf8_encode artifact.source);
      creation_sha256 = sha256 (parse_pairs artifact.creation.hexadecimal);
      runtime_template_sha256 = sha256 (parse_pairs artifact.runtime.hexadecimal);
    })

  unfoldable pub artifact_records : List Str → Result (List ArtifactRecord)
  artifact_records [] = ok []
  artifact_records (name ∷ names) = do
    first ← artifact_record name
    rest ← artifact_records names
    ok (first ∷ rest)

  -- The identity of `addressArtifactSet`.
  unfoldable pub artifact_set : Result ArtifactIdentity
  artifact_set = do
    throw_if (not build.is_portable) "Contract build must describe portable derivation"
    records ← artifact_records artifact_names
    ok (record {
      contracts_sha256 = sha256 build.contracts_bytes;
      build_sha256 = sha256 build.build_bytes;
      artifacts = records;
    })

  -- Whether a configured creation code is not the artifact's.
  unfoldable pub check_creation : Str → Str → Result (Unit {0})
  check_creation name code = do
    artifact ← find_artifact build name
    throw_if
        (not
          (str_eq (map to_lower code) (map to_lower (codes "0x" ++ artifact.creation.hexadecimal))))
        "creation bytes do not match current artifact"

  abbrev pub validator_code_of : AccountConfig → Str
  validator_code_of (table_account c) = c.validator_creation_code
  validator_code_of (profile_account c) = c.validator_creation_code

  unfoldable pub check_profile_creation : AccountConfig → Result (Unit {0})
  check_profile_creation (table_account c) = ok tt
  check_profile_creation (profile_account c) =
      check_creation (codes "ProfileAccountFactory") c.profile_factory_creation_code

  abbrev pub implementation_of : AccountConfig → Str
  implementation_of (table_account c) = c.kernel_implementation
  implementation_of (profile_account c) = c.kernel_implementation

  abbrev pub factory_entry : AccountConfig → Str × Str
  factory_entry (profile_account c) =
      (codes "profilePreparationFactory", c.profile_preparation_factory)
  factory_entry (table_account c) = (codes "kernelFactory", c.kernel_factory)

  unfoldable pub lower_entries : List (Str × Str) → Result (List (Str × Str))
  lower_entries [] = ok []
  lower_entries ((name, place) ∷ rest) = do
    checked ← sdk.viem.get_address place
    others ← lower_entries rest
    ok ((name, map to_lower checked) ∷ others)

  unfoldable pub bind_artifacts : AccountConfig → Result ArtifactBinding
  bind_artifacts config = do
    hash ← config_hash_of sdk config
    identity ← artifact_set
    check_creation (codes "PreparedTableValidator") (validator_code_of config)
    check_profile_creation config
    factories ← lower_entries (
        (codes "entryPoint", entry_point_of config)
        ∷ (codes "kernelImplementation", implementation_of config)
        ∷ (codes "tableFactory", table_factory_of config)
        ∷ factory_entry config
        ∷ [])
    ok (record { portable = true; artifact_identity = identity; factories = factories })

  unfoldable pub verify_binding : AccountConfig → ArtifactBinding → Result (Unit {0})
  verify_binding config binding = do
    throw_if (not binding.portable) "Address artifact metadata must describe portable derivation"
    expected ← bind_artifacts config
    throw_if (not (same_identity binding.artifact_identity expected.artifact_identity))
        "Unrecognized or inconsistent artifact identity"
    throw_if (not (same_factories binding.factories expected.factories))
        "Recorded factory addresses differ from identity configuration"

-- ===== src/Live/Prepared/Context.antt =====
-- scripts/lib/live-context.ts: the checks of `liveContext`, from the chain of the client to the counter.
-- The manifest, the pinned addresses and the journal are read beforehand; the submitter is its address.
use cardano_on_evm.Prelude.{
  ℕ, ◌^◌, Bool, true, false, not, ◌&&◌, ◌||◌, List, [], ◌∷◌, ◌++◌, Option, none, some, Result, ok,
  err, ◌>>=◌, ◌>>◌, throw_if, or_throw, String, Str, Bytes, codes, str_eq, ltb, ◌==◌, length,
}
use cardano_on_evm.Prelude.Int.{pos}
use cardano_on_evm.Prelude.Json.{Json, number, lookup}
use cardano_on_evm.Protocol.Operation.{is_hex_bytes}
use cardano_on_evm.Submission.Adapters.{chain_call, pure_call, ◌>>>=◌}
use cardano_on_evm.Submission.Adapters
use cardano_on_evm.Submission.Inclusion.{same_text}
use cardano_on_evm.Sdk.Account.{Sdk}
use cardano_on_evm.Live.Artifacts.{
  ArtifactIdentity, Build, artifact_set, find_artifact, same_identity,
}
use cardano_on_evm.Live.Prepared.{Infrastructure, ProfileClient, kernel, code_text, matches_runtime}
use cardano_on_evm.Live.Request.{live_entry_point}

pub record Deployment : Type 0 where
  pub status : Str
  pub predicted : Str
  pub runtime_code_hash : Str
  pub nonce : Json

-- The manifest of the infrastructure; `portable` is whether its mode is the one expected.
pub record Setup : Type 0 where
  pub kind : Str
  pub portable : Bool
  pub chain_id : ℕ
  pub all_deployments_checked : Bool
  pub artifact_identity : ArtifactIdentity
  pub deployer : Str
  pub entry_point : Str
  pub kernel : Str
  pub deployments : List (Str × Deployment)

-- The journal's file: the nonces are those of its transactions.
pub record JournalFile : Type 0 where
  pub chain_id : ℕ
  pub submitter : Str
  pub nonces : List Json

abbrev pub empty_journal : Str → JournalFile
empty_journal submitter = record { chain_id = 84532; submitter = submitter; nonces = [] }

pub record LiveContext : Type 0 where
  pub infrastructure : Infrastructure
  pub counter : Str
  pub same_deployer : Bool
  pub journal : JournalFile

-- `Number.isSafeInteger(nonce) && nonce >= 0`
unfoldable pub is_nonce : Json → Bool
is_nonce (number (pos n)) = ltb n (2 ^ 53)
is_nonce _ = false

unfoldable pub are_nonces : List Json → Bool
are_nonces [] = true
are_nonces (n ∷ ns) = is_nonce n && are_nonces ns

unfoldable pub deployment_nonces : List (Str × Deployment) → List Json
deployment_nonces [] = []
deployment_nonces ((_, d) ∷ rest) = d.nonce ∷ deployment_nonces rest

unfoldable pub check_setup : Setup → Result (Unit {0})
check_setup setup =
    throw_if
      (not (str_eq setup.kind (codes "reusable-infrastructure-deployment"))
        || not setup.portable
        || not (setup.chain_id == 84532)
        || not setup.all_deployments_checked)
      "Verified current Base Sepolia infrastructure manifest required"

unfoldable pub open_journal : Str → Option JournalFile → Result JournalFile
open_journal submitter none = ok (empty_journal submitter)
open_journal submitter (some journal) = do
  throw_if (not (journal.chain_id == 84532) || not (same_text journal.submitter submitter))
      "Wrong transaction journal"
  ok journal

abbrev pub predicted_of : Option Deployment → Str
predicted_of none = []
predicted_of (some d) = d.predicted

-- `/^0x[0-9a-fA-F]{40}$/`
unfoldable pub is_address_text : Str → Bool
is_address_text s = length s == 42 && is_hex_bytes s

module _ (sdk : Sdk) (sha256 : Bytes → Str) (build : Build) {N : Type 0}
    (client : ProfileClient N) where
  -- `!code || keccak256(code) !== hash`
  unfoldable pub check_code : String → Option Str → Str → Result (Unit {0})
  check_code message none hash = err message
  check_code message (some code) hash =
      throw_if (length code == 0 || not (str_eq (sdk.viem.keccak256 code) hash)) message

  unfoldable pub check_upstream : List (Str × Str) → Adapters.Call N (Unit {0})
  check_upstream [] = pure_call (ok tt)
  check_upstream ((place, hash) ∷ rest) =
      let later = check_upstream rest in
      client.get_code place >>>= λ code.
      pure_call (check_code "Pinned protocol bytecode changed" code hash) >>>= λ done. later

  unfoldable pub check_deployed : Str → Deployment → Option Str → Result (Unit {0})
  check_deployed name d code = do
    check_code "Infrastructure deployment bytecode changed" code d.runtime_code_hash
    artifact ← find_artifact build name
    throw_if (not (matches_runtime (code_text code) artifact))
        "Infrastructure deployment bytecode changed"

  unfoldable pub check_deployments : List (Str × Deployment) → Adapters.Call N (Unit {0})
  check_deployments [] = pure_call (ok tt)
  check_deployments ((name, d) ∷ rest) =
      let later = check_deployments rest in
      pure_call (
        throw_if (not (str_eq d.status (codes "deployed-and-runtime-checked")))
          "Infrastructure has an unfinished deployment")
      >>>= λ finished. client.get_code d.predicted >>>= λ code.
          pure_call (check_deployed name d code) >>>= λ done. later

  unfoldable pub check_getter : String → Str → Str → Str → Adapters.Call N (Unit {0})
  check_getter message place name expected = client.read_contract place name >>>= λ actual.
      pure_call (throw_if (not (same_text actual expected)) message)

  unfoldable pub check_manifest : Str → Bool → Setup → Result (Unit {0})
  check_manifest submitter independent setup = do
    check_setup setup
    identity ← artifact_set sdk sha256 build
    throw_if (not (same_identity setup.artifact_identity identity))
        "Infrastructure artifact identity changed"
    throw_if (not (same_text setup.deployer submitter) && not independent)
        "Submitter differs from the infrastructure deployer"

  unfoldable pub check_protocol : Setup → Result (Unit {0})
  check_protocol setup =
      throw_if
        (not (same_text setup.entry_point live_entry_point) || not (same_text setup.kernel kernel))
        "Infrastructure protocol bindings changed"

  abbrev pub deployed_at : Setup → Str → Result Str
  deployed_at setup name = do
    d ← or_throw (lookup name setup.deployments) "Cannot read properties of undefined"
    ok d.predicted

  -- What comes after the reads of the chain.
  unfoldable pub finish_context : Str → Setup → Option JournalFile → Str → Str → Result LiveContext
  finish_context submitter setup file table preparation = do
    journal ← open_journal submitter file
    throw_if (not (are_nonces (deployment_nonces setup.deployments ++ journal.nonces)))
        "Invalid reserved transaction nonce"
    let counter = predicted_of (lookup (codes "ExperimentCounter") setup.deployments)
    throw_if (not (is_address_text counter)) "Infrastructure counter is missing"
    ok (record {
      infrastructure = record { table_factory = table; profile_preparation_factory = preparation };
      counter = counter;
      same_deployer = same_text setup.deployer submitter;
      journal = journal;
    })

  unfoldable pub check_submitter_code : Option Str → Result (Unit {0})
  check_submitter_code none = ok tt
  check_submitter_code (some code) =
      throw_if (not (length code == 0) && not (str_eq code (codes "0x")))
        "Expected ordinary test submitter"

  unfoldable pub open_context :
      Str → Bool → Setup → List (Str × Str) → Option JournalFile → Adapters.Call N LiveContext
  open_context submitter independent setup upstream file = client.get_chain_id >>>= λ chain.
      pure_call (throw_if (not (chain == 84532)) "Expected Base Sepolia") >>>= λ sepolia.
      pure_call (check_manifest submitter independent setup) >>>= λ manifest.
      check_upstream upstream >>>= λ pinned. pure_call (check_protocol setup) >>>= λ protocol.
      check_deployments setup.deployments >>>= λ deployed.
      pure_call (deployed_at setup (codes "PreparedTableFactory")) >>>= λ table.
      check_getter "Factory EntryPoint changed" table (codes "entryPoint") live_entry_point
      >>>= λ entry.
          pure_call (deployed_at setup (codes "ProfilePreparationFactory")) >>>= λ preparation.
          check_getter "Preparation immutable changed" preparation (codes "implementation") kernel
          >>>= λ implementation.
              check_getter "Preparation immutable changed" preparation (codes "tableFactory") table
              >>>= λ bound. client.get_code submitter >>>= λ code.
                  pure_call (check_submitter_code code) >>>= λ ordinary.
                  pure_call (finish_context submitter setup file table preparation)

-- ===== src/Release/Candidate/Handoff.antt =====
-- scripts/release/candidate.mjs and github.mjs: the handoff of a candidate, its seal, and the candidate of
-- a prior run. A directory is what the code reads of it; the answers of GitHub and the commands that
-- the scripts start are arguments. Names are ASCII, so any order that both sides share may sort them.
pub mod Attested
pub mod Archive
pub mod Trusted
use cardano_on_evm.Prelude.{
  ℕ, Bool, true, false, not, ◌&&◌, ◌||◌, List, [], ◌∷◌, ◌++◌, map, Option, none, some, Result, ok,
  err, ◌>>=◌, ◌>>◌, throw_if, or_throw, Str, Bytes, codes, str_eq, includes, leb, ltb, ◌==◌,
  if◌then◌else◌, length, first_byte,
}
use cardano_on_evm.Prelude.Json.{lookup}
use cardano_on_evm.Protocol.Profiles.{sort_by, text_before}
use cardano_on_evm.Release.Publish.{Asset, same_names}
use cardano_on_evm.Release.Candidate.{
  is_sha, is_hash, is_id, is_version, is_repository, is_name, is_digest, is_name_char, workflow_of,
  candidate_only, artifact_name, Run, run_identity, ArtifactRow, find_row,
}

pub record HandoffReceipt : Type 0 where
  pub schema_version : ℕ
  pub kind : Str
  pub repository : Str
  pub commit : Str
  pub version : Str
  pub candidate_id : Str
  pub mode : Str
  pub run_id : Str
  pub run_attempt : Str
  pub workflow : Str
  pub context_sha256 : Str
  pub bundle_sha256 : Str
  pub assets : List Asset

-- A file of the directory `assets`: its digest, its size, and whether it is a regular file.
pub record AssetFile : Type 0 where
  pub sha256 : Str
  pub size : ℕ
  pub is_regular : Bool

-- What context.json and release-manifest.json say of their run.
pub record Document : Type 0 where
  pub repository : Str
  pub commit : Str
  pub run_id : Str
  pub run_attempt : Str
  pub workflow : Str

-- The directory of a handoff.
pub record Handoff : Type 0 where
  pub receipt : HandoffReceipt
  pub handoff_sha256 : Str
  pub files : List Str
  pub has_links : Bool
  pub bundle_sha256 : Str
  pub assets : List (Str × AssetFile)
  pub context_mode : Str
  pub context : Document
  pub manifest : Document
  pub manifest_version : Str

abbrev pub handoff_kind : Str
handoff_kind = codes "cardano-on-evm-candidate-handoff"

abbrev pub handoff_files : List Str
handoff_files = codes "assets" ∷ codes "candidate.json" ∷ codes "provenance.sigstore.jsonl" ∷ []

unfoldable pub check_form : HandoffReceipt → Result (Unit {0})
check_form r = do
  throw_if (not (r.schema_version == 1) || not (str_eq r.kind handoff_kind))
      "Expected values to be strictly equal"
  throw_if
      (not (is_repository r.repository)
        || not (is_sha r.commit)
        || not (is_version r.version)
        || not (is_hash r.candidate_id)
        || not (is_hash r.context_sha256)
        || not (is_hash r.bundle_sha256)
        || not (is_id r.run_id)
        || not (is_id r.run_attempt))
      "The input did not match the regular expression"
  throw_if (not (includes r.mode (candidate_only ∷ codes "publish" ∷ [])))
      "The expression evaluated to a falsy value"
  throw_if (not (str_eq r.workflow (workflow_of r.repository)))
      "Expected values to be strictly equal"

-- What the callers expect of a receipt; `none` is not asked for.
pub record ExpectedReceipt : Type 0 where
  pub repository : Option Str
  pub commit : Option Str
  pub version : Option Str
  pub run_id : Option Str
  pub run_attempt : Option Str
  pub candidate_id : Option Str
  pub mode : Option Str

abbrev pub is_expected : Option Str → Str → Bool
is_expected none actual = true
is_expected (some wanted) actual = str_eq actual wanted

unfoldable pub check_expected : HandoffReceipt → ExpectedReceipt → Result (Unit {0})
check_expected r e =
    throw_if
      (not (is_expected e.repository r.repository)
        || not (is_expected e.commit r.commit)
        || not (is_expected e.version r.version)
        || not (is_expected e.run_id r.run_id)
        || not (is_expected e.run_attempt r.run_attempt)
        || not (is_expected e.candidate_id r.candidate_id)
        || not (is_expected e.mode r.mode))
      "Candidate mismatch"

-- `hashFile(resolve(assets, name))`
unfoldable pub asset_hash : Handoff → Str → Result Str
asset_hash h name = do file ← or_throw (lookup name h.assets) "ENOENT"; ok file.sha256

unfoldable pub check_hash : Handoff → Str → Str → Result (Unit {0})
check_hash h name wanted = do
  actual ← asset_hash h name
  throw_if (not (str_eq actual wanted)) "Candidate checksum digest changed"

-- `/^[A-Za-z0-9][A-Za-z0-9._-]*$/`
unfoldable pub is_asset_name : Str → Bool
is_asset_name s =
    is_name s
    && not (first_byte s == b'_')
    && not (first_byte s == b'.')
    && not (first_byte s == b'-')

unfoldable pub check_handoff_asset : Handoff → List Str → Asset → Result (Unit {0})
check_handoff_asset h seen item = do
  throw_if (not (is_asset_name item.name) || not (is_hash item.sha256))
      "The input did not match the regular expression"
  throw_if (includes item.name seen) "Duplicate candidate asset"
  file ← or_throw (lookup item.name h.assets) "ENOENT"
  throw_if (not file.is_regular) "Candidate asset must be a regular file"
  throw_if (not (file.size == item.size) || not (str_eq file.sha256 item.sha256))
      "Candidate asset changed"

-- The loop on the assets; `seen` has the names before.
unfoldable pub check_handoff_assets : Handoff → List Str → List Asset → Result (Unit {0})
check_handoff_assets h seen [] = ok tt
check_handoff_assets h seen (item ∷ items) = do
  check_handoff_asset h seen item
  check_handoff_assets h (item.name ∷ seen) items

unfoldable pub check_document : HandoffReceipt → Document → Result (Unit {0})
check_document r d =
    throw_if
      (not (str_eq d.repository r.repository)
        || not (str_eq d.commit r.commit)
        || not (str_eq d.run_id r.run_id)
        || not (str_eq d.run_attempt r.run_attempt)
        || not (str_eq d.workflow r.workflow))
      "Expected values to be strictly equal"

unfoldable pub check_tree : Handoff → Result (Unit {0})
check_tree h = do
  throw_if (not (same_names (sort_by text_before h.files) handoff_files)) "Unexpected handoff files"
  throw_if h.has_links "Expected values to be strictly equal"
  throw_if (not (str_eq h.bundle_sha256 h.receipt.bundle_sha256)) "Attestation bundle changed"
  check_hash h (codes "SHA256SUMS") h.receipt.candidate_id
  check_hash h (codes "context.json") h.receipt.context_sha256

-- The handoff itself, when it passes.
unfoldable pub read_candidate : Handoff → ExpectedReceipt → Result Handoff
read_candidate h expected = do
  let r = h.receipt
  check_form r
  check_expected r expected
  check_tree h
  throw_if (not (ltb 2 (length r.assets))) "The expression evaluated to a falsy value"
  check_handoff_assets h [] r.assets
  throw_if
      (not (
        same_names (sort_by text_before (map (λ (entry : Str × AssetFile). entry.0) h.assets))
          (sort_by text_before (map (λ (item : Asset). item.name) r.assets))))
      "Candidate asset set changed"
  throw_if (not (str_eq h.context_mode (codes "candidate"))) "Expected values to be strictly equal"
  check_document r h.context
  check_document r h.manifest
  throw_if (not (str_eq h.manifest_version r.version)) "Expected values to be strictly equal"
  ok h

-- The arguments of `gh` that verify the attestation of one file.
unfoldable pub attestation_args : Str → HandoffReceipt → Str → Result (List Str)
attestation_args file r bundle = do
  throw_if (not (is_repository r.repository) || not (is_sha r.commit))
      "The input did not match the regular expression"
  throw_if (not (str_eq r.workflow (workflow_of r.repository)))
      "Expected values to be strictly equal"
  ok (
      codes "attestation"
      ∷ codes "verify"
      ∷ file
      ∷ codes "--repo"
      ∷ r.repository
      ∷ codes "--bundle"
      ∷ bundle
      ∷ codes "--source-digest"
      ∷ r.commit
      ∷ codes "--source-ref"
      ∷ codes "refs/heads/main"
      ∷ codes "--signer-digest"
      ∷ r.commit
      ∷ codes "--cert-identity"
      ∷ (codes "https://github.com/" ++ r.workflow)
      ∷ codes "--deny-self-hosted-runners"
      ∷ codes "--format"
      ∷ codes "json"
      ∷ [])

pub record Job : Type 0 where
  pub name : Str
  pub conclusion : Str

unfoldable pub has_job : Str → Str → List Job → Bool
has_job name conclusion [] = false
has_job name conclusion (job ∷ jobs) =
    str_eq job.name name && str_eq job.conclusion conclusion || has_job name conclusion jobs

-- `adapter.api` and `adapter.gh`, on a path of the API, read as a run, as all pages of jobs or of
-- artifacts, as one artifact, and as the bytes of an archive; and the commands. `attest` runs `gh` with
-- its arguments, and counts what it verified.
pub record GitHub : Type 0 where
  pub run : Str → Result Run
  pub jobs : Str → Result (List Job)
  pub rows : Str → Result (List ArtifactRow)
  pub artifact : Str → Result ArtifactRow
  pub archive : Str → Result Bytes
  pub sha256 : Bytes → Str
  pub extract : Bytes → Result Handoff
  pub attest : List Str → Result ℕ

-- `repos/${repository}/actions/runs/${runId}/attempts/${attempt}`
abbrev pub run_path : Str → Str → Str → Str
run_path repository run_id attempt =
    codes "repos/"
    ++ repository
    ++ codes "/actions/runs/"
    ++ run_id
    ++ codes "/attempts/"
    ++ attempt

abbrev pub jobs_path : Str → Str → Str → Str
jobs_path repository run_id attempt =
    run_path repository run_id attempt ++ codes "/jobs?per_page=100"

-- `repos/${repository}/actions/runs/${runId}/artifacts?per_page=100`
abbrev pub rows_path : Str → Str → Str
rows_path repository run_id =
    codes "repos/"
    ++ repository
    ++ codes "/actions/runs/"
    ++ run_id
    ++ codes "/artifacts?per_page=100"

-- `repos/${repository}/actions/artifacts/${artifactId}`
abbrev pub artifact_path : Str → Str → Str
artifact_path repository id = codes "repos/" ++ repository ++ codes "/actions/artifacts/" ++ id

-- The files of the directory `root` of a handoff.
abbrev pub bundle_path : Str → Str
bundle_path root = root ++ codes "/provenance.sigstore.jsonl"

abbrev pub asset_path : Str → Str → Str
asset_path root name = root ++ codes "/assets/" ++ name

module _ (github : GitHub) where
  unfoldable pub download_artifact : Str → Str → Str → Result Handoff
  download_artifact repository id digest = do
    throw_if (not (is_repository repository) || not (is_id id) || not (is_digest digest))
        "The input did not match the regular expression"
    meta ← github.artifact (artifact_path repository id)
    throw_if (not (str_eq meta.id id)) "Expected values to be strictly equal"
    throw_if meta.expired "Candidate artifact expired"
    throw_if (not (str_eq meta.digest digest)) "Artifact identity changed"
    bytes ← github.archive (artifact_path repository id ++ codes "/zip")
    throw_if (not (str_eq (codes "sha256:" ++ github.sha256 bytes) digest))
        "Downloaded Actions artifact checksum mismatch"
    github.extract bytes

  -- `root` is the absolute path of the directory of the handoff.
  unfoldable pub verify_attestations : Str → HandoffReceipt → List Asset → Result (Unit {0})
  verify_attestations root r [] = ok tt
  verify_attestations root r (item ∷ items) = do
    arguments ← attestation_args (asset_path root item.name) r (bundle_path root)
    verified ← github.attest arguments
    throw_if (verified == 0) "Attestation tool returned no verified result"
    verify_attestations root r items

  -- Whether the run is a rehearsal, which must not have published.
  unfoldable pub check_jobs : Bool → List Job → Result (Unit {0})
  check_jobs rehearsal jobs = do
    throw_if (not (has_job (codes "Verify candidate for review") (codes "success") jobs))
        "Prior candidate never completed download/attestation verification"
    throw_if
        (rehearsal
          && not (has_job (codes "Approve and publish immutable candidate") (codes "skipped") jobs))
        "Rehearsal must not publish"

  abbrev pub expected_of : Str → Str → Str → Str → Option Str → Bool → ExpectedReceipt
  expected_of repository commit run_id attempt expected_id rehearsal = record {
    repository = some repository;
    commit = some commit;
    version = none;
    run_id = some run_id;
    run_attempt = some attempt;
    candidate_id = expected_id;
    mode = if rehearsal then some candidate_only else none;
  }

  unfoldable pub prior_candidate :
      Str → Str → Str → Str → Bool → Str → Option Str → Result (Handoff × Run)
  prior_candidate repository run_id attempt out rehearsal current_run expected_id = do
    throw_if (not (is_repository repository) || not (is_id run_id) || not (is_id attempt))
        "The input did not match the regular expression"
    throw_if (str_eq run_id current_run) "Rehearsal/recovery must use a prior run"
    reported ← github.run (run_path repository run_id attempt)
    run ← run_identity reported repository run_id attempt rehearsal
    jobs ← github.jobs (jobs_path repository run_id attempt)
    check_jobs rehearsal jobs
    rows ← github.rows (rows_path repository run_id)
    name ← artifact_name run_id attempt
    row ← find_row rows name
    handoff ← download_artifact repository row.id row.digest
    candidate ←
        read_candidate handoff
          (expected_of repository run.head_sha run_id attempt expected_id rehearsal)
    verify_attestations out candidate.receipt candidate.receipt.assets
    ok (candidate, run)

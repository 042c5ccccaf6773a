-- ===== src/Tests/Candidate.antt =====
-- scripts/release/candidate.mjs on a candidate with three assets.
use Candidate.{
  is_repository, split_at, all_name_chars, is_name_char, is_id, run_identity, is_sha, artifact_name,
  find_row, rows_named, is_digest, is_hash, is_version, version_parts,
}
use Digits.{is_numeral, all_digits}
use Service.{all_lower_hex, is_challenge_id}
use Handoff.{
  check_jobs, has_job, asset_hash, attestation_args, check_document, check_expected, check_form,
  check_handoff_asset, check_handoff_assets, check_hash, check_tree, download_artifact,
  is_asset_name, read_candidate, verify_attestations,
}
use cardano_on_evm.Prelude.{
  ◌≡◌, refl, true, false, [], ◌∷◌, ◌++◌, none, ok, Str, codes, replicate, str_eq, includes,
  has_prefix,
}
use cardano_on_evm.Prelude.Decimal.Digits
use cardano_on_evm.Prelude.Json.{lookup}
use cardano_on_evm.Enrollment.Service
use cardano_on_evm.Protocol.Profiles.{sort_by, insert_by, text_before}
use cardano_on_evm.Release.Publish.{Asset, same_names}
use cardano_on_evm.Release.Candidate
use cardano_on_evm.Release.Candidate.{Run, ArtifactRow, workflow_of}
use cardano_on_evm.Release.Candidate.Handoff
use cardano_on_evm.Release.Candidate.Handoff.{
  HandoffReceipt, AssetFile, Document, GitHub, prior_candidate, handoff_kind, handoff_files,
}
use cardano_on_evm.Release.Candidate.Handoff.Trusted.{Trusted, prior_candidate-Trusted}

abbrev sample_repository : Str
sample_repository = codes "o/r"

abbrev sample_commit : Str
sample_commit = replicate 40 b'a'

abbrev sample_hash : Str
sample_hash = replicate 64 b'0'

abbrev sample_asset : Str → Asset
sample_asset name = record { name = name; sha256 = sample_hash; size = 3 }

abbrev sample_receipt : HandoffReceipt
sample_receipt = record {
  schema_version = 1;
  kind = handoff_kind;
  repository = sample_repository;
  commit = sample_commit;
  version = codes "1.2.3";
  candidate_id = sample_hash;
  mode = codes "publish";
  run_id = codes "7";
  run_attempt = codes "1";
  workflow = workflow_of sample_repository;
  context_sha256 = sample_hash;
  bundle_sha256 = sample_hash;
  assets =
      sample_asset (codes "SHA256SUMS")
      ∷ sample_asset (codes "context.json")
      ∷ sample_asset (codes "release-manifest.json")
      ∷ [];
}

abbrev sample_file : AssetFile
sample_file = record { sha256 = sample_hash; size = 3; is_regular = true }

abbrev sample_document : Document
sample_document = record {
  repository = sample_repository;
  commit = sample_commit;
  run_id = codes "7";
  run_attempt = codes "1";
  workflow = workflow_of sample_repository;
}

abbrev sample_handoff : Handoff.Handoff
sample_handoff = record {
  receipt = sample_receipt;
  handoff_sha256 = sample_hash;
  files = handoff_files;
  has_links = false;
  bundle_sha256 = sample_hash;
  assets =
      (codes "context.json", sample_file)
      ∷ (codes "release-manifest.json", sample_file)
      ∷ (codes "SHA256SUMS", sample_file)
      ∷ [];
  context_mode = codes "candidate";
  context = sample_document;
  manifest = sample_document;
  manifest_version = codes "1.2.3";
}

abbrev sample_run : Run
sample_run = record {
  id = codes "7";
  run_attempt = codes "1";
  repository = sample_repository;
  path = codes ".github/workflows/release.yml";
  head_branch = codes "main";
  event = codes "push";
  head_sha = sample_commit;
  status = codes "completed";
  conclusion = codes "success";
}

abbrev sample_row : ArtifactRow
sample_row = record {
  id = codes "12";
  name = codes "release-candidate-7-1";
  expired = false;
  digest = codes "sha256:" ++ sample_hash;
}

abbrev sample_github : GitHub
sample_github = record {
  run = λ path. ok sample_run;
  jobs = λ path.
      ok (record { name = codes "Verify candidate for review"; conclusion = codes "success" } ∷ []);
  rows = λ path. ok (sample_row ∷ []);
  artifact = λ id. ok sample_row;
  archive = λ id. ok (1 ∷ []);
  sha256 = λ b. sample_hash;
  extract = λ b. ok sample_handoff;
  attest = λ arguments. ok 1;
}

prior_sample :
    prior_candidate sample_github sample_repository
      (codes "7")
      (codes "1")
      (codes "/out")
      false
      (codes "8")
      none
    ≡ ok (sample_handoff, sample_run)
unfolding prior_candidate is_repository split_at all_name_chars is_name_char is_id is_numeral str_eq
    run_identity includes is_sha all_lower_hex check_jobs has_job artifact_name find_row rows_named
    all_digits is_challenge_id lookup has_prefix insert_by sort_by text_before asset_hash
    attestation_args check_document check_expected check_form check_handoff_asset
    check_handoff_assets check_hash check_tree download_artifact is_asset_name read_candidate
    verify_attestations is_digest is_hash is_version version_parts same_names
prior_sample = refl

prior_candidate-Trusted_example :
    Trusted sample_github sample_repository
      (codes "7")
      (codes "1")
      (codes "/out")
      (codes "8")
      sample_handoff
      sample_run
prior_candidate-Trusted_example =
    prior_candidate-Trusted sample_github sample_repository (codes "7") (codes "1") (codes "/out")
      false (codes "8") none sample_handoff sample_run prior_sample

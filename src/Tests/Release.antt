-- ===== src/Tests/Release.antt =====
-- scripts/release/publish.mjs on a release that is published already.
use cardano_on_evm.Prelude.{
  ℕ, suc, ◌≡◌, refl, true, false, List, [], ◌∷◌, ◌++◌, some, ok, codes, str_eq, includes,
}
use cardano_on_evm.Protocol.Profiles.{sort_by, insert_by, text_before}
use cardano_on_evm.Submission.Adapters.{Call, chain_call}
use cardano_on_evm.Release.Publish.{
  Candidate, RemoteAsset, Release, Published, Remote, release_marker, release_assets, put_asset,
  by_name, find_asset, check_asset, check_assets, missing, first_line, has_marker, check_release,
  check_release_state, same_assets, same_names, known_names, same_hash, check_unchanged,
  download_all, download_checked, upload_all, stage_release, verify_release, confirm_published,
  publish_candidate,
}
use cardano_on_evm.Release.Publish.Sound.{Confirmed, publish_candidate-Confirmed}

abbrev candidate : Candidate
candidate = record {
  receipt = record {
    version = codes "1.0.0";
    commit = codes "c0";
    candidate_id = codes "id";
    bundle_sha256 = codes "b0";
    assets = record { name = codes "sdk.tgz"; sha256 = codes "a0"; size = 7 } ∷ [];
  };
  bundle_size = 3;
}

abbrev held : List RemoteAsset
held =
    record {
      id = 1;
      name = codes "sdk.tgz";
      state = codes "uploaded";
      sha256 = codes "a0";
      size = 7;
    }
    ∷ record {
      id = 2;
      name = codes "provenance.sigstore.jsonl";
      state = codes "uploaded";
      sha256 = codes "b0";
      size = 3;
    }
    ∷ []

abbrev release : Release
release = record {
  id = 9;
  tag_name = codes "v1.0.0";
  prerelease = false;
  body = some (release_marker candidate.receipt ++ 10 ∷ []);
  draft = false;
  url = codes "u";
}

-- A server that does not change; its state counts the calls.
abbrev server : Remote ℕ
server = record {
  tag_commit = λ tag n. (ok (some (codes "c0")), suc n);
  release = λ tag n. (ok (some release), suc n);
  assets = λ r n. (ok held, suc n);
  download = λ item n. (ok item, suc n);
  create_tag = λ tag commit n. (ok tt, suc n);
  create_draft = λ tag receipt n. (ok tt, suc n);
  upload = λ tag item n. (ok tt, suc n);
  publish = λ tag n. (ok tt, suc n);
}

abbrev verify_nothing : Call ℕ (Unit {0})
verify_nothing n = (ok tt, suc n)

abbrev published : Published
published = record {
  tag = codes "v1.0.0";
  commit = codes "c0";
  candidate_id = codes "id";
  assets_verified = 2;
  already_published = true;
  url = codes "u";
}

published_sample : publish_candidate server candidate verify_nothing 0 ≡ (ok published, 16)
unfolding publish_candidate stage_release verify_release confirm_published chain_call release_assets
    put_asset by_name find_asset check_asset check_assets missing first_line has_marker
    check_release check_release_state same_assets same_names known_names same_hash check_unchanged
    download_all download_checked upload_all sort_by insert_by text_before str_eq includes
published_sample = refl

publish_candidate-Confirmed_example : Confirmed server candidate verify_nothing 0 published 16
publish_candidate-Confirmed_example =
    publish_candidate-Confirmed server candidate verify_nothing 0 16 published published_sample

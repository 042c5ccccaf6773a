-- ===== src/Release/Candidate/Handoff/Trusted.antt =====
-- What the candidate of a prior run proves.
use mathlib.Core.Path.{subst}
use cardano_on_evm.Prelude.{
  ◌≡◌, refl, ap, ◌∙◌, Bool, true, false, not, ◌&&◌, ◌||◌, List, [], ◌∷◌, All, ◌++◌, arith, Option,
  some, none, ok, >>=-eq-ok, or_throw-eq-ok, throw_if-eq-ok, Returns, returns_bind, returns_check,
  returns_last, ok-injective, Str, codes, includes, str_eq, str_eq_iff, ◌==◌, or_throw, ltb, length,
  map, if◌then◌else◌,
}
use cardano_on_evm.Prelude.Json.{lookup}
use cardano_on_evm.Protocol.Profiles.{sort_by, text_before}
use cardano_on_evm.Release.Publish.{Asset, same_names}
use cardano_on_evm.Release.Candidate.{
  candidate_only, is_sha, is_repository, is_id, is_hash, Run, run_identity, find_row, artifact_name,
  ArtifactRow,
}
use cardano_on_evm.Release.Candidate.Handoff.{
  HandoffReceipt, AssetFile, Handoff, ExpectedReceipt, GitHub, check_handoff_asset,
  check_handoff_assets, read_candidate, check_expected, verify_attestations, run_path, jobs_path,
  rows_path, prior_candidate, check_form, check_tree, check_document, check_jobs, download_artifact,
  expected_of, is_asset_name,
}
use cardano_on_evm.Release.Candidate.Handoff.Attested.{Attested, verify_attestations-Attested}
use cardano_on_evm.Release.Candidate.Handoff.Archive.{
  IsRow, find_row-IsRow, artifact_name-eq, Downloaded, download_artifact-Downloaded,
}

-- The file of an asset is a regular file of the recorded digest and size.
pub record Intact (h : Handoff) (item : Asset) : Type 0 where
  pub file : AssetFile
  pub found : lookup item.name h.assets ≡ some file
  pub regular : file.is_regular ≡ true
  pub digest : file.sha256 ≡ item.sha256
  pub size : file.size ≡ item.size

check_handoff_asset-Intact :
    (h : Handoff) (seen : List Str) (item : Asset)
    → Returns (check_handoff_asset h seen item) (λ u. Intact h item)
unfolding check_handoff_asset
check_handoff_asset-Intact h seen item =
    returns_check (not (is_asset_name item.name) || not (is_hash item.sha256)) _ _ _ λ named.
      returns_check (includes item.name seen) _ _ _ λ fresh.
        returns_bind (or_throw (lookup item.name h.assets) _) _ _ λ file found.
          returns_check (not file.is_regular) _ _ _ λ regular. returns_last _ _ λ u same.
            let same =
              throw_if-eq-ok (not (file.size == item.size) || not (str_eq file.sha256 item.sha256))
                _ u same in
            record {
              file = file;
              found = or_throw-eq-ok (lookup item.name h.assets) _ found;
              regular = ground (arith, regular);
              digest = (str_eq_iff file.sha256 item.sha256).0 (ground (arith, same));
              size = ground (arith, same);
            }

check_handoff_assets-Intact :
    (h : Handoff) (seen : List Str) (items : List Asset)
    → Returns (check_handoff_assets h seen items) (λ u. All (Intact h) items)
unfolding check_handoff_assets Returns
check_handoff_assets-Intact h seen [] u e = tt
check_handoff_assets-Intact h seen (item ∷ items) u e =
    let (v, first, rest) = >>=-eq-ok (check_handoff_asset h seen item) _ e in
    (
      check_handoff_asset-Intact h seen item v first,
      check_handoff_assets-Intact h (item.name ∷ seen) items u rest,
    )

-- What a handoff that is read is known to be.
pub record Checked (read : Handoff) (expected : ExpectedReceipt) (h : Handoff) : Type 0 where
  pub same : read ≡ h
  pub is_as_expected : check_expected h.receipt expected ≡ ok tt
  pub assets : All (Intact h) h.receipt.assets

read_candidate-Checked :
    (h : Handoff) (expected : ExpectedReceipt)
    → Returns (read_candidate h expected) (Checked h expected)
unfolding read_candidate Returns
read_candidate-Checked h expected =
    let r = h.receipt in
    returns_bind (check_form r) _ _ λ u formed.
      returns_bind (check_expected r expected) _ _ λ v as_expected.
        returns_bind (check_tree h) _ _ λ w tree.
          returns_check (not (ltb 2 (length r.assets))) _ _ _ λ enough.
            returns_bind (check_handoff_assets h [] r.assets) _ _ λ x intact.
              returns_check
                (not (
                  same_names
                    (sort_by text_before (map (λ (entry : Str × AssetFile). entry.0) h.assets))
                    (sort_by text_before (map (λ (item : Asset). item.name) r.assets))))
                _ _ _
                λ same_set.
                  returns_check (not (str_eq h.context_mode (codes "candidate"))) _ _ _ λ candidate.
                    returns_bind (check_document r h.context) _ _ λ y context.
                      returns_bind (check_document r h.manifest) _ _ λ z manifest.
                        returns_check (not (str_eq h.manifest_version r.version)) _ _ _ λ version.
                          returns_last _ _ λ c same.
                            subst (Checked h expected) (ok-injective same) (record {
                              same = refl;
                              is_as_expected = as_expected;
                              assets = check_handoff_assets-Intact h [] r.assets x intact;
                            })

-- A handoff of the expected repository, commit and run.
check_expected-same :
    (r : HandoffReceipt) (repository commit run_id attempt : Str) (id : Option Str)
    (rehearsal : Bool) (u : Unit {0})
    → check_expected r (record {
      repository = some repository;
      commit = some commit;
      version = none;
      run_id = some run_id;
      run_attempt = some attempt;
      candidate_id = id;
      mode = if rehearsal then some candidate_only else none;
    })
      ≡ ok u
    → (r.repository ≡ repository) × (r.commit ≡ commit) × (r.run_id ≡ run_id)
unfolding check_expected
check_expected-same r repository commit run_id attempt id rehearsal u e =
    let passed = throw_if-eq-ok _ _ u e in
    (
      (str_eq_iff r.repository repository).0 (ground (arith, passed)),
      (str_eq_iff r.commit commit).0 (ground (arith, passed)),
      (str_eq_iff r.run_id run_id).0 (ground (arith, passed)),
    )

run_identity-main :
    (run : Run) (repository run_id attempt : Str) (successful : Bool)
    → Returns
        (run_identity run repository run_id attempt successful)
        (λ r. (run ≡ r) × (r.head_branch ≡ codes "main"))
unfolding run_identity Returns
run_identity-main run repository run_id attempt successful =
    returns_check (not (str_eq run.id run_id)) _ _ _ λ same_id.
      returns_check (not (str_eq run.run_attempt attempt)) _ _ _ λ same_attempt.
        returns_check (not (str_eq run.repository repository)) _ _ _ λ same_repository.
          returns_check (not (str_eq run.path (codes ".github/workflows/release.yml"))) _ _ _
            λ path. returns_check (not (str_eq run.head_branch (codes "main"))) _ _ _ λ main.
              returns_check
                (not (includes run.event (codes "push" ∷ codes "workflow_dispatch" ∷ []))) _ _ _
                λ event. returns_check (not (is_sha run.head_sha)) _ _ _ λ sha.
                  returns_check (not (str_eq run.status (codes "completed"))) _ _ _ λ completed.
                    returns_check (successful && not (str_eq run.conclusion (codes "success"))) _ _
                      _
                      λ success. returns_last _ _ λ r same.
                        subst (λ (r : Run). (run ≡ r) × (r.head_branch ≡ codes "main"))
                          (ok-injective same) (refl, (str_eq_iff _ _).0 (ground (arith, main)))

-- What the candidate of a prior run is known to be.
pub record Trusted (github : GitHub) (repository run_id attempt out current : Str) (c : Handoff)
    (run : Run) : Type 0 where
  pub rows : List ArtifactRow
  pub row : ArtifactRow
  pub not_current : str_eq run_id current ≡ false
  pub reported : github.run (run_path repository run_id attempt) ≡ ok run
  pub on_main : run.head_branch ≡ codes "main"
  pub listed : github.rows (rows_path repository run_id) ≡ ok rows
  pub is_row : IsRow rows (codes "release-candidate-" ++ run_id ++ codes "-" ++ attempt) row
  pub downloaded : Downloaded github repository row c
  pub same_repository : c.receipt.repository ≡ repository
  pub same_commit : c.receipt.commit ≡ run.head_sha
  pub same_run : c.receipt.run_id ≡ run_id
  pub intact : All (Intact c) c.receipt.assets
  pub attested : All (Attested github out repository run.head_sha) c.receipt.assets

Attested-subst :
    (github : GitHub) (out : Str) (c : Handoff) (repository commit : Str)
    → c.receipt.repository ≡ repository
    → c.receipt.commit ≡ commit
    → All (Attested github out c.receipt.repository c.receipt.commit) c.receipt.assets
    → All (Attested github out repository commit) c.receipt.assets
Attested-subst github out c repository commit r m h =
    subst (λ (x : Str). All (Attested github out repository x) c.receipt.assets) m
      (subst (λ (x : Str). All (Attested github out x c.receipt.commit) c.receipt.assets) r h)

prior_candidate-returns :
    (github : GitHub) (repository run_id attempt out : Str) (rehearsal : Bool) (current : Str)
    (expected_id : Option Str)
    → Returns
        (prior_candidate github repository run_id attempt out rehearsal current expected_id)
        (λ found. Trusted github repository run_id attempt out current found.0 found.1)
unfolding prior_candidate Returns
prior_candidate-returns github repository run_id attempt out rehearsal current expected_id =
    returns_check (not (is_repository repository) || not (is_id run_id) || not (is_id attempt)) _ _
      _
      λ formed. returns_check (str_eq run_id current) _ _ _ λ other.
        returns_bind (github.run (run_path repository run_id attempt)) _ _ λ reported is_reported.
          returns_bind (run_identity reported repository run_id attempt rehearsal) _ _ λ run of_run.
            returns_bind (github.jobs (jobs_path repository run_id attempt)) _ _ λ jobs are_jobs.
              returns_bind (check_jobs github rehearsal jobs) _ _ λ u reviewed.
                returns_bind (github.rows (rows_path repository run_id)) _ _ λ rows are_rows.
                  returns_bind (artifact_name run_id attempt) _ _ λ name named.
                    returns_bind (find_row rows name) _ _ λ row found.
                      returns_bind (download_artifact github repository row.id row.digest) _ _
                        λ handoff downloaded.
                          returns_bind
                            (read_candidate handoff (
                              expected_of github repository run.head_sha run_id attempt expected_id
                                rehearsal))
                            _ _
                            λ c read.
                              returns_bind
                                (verify_attestations github out c.receipt c.receipt.assets) _ _
                                λ v verified. returns_last _ _ λ pair same.
                                  let (is_run, main) =
                                    run_identity-main reported repository run_id attempt rehearsal
                                      run of_run in
                                  let checked = read_candidate-Checked handoff _ c read in
                                  let (r, m, i) =
                                    check_expected-same c.receipt repository run.head_sha run_id
                                      attempt expected_id rehearsal tt checked.is_as_expected in
                                  subst
                                    (λ (found : Handoff × Run).
                                      Trusted github repository run_id attempt out current found.0
                                        found.1)
                                    (ok-injective same)
                                    (record {
                                      rows = rows;
                                      row = row;
                                      not_current = other;
                                      reported = is_reported ∙ ap ok is_run;
                                      on_main = main;
                                      listed = are_rows;
                                      is_row =
                                          subst (λ (n : Str). IsRow rows n row)
                                            (artifact_name-eq run_id attempt name named)
                                            (find_row-IsRow rows name row found);
                                      downloaded =
                                          subst (Downloaded github repository row) checked.same (
                                            download_artifact-Downloaded github repository row
                                              handoff downloaded);
                                      same_repository = r;
                                      same_commit = m;
                                      same_run = i;
                                      intact = checked.assets;
                                      attested =
                                          Attested-subst github out c repository run.head_sha r m (
                                            verify_attestations-Attested github out c.receipt
                                              c.receipt.assets v verified);
                                    })

-- A candidate that is taken from a prior run is of another run than the current one, which GitHub
-- reports for the repository, the run and the attempt as a run on the branch main. It is the content
-- of the archive of an artifact that GitHub lists for the run under the name of the candidate, whose
-- bytes have the digest of the artifact. Its receipt names the repository, the run and the run's
-- commit; and every asset of the receipt is a regular file of the recorded digest and size, of which
-- `gh` has verified an attestation with the repository, the run's commit as the source's and the
-- signer's digest, and the identity of the repository's release workflow on main as its arguments.
pub prior_candidate-Trusted :
    (github : GitHub) (repository run_id attempt out : Str) (rehearsal : Bool) (current : Str)
    (expected_id : Option Str) (c : Handoff) (run : Run)
    → prior_candidate github repository run_id attempt out rehearsal current expected_id
      ≡ ok (c, run)
    → Trusted github repository run_id attempt out current c run
unfolding Returns
prior_candidate-Trusted github repository run_id attempt out rehearsal current expected_id c run h =
    prior_candidate-returns github repository run_id attempt out rehearsal current expected_id
      (c, run) h

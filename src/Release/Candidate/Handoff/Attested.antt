-- ===== src/Release/Candidate/Handoff/Attested.antt =====
-- The attestations that verifyAttestations of scripts/release/github.mjs has verified.
use mathlib.Core.Path.{subst}
use cardano_on_evm.Prelude.{
  ℕ, ◌≡◌, ◌≢◌, refl, true, not, ◌||◌, List, [], ◌∷◌, ◌++◌, All, arith, ok, >>=-eq-ok, >>-eq-ok,
  Returns, ok-injective, Str, codes, str_eq, str_eq_iff, ◌==◌,
}
use cardano_on_evm.Release.Publish.{Asset}
use cardano_on_evm.Release.Candidate.{is_sha, is_repository, workflow_of}
use cardano_on_evm.Release.Candidate.Handoff.{
  HandoffReceipt, GitHub, asset_path, bundle_path, attestation_args, verify_attestations,
}

-- An option of a command, with the value that follows it.
abbrev pub Passes : Str → Str → List Str → Type 0
Passes option value arguments =
    (front : List Str) × (back : List Str) × (arguments ≡ front ++ option ∷ value ∷ back)

-- The arguments ask for the attestation of the file, by its bundle, for the repository, the commit and
-- the release workflow on the branch main.
pub record Demands (repository commit file bundle : Str) (arguments : List Str) : Type 0 where
  pub verifies : Passes (codes "verify") file arguments
  pub of_repository : Passes (codes "--repo") repository arguments
  pub of_bundle : Passes (codes "--bundle") bundle arguments
  pub of_source : Passes (codes "--source-digest") commit arguments
  pub of_branch : Passes (codes "--source-ref") (codes "refs/heads/main") arguments
  pub of_signer : Passes (codes "--signer-digest") commit arguments
  pub of_identity :
      Passes
        (codes "--cert-identity")
        (codes "https://github.com/"
          ++ repository
          ++ codes "/.github/workflows/release.yml@refs/heads/main")
        arguments
  pub is_repository : is_repository repository ≡ true
  pub is_commit : is_sha commit ≡ true

attestation_args-Demands :
    (file bundle : Str) (r : HandoffReceipt) (arguments : List Str)
    → attestation_args file r bundle ≡ ok arguments
    → Demands r.repository r.commit file bundle arguments
unfolding attestation_args
attestation_args-Demands file bundle r arguments h =
    let (formed, h₁) = >>-eq-ok (not (is_repository r.repository) || not (is_sha r.commit)) _ _ h in
    let (signer, h₂) = >>-eq-ok (not (str_eq r.workflow (workflow_of r.repository))) _ _ h₁ in
    let workflow : r.workflow ≡ workflow_of r.repository =
      (str_eq_iff _ _).0 (ground (arith, signer)) in
    subst (Demands r.repository r.commit file bundle) (ok-injective h₂) (record {
      verifies = (_ ∷ [], _, refl);
      of_repository = (_ ∷ _ ∷ _ ∷ [], _, refl);
      of_bundle = (_ ∷ _ ∷ _ ∷ _ ∷ _ ∷ [], _, refl);
      of_source = (_ ∷ _ ∷ _ ∷ _ ∷ _ ∷ _ ∷ _ ∷ [], _, refl);
      of_branch = (_ ∷ _ ∷ _ ∷ _ ∷ _ ∷ _ ∷ _ ∷ _ ∷ _ ∷ [], _, refl);
      of_signer = (_ ∷ _ ∷ _ ∷ _ ∷ _ ∷ _ ∷ _ ∷ _ ∷ _ ∷ _ ∷ _ ∷ [], _, refl);
      of_identity = (
        codes "attestation"
            ∷ codes "verify"
            ∷ file
            ∷ codes "--repo"
            ∷ r.repository
            ∷ codes "--bundle"
            ∷ bundle
            ∷ codes "--source-digest"
            ∷ r.commit
            ∷ codes "--source-ref"
            ∷ codes "refs/heads/main"
            ∷ codes "--signer-digest"
            ∷ r.commit
            ∷ [],
        codes "--deny-self-hosted-runners" ∷ codes "--format" ∷ codes "json" ∷ [],
        rw (workflow) refl,
      );
      is_repository = ground (arith, formed);
      is_commit = ground (arith, formed);
    })

-- `gh` has verified an attestation of the asset in the directory `root`, for the repository, the commit
-- and the release workflow.
pub record Attested (github : GitHub) (root repository commit : Str) (item : Asset) : Type 0 where
  pub arguments : List Str
  pub verified : ℕ
  pub demands : Demands repository commit (asset_path root item.name) (bundle_path root) arguments
  pub attested : github.attest arguments ≡ ok verified
  pub some_verified : verified ≢ 0

pub verify_attestations-Attested :
    (github : GitHub) (root : Str) (r : HandoffReceipt) (items : List Asset)
    → Returns
        (verify_attestations github root r items)
        (λ u. All (Attested github root r.repository r.commit) items)
unfolding verify_attestations Returns
verify_attestations-Attested github root r [] u e = tt
verify_attestations-Attested github root r (item ∷ items) u e =
    let (arguments, made, e₁) =
      >>=-eq-ok (attestation_args (asset_path root item.name) r (bundle_path root)) _ e in
    let (verified, attested, e₂) = >>=-eq-ok (github.attest arguments) _ e₁ in
    let (some_of, e₃) = >>-eq-ok (verified == 0) _ _ e₂ in
    (
      record {
        arguments = arguments;
        verified = verified;
        demands =
            attestation_args-Demands (asset_path root item.name) (bundle_path root) r arguments
              made;
        attested = attested;
        some_verified = λ none_of. ground (arith, some_of, none_of);
      },
      verify_attestations-Attested github root r items u e₃,
    )

-- ===== src/Release/Publish/Sound.antt =====
-- What a publication proves of the server.
use mathlib.Core.Path.{subst}
use cardano_on_evm.Prelude.{
  ◌≡◌, refl, sym, ap, ◌∙◌, Bool, false, not, List, [], ◌∷◌, ◌++◌, Option, none, some, ok, >>-eq-ok,
  or_throw-eq-ok, ok-injective, ok-ne-err, Str, codes, length,
}
use cardano_on_evm.Protocol.Profiles.{sort_by, text_before}
use cardano_on_evm.Submission.Adapters.{Call}
use cardano_on_evm.Submission.Adapters.Traces.{Ends, ends_call, ends_pure, ends_last}
use cardano_on_evm.Release.Publish.{
  Asset, Candidate, RemoteAsset, Release, Plan, Published, Remote, when, expected_assets, names_of,
  remote_names, check_release_state, download_checked, stage_release, verify_release,
  confirm_published, publish_candidate,
}
use cardano_on_evm.Release.Publish.Matching.{kept}
use cardano_on_evm.Release.Publish.Reread.{Unchanged, check_unchanged-Unchanged}
use cardano_on_evm.Release.Publish.Existing.{
  same_names-eq, is_commit-eq, Conforms, check_release_state-Conforms,
}

-- What a publication returns of its candidate, its plan and the release that it found at the end.
abbrev pub Reports : Candidate → Plan → List RemoteAsset → Release → Published → Type 0
Reports candidate plan final release p =
    (p.commit ≡ candidate.receipt.commit)
    × (p.candidate_id ≡ candidate.receipt.candidate_id)
    × (p.assets_verified ≡ length final)
    × (p.already_published ≡ plan.published)
    × (p.url ≡ release.url)

module _ {N : Type 0} (remote : Remote N) where
  -- The server gives the second list, one download for each asset of the first.
  pub data Downloads : List RemoteAsset → List RemoteAsset → N → N → Type 0 where
    nothing : (n : N) → Downloads [] [] n n
    next :
        (item got : RemoteAsset) (items rest : List RemoteAsset) (n n₁ n' : N)
        → remote.download item n ≡ (ok got, n₁)
        → Downloads items rest n₁ n'
        → Downloads (item ∷ items) (got ∷ rest) n n'

  download_checked-Downloads :
      (expected : List Asset) (items : List RemoteAsset) (n : N)
      → Ends (download_checked remote expected items) n (λ final. Downloads items final n)
  unfolding download_checked Ends
  download_checked-Downloads expected [] n =
      ends_last (ok []) n (λ final. Downloads [] final n)
        λ final same.
          subst (λ (f : List RemoteAsset). Downloads [] f n n) (ok-injective same) (nothing n)
  download_checked-Downloads expected (item ∷ items) n = ends_call _ _ _ _ λ got n₁ gives.
      ends_pure _ _ _ _ λ u same. ends_call _ _ _ _ λ rest n' others. ends_last _ _ _ λ final is.
        subst (λ (f : List RemoteAsset). Downloads (item ∷ items) f n n') (ok-injective is)
          (next item got items rest n n₁ n' gives
            (download_checked-Downloads expected items n₁ rest n' others))

  -- What was read back from the server before the release was published, from the state `n` on.
  pub record Verified (candidate : Candidate) (tag : Str) (verify_downloaded : Call N (Unit {0}))
      (n : N) (final : List RemoteAsset) (n' : N) : Type 0 where
    pub release : Release
    pub last_release : Release
    pub assets : List RemoteAsset
    pub last_assets : List RemoteAsset
    pub n₁ : N
    pub n₂ : N
    pub n₃ : N
    pub n₄ : N
    pub n₅ : N
    pub n₆ : N
    pub n₇ : N
    pub released : remote.release tag n ≡ (ok (some release), n₁)
    pub attached : remote.assets (some release) n₁ ≡ (ok assets, n₂)
    pub complete :
        sort_by text_before (remote_names assets)
        ≡ sort_by text_before (names_of (expected_assets candidate))
    pub downloads : Downloads assets final n₂ n₃
    pub tagged : remote.tag_commit tag n₃ ≡ (ok (some candidate.receipt.commit), n₄)
    pub conforms : Conforms candidate release final
    pub verified : verify_downloaded n₄ ≡ (ok tt, n₅)
    pub released_again : remote.release tag n₅ ≡ (ok (some last_release), n₆)
    pub attached_again : remote.assets (some last_release) n₆ ≡ (ok last_assets, n₇)
    pub tagged_again : remote.tag_commit tag n₇ ≡ (ok (some candidate.receipt.commit), n')
    pub unchanged : Unchanged release assets last_release last_assets

  verify_release-ends :
      (candidate : Candidate) (tag : Str) (verify_downloaded : Call N (Unit {0})) (n : N)
      → Ends
          (verify_release remote candidate tag verify_downloaded)
          n
          (Verified candidate tag verify_downloaded n)
  unfolding verify_release Ends
  verify_release-ends candidate tag verify_downloaded n = ends_call _ _ _ _ λ found n₁ e₁.
      ends_call _ _ _ _ λ assets n₂ e₂. ends_pure _ _ _ _ λ u named.
        ends_call _ _ _ _ λ final n₃ got. ends_call _ _ _ _ λ commit n₄ e₃.
          ends_pure _ _ _ _ λ again checked. ends_pure _ _ _ _ λ release there.
            ends_call _ _ _ _ λ v n₅ verified. ends_call _ _ _ _ λ last_release n₆ e₄.
              ends_call _ _ _ _ λ last_assets n₇ e₅. ends_call _ _ _ _ λ last_commit n₈ read.
                ends_pure _ _ _ _ λ u' pinned. ends_pure _ _ _ _ λ u'' unchanged.
                  ends_last _ _ _ λ r same.
                    let found_is : found ≡ some release = or_throw-eq-ok _ _ there in
                    let conforms =
                      check_release_state-Conforms candidate commit release final again (
                        subst
                          (λ (o : Option Release).
                            check_release_state candidate commit o final ≡ ok again)
                          found_is checked) in
                    let (last, last_there, as_before) =
                      check_unchanged-Unchanged release assets last_release last_assets u''
                        unchanged in
                    let last_is =
                      is_commit-eq last_commit candidate.receipt.commit (kept _ _ u' pinned) in
                    subst
                      (λ (f : List RemoteAsset). Verified candidate tag verify_downloaded n f n₈)
                      (ok-injective same)
                      (record {
                        release = release;
                        last_release = last;
                        assets = assets;
                        last_assets = last_assets;
                        n₁ = n₁;
                        n₂ = n₂;
                        n₃ = n₃;
                        n₄ = n₄;
                        n₅ = n₅;
                        n₆ = n₆;
                        n₇ = n₇;
                        released = e₁ ∙ ap (λ (o : Option Release). (ok o, n₁)) found_is;
                        attached =
                            subst (λ (o : Option Release). remote.assets o n₁ ≡ (ok assets, n₂))
                              found_is e₂;
                        complete = same_names-eq _ _ (kept _ _ u named);
                        downloads =
                            download_checked-Downloads (expected_assets candidate) assets n₂ final
                              n₃ got;
                        tagged = e₃ ∙ ap (λ (o : Option Str). (ok o, n₄)) conforms.0;
                        conforms = conforms.1;
                        verified = verified;
                        released_again = e₄ ∙ ap (λ (o : Option Release). (ok o, n₆)) last_there;
                        attached_again =
                            subst
                              (λ (o : Option Release). remote.assets o n₆ ≡ (ok last_assets, n₇))
                              last_there e₅;
                        tagged_again = read ∙ ap (λ (o : Option Str). (ok o, n₈)) last_is;
                        unchanged = as_before;
                      })

  -- What stands behind a publication, from the state `n` to the state `n'`.
  pub record Confirmed (candidate : Candidate) (verify_downloaded : Call N (Unit {0})) (n : N)
      (p : Published) (n' : N) : Type 0 where
    pub plan : Plan
    pub final : List RemoteAsset
    pub release : Release
    pub m₁ : N
    pub m₂ : N
    pub m₃ : N
    pub stages :
        stage_release remote candidate (codes "v" ++ candidate.receipt.version) n ≡ (ok plan, m₁)
    pub verifies :
        Verified candidate (codes "v" ++ candidate.receipt.version) verify_downloaded m₁ final m₂
    pub publishes :
        when remote
          (not p.already_published)
          (remote.publish (codes "v" ++ candidate.receipt.version))
          m₂
        ≡ (ok tt, m₃)
    pub released :
        remote.release (codes "v" ++ candidate.receipt.version) m₃ ≡ (ok (some release), n')
    pub public : release.draft ≡ false
    pub is_published : Reports candidate plan final release p

  confirm_published-Reports :
      (candidate : Candidate) (tag : Str) (plan : Plan) (final : List RemoteAsset)
      (found : Option Release) (p : Published)
      → confirm_published remote candidate tag plan final found ≡ ok p
      → (release : Release) × (found ≡ some release)
        × (release.draft ≡ false)
        × Reports candidate plan final release p
  unfolding confirm_published
  confirm_published-Reports candidate tag plan final none p h = absurd (ok-ne-err h)
  confirm_published-Reports candidate tag plan final (some release) p h =
      let (public, h₁) = >>-eq-ok release.draft _ _ h in
      (
        release,
        refl,
        public,
        subst (Reports candidate plan final release) (ok-injective h₁)
            (refl, refl, refl, refl, refl),
      )

  publish_candidate-ends :
      (candidate : Candidate) (verify_downloaded : Call N (Unit {0})) (n : N)
      → Ends
          (publish_candidate remote candidate verify_downloaded)
          n
          (Confirmed candidate verify_downloaded n)
  unfolding publish_candidate Ends
  publish_candidate-ends candidate verify_downloaded n = ends_call _ _ _ _ λ plan m₁ e₁.
      ends_call _ _ _ _ λ final m₂ e₂. ends_call _ _ _ _ λ u m₃ e₃.
        ends_call _ _ _ _ λ found m₄ read. ends_last _ _ _ λ p confirmed.
          let tag = codes "v" ++ candidate.receipt.version in
          let (release, found_is, public, reports) =
            confirm_published-Reports candidate tag plan final found p confirmed in
          record {
            plan = plan;
            final = final;
            release = release;
            m₁ = m₁;
            m₂ = m₂;
            m₃ = m₃;
            stages = e₁;
            verifies = verify_release-ends candidate tag verify_downloaded m₁ final m₂ e₂;
            publishes =
                subst (λ (b : Bool). when remote (not b) (remote.publish tag) m₂ ≡ (ok tt, m₃))
                  (sym reports.3) e₃;
            released = read ∙ ap (λ (o : Option Release). (ok o, m₄)) found_is;
            public = public;
            is_published = reports;
          }

  -- A publication that returns has, in this order, staged the release and verified what the server then
  -- holds: the server gives a release of the candidate's tag whose text begins with the marker of this
  -- candidate as its first line; the names of its assets are those of the candidate; the server gives
  -- each of them, uploaded, with the hash and the size of the candidate's asset of that name; the tag
  -- is at the candidate's commit; the verification of the download returns; and when they are read
  -- again, the release has the same id, text and draft state, its assets have the same ids, names,
  -- sizes and states, and the tag is still at that commit. Then it was published, unless the plan found
  -- it published, and the server gave a release of the tag that is no draft. What is returned has the
  -- candidate's commit and identity, the number of the downloaded assets, whether it was published
  -- before and the URL of that release.
  pub publish_candidate-Confirmed :
      (candidate : Candidate) (verify_downloaded : Call N (Unit {0})) (n n' : N) (p : Published)
      → publish_candidate remote candidate verify_downloaded n ≡ (ok p, n')
      → Confirmed candidate verify_downloaded n p n'
  unfolding Ends
  publish_candidate-Confirmed candidate verify_downloaded n n' p h =
      publish_candidate-ends candidate verify_downloaded n p n' h

-- ===== src/Release/Publish/Existing.antt =====
-- What checkReleaseState of scripts/release/publish.mjs says of a release that exists.
use cardano_on_evm.Prelude.{
  ◌≡◌, refl, ap, true, not, List, [], ◌∷◌, ◌++◌, Option, none, some, arith, ok, >>=-eq-ok, >>-eq-ok,
  Str, codes, str_eq, str_eq_iff, All,
}
use cardano_on_evm.Release.Publish.{
  Candidate, RemoteAsset, Release, Plan, expected_assets, check_assets, check_release,
  check_release_state, other_commit, is_commit, has_marker, release_marker, same_names,
}
use cardano_on_evm.Release.Publish.Matching.{
  Matches, IsMarked, check_assets-Matches, has_marker-IsMarked,
}

pub same_names-eq : (xs ys : List Str) → same_names xs ys ≡ true → xs ≡ ys
unfolding same_names
same_names-eq [] [] h = refl
same_names-eq [] (y ∷ ys) h = cc
same_names-eq (x ∷ xs) [] h = cc
same_names-eq (x ∷ xs) (y ∷ ys) h =
    cc ((str_eq_iff x y).0 (ground (arith, h)), same_names-eq xs ys (ground (arith, h)))

pub is_commit-eq : (t : Option Str) (c : Str) → is_commit t c ≡ true → t ≡ some c
is_commit-eq none c h = cc
is_commit-eq (some x) c h = ap some ((str_eq_iff x c).0 h)

-- What the check of an existing release proves.
abbrev pub Conforms : Candidate → Release → List RemoteAsset → Type 0
Conforms candidate release actual =
    (release.tag_name ≡ codes "v" ++ candidate.receipt.version)
    × IsMarked candidate release
    × All (Matches candidate) actual

pub check_release_state-Conforms :
    (candidate : Candidate) (t : Option Str) (release : Release) (actual : List RemoteAsset)
    (plan : Plan)
    → check_release_state candidate t (some release) actual ≡ ok plan
    → (t ≡ some candidate.receipt.commit) × Conforms candidate release actual
unfolding check_release_state check_release
check_release_state-Conforms candidate t release actual plan h =
    let (_, h₀) = >>-eq-ok (other_commit t candidate.receipt.commit) _ _ h in
    let (tagged, h₁) = >>-eq-ok (not (is_commit t candidate.receipt.commit)) _ _ h₀ in
    let (named, h₂) =
      >>-eq-ok (not (str_eq release.tag_name (codes "v" ++ candidate.receipt.version))) _ _ h₁ in
    let (_, h₃) = >>-eq-ok release.prerelease _ _ h₂ in
    let (marked, h₄) =
      >>-eq-ok (not (has_marker release.body (release_marker candidate.receipt))) _ _ h₃ in
    let (u, e, _) = >>=-eq-ok (check_assets (expected_assets candidate) [] actual) _ h₄ in
    (
      is_commit-eq t candidate.receipt.commit (ground (arith, tagged)),
      (
        (str_eq_iff _ _).0 (ground (arith, named)),
        has_marker-IsMarked candidate release (ground (arith, marked)),
        check_assets-Matches candidate [] actual u e,
      ),
    )

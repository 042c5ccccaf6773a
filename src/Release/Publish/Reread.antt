-- ===== src/Release/Publish/Reread.antt =====
-- The release and its assets when publishCandidate of scripts/release/publish.mjs reads them again.
use cardano_on_evm.Prelude.{
  ℕ, ◌==◌, ==_iff, map, ◌≡◌, refl, sym, ap, Bool, true, false, not, List, [], ◌∷◌, Option, none,
  some, arith, ok, >>-eq-ok, ok-ne-err, Str, str_eq_iff,
}
use cardano_on_evm.Release.Publish.{
  RemoteAsset, Release, same_assets, sorted_assets, same_body, same_bool, check_unchanged,
}
use cardano_on_evm.Release.Publish.Matching.{kept}

-- What is compared of an asset when the server is read again.
abbrev pub asset_key : RemoteAsset → ℕ × Str × ℕ × Str
asset_key a = (a.id, a.name, a.size, a.state)

-- The release and its assets are read again as they were.
abbrev pub Unchanged : Release → List RemoteAsset → Release → List RemoteAsset → Type 0
Unchanged release assets last last_assets =
    (last.id ≡ release.id)
    × (last.body ≡ release.body)
    × (last.draft ≡ release.draft)
    × (map asset_key (sorted_assets last_assets) ≡ map asset_key (sorted_assets assets))

same_assets-eq :
    (xs ys : List RemoteAsset) → same_assets xs ys ≡ true → map asset_key xs ≡ map asset_key ys
unfolding same_assets
same_assets-eq [] [] h = refl
same_assets-eq [] (y ∷ ys) h = cc
same_assets-eq (x ∷ xs) [] h = cc
same_assets-eq (x ∷ xs) (y ∷ ys) h = cc (
  (==_iff x.id y.id).0 (ground (arith, h)),
  (str_eq_iff x.name y.name).0 (ground (arith, h)),
  (==_iff x.size y.size).0 (ground (arith, h)),
  (str_eq_iff x.state y.state).0 (ground (arith, h)),
  same_assets-eq xs ys (ground (arith, h)),
)

same_body-eq : (a b : Option Str) → same_body a b ≡ true → a ≡ b
same_body-eq none none h = refl
same_body-eq (some a) (some b) h = ap some ((str_eq_iff a b).0 h)
same_body-eq none (some b) h = cc
same_body-eq (some a) none h = cc

same_bool-eq : (a b : Bool) → same_bool a b ≡ true → a ≡ b
same_bool-eq true b h = sym h
same_bool-eq false true h = cc
same_bool-eq false false h = refl

pub check_unchanged-Unchanged :
    (release : Release) (assets : List RemoteAsset) (found : Option Release)
    (last_assets : List RemoteAsset) (u : Unit {0})
    → check_unchanged release assets found last_assets ≡ ok u
    → (last : Release) × (found ≡ some last) × Unchanged release assets last last_assets
unfolding check_unchanged
check_unchanged-Unchanged release assets none last_assets u h = absurd (ok-ne-err h)
check_unchanged-Unchanged release assets (some last) last_assets u h =
    let (id, h₁) = >>-eq-ok (not (last.id == release.id)) _ _ h in
    let (body, h₂) = >>-eq-ok (not (same_body last.body release.body)) _ _ h₁ in
    let (draft, h₃) = >>-eq-ok (not (same_bool last.draft release.draft)) _ _ h₂ in
    (
      last,
      refl,
      (
        (==_iff _ _).0 (ground (arith, id)),
        same_body-eq _ _ (ground (arith, body)),
        same_bool-eq _ _ (ground (arith, draft)),
        same_assets-eq _ _ (kept _ _ u h₃),
      ),
    )

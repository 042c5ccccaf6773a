-- ===== src/Release/Publish/Matching.antt =====
-- What the checks of checkReleaseState in scripts/release/publish.mjs say of an asset and of the text
-- of a release.
use mathlib.Core.Path.{subst}
use mathlib.Core.List.{Memᴰ}
use cardano_on_evm.Prelude.{
  ℕ, ◌≡◌, refl, ap, Bool, true, false, Bool-cases, Option-cases, not, ◌⊎◌, inl, inr, List, [], ◌∷◌,
  ◌++◌, Option, none, some, arith, ok, String, throw_if, or_throw, >>=-eq-ok, >>-eq-ok,
  or_throw-eq-ok, Str, codes, str_eq, str_eq_iff, includes, ◌==◌, ==_iff, All,
}
use cardano_on_evm.Release.Publish.{
  Asset, Candidate, RemoteAsset, Release, release_assets, put_asset, by_name, expected_assets,
  find_asset, check_asset, check_assets, first_line, has_marker, release_marker,
}

-- An asset that is on the server as the candidate has it.
pub record Matches (candidate : Candidate) (item : RemoteAsset) : Type 0 where
  pub wanted : Asset
  pub listed : Memᴰ wanted (release_assets candidate)
  pub name : wanted.name ≡ item.name
  pub uploaded : item.state ≡ codes "uploaded"
  pub hash : item.sha256 ≡ wanted.sha256
  pub size : item.size ≡ wanted.size

-- A text that is the line, or begins with it and a line feed.
abbrev pub IsFirstLine : Str → Str → Type 0
IsFirstLine line s = (s ≡ line) ⊎ ((rest : Str) × (s ≡ line ++ 10 ∷ rest))

-- A release whose text begins with the marker of the candidate.
abbrev pub IsMarked : Candidate → Release → Type 0
IsMarked candidate release =
    (body : Str) × (release.body ≡ some body) × IsFirstLine (release_marker candidate.receipt) body

module _ (P : Asset → Type 0) where
  put_asset-All : (a : Asset) (m : List Asset) → P a → All P m → All P (put_asset a m)
  unfolding put_asset
  put_asset-All a [] p h = (p, tt)
  put_asset-All a (b ∷ bs) p (q, h) = elim (Bool-cases (str_eq b.name a.name)) [
    | inl same ↦ (rw same (p, h))
    | inr other ↦ (rw other (q, put_asset-All a bs p h))
  ]

  by_name-All : (m items : List Asset) → All P m → All P items → All P (by_name m items)
  unfolding by_name
  by_name-All m [] h tt = h
  by_name-All m (a ∷ items) h (p, hs) = by_name-All (put_asset a m) items (put_asset-All a m p h) hs

  find_asset-All :
      (name : Str) (items : List Asset) (a : Asset)
      → All P items
      → find_asset name items ≡ some a
      → P a × (a.name ≡ name)
  unfolding find_asset
  find_asset-All name [] a h found = cc
  find_asset-All name (b ∷ bs) a (p, h) found = elim (Bool-cases (str_eq b.name name)) [
    | inl same ↦
        let e : some b ≡ some a = (rw same at found) in
        let is_b : b ≡ a = ap (λ (o : Option Asset). elim o [ none ↦ b | some y ↦ y ]) e in
        subst (λ (x : Asset). P x × (x.name ≡ name)) is_b (p, (str_eq_iff b.name name).0 same)
    | inr other ↦ find_asset-All name bs a h (rw other at found)
  ]

members :
    (items whole : List Asset)
    → ((a : Asset) → Memᴰ a items → Memᴰ a whole)
    → All (λ (a : Asset). Memᴰ a whole) items
members [] whole f = tt
members (a ∷ items) whole f =
    (f a (Memᴰ.head refl), members items whole (λ b there. f b (Memᴰ.tail there)))

find_asset-Mem :
    (candidate : Candidate) (name : Str) (a : Asset)
    → find_asset name (expected_assets candidate) ≡ some a
    → Memᴰ a (release_assets candidate) × (a.name ≡ name)
find_asset-Mem candidate name a found =
    let IsListed : Asset → Type 0 = λ x. Memᴰ x (release_assets candidate) in
    find_asset-All IsListed name (expected_assets candidate) a
      (by_name-All IsListed [] (release_assets candidate) tt
        (members (release_assets candidate) (release_assets candidate) (λ x there. there)))
      found

pub kept : (m : String) (b : Bool) (u : Unit {0}) → throw_if (not b) m ≡ ok u → b ≡ true
kept m true u h = refl
kept m false u h = cc

check_asset-Matches :
    (candidate : Candidate) (seen : List Str) (item : RemoteAsset) (u : Unit {0})
    → check_asset (expected_assets candidate) seen item ≡ ok u
    → Matches candidate item
unfolding check_asset
check_asset-Matches candidate seen item u h =
    let (wanted, e, h₁) =
      >>=-eq-ok (or_throw (find_asset item.name (expected_assets candidate)) _) _ h in
    let (_, h₂) = >>-eq-ok (includes item.name seen) _ _ h₁ in
    let (uploaded, h₃) = >>-eq-ok (not (str_eq item.state (codes "uploaded"))) _ _ h₂ in
    let (hash, h₄) = >>-eq-ok (not (str_eq item.sha256 wanted.sha256)) _ _ h₃ in
    let (listed, name) = find_asset-Mem candidate item.name wanted (or_throw-eq-ok _ _ e) in
    record {
      wanted = wanted;
      listed = listed;
      name = name;
      uploaded = (str_eq_iff _ _).0 (ground (arith, uploaded));
      hash = (str_eq_iff _ _).0 (ground (arith, hash));
      size = (==_iff _ _).0 (kept _ (item.size == wanted.size) u h₄);
    }

pub check_assets-Matches :
    (candidate : Candidate) (seen : List Str) (items : List RemoteAsset) (u : Unit {0})
    → check_assets (expected_assets candidate) seen items ≡ ok u
    → All (Matches candidate) items
unfolding check_assets
check_assets-Matches candidate seen [] u h = tt
check_assets-Matches candidate seen (item ∷ items) u h =
    let (v, e, h₁) = >>=-eq-ok (check_asset (expected_assets candidate) seen item) _ h in
    (
      check_asset-Matches candidate seen item v e,
      check_assets-Matches candidate (item.name ∷ seen) items u h₁,
    )

first_line-IsFirstLine : (s : Str) → IsFirstLine (first_line s) s
unfolding first_line
first_line-IsFirstLine [] = inl refl
first_line-IsFirstLine (c ∷ s) = elim (Bool-cases (c == 10)) [
  | inl feed ↦ (rw feed (inr (s, ap (λ (x : ℕ). x ∷ s) ((==_iff c 10).0 feed))))
  | inr other ↦ (rw other (longer (first_line-IsFirstLine s)))
]
  where
    longer : IsFirstLine (first_line s) s → IsFirstLine (c ∷ first_line s) (c ∷ s)
    longer (inl e) = inl (ap (λ (x : Str). c ∷ x) e)
    longer (inr (rest, e)) = inr (rest, ap (λ (x : Str). c ∷ x) e)

pub has_marker-IsMarked :
    (candidate : Candidate) (release : Release)
    → has_marker release.body (release_marker candidate.receipt) ≡ true
    → IsMarked candidate release
unfolding has_marker
has_marker-IsMarked candidate release h = elim (Option-cases release.body) [
  | inl missing ↦
      let absent : has_marker none (release_marker candidate.receipt) ≡ true = (rw missing at h) in
      cc absent
  | inr (body, e) ↦
      let marked : has_marker (some body) (release_marker candidate.receipt) ≡ true = (rw e at h) in
      (
        body,
        e,
        subst (λ (line : Str). IsFirstLine line body)
            ((str_eq_iff (first_line body) (release_marker candidate.receipt)).0 marked)
            (first_line-IsFirstLine body),
      )
]

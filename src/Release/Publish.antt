-- ===== src/Release/Publish.antt =====
-- scripts/release/publish.mjs: the state of a release on the server against an approved candidate, and
-- its publication. The server is a machine, which every call may change; the names of assets are
-- ASCII, so `sort` and `localeCompare` may be any order of texts that both sides share.
pub mod Matching
pub mod Reread
pub mod Existing
pub mod Sound
use cardano_on_evm.Prelude.{
  ℕ, Bool, true, false, not, ◌&&◌, ◌||◌, List, [], ◌∷◌, ◌++◌, map, Option, none, some, Result, ok,
  err, ◌>>=◌, ◌>>◌, throw_if, or_throw, Str, codes, str_eq, includes, length, ◌==◌, if◌then◌else◌,
}
use cardano_on_evm.Protocol.Profiles.{sort_by, text_before}
use cardano_on_evm.Submission.Adapters.{Call, chain_call, pure_call, ◌>>>=◌}

pub record Asset : Type 0 where
  pub name : Str
  pub sha256 : Str
  pub size : ℕ

pub record Receipt : Type 0 where
  pub version : Str
  pub commit : Str
  pub candidate_id : Str
  pub bundle_sha256 : Str
  pub assets : List Asset

pub record Candidate : Type 0 where
  pub receipt : Receipt
  pub bundle_size : ℕ

-- An asset on the server; its hash is known once it has been downloaded.
pub record RemoteAsset : Type 0 where
  pub id : ℕ
  pub name : Str
  pub state : Str
  pub sha256 : Str
  pub size : ℕ

pub record Release : Type 0 where
  pub id : ℕ
  pub tag_name : Str
  pub prerelease : Bool
  pub body : Option Str
  pub draft : Bool
  pub url : Str

pub record Plan : Type 0 where
  pub create_tag : Bool
  pub create_draft : Bool
  pub upload : List Asset
  pub published : Bool

abbrev pub release_marker : Receipt → Str
release_marker r =
    codes "<!-- cardano-on-evm-candidate:"
    ++ r.candidate_id
    ++ codes ";commit:"
    ++ r.commit
    ++ codes ";attestation:"
    ++ r.bundle_sha256
    ++ codes " -->"

unfoldable pub release_assets : Candidate → List Asset
release_assets c =
    c.receipt.assets
    ++ record {
      name = codes "provenance.sigstore.jsonl";
      sha256 = c.receipt.bundle_sha256;
      size = c.bundle_size;
    }
      ∷ []

-- The values of `new Map(…)` by name: a name that is given again keeps its place.
unfoldable pub put_asset : Asset → List Asset → List Asset
put_asset a [] = a ∷ []
put_asset a (b ∷ bs) =
    let behind = put_asset a bs in if str_eq b.name a.name then a ∷ bs else b ∷ behind

unfoldable pub by_name : List Asset → List Asset → List Asset
by_name m [] = m
by_name m (a ∷ as') = by_name (put_asset a m) as'

abbrev pub expected_assets : Candidate → List Asset
expected_assets c = by_name [] (release_assets c)

unfoldable pub find_asset : Str → List Asset → Option Asset
find_asset name [] = none
find_asset name (a ∷ rest) = if str_eq a.name name then some a else find_asset name rest

abbrev pub names_of : List Asset → List Str
names_of = map (λ (a : Asset). a.name)

abbrev pub remote_names : List RemoteAsset → List Str
remote_names = map (λ (a : RemoteAsset). a.name)

-- One turn of the loop over the assets on the server.
unfoldable pub check_asset : List Asset → List Str → RemoteAsset → Result (Unit {0})
check_asset expected seen item = do
  wanted ← or_throw (find_asset item.name expected) "Unexpected existing release asset"
  throw_if (includes item.name seen) "Duplicate existing release asset"
  throw_if (not (str_eq item.state (codes "uploaded")))
      "Interrupted/starter asset requires explicit operator inspection"
  throw_if (not (str_eq item.sha256 wanted.sha256)) "Conflicting existing asset"
  throw_if (not (item.size == wanted.size)) "Existing asset size differs"

unfoldable pub check_assets : List Asset → List Str → List RemoteAsset → Result (Unit {0})
check_assets expected seen [] = ok tt
check_assets expected seen (item ∷ items) = do
  check_asset expected seen item
  check_assets expected (item.name ∷ seen) items

-- `filter((item) => !seen.has(item.name))`
unfoldable pub missing : List Str → List Asset → List Asset
missing seen [] = []
missing seen (a ∷ rest) =
    let others = missing seen rest in if includes a.name seen then others else a ∷ others

unfoldable pub first_line : Str → Str
first_line [] = []
first_line (c ∷ s) = let rest = first_line s in if c == 10 then [] else c ∷ rest

unfoldable pub has_marker : Option Str → Str → Bool
has_marker none marker = false
has_marker (some body) marker = str_eq (first_line body) marker

abbrev pub other_commit : Option Str → Str → Bool
other_commit none commit = false
other_commit (some c) commit = not (str_eq c commit)

abbrev pub is_commit : Option Str → Str → Bool
is_commit none commit = false
is_commit (some c) commit = str_eq c commit

abbrev pub is_none : {A : Type 0} → Option A → Bool
is_none none = true
is_none (some a) = false

-- An existing release.
unfoldable pub check_release : Candidate → Option Str → Release → List RemoteAsset → Result Plan
check_release candidate tag_commit release actual = do
  throw_if (not (is_commit tag_commit candidate.receipt.commit))
      "Existing release has no matching tag"
  throw_if (not (str_eq release.tag_name (codes "v" ++ candidate.receipt.version)))
      "Expected values to be strictly equal"
  throw_if release.prerelease "Incompatible existing prerelease"
  throw_if (not (has_marker release.body (release_marker candidate.receipt)))
      "Existing release belongs to a different approved candidate"
  check_assets (expected_assets candidate) [] actual
  let upload = missing (remote_names actual) (expected_assets candidate)
  throw_if (not release.draft && not (length upload == 0))
      "Published release is incomplete; correct it with a new version"
  ok (record {
    create_tag = false;
    create_draft = false;
    upload = upload;
    published = not release.draft;
  })

unfoldable pub check_release_state :
    Candidate → Option Str → Option Release → List RemoteAsset → Result Plan
check_release_state candidate tag_commit none actual = do
  throw_if (other_commit tag_commit candidate.receipt.commit)
      "Conflicting existing tag; never move a release tag"
  throw_if (not (length actual == 0)) "Expected values to be strictly equal"
  ok (record {
    create_tag = is_none tag_commit;
    create_draft = true;
    upload = release_assets candidate;
    published = false;
  })
check_release_state candidate tag_commit (some release) actual = do
  throw_if (other_commit tag_commit candidate.receipt.commit)
      "Conflicting existing tag; never move a release tag"
  check_release candidate tag_commit release actual

-- The adapter `remote`.
pub record Remote (N : Type 0) : Type 0 where
  pub tag_commit : Str → Call N (Option Str)
  pub release : Str → Call N (Option Release)
  pub assets : Option Release → Call N (List RemoteAsset)
  pub download : RemoteAsset → Call N RemoteAsset
  pub create_tag : Str → Str → Call N (Unit {0})
  pub create_draft : Str → Receipt → Call N (Unit {0})
  pub upload : Str → Asset → Call N (Unit {0})
  pub publish : Str → Call N (Unit {0})

pub record Published : Type 0 where
  pub tag : Str
  pub commit : Str
  pub candidate_id : Str
  pub assets_verified : ℕ
  pub already_published : Bool
  pub url : Str

-- What is compared of an asset before and after the verification.
abbrev pub same_asset : RemoteAsset → RemoteAsset → Bool
same_asset a b = a.id == b.id && str_eq a.name b.name && a.size == b.size && str_eq a.state b.state

unfoldable pub same_assets : List RemoteAsset → List RemoteAsset → Bool
same_assets [] [] = true
same_assets (a ∷ xs) (b ∷ ys) = same_asset a b && same_assets xs ys
same_assets _ _ = false

unfoldable pub same_names : List Str → List Str → Bool
same_names [] [] = true
same_names (a ∷ xs) (b ∷ ys) = str_eq a b && same_names xs ys
same_names _ _ = false

abbrev pub sorted_assets : List RemoteAsset → List RemoteAsset
sorted_assets = sort_by (λ (a b : RemoteAsset). text_before a.name b.name)

abbrev pub same_body : Option Str → Option Str → Bool
same_body none none = true
same_body (some a) (some b) = str_eq a b
same_body _ _ = false

abbrev pub same_bool : Bool → Bool → Bool
same_bool true b = b
same_bool false b = not b

unfoldable pub known_names : List Str → List RemoteAsset → Result (Unit {0})
known_names names [] = ok tt
known_names names (item ∷ items) = do
  throw_if (not (includes item.name names)) "Unexpected existing release asset"
  known_names names items

-- A downloaded asset has the hash of the candidate's.
unfoldable pub same_hash : List Asset → RemoteAsset → Result (Unit {0})
same_hash expected item = do
  wanted ← or_throw (find_asset item.name expected) "Cannot read properties of undefined"
  throw_if (not (str_eq item.sha256 wanted.sha256)) "Downloaded release asset checksum mismatch"

-- The release that is there before and after, which must be one.
unfoldable pub check_unchanged :
    Release → List RemoteAsset → Option Release → List RemoteAsset → Result (Unit {0})
check_unchanged release assets none last_assets = err "Cannot read properties of null"
check_unchanged release assets (some last) last_assets = do
  throw_if (not (last.id == release.id)) "Draft identity changed during verification"
  throw_if (not (same_body last.body release.body))
      "Draft candidate identity changed during verification"
  throw_if (not (same_bool last.draft release.draft)) "Draft state changed during verification"
  throw_if (not (same_assets (sorted_assets last_assets) (sorted_assets assets)))
      "Release assets changed during verification"

module _ {N : Type 0} (remote : Remote N) where
  unfoldable pub download_all : List RemoteAsset → Call N (List RemoteAsset)
  download_all [] = pure_call (ok [])
  download_all (item ∷ items) =
      remote.download item >>>= λ got. download_all items >>>= λ rest. pure_call (ok (got ∷ rest))

  -- The second download, which compares each hash as it goes.
  unfoldable pub download_checked : List Asset → List RemoteAsset → Call N (List RemoteAsset)
  download_checked expected [] = pure_call (ok [])
  download_checked expected (item ∷ items) = remote.download item >>>= λ got.
      pure_call (same_hash expected got) >>>= λ same.
      download_checked expected items >>>= λ rest. pure_call (ok (got ∷ rest))

  unfoldable pub upload_all : Str → List Asset → Call N (Unit {0})
  upload_all tag [] = pure_call (ok tt)
  upload_all tag (item ∷ items) = remote.upload tag item >>>= λ done. upload_all tag items

  abbrev pub when : Bool → Call N (Unit {0}) → Call N (Unit {0})
  when true m = m
  when false m = pure_call (ok tt)

  -- From the reading of the server to the uploads.
  unfoldable pub stage_release : Candidate → Str → Call N Plan
  stage_release candidate tag = remote.release tag >>>= λ release.
      remote.assets release >>>= λ assets.
      pure_call (known_names (names_of (release_assets candidate)) assets) >>>= λ known.
      download_all assets >>>= λ downloaded. remote.tag_commit tag >>>= λ commit.
      pure_call (check_release_state candidate commit release downloaded) >>>= λ plan.
      when plan.create_tag (remote.create_tag tag candidate.receipt.commit) >>>= λ tagged.
      remote.tag_commit tag >>>= λ commit'.
      pure_call (
        throw_if (not (is_commit commit' candidate.receipt.commit))
          "Tag changed before draft creation")
      >>>= λ pinned.
          when plan.create_draft (remote.create_draft tag candidate.receipt) >>>= λ drafted.
          upload_all tag plan.upload >>>= λ uploaded. pure_call (ok plan)

  -- The download and the checks of everything that has been staged, and the release they were made on.
  unfoldable pub verify_release : Candidate → Str → Call N (Unit {0}) → Call N (List RemoteAsset)
  verify_release candidate tag verify_downloaded = remote.release tag >>>= λ found.
      remote.assets found >>>= λ assets.
      pure_call (
        throw_if
          (not (
            same_names (sort_by text_before (remote_names assets))
              (sort_by text_before (names_of (expected_assets candidate)))))
          "Required release uploads are missing or duplicated")
      >>>= λ complete. download_checked (expected_assets candidate) assets >>>= λ final.
          remote.tag_commit tag >>>= λ commit.
          pure_call (check_release_state candidate commit found final) >>>= λ again.
          pure_call (or_throw found "Cannot read properties of null") >>>= λ release.
          verify_downloaded >>>= λ verified. remote.release tag >>>= λ last_release.
          remote.assets last_release >>>= λ last_assets. remote.tag_commit tag >>>= λ last_commit.
          pure_call (
            throw_if (not (is_commit last_commit candidate.receipt.commit))
              "Tag changed during verification")
          >>>= λ pinned.
              pure_call (check_unchanged release assets last_release last_assets) >>>= λ unchanged.
              pure_call (ok final)

  unfoldable pub confirm_published :
      Candidate → Str → Plan → List RemoteAsset → Option Release → Result Published
  confirm_published candidate tag plan final none = err "Cannot read properties of null"
  confirm_published candidate tag plan final (some published) = do
    throw_if published.draft "GitHub did not confirm publication"
    ok (record {
      tag = tag;
      commit = candidate.receipt.commit;
      candidate_id = candidate.receipt.candidate_id;
      assets_verified = length final;
      already_published = plan.published;
      url = published.url;
    })

  unfoldable pub publish_candidate : Candidate → Call N (Unit {0}) → Call N Published
  publish_candidate candidate verify_downloaded =
      stage_release candidate (codes "v" ++ candidate.receipt.version) >>>= λ plan.
      verify_release candidate (codes "v" ++ candidate.receipt.version) verify_downloaded
      >>>= λ final.
          when (not plan.published) (remote.publish (codes "v" ++ candidate.receipt.version))
          >>>= λ done. remote.release (codes "v" ++ candidate.receipt.version) >>>= λ published.
              pure_call (
                confirm_published candidate (codes "v" ++ candidate.receipt.version) plan final
                  published)

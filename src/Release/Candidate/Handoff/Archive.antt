-- ===== src/Release/Candidate/Handoff/Archive.antt =====
-- The archive that downloadArtifact of scripts/release/github.mjs has downloaded, and its row, which
-- findArtifact has found.
use mathlib.Core.Path.{subst}
use mathlib.Core.List.{Memᴰ}
use cardano_on_evm.Prelude.{
  ◌≡◌, refl, sym, false, not, ◌||◌, Bool-cases, inl, inr, List, [], ◌∷◌, ◌++◌, All, arith, ok,
  >>=-eq-ok, >>-eq-ok, ok-injective, Str, Bytes, codes, str_eq, str_eq_iff,
}
use cardano_on_evm.Release.Candidate.{
  ArtifactRow, is_id, is_repository, is_digest, rows_named, one_row, find_row, artifact_name,
}
use cardano_on_evm.Release.Candidate.Handoff.{Handoff, GitHub, artifact_path, download_artifact}

-- A row of the list with the name.
abbrev pub IsRow : List ArtifactRow → Str → ArtifactRow → Type 0
IsRow rows name row = Memᴰ row rows × (row.name ≡ name)

rows_named-IsRow :
    (name : Str) (rows whole : List ArtifactRow)
    → ((row : ArtifactRow) → Memᴰ row rows → Memᴰ row whole)
    → All (IsRow whole name) (rows_named name rows)
unfolding rows_named
rows_named-IsRow name [] whole f = tt
rows_named-IsRow name (row ∷ rows) whole f =
    let others = rows_named-IsRow name rows whole (λ r there. f r (Memᴰ.tail there)) in
    elim (Bool-cases (str_eq row.name name)) [
      | inl same ↦ (rw same (((f row (Memᴰ.head refl), (str_eq_iff row.name name).0 same), others)))
      | inr other ↦ (rw other others)
    ]

one_row-All :
    (P : ArtifactRow → Type 0) (rows : List ArtifactRow) (row : ArtifactRow)
    → one_row rows ≡ ok row
    → All P rows
    → P row
one_row-All P [] row h all = cc
one_row-All P (r ∷ []) row h (p, tt) = subst P (ok-injective h) p
one_row-All P (r ∷ q ∷ rows) row h all = cc

pub find_row-IsRow :
    (rows : List ArtifactRow) (name : Str) (row : ArtifactRow)
    → find_row rows name ≡ ok row
    → IsRow rows name row
unfolding find_row
find_row-IsRow rows name row h =
    let (r, only, h₁) = >>=-eq-ok (one_row (rows_named name rows)) _ h in
    let (_, h₂) = >>-eq-ok (not (is_id r.id)) _ _ h₁ in
    let (_, h₃) = >>-eq-ok r.expired _ _ h₂ in
    let (_, h₄) = >>-eq-ok (not (is_digest r.digest)) _ _ h₃ in
    subst (IsRow rows name) (ok-injective h₄) (
      one_row-All (IsRow rows name) (rows_named name rows) r only
        (rows_named-IsRow name rows rows (λ x there. there)))

pub artifact_name-eq :
    (run attempt name : Str)
    → artifact_name run attempt ≡ ok name
    → name ≡ codes "release-candidate-" ++ run ++ codes "-" ++ attempt
unfolding artifact_name
artifact_name-eq run attempt name h =
    let (_, h₁) = >>-eq-ok (not (is_id run) || not (is_id attempt)) _ _ h in sym (ok-injective h₁)

-- The handoff is the content of the archive of the one artifact, whose digest is that of the row and of
-- the archive's bytes.
pub record Downloaded (github : GitHub) (repository : Str) (row : ArtifactRow) (h : Handoff)
    : Type 0 where
  pub meta : ArtifactRow
  pub bytes : Bytes
  pub described : github.artifact (artifact_path repository row.id) ≡ ok meta
  pub same_id : meta.id ≡ row.id
  pub same_digest : meta.digest ≡ row.digest
  pub expired : meta.expired ≡ false
  pub archived : github.archive (artifact_path repository row.id ++ codes "/zip") ≡ ok bytes
  pub digest : codes "sha256:" ++ github.sha256 bytes ≡ row.digest
  pub extracted : github.extract bytes ≡ ok h

pub download_artifact-Downloaded :
    (github : GitHub) (repository : Str) (row : ArtifactRow) (h : Handoff)
    → download_artifact github repository row.id row.digest ≡ ok h
    → Downloaded github repository row h
unfolding download_artifact
download_artifact-Downloaded github repository row h e =
    let (_, e₁) =
      >>-eq-ok (not (is_repository repository) || not (is_id row.id) || not (is_digest row.digest))
        _ _ e in
    let (meta, described, e₂) =
      >>=-eq-ok (github.artifact (artifact_path repository row.id)) _ e₁ in
    let (id, e₃) = >>-eq-ok (not (str_eq meta.id row.id)) _ _ e₂ in
    let (fresh, e₄) = >>-eq-ok meta.expired _ _ e₃ in
    let (digest, e₅) = >>-eq-ok (not (str_eq meta.digest row.digest)) _ _ e₄ in
    let (bytes, archived, e₆) =
      >>=-eq-ok (github.archive (artifact_path repository row.id ++ codes "/zip")) _ e₅ in
    let (sum, e₇) =
      >>-eq-ok (not (str_eq (codes "sha256:" ++ github.sha256 bytes) row.digest)) _ _ e₆ in
    record {
      meta = meta;
      bytes = bytes;
      described = described;
      same_id = (str_eq_iff meta.id row.id).0 (ground (arith, id));
      same_digest = (str_eq_iff meta.digest row.digest).0 (ground (arith, digest));
      expired = fresh;
      archived = archived;
      digest =
          (str_eq_iff (codes "sha256:" ++ github.sha256 bytes) row.digest).0 (ground (arith, sum));
      extracted = e₇;
    }

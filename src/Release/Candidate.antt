-- ===== src/Release/Candidate.antt =====
-- scripts/release/github.mjs and candidate.mjs: the candidate that a run of the release workflow hands
-- on, and the checks before it is used. Git, the files and the commands of GitHub are arguments.
pub mod Handoff
use cardano_on_evm.Prelude.{
  ℕ, Bool, true, false, not, ◌&&◌, ◌||◌, List, [], ◌∷◌, ◌++◌, Option, none, some, Result, ok, err,
  ◌>>=◌, ◌>>◌, throw_if, or_throw, Str, codes, str_eq, includes, leb, ◌==◌, if◌then◌else◌, length,
  drop, has_prefix,
}
use cardano_on_evm.Prelude.Decimal.Digits.{is_numeral}
use cardano_on_evm.Enrollment.Service.{all_lower_hex, is_challenge_id}

-- `SHA`, `HASH` and `ID`.
unfoldable pub is_sha : Str → Bool
is_sha s = length s == 40 && all_lower_hex s

unfoldable pub is_hash : Str → Bool
is_hash s = is_challenge_id s

unfoldable pub is_id : Str → Bool
is_id s = is_numeral s && not (str_eq s (codes "0"))

-- The text up to a character, and what is behind it.
unfoldable pub split_at : ℕ → Str → Option (Str × Str)
split_at c [] = none
split_at c (x ∷ s) = if x == c then some ([], s) else split_behind (split_at c s)
  where
    split_behind : Option (Str × Str) → Option (Str × Str)
    split_behind none = none
    split_behind (some (front, back)) = some (x ∷ front, back)

unfoldable pub is_name_char : ℕ → Bool
is_name_char c =
    leb b'A' c && leb c b'Z'
    || leb b'a' c && leb c b'z'
    || leb b'0' c && leb c b'9'
    || c == b'_'
    || c == b'.'
    || c == b'-'

unfoldable pub all_name_chars : Str → Bool
all_name_chars [] = true
all_name_chars (c ∷ s) = is_name_char c && all_name_chars s

abbrev pub is_name : Str → Bool
is_name s = not (length s == 0) && all_name_chars s

-- `REPOSITORY`: an owner and a name.
unfoldable pub is_repository : Str → Bool
is_repository s = both (split_at b'/' s)
  where
    both : Option (Str × Str) → Bool
    both none = false
    both (some (owner, name)) = is_name owner && is_name name

-- `VERSION`: three numerals without leading zeros.
unfoldable pub version_parts : Str → Option (Str × Str × Str)
version_parts s = after_major (split_at b'.' s)
  where
    after_minor : Str → Option (Str × Str) → Option (Str × Str × Str)
    after_minor major none = none
    after_minor major (some (minor, patch)) =
        if is_numeral major && is_numeral minor && is_numeral patch
        then some (major, minor, patch)
        else none

    after_major : Option (Str × Str) → Option (Str × Str × Str)
    after_major none = none
    after_major (some (major, rest)) = after_minor major (split_at b'.' rest)

unfoldable pub is_version : Str → Bool
is_version s = has_parts (version_parts s)
  where
    has_parts : Option (Str × Str × Str) → Bool
    has_parts none = false
    has_parts (some parts) = true

abbrev pub workflow_of : Str → Str
workflow_of repository = repository ++ codes "/.github/workflows/release.yml@refs/heads/main"

unfoldable pub artifact_name : Str → Str → Result Str
artifact_name run attempt = do
  throw_if (not (is_id run) || not (is_id attempt)) "The input did not match the regular expression"
  ok (codes "release-candidate-" ++ run ++ codes "-" ++ attempt)

-- A run of a workflow, as GitHub reports it.
pub record Run : Type 0 where
  pub id : Str
  pub run_attempt : Str
  pub repository : Str
  pub path : Str
  pub head_branch : Str
  pub event : Str
  pub head_sha : Str
  pub status : Str
  pub conclusion : Str

unfoldable pub run_identity : Run → Str → Str → Str → Bool → Result Run
run_identity run repository run_id attempt successful = do
  throw_if (not (str_eq run.id run_id)) "Wrong GitHub run"
  throw_if (not (str_eq run.run_attempt attempt)) "Wrong GitHub run attempt"
  throw_if (not (str_eq run.repository repository)) "Wrong GitHub repository"
  throw_if (not (str_eq run.path (codes ".github/workflows/release.yml"))) "Wrong signer workflow"
  throw_if (not (str_eq run.head_branch (codes "main"))) "Candidate run must originate from main"
  throw_if (not (includes run.event (codes "push" ∷ codes "workflow_dispatch" ∷ [])))
      "Untrusted candidate event"
  throw_if (not (is_sha run.head_sha)) "The input did not match the regular expression"
  throw_if (not (str_eq run.status (codes "completed"))) "Prior candidate run is still active"
  throw_if (successful && not (str_eq run.conclusion (codes "success")))
      "Candidate-only rehearsal did not succeed"
  ok run

pub record ArtifactRow : Type 0 where
  pub id : Str
  pub name : Str
  pub expired : Bool
  pub digest : Str

unfoldable pub rows_named : Str → List ArtifactRow → List ArtifactRow
rows_named name [] = []
rows_named name (row ∷ rows) =
    let others = rows_named name rows in if str_eq row.name name then row ∷ others else others

abbrev pub one_row : List ArtifactRow → Result ArtifactRow
one_row (row ∷ []) = ok row
one_row _ = err "Missing/ambiguous candidate artifact"

-- `/^sha256:[0-9a-f]{64}$/`
unfoldable pub is_digest : Str → Bool
is_digest s = has_prefix (codes "sha256:") s && is_hash (drop 7 s)

unfoldable pub find_row : List ArtifactRow → Str → Result ArtifactRow
find_row rows name = do
  row ← one_row (rows_named name rows)
  throw_if (not (is_id row.id)) "The input did not match the regular expression"
  throw_if row.expired "Candidate artifact expired"
  throw_if (not (is_digest row.digest)) "GitHub artifact digest is unavailable"
  ok row

-- The environment and the event of the workflow that resolves a new candidate.
pub record Environment : Type 0 where
  pub actions : Bool
  pub ref : Str
  pub repository : Str
  pub sha : Str
  pub workflow_sha : Str
  pub workflow_ref : Str
  pub event_name : Str
  pub release_mode : Str
  pub publish_enabled : Bool

pub record PushEvent : Type 0 where
  pub ref : Str
  pub after : Str
  pub before : Str
  pub deleted : Bool

-- What Git and the versions of the checkout answer.
pub record Checkout : Type 0 where
  pub head : Str
  pub check_versions : Result Str
  pub is_ancestor : Str → Str → Bool
  pub version_changed : Str → Result Bool

pub record Resolved : Type 0 where
  pub build : Bool
  pub publish : Bool
  pub mode : Str
  pub commit : Str
  pub version : Str
  pub repository : Str

unfoldable pub all_zero_digits : Str → Bool
all_zero_digits [] = true
all_zero_digits (c ∷ s) = c == b'0' && all_zero_digits s

-- Whether a push changes the version. The first import does not.
unfoldable pub push_changes : Checkout → Environment → PushEvent → Result Bool
push_changes checkout env event = do
  throw_if
      (not (str_eq event.ref (codes "refs/heads/main"))
        || not (str_eq event.after env.sha)
        || event.deleted
        || not (is_sha event.before))
      "Expected values to be strictly equal"
  if all_zero_digits event.before then ok false else do
    throw_if (not (checkout.is_ancestor event.before env.sha)) "Command failed"
    checkout.version_changed event.before

unfoldable pub check_environment : Checkout → Environment → Result (Unit {0})
check_environment checkout env = do
  throw_if (not env.actions) "Release resolution requires GitHub Actions"
  throw_if (not (str_eq env.ref (codes "refs/heads/main")))
      "Release workflow must be dispatched on main"
  throw_if (not (is_repository env.repository) || not (is_sha env.sha))
      "The input did not match the regular expression"
  throw_if (not (str_eq env.workflow_sha env.sha))
      "Workflow/source snapshots must match for OIDC provenance"
  throw_if (not (str_eq env.workflow_ref (workflow_of env.repository)))
      "Expected values to be strictly equal"
  throw_if (not (str_eq checkout.head env.sha)) "Checkout moved from the triggering commit"

abbrev pub candidate_only : Str
candidate_only = codes "candidate-only"

-- `env.RELEASE_MODE || 'candidate-only'`
abbrev pub dispatched_mode : Str → Str
dispatched_mode [] = candidate_only
dispatched_mode (c ∷ s) = c ∷ s

abbrev pub push_mode : Bool → Str
push_mode enabled = if enabled then codes "publish" else candidate_only

-- Whether the version changed, and the mode.
unfoldable pub resolve_event : Checkout → Environment → PushEvent → Result (Bool × Str)
resolve_event checkout env event =
    if str_eq env.event_name (codes "push")
    then (push_changes checkout env event >>= λ changed.
        ok (changed, push_mode env.publish_enabled))
    else if str_eq env.event_name (codes "workflow_dispatch")
    then ok (true, dispatched_mode env.release_mode)
    else err "Expected values to be strictly equal"

unfoldable pub resolve_new : Checkout → Environment → PushEvent → Result Resolved
resolve_new checkout env event = do
  check_environment checkout env
  version ← checkout.check_versions
  (changed, mode) ← resolve_event checkout env event
  throw_if (not (includes mode (candidate_only ∷ codes "publish" ∷ codes "recover" ∷ [])))
      "Invalid release mode"
  ok (record {
    build = changed && not (str_eq mode (codes "recover"));
    publish = changed && not (str_eq mode candidate_only);
    mode = mode;
    commit = env.sha;
    version = version;
    repository = env.repository;
  })

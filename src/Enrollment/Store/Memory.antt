-- ===== src/Enrollment/Store/Memory.antt =====
-- packages/enrollment/src/store.ts: `MemoryChallengeStore`, a Map from identifiers to records.
-- A stored record is a clone, so that no caller shares it; values are clones here anyway.
use cardano_on_evm.Prelude.{
  ℕ, ◌≡◌, refl, inl, inr, Bool, true, false, ◌&&◌, List, [], ◌∷◌, ◌++◌, Option, none, some, arith,
  Result, ok, err, is_ok, Str, str_eq, str_eq_iff, leb, Bool-cases, Option-cases, if◌then◌else◌,
}
use cardano_on_evm.Enrollment.Store.{ChallengeRecord, is_consumable, ChallengeStore}

-- The entries of the Map, in order of insertion; an entry's key is the identifier of its record.
abbrev pub Records : Type 0
Records = List ChallengeRecord

unfoldable pub get : Str → Records → Option ChallengeRecord
get id [] = none
get id (r ∷ rs) = if str_eq r.id id then some r else get id rs

unfoldable pub delete : Str → Records → Records
delete id [] = []
delete id (r ∷ rs) = let rest = delete id rs in if str_eq r.id id then rest else r ∷ rest

abbrev pub has : Str → Records → Bool
has id rs = elim (get id rs) [ none ↦ false | some r ↦ true ]

unfoldable pub put : ChallengeRecord → Records → Result (Unit {0}) × Records
put r rs = if has r.id rs then (err "Challenge identifier collision", rs) else (ok tt, rs ++ r ∷ [])

unfoldable pub consume : Str → Str → ℕ → Records → Bool × Records
consume id payload_hex now rs =
    if is_consumable (get id rs) payload_hex now then (true, delete id rs) else (false, rs)

-- The loop deletes each expired entry.
unfoldable pub prune : ℕ → Records → Records
prune now [] = []
prune now (r ∷ rs) = let rest = prune now rs in if leb r.expires_at now then rest else r ∷ rest

pub get-append :
    (j : Str) (rs : Records) (r : ChallengeRecord)
    → get r.id rs ≡ none
    → get j (rs ++ r ∷ []) ≡ (if str_eq r.id j then some r else get j rs)
unfolding get
get-append j [] r fresh = refl
get-append j (x ∷ rs) r fresh = ground (
  arith,
  str_eq_iff x.id r.id,
  str_eq_iff x.id j,
  str_eq_iff r.id j,
  get-append j rs r (ground arith),
)

pub get-delete :
    (id j : Str) (rs : Records) → get j (delete id rs) ≡ (if str_eq id j then none else get j rs)
unfolding get delete
get-delete id j [] = ground arith
get-delete id j (r ∷ rs) =
    ground (arith, get-delete id j rs, str_eq_iff r.id id, str_eq_iff r.id j, str_eq_iff id j)

pub put_taken :
    (r old : ChallengeRecord) (rs : Records)
    → get r.id rs ≡ some old
    → (is_ok (put r rs).0 ≡ false) × ((put r rs).1 ≡ rs)
unfolding put
put_taken r old rs h = ground arith

pub put_fresh :
    (r : ChallengeRecord) (rs : Records)
    → get r.id rs ≡ none
    → ((put r rs).0 ≡ ok tt)
      × ((j : Str) → get j (put r rs).1 ≡ (if str_eq r.id j then some r else get j rs))
unfolding put
put_fresh r rs h = (ground arith, λ j. ground (arith, get-append j rs r h))

pub consume_answer :
    (id payload_hex : Str) (now : ℕ) (rs : Records)
    → (consume id payload_hex now rs).0 ≡ is_consumable (get id rs) payload_hex now
unfolding consume
consume_answer id payload_hex now rs = ground arith

pub get-consume :
    (id payload_hex : Str) (now : ℕ) (rs : Records) (j : Str)
    → get j (consume id payload_hex now rs).1
      ≡ (if is_consumable (get id rs) payload_hex now && str_eq id j then none else get j rs)
unfolding consume
get-consume id payload_hex now rs j =
    elim (Bool-cases (is_consumable (get id rs) payload_hex now)) [
      | inl hit ↦ rw hit (get-delete id j rs)
      | inr miss ↦ rw miss
    ]

pub consume_false :
    (id payload_hex : Str) (now : ℕ) (rs : Records)
    → is_consumable (get id rs) payload_hex now ≡ false
    → (consume id payload_hex now rs).1 ≡ rs
unfolding consume
consume_false id payload_hex now rs h = rw h

-- The Map keeps the contract of a challenge store, in every state.
abbrev pub memory_store : ChallengeStore
memory_store = record {
  State = Records;
  IsValid = λ rs. Unit;
  put = put;
  get = get;
  consume = consume;
  put-IsValid = λ r s h. tt;
  consume-IsValid = λ id p n s h. tt;
  put_taken = λ r old s h. put_taken r old s;
  put_fresh = λ r s h. put_fresh r s;
  consume_answer = λ id p n s h. consume_answer id p n s;
  get-consume = λ id p n s j h. get-consume id p n s j;
  consume_false = λ id p n s h. consume_false id p n s;
}

-- What `prune` keeps of an entry.
abbrev pub unexpired : ℕ → Option ChallengeRecord → Option ChallengeRecord
unexpired now none = none
unexpired now (some r) = if leb r.expires_at now then none else some r

-- Identifiers are the keys of the Map, so no two entries share one.
abbrev pub Distinct : Records → Type 0
Distinct [] = Unit
Distinct (r ∷ rs) = (get r.id rs ≡ none) × Distinct rs

get-prune-none :
    (id : Str) (now : ℕ) (rs : Records) → get id rs ≡ none → get id (prune now rs) ≡ none
unfolding get prune
get-prune-none id now [] h = refl
get-prune-none id now (r ∷ rs) h = ground (arith, get-prune-none id now rs (ground arith))

-- With one entry per key, pruning removes exactly the expired records: a lookup afterwards finds
-- what it found before, unless that has expired.
pub get-prune :
    (id : Str) (now : ℕ) (rs : Records)
    → Distinct rs
    → get id (prune now rs) ≡ unexpired now (get id rs)
unfolding get prune
get-prune id now [] h = refl
get-prune id now (r ∷ rs) h =
    ground (arith, get-prune id now rs h.1, get-prune-none r.id now rs h.0, str_eq_iff r.id id, h.0)

Distinct-append :
    (rs : Records) (r : ChallengeRecord)
    → Distinct rs
    → get r.id rs ≡ none
    → Distinct (rs ++ r ∷ [])
unfolding get
Distinct-append [] r d h = (refl, tt)
Distinct-append (x ∷ rs) r d h = (
  ground
      (arith, get-append x.id rs r (ground arith), str_eq_iff r.id x.id, str_eq_iff x.id r.id, d.0),
  Distinct-append rs r d.1 (ground arith),
)

pub put-Distinct : (r : ChallengeRecord) (rs : Records) → Distinct rs → Distinct (put r rs).1
unfolding put
put-Distinct r rs d = elim (Option-cases (get r.id rs)) [
  | inl fresh ↦ rw (fresh, has) (Distinct-append rs r d fresh)
  | inr (old, taken) ↦ rw (taken, has) d
]

delete-Distinct : (id : Str) (rs : Records) → Distinct rs → Distinct (delete id rs)
unfolding delete
delete-Distinct id [] d = tt
delete-Distinct id (r ∷ rs) d = elim (Bool-cases (str_eq r.id id)) [
  | inl same ↦ rw same (delete-Distinct id rs d.1)
  | inr other ↦ rw other (ground (arith, get-delete id r.id rs, d.0), delete-Distinct id rs d.1)
]

pub consume-Distinct :
    (id payload_hex : Str) (now : ℕ) (rs : Records)
    → Distinct rs
    → Distinct (consume id payload_hex now rs).1
unfolding consume
consume-Distinct id payload_hex now rs d =
    elim (Bool-cases (is_consumable (get id rs) payload_hex now)) [
      | inl hit ↦ rw hit (delete-Distinct id rs d)
      | inr miss ↦ rw miss d
    ]

pub prune-Distinct : (now : ℕ) (rs : Records) → Distinct rs → Distinct (prune now rs)
unfolding prune
prune-Distinct now [] d = tt
prune-Distinct now (r ∷ rs) d = elim (Bool-cases (leb r.expires_at now)) [
  | inl old ↦ rw old (prune-Distinct now rs d.1)
  | inr fresh ↦ rw fresh (get-prune-none r.id now rs d.0, prune-Distinct now rs d.1)
]

-- ===== src/Enrollment/Store/Sqlite.antt =====
-- packages/enrollment/src/sqlite.ts: `SqliteChallengeStore`, a table whose statements are modelled as
-- functions on its rows. It implements the same contract as the Map.
use mathlib.Core.Option
use mathlib.Core.Path.{subst}
use mathlib.Core.List.{map-append}
use cardano_on_evm.Prelude.{
  ℕ, ◌+◌, ◌≡◌, refl, sym, ap, ◌∙◌, inl, inr, Bool, false, ◌&&◌, List, [], ◌∷◌, ◌++◌, Option, none,
  some, map, arith, Result, ok, err, is_ok, Str, str_eq, str_eq_iff, leb, ltb, ◌==◌, Bool-cases,
  Option-cases, if◌then◌else◌,
}
use cardano_on_evm.Enrollment.Store.{ChallengeRecord, is_consumable, ChallengeStore}
use cardano_on_evm.Enrollment.Store.Memory
use cardano_on_evm.Enrollment.Store.Memory.{Records, Distinct}

-- A row of `cardano_challenges`.
pub record Row : Type 0 where
  pub id : Str
  pub payload_hex : Str
  pub expires_at : ℕ
  pub record_json : Str

-- `SELECT record_json FROM cardano_challenges WHERE id = ?`
unfoldable pub select : Str → List Row → Option Str
select id [] = none
select id (row ∷ rows) = if str_eq row.id id then some row.record_json else select id rows

-- `id = ? AND payload_hex = ? AND expires_at > ?`
abbrev matches : Str → Str → ℕ → Row → Bool
matches id payload_hex now row =
    str_eq row.id id && (str_eq row.payload_hex payload_hex && ltb now row.expires_at)

-- `DELETE FROM cardano_challenges WHERE …`: the rows that stay, and the number of changes.
unfoldable pub delete_matching : Str → Str → ℕ → List Row → List Row
delete_matching id payload_hex now [] = []
delete_matching id payload_hex now (row ∷ rows) =
    let rest = delete_matching id payload_hex now rows in
    if matches id payload_hex now row then rest else row ∷ rest

unfoldable pub changes : Str → Str → ℕ → List Row → ℕ
changes id payload_hex now [] = 0
changes id payload_hex now (row ∷ rows) =
    (if matches id payload_hex now row then 1 else 0) + changes id payload_hex now rows

unfoldable pub consume : Str → Str → ℕ → List Row → Bool × List Row
consume id payload_hex now rows =
    (changes id payload_hex now rows == 1, delete_matching id payload_hex now rows)

-- `DELETE FROM cardano_challenges WHERE expires_at <= ?`
unfoldable pub prune : ℕ → List Row → List Row
prune now [] = []
prune now (row ∷ rows) =
    let rest = prune now rows in if leb row.expires_at now then rest else row ∷ rest

-- `JSON.stringify` of a record, and `JSON.parse`, which throws on other texts. A parsed record has
-- the fields of the one that was written.
module _ (stringify : ChallengeRecord → Str) (parse : Str → Option ChallengeRecord)
    (parse-stringify : (r : ChallengeRecord) → parse (stringify r) ≡ some r) where
  abbrev pub row_of : ChallengeRecord → Row
  row_of r = record {
    id = r.id;
    payload_hex = r.payload_hex;
    expires_at = r.expires_at;
    record_json = stringify r;
  }

  -- `INSERT INTO cardano_challenges VALUES (?, ?, ?, ?)`: a taken primary key is an error.
  unfoldable pub put : ChallengeRecord → List Row → Result (Unit {0}) × List Row
  put r rows = elim (select r.id rows) [
    | none ↦ (ok tt, rows ++ row_of r ∷ [])
    | some json ↦ (err "UNIQUE constraint failed: cardano_challenges.id", rows)
  ]

  unfoldable pub get : Str → List Row → Option ChallengeRecord
  get id rows = elim (select id rows) [ none ↦ none | some json ↦ parse json ]

  -- The rows that the store has written itself.
  abbrev pub IsValid : List Row → Type 0
  IsValid rows = (rs : Records) × (rows ≡ map row_of rs) × Distinct rs

  select-map :
      (id : Str) (rs : Records)
      → select id (map row_of rs) ≡ Option.map stringify (Memory.get id rs)
  unfolding select Memory.get
  select-map id [] = refl
  select-map id (r ∷ rs) = ground (arith, select-map id rs)

  pub get-map : (id : Str) (rs : Records) → get id (map row_of rs) ≡ Memory.get id rs
  unfolding get
  get-map id rs = elim (Option-cases (Memory.get id rs)) [
    | inl absent ↦ rw (select-map id rs, get) (rw absent)
    | inr (r, found) ↦ rw (select-map id rs, get) (rw found (parse-stringify r))
  ]

  absent-delete :
      (id p : Str) (now : ℕ) (rs : Records)
      → Memory.get id rs ≡ none
      → (delete_matching id p now (map row_of rs) ≡ map row_of rs)
        × (changes id p now (map row_of rs) ≡ 0)
  unfolding Memory.get delete_matching changes
  absent-delete id p now [] h = (refl, refl)
  absent-delete id p now (r ∷ rs) h = ground (arith, absent-delete id p now rs (ground arith))

  delete_absent : (id : Str) (rs : Records) → Memory.get id rs ≡ none → Memory.delete id rs ≡ rs
  unfolding Memory.get Memory.delete
  delete_absent id [] h = refl
  delete_absent id (r ∷ rs) h = ground (arith, delete_absent id rs (ground arith))

  -- The conditional DELETE changes at most one row, and then the one that `consume` of the Map deletes.
  delete-map :
      (id p : Str) (now : ℕ) (rs : Records)
      → Distinct rs
      → (delete_matching id p now (map row_of rs) ≡ (
          if is_consumable (Memory.get id rs) p now
          then map row_of (Memory.delete id rs)
          else map row_of rs))
        × (changes id p now (map row_of rs)
            ≡ (if is_consumable (Memory.get id rs) p now then 1 else 0))
  unfolding Memory.get Memory.delete delete_matching changes
  delete-map id p now [] d = (refl, refl)
  delete-map id p now (r ∷ rs) d = elim (Bool-cases (str_eq r.id id)) [
    | inl same ↦
        let gone : Memory.get id rs ≡ none =
          subst (λ k. Memory.get k rs ≡ none) ((str_eq_iff r.id id).0 same) d.0 in
        let (rest, none_left) = absent-delete id p now rs gone in
        let kept = delete_absent id rs gone in
        (rw (same, rest, kept) (ground arith), rw (same, none_left) (ground arith))
    | inr other ↦
        let (rest, count) = delete-map id p now rs d.1 in
        (rw (other, rest) (ground arith), rw (other, count) (omega arith))
  ]

  -- If JSON.parse undoes JSON.stringify on records, then on the rows of a Map's records, with one
  -- record per key, `consume` of the table answers as that of the Map does and leaves the rows of
  -- the records that the Map keeps.
  pub consume-map :
      (id p : Str) (now : ℕ) (rs : Records)
      → Distinct rs
      → consume id p now (map row_of rs)
        ≡ ((Memory.consume id p now rs).0, map row_of (Memory.consume id p now rs).1)
  unfolding consume Memory.consume
  consume-map id p now rs d =
      let (rest, count) = delete-map id p now rs d in rw (rest, count) (ground arith)

  pub put_fresh-map :
      (r : ChallengeRecord) (rs : Records)
      → Memory.get r.id rs ≡ none
      → put r (map row_of rs) ≡ (ok tt, map row_of (rs ++ r ∷ []))
  unfolding put
  put_fresh-map r rs absent = rw (select-map r.id rs, put) (rw absent (rw map-append))

  pub put_taken-map :
      (r old : ChallengeRecord) (rs : Records)
      → Memory.get r.id rs ≡ some old
      → (is_ok (put r (map row_of rs)).0 ≡ false) × ((put r (map row_of rs)).1 ≡ map row_of rs)
  unfolding put
  put_taken-map r old rs found = rw (select-map r.id rs, put) (rw found (refl, refl))

  pub prune-map :
      (now : ℕ) (rs : Records) → prune now (map row_of rs) ≡ map row_of (Memory.prune now rs)
  unfolding prune Memory.prune
  prune-map now [] = refl
  prune-map now (r ∷ rs) = ground (arith, prune-map now rs)

  pub put_step : (r : ChallengeRecord) (s : List Row) → IsValid s → IsValid (put r s).1
  put_step r s (rs, e, d) = elim (Option-cases (Memory.get r.id rs)) [
    | inl absent ↦ (
      (Memory.put r rs).1,
      rw e (rw (put_fresh-map r rs absent) (unfold Memory.put in rw (absent, Memory.has))),
      Memory.put-Distinct r rs d,
    )
    | inr (old, found) ↦ (rs, rw e (put_taken-map r old rs found).1, d)
  ]

  pub consume_step :
      (id p : Str) (now : ℕ) (s : List Row) → IsValid s → IsValid (consume id p now s).1
  consume_step id p now s (rs, e, d) = (
    (Memory.consume id p now rs).1,
    rw e (rw (consume-map id p now rs d)),
    Memory.consume-Distinct id p now rs d,
  )

  pub put_taken :
      (r old : ChallengeRecord) (s : List Row)
      → IsValid s
      → get r.id s ≡ some old
      → (is_ok (put r s).0 ≡ false) × ((put r s).1 ≡ s)
  put_taken r old s (rs, e, d) h =
      rw e (put_taken-map r old rs (sym (get-map r.id rs) ∙ (rw e at h)))

  pub put_fresh :
      (r : ChallengeRecord) (s : List Row)
      → IsValid s
      → get r.id s ≡ none
      → ((put r s).0 ≡ ok tt)
        × ((j : Str) → get j (put r s).1 ≡ (if str_eq r.id j then some r else get j s))
  put_fresh r s (rs, e, d) h =
      let absent = sym (get-map r.id rs) ∙ (rw e at h) in
      rw e (
        rw (put_fresh-map r rs absent) (
          refl,
          λ j. get-map j (rs ++ r ∷ []) ∙ (Memory.get-append j rs r absent ∙ (rw (get-map j rs))),
        ))

  pub consume_answer :
      (id p : Str) (now : ℕ) (s : List Row)
      → IsValid s
      → (consume id p now s).0 ≡ is_consumable (get id s) p now
  consume_answer id p now s (rs, e, d) =
      rw e (rw (consume-map id p now rs d, get-map id rs) (Memory.consume_answer id p now rs))

  pub get-consume :
      (id p : Str) (now : ℕ) (s : List Row) (j : Str)
      → IsValid s
      → get j (consume id p now s).1
        ≡ (if is_consumable (get id s) p now && str_eq id j then none else get j s)
  get-consume id p now s j (rs, e, d) = rw e (
      rw
        (
          consume-map id p now rs d,
          get-map j (Memory.consume id p now rs).1,
          get-map id rs,
          get-map j rs,
        )
        (Memory.get-consume id p now rs j))

  pub consume_false :
      (id p : Str) (now : ℕ) (s : List Row)
      → IsValid s
      → is_consumable (get id s) p now ≡ false
      → (consume id p now s).1 ≡ s
  consume_false id p now s (rs, e, d) h = rw e (
      rw (consume-map id p now rs d) (
        ap (map row_of) (
          Memory.consume_false id p now rs
            (sym (ap (λ o. is_consumable o p now) (get-map id rs)) ∙ (rw e at h)))))

  -- The table keeps the contract of a challenge store, in every state that it wrote itself.
  abbrev pub sqlite_store : ChallengeStore
  sqlite_store = record {
    State = List Row;
    IsValid = IsValid;
    put = put;
    get = get;
    consume = consume;
    put-IsValid = put_step;
    consume-IsValid = consume_step;
    put_taken = put_taken;
    put_fresh = put_fresh;
    consume_answer = consume_answer;
    get-consume = get-consume;
    consume_false = consume_false;
  }

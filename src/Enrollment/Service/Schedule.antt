-- ===== src/Enrollment/Service/Schedule.antt =====
-- Requests that overlap. `begin_enroll` only reads the store, so an enrollment may be started at any
-- earlier moment; what it does to the store happens in `finish_enroll`. A schedule is any sequence of
-- issued challenges and finished enrollments, whatever the pending enrollments are.
use cardano_on_evm.Prelude.{
  ℕ, ◌+◌, ◌≤◌, ◌≡◌, ap, inl, inr, true, List, [], ◌∷◌, Option, none, some, arith, Result, ok, err,
  ◌>>◌, is_ok, is_ok-cases, Str, Bytes, str_eq, str_eq_iff, Bool-cases, Option-cases, if◌then◌else◌,
}
use cardano_on_evm.Wallet.Address.{CardanoAddress, Bech32, parse_cardano_address}
use cardano_on_evm.Wallet.Cip8.{VerifiedCip8, Crypto}
use cardano_on_evm.Enrollment.Store.{ChallengeRecord, ChallengeStore, is_consumable}
use cardano_on_evm.Enrollment.Service.{
  EnrollmentScope, Enrolled, Pending, challenge_data, with_payload, store_challenge, issue,
  finish_enroll,
}
use cardano_on_evm.Enrollment.Service.Outcome.{finish_enroll-eq-ok, finish_enroll-eq-err}

pub data Event (Identity : Type 0) : Type 0 where
  issuing : ℕ → ℕ → Bytes → Str → Event Identity
  finishing : Pending Identity → ℕ → Event Identity

present : Option ChallengeRecord → ℕ
present none = 0
present (some r) = 1

-- Whether a challenge with this identifier is in the store: 1 if it is.
unfoldable pub held : (store : ChallengeStore) → Str → store.State → ℕ
unfolding present
held store id s = present (store.get id s)

consumable_present :
    (o o' : Option ChallengeRecord) (p : Str) (now : ℕ)
    → o ≡ o'
    → is_consumable o p now ≡ true
    → 1 + present none ≤ present o'
unfolding present
consumable_present o none p now e h = absurd (ground (arith, e, h))
consumable_present o (some r) p now e h = omega arith

abbrev issued_as : Str → Result ChallengeRecord → ℕ
issued_as id (ok r) = if str_eq r.id id then 1 else 0
issued_as id (err e) = 0

module _ (crypto : Crypto) (bech32 : Bech32) {Identity : Type 0}
    (derive_identity : VerifiedCip8 → Result Identity) (scope : EnrollmentScope)
    (store : ChallengeStore) where
  abbrev run_issue : ℕ → ℕ → Bytes → Str → store.State → Result ChallengeRecord × store.State
  run_issue = issue crypto bech32 derive_identity scope store

  abbrev run_finish : Pending Identity → ℕ → store.State → Result (Enrolled Identity) × store.State
  run_finish = finish_enroll crypto bech32 derive_identity scope store

  unfoldable pub after : Event Identity → store.State → store.State
  after (issuing ttl now random address) s = (run_issue ttl now random address s).1
  after (finishing p now) s = (run_finish p now s).1

  -- How many challenges with the identifier the event issued: one or none.
  unfoldable pub issues : Str → Event Identity → store.State → ℕ
  issues id (issuing ttl now random address) s = issued_as id (run_issue ttl now random address s).0
  issues id (finishing p now) s = 0

  -- How many enrollments with the identifier the event completed: one or none.
  unfoldable pub enrolls : Str → Event Identity → store.State → ℕ
  enrolls id (issuing ttl now random address) s = 0
  enrolls id (finishing p now) s =
      if is_ok (run_finish p now s).0 then (if str_eq p.id id then 1 else 0) else 0

  unfoldable pub total_issues : Str → List (Event Identity) → store.State → ℕ
  total_issues id [] s = 0
  total_issues id (e ∷ es) s = issues id e s + total_issues id es (after e s)

  unfoldable pub total_enrolls : Str → List (Event Identity) → store.State → ℕ
  total_enrolls id [] s = 0
  total_enrolls id (e ∷ es) s = enrolls id e s + total_enrolls id es (after e s)

  store_challenge-IsValid :
      (ttl now : ℕ) (random : Bytes) (a : Result CardanoAddress) (s : store.State)
      → store.IsValid s
      → store.IsValid
          (store_challenge crypto bech32 derive_identity scope store ttl now random a s).1
  unfolding store_challenge
  store_challenge-IsValid ttl now random (err e) s v = v
  store_challenge-IsValid ttl now random (ok a) s v = store.put-IsValid _ s v

  after-IsValid :
      (e : Event Identity) (s : store.State) → store.IsValid s → store.IsValid (after e s)
  unfolding after issue finish_enroll
  after-IsValid (issuing ttl now random address) s v = store_challenge-IsValid ttl now random _ s v
  after-IsValid (finishing p now) s v = store.consume-IsValid p.id p.payload_hex now s v

  -- A challenge is stored only under an identifier that is free.
  put_balance :
      (id : Str) (r : ChallengeRecord) (s : store.State)
      → store.IsValid s
      → held store id (store.put r s).1 ≤ issued_as id ((store.put r s).0 >> ok r) + held store id s
  unfolding held
  put_balance id r s v = elim (Option-cases (store.get r.id s)) [
    | inl free ↦
        let (stored, gets) = store.put_fresh r s v free in
        rw (gets id, stored) (ground (arith, str_eq_iff r.id id, free))
    | inr (old, taken) ↦ rw (store.put_taken r old s v taken).1 (omega arith)
  ]

  store_challenge_balance :
      (id : Str) (ttl now : ℕ) (random : Bytes) (a : Result CardanoAddress) (s : store.State)
      → store.IsValid s
      → let run = store_challenge crypto bech32 derive_identity scope store ttl now random a s in
        held store id run.1 ≤ issued_as id run.0 + held store id s
  unfolding store_challenge
  store_challenge_balance id ttl now random (err e) s v = omega arith
  store_challenge_balance id ttl now random (ok a) s v =
      put_balance id (with_payload (challenge_data scope ttl now random a.hex)) s v

  finish_balance :
      (id : Str) (p : Pending Identity) (now : ℕ) (s : store.State)
      → store.IsValid s
      → enrolls id (finishing p now) s + held store id (run_finish p now s).1 ≤ held store id s
  unfolding enrolls held
  finish_balance id p now s v = elim (is_ok-cases (run_finish p now s).0) [
    | inl (r, done) ↦
        let (fits, _, gets) =
          finish_enroll-eq-ok crypto bech32 derive_identity scope store p now s
            (run_finish p now s).1 r v
            (ap (λ (x : Result (Enrolled Identity)). (x, (run_finish p now s).1)) done) in
        rw (done, gets id)
          (was_held id p (store.get p.id s) (λ e. ap (λ (k : Str). store.get k s) e) fits)
    | inr (e, failed) ↦
        let (_, same) =
          finish_enroll-eq-err crypto bech32 derive_identity scope store p now s
            (run_finish p now s).1 e v
            (ap (λ (x : Result (Enrolled Identity)). (x, (run_finish p now s).1)) failed) in
        rw (failed, same) (omega arith)
  ]
    where
      was_held :
          (id : Str) (p : Pending Identity) (o : Option ChallengeRecord)
          → (p.id ≡ id → o ≡ store.get id s)
          → is_consumable o p.payload_hex now ≡ true
          → (if str_eq p.id id then 1 else 0)
              + present (if str_eq p.id id then none else store.get id s)
            ≤ present (store.get id s)
      was_held id p o same fits = elim (Bool-cases (str_eq p.id id)) [
        | inl e ↦ rw e (
            consumable_present o (store.get id s) p.payload_hex now
              (same ((str_eq_iff p.id id).0 e)) fits)
        | inr e ↦ rw e (omega arith)
      ]

  event_balance :
      (id : Str) (e : Event Identity) (s : store.State)
      → store.IsValid s
      → enrolls id e s + held store id (after e s) ≤ issues id e s + held store id s
  unfolding after issues enrolls issue
  event_balance id (issuing ttl now random address) s v = omega (
    arith,
    store_challenge_balance id ttl now random
        (parse_cardano_address bech32 address (some scope.cardano_network)) s v,
  )
  event_balance id (finishing p now) s v = omega (arith, finish_balance id p now s v)

  -- From a valid store, in any sequence of issued challenges and finished enrollments, the
  -- enrollments completed with an identifier are at most the challenges issued under it, and one
  -- more if the store held one at first: each challenge serves at most once.
  pub total_enrolls-le :
      (id : Str) (events : List (Event Identity)) (s : store.State)
      → store.IsValid s
      → total_enrolls id events s ≤ total_issues id events s + held store id s
  unfolding total_enrolls total_issues
  total_enrolls-le id [] s v = omega arith
  total_enrolls-le id (e ∷ events) s v =
      omega (
        arith,
        event_balance id e s v,
        total_enrolls-le id events (after e s) (after-IsValid e s v),
      )

-- ===== src/Enrollment/Service/Outcome.antt =====
-- What the outcome of `enroll` says, for any store that keeps the contract.
use mathlib.Core.Path.{subst}
use cardano_on_evm.Prelude.{
  ℕ, ◌≤◌, ◌<◌, ◌≡◌, refl, sym, ap, ◌∙◌, inl, inr, Bool, true, false, not, ◌||◌, Option, none, some,
  arith, Result, ok, err, >>=-eq-ok, >>-eq-ok, ok-injective, ok-ne-err, is_ok-cases, Str, Bytes,
  String, str_eq, str_eq_iff, ltb, leb, if◌then◌else◌,
}
use cardano_on_evm.Wallet.Bytes.{from_hex, to_hex}
use cardano_on_evm.Wallet.Bytes.Hex.{from_hex-to_hex}
use cardano_on_evm.Wallet.Utf8.{utf8_encode-IsBytes}
use cardano_on_evm.Wallet.Address.{Bech32}
use cardano_on_evm.Wallet.Cip8.{
  DataSignature, VerifiedCip8, Expected, Crypto, verify_cip8_signature,
}
use cardano_on_evm.Wallet.Cip8.Sound.{Authorizes, verify_cip8_signature-Authorizes}
use cardano_on_evm.Enrollment.Store.{ChallengeRecord, ChallengeStore, is_consumable}
use cardano_on_evm.Enrollment.Payload.{payload}
use cardano_on_evm.Enrollment.Service.{
  EnrollmentScope, Enrolled, Pending, scope_differs, is_challenge_id, check_challenge,
  verify_challenge, begin_enroll, finish_enroll, enroll,
}

-- The stored challenge is of this service's scope, not expired, and intact.
pub record IsCurrent (scope : EnrollmentScope) (now now' : ℕ) (c : ChallengeRecord) : Type 0 where
  pub not_expired : now < c.expires_at
  pub issued : c.issued_at ≤ now'
  pub application : c.application ≡ scope.application
  pub chain : c.base_chain_id ≡ scope.base_chain_id
  pub network : c.cardano_network ≡ scope.cardano_network
  pub config : c.config_hash ≡ scope.config_hash
  pub intact : c.payload_hex ≡ to_hex (payload c)

consumable_lem :
    (o : Option ChallengeRecord) (c : ChallengeRecord) (p : Str) (now : ℕ)
    → o ≡ some c
    → is_consumable o p now ≡ true
    → now < c.expires_at
consumable_lem o c p now e h = ground arith

-- What the wallet must have signed to answer a challenge.
abbrev pub answer_to : EnrollmentScope → ChallengeRecord → Expected
answer_to scope c = record {
  address = c.cardano_address;
  network = scope.cardano_network;
  payload = payload c;
}

module _ (crypto : Crypto) (bech32 : Bech32) {Identity : Type 0}
    (derive_identity : VerifiedCip8 → Result Identity) (scope : EnrollmentScope) where
  check_challenge-IsCurrent :
      (found : Option ChallengeRecord) (now now' : ℕ) (c : ChallengeRecord)
      → check_challenge crypto bech32 derive_identity scope found now now' ≡ ok c
      → (found ≡ some c) × IsCurrent scope now now' c
  unfolding check_challenge
  check_challenge-IsCurrent none now now' c h = cc
  check_challenge-IsCurrent (some x) now now' c h =
      let (timely, h₁) = >>-eq-ok (leb x.expires_at now || ltb now' x.issued_at) _ _ h in
      let (scoped, h₂) = >>-eq-ok (scope_differs x scope) _ _ h₁ in
      let (intact, h₃) = >>-eq-ok (not (str_eq x.payload_hex (to_hex (payload x)))) _ _ h₂ in
      subst (λ y. (some x ≡ some y) × IsCurrent scope now now' y) (ok-injective h₃)
        (
          refl,
          record {
            not_expired = ground arith;
            issued = ground arith;
            application = (str_eq_iff x.application scope.application).0 (ground arith);
            chain = ground arith;
            network = ground arith;
            config = (str_eq_iff x.config_hash scope.config_hash).0 (ground arith);
            intact = (str_eq_iff x.payload_hex (to_hex (payload x))).0 (ground arith);
          },
        )

  pub payload_bytes :
      (c : ChallengeRecord)
      → c.payload_hex ≡ to_hex (payload c)
      → from_hex c.payload_hex ≡ ok (payload c)
  unfolding payload
  payload_bytes c intact = ap from_hex intact ∙ from_hex-to_hex (payload c) (utf8_encode-IsBytes _)

  verify_challenge-eq :
      (id : Str) (c : ChallengeRecord) (signed : DataSignature) (p : Pending Identity)
      → c.payload_hex ≡ to_hex (payload c)
      → verify_challenge crypto bech32 derive_identity scope id c signed ≡ ok p
      → (v : VerifiedCip8) × (verify_cip8_signature crypto bech32 signed (answer_to scope c) ≡ ok v)
        × (derive_identity v ≡ ok p.enrolled.identity)
        × (p.enrolled.public_key ≡ to_hex v.public_key)
        × (p.enrolled.address ≡ v.address.hex)
        × (p.id ≡ id)
        × (p.payload_hex ≡ c.payload_hex)
  unfolding verify_challenge
  verify_challenge-eq id c signed p intact h =
      let (bytes, eb, h₁) = >>=-eq-ok (from_hex c.payload_hex) _ h in
      let (v, ev, h₂) = >>=-eq-ok (verify_cip8_signature crypto bech32 signed _) _ h₁ in
      let (identity, ei, h₃) = >>=-eq-ok (derive_identity v) _ h₂ in
      let same : bytes ≡ payload c = ok-injective (sym eb ∙ payload_bytes c intact) in
      let done = ok-injective h₃ in
      (
        v,
        ap
              (λ (b : Bytes). verify_cip8_signature crypto bech32 signed (record {
                address = c.cardano_address;
                network = scope.cardano_network;
                payload = b;
              }))
              (sym same)
            ∙ ev,
        ei ∙ ap (λ (q : Pending Identity). ok q.enrolled.identity) done,
        sym (ap (λ (q : Pending Identity). q.enrolled.public_key) done),
        sym (ap (λ (q : Pending Identity). q.enrolled.address) done),
        sym (ap (λ (q : Pending Identity). q.id) done),
        sym (ap (λ (q : Pending Identity). q.payload_hex) done),
      )

  used_lem :
      (b : Bool) (x r : Enrolled Identity)
      → (if b then ok x else err "Challenge expired or already consumed") ≡ ok r
      → b ≡ true
  used_lem true x r h = refl
  used_lem false x r h = cc

  unused_lem :
      (b : Bool) (x : Enrolled Identity) (e : String)
      → (if b then ok x else err "Challenge expired or already consumed") ≡ err e
      → b ≡ false
  unused_lem true x e h = cc
  unused_lem false x e h = refl

  -- A challenge that answers for a pending enrollment, with the signature that was verified.
  pub record Verified (now now' : ℕ) (signed : DataSignature) (c : ChallengeRecord)
      (p : Pending Identity) : Type 0 where
    pub current : IsCurrent scope now now' c
    pub signature : VerifiedCip8
    pub authorized : Authorizes crypto bech32 (answer_to scope c) signature
    pub derived : derive_identity signature ≡ ok p.enrolled.identity
    pub public_key : p.enrolled.public_key ≡ to_hex signature.public_key
    pub address : p.enrolled.address ≡ signature.address.hex
    pub same_payload : p.payload_hex ≡ c.payload_hex

  module _ (store : ChallengeStore) where
    pub begin_enroll-Verified :
        (id : Str) (signed : DataSignature) (now now' : ℕ) (s : store.State) (p : Pending Identity)
        → begin_enroll crypto bech32 derive_identity scope store id signed now now' s ≡ ok p
        → (p.id ≡ id)
          × ((c : ChallengeRecord) × (store.get id s ≡ some c) × Verified now now' signed c p)
    unfolding begin_enroll
    begin_enroll-Verified id signed now now' s p h =
        let (_, h₁) = >>-eq-ok (not (is_challenge_id id)) _ _ h in
        let (c, ec, h₂) =
          >>=-eq-ok (check_challenge crypto bech32 derive_identity scope (store.get id s) now now')
            (λ c. verify_challenge crypto bech32 derive_identity scope id c signed) h₁ in
        let (found, current) = check_challenge-IsCurrent (store.get id s) now now' c ec in
        let (v, ev, ei, ek, ea, e_id, ep) = verify_challenge-eq id c signed p current.intact h₂ in
        (
          e_id,
          (
            c,
            found,
            record {
              current = current;
              signature = v;
              authorized =
                  verify_cip8_signature-Authorizes crypto bech32 signed (answer_to scope c) v ev;
              derived = ei;
              public_key = ek;
              address = ea;
              same_payload = ep;
            },
          ),
        )

    pub finish_enroll-eq-ok :
        (p : Pending Identity) (now : ℕ) (s s' : store.State) (r : Enrolled Identity)
        → store.IsValid s
        → finish_enroll crypto bech32 derive_identity scope store p now s ≡ (ok r, s')
        → (is_consumable (store.get p.id s) p.payload_hex now ≡ true)
          × (r ≡ p.enrolled)
          × ((j : Str) → store.get j s' ≡ (if str_eq p.id j then none else store.get j s))
    unfolding finish_enroll
    finish_enroll-eq-ok p now s s' r valid h =
        let used = store.consume p.id p.payload_hex now s in
        let first : (if used.0 then ok p.enrolled else err "Challenge expired or already consumed")
            ≡ ok r =
          ap (λ (x : Result (Enrolled Identity) × store.State). x.0) h in
        let second : used.1 ≡ s' = ap (λ (x : Result (Enrolled Identity) × store.State). x.1) h in
        let answer = store.consume_answer p.id p.payload_hex now s valid in
        let consumed : used.0 ≡ true = used_lem used.0 p.enrolled r first in
        let fits = sym answer ∙ consumed in
        (
          fits,
          ok-injective (
              sym first
              ∙ ap
                  (λ (b : Bool).
                    if b then ok p.enrolled else err "Challenge expired or already consumed")
                  consumed),
          λ j.
              ap (store.get j) (sym second)
              ∙ (store.get-consume p.id p.payload_hex now s j valid ∙ (rw fits)),
        )

    pub finish_enroll-eq-err :
        (p : Pending Identity) (now : ℕ) (s s' : store.State) (e : String)
        → store.IsValid s
        → finish_enroll crypto bech32 derive_identity scope store p now s ≡ (err e, s')
        → (is_consumable (store.get p.id s) p.payload_hex now ≡ false) × (s' ≡ s)
    unfolding finish_enroll
    finish_enroll-eq-err p now s s' e valid h =
        let used = store.consume p.id p.payload_hex now s in
        let first : (if used.0 then ok p.enrolled else err "Challenge expired or already consumed")
            ≡ err e =
          ap (λ (x : Result (Enrolled Identity) × store.State). x.0) h in
        let second : used.1 ≡ s' = ap (λ (x : Result (Enrolled Identity) × store.State). x.1) h in
        let answer = store.consume_answer p.id p.payload_hex now s valid in
        let refused = sym answer ∙ unused_lem used.0 p.enrolled e first in
        (refused, sym second ∙ store.consume_false p.id p.payload_hex now s valid refused)

    -- In a valid store, an enrollment that succeeds does so for a challenge that the store held
    -- under the identifier: of this service's scope and with an intact payload, not expired at the
    -- first and the last reading of the clock and not from after the second, and answered by an
    -- authorized signature of its payload, from which the returned identity was derived. It removes
    -- that challenge and no other.
    pub enroll-eq-ok :
        (id : Str) (signed : DataSignature) (now now' now'' : ℕ) (s s' : store.State)
        (r : Enrolled Identity)
        → store.IsValid s
        → enroll crypto bech32 derive_identity scope store id signed now now' now'' s ≡ (ok r, s')
        → ((c : ChallengeRecord) × (p : Pending Identity) × (store.get id s ≡ some c)
            × Verified now now' signed c p
            × (r ≡ p.enrolled)
            × (now'' < c.expires_at))
          × ((j : Str) → store.get j s' ≡ (if str_eq id j then none else store.get j s))
    unfolding enroll
    enroll-eq-ok id signed now now' now'' s s' r valid h =
        elim (is_ok-cases
          (begin_enroll crypto bech32 derive_identity scope store id signed now now' s)) [
            | inl (p, e) ↦
                let finished : finish_enroll crypto bech32 derive_identity scope store p now'' s
                    ≡ (ok r, s') =
                  (rw (e, enroll) at h) in
                let (same, held) = begin_enroll-Verified id signed now now' s p e in
                let (c, found, verified) = held in
                let (fits, done, gets) = finish_enroll-eq-ok p now'' s s' r valid finished in
                let found' = ap (λ (k : Str). store.get k s) same ∙ found in
                (
                  (
                    c,
                    p,
                    found,
                    verified,
                    done,
                    consumable_lem (store.get p.id s) c p.payload_hex now'' found' fits,
                  ),
                  λ j. gets j ∙ ap (λ (k : Str). if str_eq k j then none else store.get j s) same,
                )
            | inr (m, e) ↦ absurd (
                ok-ne-err (
                  rw (e, enroll) at (ap (λ (x : Result (Enrolled Identity) × store.State). x.0) h)))
          ]

    -- An enrollment that fails leaves a valid store as it was.
    pub enroll-eq-err :
        (id : Str) (signed : DataSignature) (now now' now'' : ℕ) (s s' : store.State) (e : String)
        → store.IsValid s
        → enroll crypto bech32 derive_identity scope store id signed now now' now'' s ≡ (err e, s')
        → s' ≡ s
    unfolding enroll
    enroll-eq-err id signed now now' now'' s s' e valid h =
        elim (is_ok-cases
          (begin_enroll crypto bech32 derive_identity scope store id signed now now' s)) [
            | inl (p, began) ↦
                (finish_enroll-eq-err p now'' s s' e valid (rw (began, enroll) at h)).1
            | inr (m, failed) ↦ sym (
                ap (λ (x : Result (Enrolled Identity) × store.State). x.1)
                  (rw (failed, enroll) at h))
          ]

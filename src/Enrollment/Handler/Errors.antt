-- ===== src/Enrollment/Handler/Errors.antt =====
-- What the error responses of `createEnrollmentHandler` leave behind.
use cardano_on_evm.Prelude.{
  ℕ, ◌≡◌, refl, sym, ap, ◌∙◌, not, List, Option, Result, ok, err, ◌>>◌, ok-ne-err, String, Str,
  Bytes, codes, str_eq, Bool-cases, Option-cases, inl, inr,
}
use cardano_on_evm.Wallet.Address.{CardanoAddress, Bech32}
use cardano_on_evm.Wallet.Cip8.{VerifiedCip8, Crypto}
use cardano_on_evm.Enrollment.Store.{ChallengeRecord, ChallengeStore}
use cardano_on_evm.Enrollment.Service.{
  EnrollmentScope, Enrolled, challenge_data, with_payload, store_challenge, issue, enroll,
}
use cardano_on_evm.Enrollment.Service.Outcome.{enroll-eq-err}
use cardano_on_evm.Enrollment.Handler.{
  Property, Request, Response, error_status, Action, to_issue, to_enroll, read_action, perform,
  handle_post, handle_request, is_json, answer_issue, answer_enroll,
}

module _ (crypto : Crypto) (bech32 : Bech32) {Identity : Type 0}
    (derive_identity : VerifiedCip8 → Result Identity) (scope : EnrollmentScope)
    (store : ChallengeStore) where
  stored_err :
      (o : Result (Unit {0})) (r : ChallengeRecord) (e : String) → (o >> ok r) ≡ err e → o ≡ err e
  stored_err (ok u) r e h = cc
  stored_err (err m) r e h = cc

  put_err :
      (r : ChallengeRecord) (s : store.State) (e : String)
      → store.IsValid s
      → (store.put r s).0 ≡ err e
      → (store.put r s).1 ≡ s
  put_err r s e v h = elim (Option-cases (store.get r.id s)) [
    | inl free ↦ absurd (ok-ne-err (sym h ∙ (store.put_fresh r s v free).0))
    | inr (old, taken) ↦ (store.put_taken r old s v taken).1
  ]

  store_challenge-eq-err :
      (ttl now : ℕ) (random : Bytes) (a : Result CardanoAddress) (s : store.State) (e : String)
      → store.IsValid s
      → (store_challenge crypto bech32 derive_identity scope store ttl now random a s).0 ≡ err e
      → (store_challenge crypto bech32 derive_identity scope store ttl now random a s).1 ≡ s
  unfolding store_challenge
  store_challenge-eq-err ttl now random (err m) s e v h = refl
  store_challenge-eq-err ttl now random (ok address) s e v h =
      let r = with_payload (challenge_data scope ttl now random address.hex) in
      put_err r s e v (stored_err (store.put r s).0 r e h)

  module _ (parse : Bytes → Result (Option (List Property))) where
    answer_issue-error :
        (run : Result ChallengeRecord × store.State) (s s' : store.State) (status : ℕ) (e : String)
        → ((m : String) → run.0 ≡ err m → run.1 ≡ s)
        → answer_issue crypto bech32 derive_identity scope store parse run
          ≡ (error_status status e, s')
        → s' ≡ s
    answer_issue-error (ok c, s₁) s s' status e keeps h = cc
    answer_issue-error (err m, s₁) s s' status e keeps h =
        sym (ap (λ (x : Response Identity × store.State). x.1) h) ∙ keeps m refl

    answer_enroll-error :
        (run : Result (Enrolled Identity) × store.State) (s s' : store.State) (status : ℕ)
        (e : String)
        → ((m : String) → run.0 ≡ err m → run.1 ≡ s)
        → answer_enroll crypto bech32 derive_identity scope store parse run
          ≡ (error_status status e, s')
        → s' ≡ s
    answer_enroll-error (ok c, s₁) s s' status e keeps h = cc
    answer_enroll-error (err m, s₁) s s' status e keeps h =
        sym (ap (λ (x : Response Identity × store.State). x.1) h) ∙ keeps m refl

    perform-error :
        (ttl : ℕ) (random : Bytes) (now now' now'' : ℕ) (a : Result Action) (s s' : store.State)
        (status : ℕ) (e : String)
        → store.IsValid s
        → perform crypto bech32 derive_identity scope store parse ttl random now now' now'' a s
          ≡ (error_status status e, s')
        → s' ≡ s
    unfolding perform issue
    perform-error ttl random now now' now'' (err m) s s' status e v h =
        sym (ap (λ (x : Response Identity × store.State). x.1) h)
    perform-error ttl random now now' now'' (ok (to_issue address)) s s' status e v h =
        answer_issue-error _ s s' status e (λ m f. store_challenge-eq-err ttl now random _ s m v f)
          h
    perform-error ttl random now now' now'' (ok (to_enroll id signed)) s s' status e v h =
        let run = enroll crypto bech32 derive_identity scope store id signed now now' now'' s in
        answer_enroll-error run s s' status e
          (λ m f.
            enroll-eq-err crypto bech32 derive_identity scope store id signed now now' now'' s run.1
              m v (ap (λ (x : Result (Enrolled Identity)). (x, run.1)) f))
          h

    handle_post-error :
        (ttl : ℕ) (random : Bytes) (now now' now'' : ℕ) (request : Request) (path : Result Str)
        (s s' : store.State) (status : ℕ) (e : String)
        → store.IsValid s
        → handle_post crypto bech32 derive_identity scope store parse ttl random now now' now''
            request path s
          ≡ (error_status status e, s')
        → s' ≡ s
    unfolding handle_post
    handle_post-error ttl random now now' now'' request (err m) s s' status e v h =
        sym (ap (λ (x : Response Identity × store.State). x.1) h)
    handle_post-error ttl random now now' now'' request (ok route) s s' status e v h =
        elim (Bool-cases (not (str_eq request.method (codes "POST")))) [
          | inl other ↦ sym (ap (λ (x : Response Identity × store.State). x.1) (rw other at h))
          | inr post ↦ elim (Bool-cases (not (is_json request.content_type))) [
            | inl text ↦
                sym (ap (λ (x : Response Identity × store.State). x.1) (rw (post, text) at h))
            | inr json ↦
                perform-error ttl random now now' now'' (read_action parse route request.body) s s'
                  status e v (rw (post, json) at h)
          ]
        ]

    -- A request that is answered with an error, whatever its status, leaves a valid store as it was.
    pub handle_request-error :
        (ttl : ℕ) (random : Bytes) (now now' now'' : ℕ) (request : Request) (s s' : store.State)
        (status : ℕ) (e : String)
        → store.IsValid s
        → handle_request crypto bech32 derive_identity scope store parse ttl random now now' now''
            request s
          ≡ (error_status status e, s')
        → s' ≡ s
    unfolding handle_request
    handle_request-error ttl random now now' now'' request s s' status e v h =
        handle_post-error ttl random now now' now'' request request.pathname s s' status e v h

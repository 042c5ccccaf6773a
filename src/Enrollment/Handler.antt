-- ===== src/Enrollment/Handler.antt =====
-- `createEnrollmentHandler` of packages/enrollment/src/service.ts: the Fetch handler of the service.
-- A body is the chunks that its reader gives. JSON.parse and the text decoding before it are one
-- parameter.
pub mod Errors
use cardano_on_evm.Prelude.{
  ℕ, ◌+◌, ◌≤◌, ◌≡◌, refl, Bool, true, false, not, ◌&&◌, List, [], ◌∷◌, map, Option, none, some,
  arith, Result, ok, err, ◌>>=◌, ◌>>◌, throw_if, or_throw, String, Str, Bytes, codes, has_prefix,
  str_eq, ltb, if◌then◌else◌, length, Bool-cases, inl, inr,
}
use cardano_on_evm.Wallet.Bytes.{concat_bytes, total_length}
use cardano_on_evm.Wallet.Address.{Bech32}
use cardano_on_evm.Wallet.Cip8.{DataSignature, VerifiedCip8, Crypto}
use cardano_on_evm.Enrollment.Store.{ChallengeRecord, ChallengeStore}
use cardano_on_evm.Enrollment.Service.{EnrollmentScope, Enrolled, issue, enroll}

-- A property of a JSON object: its string, if it is one.
pub record Property : Type 0 where
  pub name : Str
  pub string : Option Str

-- `new URL(request.url).pathname`, the method, the content type, and the chunks of the body.
pub record Request : Type 0 where
  pub pathname : Result Str
  pub method : Str
  pub content_type : Option Str
  pub body : Option (List Bytes)

pub data Response (Identity : Type 0) : Type 0 where
  challenge : ChallengeRecord → Response Identity
  enrolled : Enrolled Identity → Response Identity
  error_status : ℕ → String → Response Identity

-- The loop on the reader: chunks are counted before they are kept.
unfoldable pub read_body : ℕ → List Bytes → Result (List Bytes)
read_body size [] = ok []
read_body size (chunk ∷ chunks) = do
  throw_if (ltb 40000 (size + length chunk)) "Request too large"
  rest ← read_body (size + length chunk) chunks
  ok (chunk ∷ rest)

unfoldable pub string_at : Str → List Property → Option Str
string_at name [] = none
string_at name (p ∷ ps) = if str_eq p.name name then p.string else string_at name ps

pub data Action : Type 0 where
  to_issue : Str → Action
  to_enroll : Str → DataSignature → Action

-- The properties of a request to enroll, if they are the three strings.
unfoldable pub enroll_action : Option Str → Option Str → Option Str → Option Action
enroll_action (some id) (some signature) (some key) =
    some (to_enroll id (record { signature = signature; key = key }))
enroll_action _ _ _ = none

unfoldable pub issue_action : Option Str → Option Action
issue_action none = none
issue_action (some address) = some (to_issue address)

unfoldable pub has_size : List Property → ℕ → Bool
has_size ps n = if ltb (length ps) n then false else not (ltb n (length ps))

-- The routes.
unfoldable pub route_action : Str → List Property → Option Action
unfolding has_size issue_action enroll_action string_at
route_action route body =
    if str_eq route (codes "/challenge") && has_size body 1
    then issue_action (string_at (codes "address") body)
    else if str_eq route (codes "/enroll") && has_size body 3
    then enroll_action (string_at (codes "id") body) (string_at (codes "signature") body)
        (string_at (codes "key") body)
    else none

-- From the body to the action, or the message of the error.
unfoldable pub read_action :
    (Bytes → Result (Option (List Property))) → Str → Option (List Bytes) → Result Action
read_action parse route stream = do
  source ← or_throw stream "Missing request body"
  chunks ← read_body 0 source
  value ← parse (concat_bytes chunks)
  body ← or_throw value "Invalid request"
  or_throw (route_action route body) "Unknown route or invalid request"

abbrev pub is_json : Option Str → Bool
is_json none = false
is_json (some t) = has_prefix (codes "application/json") t

read_body_from :
    (size : ℕ) (chunks : List Bytes)
    → size ≤ 40000
    → read_body size chunks
      ≡ (if ltb 40000 (size + total_length chunks) then err "Request too large" else ok chunks)
unfolding read_body total_length
read_body_from size [] h = ground arith
read_body_from size (chunk ∷ chunks) h = elim (Bool-cases (ltb 40000 (size + length chunk))) [
  | inl over ↦
      let whole : ltb 40000 (size + (length chunk + total_length chunks)) ≡ true = ground arith in
      rw (over, whole)
  | inr under ↦
      let small : size + length chunk ≤ 40000 = ground arith in
      let same : size + length chunk + total_length chunks
          ≡ size + (length chunk + total_length chunks) =
        omega arith in
      let rest = read_body_from (size + length chunk) chunks small in
      rw (under, rest, same) (kept (ltb 40000 (size + (length chunk + total_length chunks))))
]
  where
    kept :
        (b : Bool)
        → ((if b then err "Request too large" else ok chunks) >>= λ rest. ok (chunk ∷ rest))
          ≡ (if b then err "Request too large" else ok (chunk ∷ chunks))
    kept true = refl
    kept false = refl

-- The reader accepts exactly the bodies of at most 40000 bytes, wherever the chunks are cut, and
-- keeps every chunk.
pub read_body-total :
    (chunks : List Bytes)
    → read_body 0 chunks
      ≡ (if ltb 40000 (total_length chunks) then err "Request too large" else ok chunks)
read_body-total chunks =
    let none_before : 0 + total_length chunks ≡ total_length chunks = omega arith in
    rw none_before at (read_body_from 0 chunks (omega arith))

module _ (crypto : Crypto) (bech32 : Bech32) {Identity : Type 0}
    (derive_identity : VerifiedCip8 → Result Identity) (scope : EnrollmentScope)
    (store : ChallengeStore) (parse : Bytes → Result (Option (List Property))) where
  abbrev pub answer_issue : Result ChallengeRecord × store.State → Response Identity × store.State
  answer_issue (ok c, s) = (challenge c, s)
  answer_issue (err e, s) = (error_status 400 e, s)

  abbrev pub answer_enroll :
      Result (Enrolled Identity) × store.State → Response Identity × store.State
  answer_enroll (ok r, s) = (enrolled r, s)
  answer_enroll (err e, s) = (error_status 400 e, s)

  -- The call of the service, at its readings of the clock and its random bytes.
  unfoldable pub perform :
      ℕ → Bytes → ℕ → ℕ → ℕ → Result Action → store.State → Response Identity × store.State
  perform ttl_ms random now now' now'' (err e) s = (error_status 400 e, s)
  perform ttl_ms random now now' now'' (ok (to_issue address)) s =
      answer_issue (issue crypto bech32 derive_identity scope store ttl_ms now random address s)
  perform ttl_ms random now now' now'' (ok (to_enroll id signed)) s =
      answer_enroll (enroll crypto bech32 derive_identity scope store id signed now now' now'' s)

  unfoldable pub handle_post :
      ℕ → Bytes → ℕ → ℕ → ℕ → Request → Result Str → store.State → Response Identity × store.State
  handle_post ttl_ms random now now' now'' request (err e) s = (error_status 400 e, s)
  handle_post ttl_ms random now now' now'' request (ok route) s =
      let performed =
        perform ttl_ms random now now' now'' (read_action parse route request.body) s in
      if not (str_eq request.method (codes "POST"))
      then (error_status 405 "Method not allowed", s)
      else if not (is_json request.content_type)
      then (error_status 415 "Expected JSON", s)
      else performed

  unfoldable pub handle_request :
      ℕ → Bytes → ℕ → ℕ → ℕ → Request → store.State → Response Identity × store.State
  handle_request ttl_ms random now now' now'' request s =
      handle_post ttl_ms random now now' now'' request request.pathname s

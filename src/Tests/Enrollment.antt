-- ===== src/Tests/Enrollment.antt =====
-- packages/enrollment on concrete inputs: a challenge issued by the in-memory store, its signature
-- made with the sample key, and the tables of the SQLite store.
use cardano_on_evm.Prelude.{
  ℕ, ◌≡◌, ◌≤◌, ◌<◌, ◌+◌, refl, List, [], ◌∷◌, ◌++◌, map, Option, none, some, arith, Result, ok, err,
  Str, Bytes, codes, replicate, str_eq, length, take, drop, take-length_append, drop-length_append,
  if◌then◌else◌, String,
}
use cardano_on_evm.Wallet.Bytes.{to_hex}
use cardano_on_evm.Wallet.Cip8.{verify_cip8_signature, DataSignature, VerifiedCip8}
use cardano_on_evm.Enrollment.Store.{ChallengeRecord}
use cardano_on_evm.Enrollment.Store.Memory
use cardano_on_evm.Enrollment.Store.Sqlite
use cardano_on_evm.Enrollment.Store.Memory.{Records, memory_store}
use cardano_on_evm.Prelude.Decimal.{decimal, decimal_loop}
use cardano_on_evm.Enrollment.Payload.{
  payload, payload_text, json_string, json_chars, json_char, json_members,
}
use cardano_on_evm.Enrollment.Service.{
  EnrollmentScope, Enrolled, Pending, all_lower_hex, is_challenge_id, check_challenge,
  verify_challenge, store_challenge, issue, begin_enroll, finish_enroll, enroll, challenge_data,
  with_payload,
}
use cardano_on_evm.Enrollment.Service.Outcome.{Verified, enroll-eq-ok, enroll-eq-err, answer_to}
use cardano_on_evm.Enrollment.Service.Complete.{issue-enroll, enroll_again, enrolled_by}
use cardano_on_evm.Enrollment.Service.Schedule.{
  Event, issuing, finishing, held, total_issues, total_enrolls, total_enrolls-le,
}
use cardano_on_evm.Tests.Samples.{
  toy_crypto, no_bech32, sample_key, sample_address, sample_message, sample_verified, run_verify,
}

abbrev sample_scope : EnrollmentScope
sample_scope = record {
  application = codes "https://a.b";
  base_chain_id = 8453;
  cardano_network = 0;
  config_hash = codes "0x00";
}

abbrev derive : VerifiedCip8 → Result Bytes
derive v = ok v.public_key

abbrev sample_random : Bytes
sample_random = replicate 32 5

unfoldable sample_challenge : ChallengeRecord
unfolding payload payload_text decimal decimal_loop json_string json_chars json_char json_members
    run_verify
sample_challenge =
    with_payload (challenge_data sample_scope 1000 50 sample_random (to_hex sample_address))

unfoldable run_issue : ℕ → Bytes → Str → Records → Result ChallengeRecord × Records
unfolding issue store_challenge run_verify Memory.put Memory.get payload payload_text decimal
    decimal_loop json_string json_chars json_char json_members
run_issue now random address s =
    issue toy_crypto no_bech32 derive sample_scope memory_store 1000 now random address s

unfoldable run_enroll :
    Str → DataSignature → ℕ → ℕ → ℕ → Records → Result (Enrolled Bytes) × Records
unfolding enroll begin_enroll finish_enroll check_challenge verify_challenge is_challenge_id
    all_lower_hex run_verify Memory.get Memory.consume Memory.delete payload payload_text decimal
    decimal_loop json_string json_chars json_char json_members
run_enroll = enroll toy_crypto no_bech32 derive sample_scope memory_store

issued_sample :
    issue toy_crypto no_bech32 derive sample_scope memory_store 1000 50 sample_random
      (to_hex sample_address)
      []
    ≡ (ok sample_challenge, sample_challenge ∷ [])
unfolding run_issue sample_challenge
issued_sample = refl

verified_answer :
    verify_cip8_signature toy_crypto no_bech32
      (sample_message (payload sample_challenge))
      (answer_to sample_scope sample_challenge)
    ≡ ok (sample_verified (payload sample_challenge))
unfolding run_verify sample_message sample_verified sample_challenge
verified_answer = refl

-- The parts of `enroll` on the sample, each run by itself.
unfoldable sample_enrolled : Enrolled Bytes
unfolding sample_verified
sample_enrolled =
    enrolled_by toy_crypto no_bech32 derive sample_scope
      (sample_verified (payload sample_challenge)) sample_key

enrolled_sample :
    enroll toy_crypto no_bech32 derive sample_scope memory_store
      (to_hex sample_random)
      (sample_message (payload sample_challenge))
      60
      60
      60
      (sample_challenge ∷ [])
    ≡ (ok sample_enrolled, [])
unfolding run_enroll sample_message sample_verified sample_challenge sample_enrolled
enrolled_sample = refl

expired_sample :
    enroll toy_crypto no_bech32 derive sample_scope memory_store
      (to_hex sample_random)
      (sample_message (payload sample_challenge))
      60
      60
      1050
      (sample_challenge ∷ [])
    ≡ (err "Challenge expired or already consumed", sample_challenge ∷ [])
unfolding run_enroll sample_message sample_verified sample_challenge sample_enrolled
expired_sample = refl

enroll-eq-ok_example :
    ((c : ChallengeRecord) × (p : Pending Bytes) × (Memory.get
          (to_hex sample_random)
          (sample_challenge ∷ [])
        ≡ some c)
      × Verified toy_crypto no_bech32 derive sample_scope 60 60
          (sample_message (payload sample_challenge))
          c
          p
      × (sample_enrolled ≡ p.enrolled)
      × (60 < c.expires_at))
    × ((j : Str)
        → Memory.get j [] ≡ (
            if str_eq (to_hex sample_random) j then none else Memory.get j (sample_challenge ∷ [])))
enroll-eq-ok_example =
    enroll-eq-ok toy_crypto no_bech32 derive sample_scope memory_store (to_hex sample_random)
      (sample_message (payload sample_challenge)) 60 60 60 (sample_challenge ∷ []) []
      sample_enrolled tt enrolled_sample

enroll-eq-err_example : ◌≡◌ {A = Records} (sample_challenge ∷ []) (sample_challenge ∷ [])
enroll-eq-err_example =
    enroll-eq-err toy_crypto no_bech32 derive sample_scope memory_store (to_hex sample_random)
      (sample_message (payload sample_challenge)) 60 60 1050 (sample_challenge ∷ [])
      (sample_challenge ∷ []) "Challenge expired or already consumed" tt expired_sample

enroll_again_example :
    (e : String) × (enroll toy_crypto no_bech32 derive sample_scope memory_store
        (to_hex sample_random)
        (sample_message (payload sample_challenge))
        70
        70
        70
        []
      ≡ (err e, []))
enroll_again_example =
    enroll_again toy_crypto no_bech32 derive sample_scope memory_store (to_hex sample_random)
      (sample_message (payload sample_challenge)) (sample_message (payload sample_challenge)) 60 60
      60 70 70 70 (sample_challenge ∷ []) [] sample_enrolled tt enrolled_sample

issue-enroll_example :
    (enroll toy_crypto no_bech32 derive sample_scope memory_store sample_challenge.id
      (sample_message (payload sample_challenge))
      60
      60
      60
      (sample_challenge ∷ [])).0
    ≡ ok sample_enrolled
unfolding sample_enrolled
issue-enroll_example =
    issue-enroll toy_crypto no_bech32 derive sample_scope memory_store 1000 50 60 60 60
      sample_random (to_hex sample_address) (sample_message (payload sample_challenge)) []
      (sample_challenge ∷ []) sample_challenge (sample_verified (payload sample_challenge))
      sample_key tt (omega arith) refl issued_sample (omega arith) (omega arith) (omega arith)
      verified_answer refl

-- Issued, finished twice.
abbrev sample_pending : Pending Bytes
sample_pending = record {
  id = to_hex sample_random;
  payload_hex = sample_challenge.payload_hex;
  enrolled = sample_enrolled;
}

abbrev sample_events : List (Event Bytes)
sample_events =
    issuing 1000 50 sample_random (to_hex sample_address)
    ∷ finishing sample_pending 60
    ∷ finishing sample_pending 61
    ∷ []

total_enrolls-le_example :
    total_enrolls toy_crypto no_bech32 derive sample_scope memory_store
      (to_hex sample_random)
      sample_events
      []
    ≤ total_issues toy_crypto no_bech32 derive sample_scope memory_store
        (to_hex sample_random)
        sample_events
        []
      + held memory_store (to_hex sample_random) []
total_enrolls-le_example =
    total_enrolls-le toy_crypto no_bech32 derive sample_scope memory_store (to_hex sample_random)
      sample_events [] tt

-- A live record, and one that has expired.
abbrev old_challenge : ChallengeRecord
old_challenge =
    with_payload (challenge_data sample_scope 10 20 (replicate 32 6) (to_hex sample_address))

two-Distinct : Memory.Distinct (sample_challenge ∷ old_challenge ∷ [])
unfolding Memory.get sample_challenge run_verify
two-Distinct = (refl, (refl, tt))

get-prune_example :
    Memory.get old_challenge.id (Memory.prune 30 (sample_challenge ∷ old_challenge ∷ []))
    ≡ Memory.unexpired 30 (Memory.get old_challenge.id (sample_challenge ∷ old_challenge ∷ []))
get-prune_example =
    Memory.get-prune old_challenge.id 30 (sample_challenge ∷ old_challenge ∷ []) two-Distinct

-- A stand-in for JSON: every text is written behind its length.
abbrev written : Str → Str → Str
written s rest = length s ∷ (s ++ rest)

abbrev toy_stringify : ChallengeRecord → Str
toy_stringify r =
    r.cardano_network
    ∷ r.base_chain_id
    ∷ r.issued_at
    ∷ r.expires_at
    ∷ written r.id
        (written r.application (written r.cardano_address (written r.config_hash r.payload_hex)))

-- A text behind its length, and what follows it.
unfoldable next_text : Str → Str × Str
next_text [] = ([], [])
next_text (n ∷ s) = (take n s, drop n s)

next_text-written : (s rest : Str) → next_text (written s rest) ≡ (s, rest)
unfolding next_text
next_text-written s rest = rw (take-length_append s rest, drop-length_append s rest)

unfoldable toy_parse : Str → Option ChallengeRecord
toy_parse (network ∷ chain ∷ issued ∷ expires ∷ s) =
    let (id, s₁) = next_text s in
    let (application, s₂) = next_text s₁ in
    let (address, s₃) = next_text s₂ in
    let (config, s₄) = next_text s₃ in
    some (record {
      id = id;
      application = application;
      cardano_address = address;
      cardano_network = network;
      base_chain_id = chain;
      config_hash = config;
      issued_at = issued;
      expires_at = expires;
      payload_hex = s₄;
    })
toy_parse s = none

toy_parse-stringify : (r : ChallengeRecord) → toy_parse (toy_stringify r) ≡ some r
unfolding toy_parse
toy_parse-stringify r = simp next_text-written

consume-map_example :
    Sqlite.consume sample_challenge.id sample_challenge.payload_hex 60 (
      map
        (Sqlite.row_of toy_stringify toy_parse toy_parse-stringify)
        (sample_challenge ∷ old_challenge ∷ []))
    ≡ (
      (Memory.consume sample_challenge.id sample_challenge.payload_hex 60
          (sample_challenge ∷ old_challenge ∷ [])).0,
      map
          (Sqlite.row_of toy_stringify toy_parse toy_parse-stringify)
          (Memory.consume sample_challenge.id sample_challenge.payload_hex 60
            (sample_challenge ∷ old_challenge ∷ [])).1,
    )
consume-map_example =
    Sqlite.consume-map toy_stringify toy_parse toy_parse-stringify sample_challenge.id
      sample_challenge.payload_hex 60 (sample_challenge ∷ old_challenge ∷ []) two-Distinct

-- ===== src/Live/Journal.antt =====
-- `transact` of `liveContext` in scripts/lib/live-context.ts: a transaction that is sent once, with its
-- journal. The chain is a machine; `saved` is the journal's file.
pub mod Nonces
use cardano_on_evm.Prelude.{
  ℕ, zero, suc, ◌+◌, ◌-◌, ◌*◌, ◌/◌, ◌^◌, Bool, true, false, not, ◌&&◌, ◌||◌, List, [], ◌∷◌, ◌++◌,
  map, Option, none, some, Result, ok, err, throw_if, Str, codes, str_eq, ltb, ◌==◌, if◌then◌else◌,
}
use cardano_on_evm.Submission.Adapters.{Call, chain_call, pure_call, ◌>>>=◌}

pub record Intent : Type 0 where
  pub to : Option Str
  pub call : Str
  pub value : ℕ

pub record Fees : Type 0 where
  pub max_fee_per_gas : ℕ
  pub max_priority_fee_per_gas : ℕ

pub record Record : Type 0 where
  pub id : Str
  pub intent_hash : Str
  pub nonce : ℕ
  pub gas : ℕ
  pub transaction_hash : Str
  pub status : Str

-- `estimateGas`, `estimateFeesPerGas`, `getBalance`, the pending `getTransactionCount`, the hash of a
-- transaction that is signed with a gas limit and a nonce, `sendRawTransaction` by its hash, and the
-- status of the canonical receipt.
pub record ChainClient (N : Type 0) : Type 0 where
  pub estimate_gas : Intent → Call N ℕ
  pub estimate_fees : Call N Fees
  pub balance : Call N ℕ
  pub transaction_count : Call N ℕ
  pub sign : Intent → ℕ → ℕ → Fees → Call N Str
  pub send_raw : Str → Call N Str
  pub receipt_status : Str → Call N Str

pub record State (N : Type 0) : Type 0 where
  pub journal : List Record
  pub saved : List Record
  pub net : N

unfoldable pub find_record : Str → List Record → Option Record
find_record id [] = none
find_record id (r ∷ rs) = if str_eq r.id id then some r else find_record id rs

unfoldable pub set_status : Str → Str → List Record → List Record
set_status id status [] = []
set_status id status (r ∷ rs) =
    (if str_eq r.id id then record r { status = status } else r) ∷ set_status id status rs

abbrev pub nonces : List Record → List ℕ
nonces = map (λ (r : Record). r.nonce)

-- `Math.max(-1, ...reserved) + 1`
unfoldable pub above : List ℕ → ℕ
above [] = 0
above (n ∷ ns) = let rest = above ns in if ltb n rest then rest else suc n

abbrev pub max_of : ℕ → ℕ → ℕ
max_of a b = if ltb a b then b else a

-- 16 million of gas, 0.0015 ether of fees, 0.001 ether of value.
unfoldable pub exceeds_cap : ℕ → ℕ → ℕ → Bool
exceeds_cap gas fee value =
    ltb 16000000 gas || ltb (15 * 10 ^ 14) (gas * fee) || ltb (10 ^ 15) value

-- A receipt of another status has been recorded before it is refused.
abbrev pub check_success : Str → Result (Unit {0})
check_success status = throw_if (not (str_eq status (codes "success"))) "Test transaction reverted"

-- The nonces of the deployments count where the submitter is the deployer; `hash_intent` is the hash of
-- the JSON of an intent.
module _ {N : Type 0} (chain : ChainClient N) (hash_intent : Intent → Str) (deployed : List ℕ) where
  -- A request to the chain.
  unfoldable pub ask : {A : Type 0} → Call N A → Call (State N) A
  ask m s = let p = m s.net in (p.0, record s { net = p.1 })

  unfoldable pub update : Str → Str → Call (State N) (Unit {0})
  update id status s =
      let journal = set_status id status s.journal in
      (ok tt, record s { journal = journal; saved = journal })

  unfoldable pub await_receipt : Str → Str → Call (State N) (Option Str)
  await_receipt id hash = ask (chain.receipt_status hash) >>>= λ status.
      update id status >>>= λ saved.
      pure_call (check_success status) >>>= λ success. pure_call (ok (some status))

  unfoldable pub resume : Record → Intent → Call (State N) (Option Str)
  resume existing intent =
      pure_call (
        throw_if (not (str_eq existing.intent_hash (hash_intent intent)))
          "Transaction intent changed")
      >>>= λ same. await_receipt existing.id existing.transaction_hash

  abbrev pub next_nonce : ℕ → List Record → ℕ
  next_nonce count journal = max_of count (above (deployed ++ nonces journal))

  -- The journal with a new record, in memory and in its file.
  abbrev pub add_record : Record → State N → State N
  add_record r s = record s { journal = s.journal ++ r ∷ []; saved = s.journal ++ r ∷ [] }

  abbrev pub signed_record : Str → Intent → ℕ → ℕ → Str → Record
  signed_record id intent nonce gas hash = record {
    id = id;
    intent_hash = hash_intent intent;
    nonce = nonce;
    gas = gas;
    transaction_hash = hash;
    status = codes "signed-awaiting-broadcast-result";
  }

  abbrev pub keep_signed : Str → Intent → ℕ → ℕ → Result Str × State N → Result Str × State N
  keep_signed id intent nonce gas (err e, s) = (err e, s)
  keep_signed id intent nonce gas (ok hash, s) =
      (ok hash, add_record (signed_record id intent nonce gas hash) s)

  -- From the nonce to the record of the signed transaction.
  unfoldable pub reserve : Str → Intent → ℕ → Fees → ℕ → Call (State N) Str
  reserve id intent gas fees count s =
      let nonce = next_nonce count s.journal in
      keep_signed id intent nonce gas (ask (chain.sign intent gas nonce fees) s)

  unfoldable pub submit : Str → Intent → ℕ → Fees → Call (State N) (Option Str)
  submit id intent gas fees = ask chain.transaction_count >>>= λ count.
      reserve id intent gas fees count >>>= λ hash. ask (chain.send_raw hash) >>>= λ sent.
      pure_call (throw_if (not (str_eq sent hash)) "Broadcast hash mismatch") >>>= λ same.
      update id (codes "broadcast") >>>= λ saved. await_receipt id hash

  abbrev pub submit_if : Bool → Str → Intent → ℕ → Fees → Call (State N) (Option Str)
  submit_if true id intent gas fees = submit id intent gas fees
  submit_if false id intent gas fees = pure_call (ok none)

  unfoldable pub prepare : Str → Intent → Bool → Call (State N) (Option Str)
  prepare id intent send = ask (chain.estimate_gas intent) >>>= λ estimate.
      ask chain.estimate_fees >>>= λ fees.
      pure_call (
        throw_if (exceeds_cap (estimate * 115 / 100) fees.max_fee_per_gas intent.value)
          "Test transaction exceeds funding cap")
      >>>= λ capped. ask chain.balance >>>= λ balance.
          pure_call (
            throw_if (ltb balance (estimate * 115 / 100 * fees.max_fee_per_gas + intent.value))
              "Insufficient test funding")
          >>>= λ funded. submit_if send id intent (estimate * 115 / 100) fees

  abbrev pub continue_from : Option Record → Str → Intent → Bool → Call (State N) (Option Str)
  continue_from (some existing) id intent send = resume existing intent
  continue_from none id intent send = prepare id intent send

  unfoldable pub transact : Str → Intent → Bool → Call (State N) (Option Str)
  transact id intent send s = continue_from (find_record id s.journal) id intent send s

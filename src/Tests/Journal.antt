-- ===== src/Tests/Journal.antt =====
-- `transact` of scripts/lib/live-context.ts on a small chain.
use cardano_on_evm.Prelude.{ℕ, suc, ◌≡◌, refl, true, [], ◌∷◌, none, ok, Str, codes, str_eq}
use cardano_on_evm.Submission.Adapters.{chain_call}
use cardano_on_evm.Live.Journal.{
  Intent, Record, ChainClient, State, find_record, set_status, nonces, above, exceeds_cap, ask,
  update, await_receipt, reserve, submit, prepare, transact,
}
use cardano_on_evm.Live.Journal.Nonces.{Sound, transact-Sound}

abbrev chain : ChainClient ℕ
chain = record {
  estimate_gas = λ intent n. (ok 100, suc n);
  estimate_fees = λ n. (ok (record { max_fee_per_gas = 1; max_priority_fee_per_gas = 1 }), suc n);
  balance = λ n. (ok 1000, suc n);
  transaction_count = λ n. (ok 2, suc n);
  sign = λ intent gas nonce fees n. (ok (codes "0xaa"), suc n);
  send_raw = λ hash n. (ok hash, suc n);
  receipt_status = λ hash n. (ok (codes "success"), suc n);
}

abbrev intent : Intent
intent = record { to = none; call = codes "0x"; value = 0 }

abbrev hash_intent : Intent → Str
hash_intent i = codes "hash"

abbrev first_record : Record
first_record = record {
  id = codes "a";
  intent_hash = codes "hash";
  nonce = 3;
  gas = 1;
  transaction_hash = codes "0xbb";
  status = codes "success";
}

abbrev before : State ℕ
before = record { journal = first_record ∷ []; saved = first_record ∷ []; net = 0 }

-- The account's count is 2, but a deployment has reserved 5.
reserved_nonces :
    nonces (transact chain hash_intent (5 ∷ []) (codes "b") intent true before).1.journal
    ≡ 3 ∷ 6 ∷ []
unfolding transact prepare submit reserve ask update await_receipt chain_call find_record set_status
    above exceeds_cap str_eq
reserved_nonces = refl

transact-Sound_example :
    Sound chain hash_intent
      (5 ∷ [])
      (transact chain hash_intent (5 ∷ []) (codes "b") intent true before).1
transact-Sound_example =
    transact-Sound chain hash_intent (5 ∷ []) (codes "b") intent true before
      (((refl, tt), (tt, tt)), refl)

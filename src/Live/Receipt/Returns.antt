-- ===== src/Live/Receipt/Returns.antt =====
-- Waiting for a receipt ends, and what is returned is mined.
use mathlib.Core.Path.{subst}
use cardano_on_evm.Prelude.{
  ℕ, zero, suc, ◌+◌, ◌≤◌, ◌<◌, ◌≡◌, refl, Bool, true, false, ◌||◌, inl, inr, Option, none, some,
  arith, Result, ok, err, Str, ltb, ◌==◌, if◌then◌else◌, length, Bool-cases,
}
use cardano_on_evm.Submission.Inclusion.{same_text}
use cardano_on_evm.Live.Receipt.{
  TransactionReceipt, ReceiptClient, is_zero_hash, agrees_with, compare_block, check_block,
  check_found, observe, next_round, poll, canonical_receipt,
}

module _ {N : Type 0} (client : ReceiptClient N) where
  -- A receipt of the transaction, in a block that the client has returned under its number.
  abbrev pub Mined : Str → TransactionReceipt → Type 0
  Mined hash receipt =
      (block_hash : Str) × (n₁ : N) × (n₂ : N) × (found : Option Str) × (same_text
          receipt.transaction_hash hash
        ≡ true)
      × (receipt.block_hash ≡ some block_hash)
      × (is_zero_hash block_hash ≡ false)
      × (client.get_block receipt.block_number n₁ ≡ (ok found, n₂))
      × (agrees_with found block_hash ≡ true)

  -- An error says only that the receipt is pending.
  abbrev pub Settled : Str → Result TransactionReceipt → Type 0
  Settled hash (ok receipt) = Mined hash receipt
  Settled hash (err e) =
      e ≡ "Mined receipt remains pending; observe the same transaction hash again"

  compare_block-Mined :
      (hash block_hash : Str) (receipt r : TransactionReceipt) (n n' : N)
      → same_text receipt.transaction_hash hash ≡ true
      → receipt.block_hash ≡ some block_hash
      → is_zero_hash block_hash ≡ false
      → compare_block client receipt block_hash (client.get_block receipt.block_number n)
        ≡ (some r, n')
      → Mined hash r
  unfolding compare_block
  compare_block-Mined hash block_hash receipt r n n' same has full h =
      go (client.get_block receipt.block_number n) refl h
    where
      chosen :
          (b : Bool) (n₂ : N)
          → (if◌then◌else◌ {A = Option TransactionReceipt × N} b (some receipt, n₂) (none, n₂))
            ≡ (some r, n')
          → (b ≡ true) × (receipt ≡ r)
      chosen true n₂ e = (refl, cc e)
      chosen false n₂ e = cc

      go :
          (p : Result (Option Str) × N)
          → client.get_block receipt.block_number n ≡ p
          → compare_block client receipt block_hash p ≡ (some r, n')
          → Mined hash r
      go (err x, n₂) e g = cc
      go (ok found, n₂) e g =
          let (agreed, is_r) = chosen (agrees_with found block_hash) n₂ g in
          subst (Mined hash) is_r (block_hash, n, n₂, found, same, has, full, e, agreed)

  observe-Mined :
      (hash : Str) (r : TransactionReceipt) (n n' : N)
      → observe client hash n ≡ (some r, n')
      → Mined hash r
  unfolding observe check_found check_block
  observe-Mined hash r n n' h = go (client.get_transaction_receipt hash n) h
    where
      block :
          (receipt : TransactionReceipt) (o : Option Str) (n₁ : N)
          → receipt.block_hash ≡ o
          → same_text receipt.transaction_hash hash ≡ true
          → check_block client receipt o n₁ ≡ (some r, n')
          → Mined hash r
      block receipt none n₁ has same e = cc
      block receipt (some block_hash) n₁ has same e =
          elim (Bool-cases (length block_hash == 0 || is_zero_hash block_hash)) [
            | inl empty ↦ let nothing : (none, n₁) ≡ (some r, n') = (rw empty at e) in cc nothing
            | inr full ↦
                compare_block-Mined hash block_hash receipt r n₁ n' same has (ground (arith, full))
                  (rw full at e)
          ]

      go :
          (p : Result TransactionReceipt × N)
          → check_found client hash p ≡ (some r, n')
          → Mined hash r
      go (err x, n₁) e = cc
      go (ok receipt, n₁) e = elim (Bool-cases (same_text receipt.transaction_hash hash)) [
        | inl same ↦ block receipt receipt.block_hash n₁ refl same (rw same at e)
        | inr other ↦ let nothing : (none, n₁) ≡ (some r, n') = (rw other at e) in cc nothing
      ]

  abbrev Ends : Str → Option (Result TransactionReceipt × N) → Type 0
  Ends hash o = (r : Result TransactionReceipt) × (n' : N) × (o ≡ some (r, n')) × Settled hash r

  next_round-Ends :
      (hash : Str) (deadline : ℕ) (p : Option TransactionReceipt × N)
      (later : Option (Result TransactionReceipt × N))
      → ((r : TransactionReceipt) (n' : N) → p ≡ (some r, n') → Mined hash r)
      → (ltb (client.now (client.wait p.1)) deadline ≡ true → Ends hash later)
      → Ends hash (next_round client deadline p later)
  unfolding next_round
  next_round-Ends hash deadline (some r, n) later mined again = (ok r, n, refl, mined r n refl)
  next_round-Ends hash deadline (none, n) later mined again =
      elim (Bool-cases (ltb (client.now (client.wait n)) deadline)) [
        | inl early ↦ rw early (again early)
        | inr over ↦ (
          err "Mined receipt remains pending; observe the same transaction hash again",
          client.wait n,
          rw over,
          refl,
        )
      ]

  module _
      (receipt_later : (hash : Str) (n : N)
        → client.now n ≤ client.now (client.get_transaction_receipt hash n).1)
      (block_later : (number : ℕ) (n : N) → client.now n ≤ client.now (client.get_block number n).1)
      (pause : (n : N) → client.now n < client.now (client.wait n)) where
    compare_block-later :
        (receipt : TransactionReceipt) (block_hash : Str) (p : Result (Option Str) × N)
        → client.now p.1 ≤ client.now (compare_block client receipt block_hash p).1
    unfolding compare_block
    compare_block-later receipt block_hash (err e, n) = omega arith
    compare_block-later receipt block_hash (ok found, n) = chosen (agrees_with found block_hash)
      where
        chosen :
            (b : Bool)
            → client.now n
              ≤ client.now
                  (if◌then◌else◌ {A = Option TransactionReceipt × N} b
                    (some receipt, n)
                    (none, n)).1
        chosen true = omega arith
        chosen false = omega arith

    check_block-later :
        (receipt : TransactionReceipt) (o : Option Str) (n : N)
        → client.now n ≤ client.now (check_block client receipt o n).1
    unfolding check_block
    check_block-later receipt none n = omega arith
    check_block-later receipt (some block_hash) n =
        chosen (length block_hash == 0 || is_zero_hash block_hash)
      where
        behind :
            client.now n
            ≤ client.now
                (compare_block client receipt block_hash
                  (client.get_block receipt.block_number n)).1
        behind = omega (
          arith,
          block_later receipt.block_number n,
          compare_block-later receipt block_hash (client.get_block receipt.block_number n),
        )

        chosen :
            (b : Bool)
            → client.now n
              ≤ client.now
                  (if◌then◌else◌ {A = Option TransactionReceipt × N} b
                    (none, n)
                    (compare_block client receipt block_hash
                      (client.get_block receipt.block_number n))).1
        chosen true = omega arith
        chosen false = behind

    check_found-later :
        (hash : Str) (p : Result TransactionReceipt × N)
        → client.now p.1 ≤ client.now (check_found client hash p).1
    unfolding check_found
    check_found-later hash (err e, n) = omega arith
    check_found-later hash (ok receipt, n) = chosen (same_text receipt.transaction_hash hash)
      where
        chosen :
            (b : Bool)
            → client.now n
              ≤ client.now
                  (if◌then◌else◌ {A = Option TransactionReceipt × N} b
                    (check_block client receipt receipt.block_hash n)
                    (none, n)).1
        chosen true = check_block-later receipt receipt.block_hash n
        chosen false = omega arith

    observe-later : (hash : Str) (n : N) → client.now n ≤ client.now (observe client hash n).1
    unfolding observe
    observe-later hash n = omega (
      arith,
      receipt_later hash n,
      check_found-later hash (client.get_transaction_receipt hash n),
    )

    poll-returns :
        (rounds : ℕ) (hash : Str) (deadline : ℕ) (n : N)
        → 1 ≤ rounds
        → deadline ≤ client.now n + rounds
        → (r : Result TransactionReceipt) × (n' : N) × (poll client rounds hash deadline n
            ≡ some (r, n'))
          × Settled hash r
    unfolding poll
    poll-returns zero hash deadline n some_rounds enough = absurd (omega (arith, some_rounds))
    poll-returns (suc rounds) hash deadline n some_rounds enough =
        next_round-Ends hash deadline (observe client hash n)
          (poll client rounds hash deadline (client.wait (observe client hash n).1))
          (λ r n' e. observe-Mined hash r n n' e)
          (λ early.
            let before : client.now (client.wait (observe client hash n).1) < deadline =
              ground (arith, early) in
            let passed = pause (observe client hash n).1 in
            poll-returns rounds hash deadline (client.wait (observe client hash n).1)
              (omega (arith, before, passed, enough, observe-later hash n))
              (omega (arith, passed, enough, observe-later hash n)))

    -- Where the clock does not go back in a request and goes on in a pause, waiting ends after at most
    -- as many observations as the timeout has milliseconds, and one more if it has none: with the
    -- receipt of this transaction in a block that the client has returned, or with the error that it is
    -- pending.
    pub canonical_receipt-returns :
        (rounds timeout : ℕ) (hash : Str) (n : N)
        → 1 ≤ rounds
        → timeout ≤ rounds
        → (r : Result TransactionReceipt) × (n' : N) × (canonical_receipt client rounds timeout hash
              n
            ≡ some (r, n'))
          × Settled hash r
    unfolding canonical_receipt
    canonical_receipt-returns rounds timeout hash n some_rounds enough =
        poll-returns rounds hash (client.now n + timeout) n some_rounds (omega (arith, enough))

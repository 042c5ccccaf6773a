-- ===== src/Live/Receipt.antt =====
-- scripts/lib/canonical-receipt.ts: waiting until a receipt agrees with a mined block. The client and
-- the clock are one machine; `wait` is the pause between two observations.
pub mod Returns
use cardano_on_evm.Prelude.{
  ℕ, zero, suc, ◌+◌, Bool, true, false, not, ◌&&◌, ◌||◌, List, [], ◌∷◌, Option, none, some, Result,
  ok, err, Str, codes, has_prefix, ltb, ◌==◌, if◌then◌else◌, length, drop,
}
use cardano_on_evm.Submission.Inclusion.{same_text}
use cardano_on_evm.Submission.Adapters.{Call}

pub record TransactionReceipt : Type 0 where
  pub transaction_hash : Str
  pub block_hash : Option Str
  pub block_number : ℕ
  pub status : Str

pub record ReceiptClient (N : Type 0) : Type 0 where
  pub get_transaction_receipt : Str → Call N TransactionReceipt
  pub get_block : ℕ → Call N (Option Str)
  pub wait : N → N
  pub now : N → ℕ

unfoldable pub all_zeros : Str → Bool
all_zeros [] = true
all_zeros (c ∷ s) = c == b'0' && all_zeros s

-- `/^0x0+$/`
unfoldable pub is_zero_hash : Str → Bool
is_zero_hash s = has_prefix (codes "0x") s && ltb 2 (length s) && all_zeros (drop 2 s)

-- `block.hash?.toLowerCase() === …`
abbrev pub agrees_with : Option Str → Str → Bool
agrees_with none hash = false
agrees_with (some h) hash = same_text h hash

module _ {N : Type 0} (client : ReceiptClient N) where
  -- The block of a receipt, if it agrees; an error is as if it did not.
  unfoldable pub compare_block :
      TransactionReceipt → Str → Result (Option Str) × N → Option TransactionReceipt × N
  compare_block receipt block_hash (err e, n) = (none, n)
  compare_block receipt block_hash (ok found, n) =
      if agrees_with found block_hash then (some receipt, n) else (none, n)

  unfoldable pub check_block : TransactionReceipt → Option Str → N → Option TransactionReceipt × N
  check_block receipt none n = (none, n)
  check_block receipt (some block_hash) n =
      if length block_hash == 0 || is_zero_hash block_hash
      then (none, n)
      else compare_block receipt block_hash (client.get_block receipt.block_number n)

  unfoldable pub check_found : Str → Result TransactionReceipt × N → Option TransactionReceipt × N
  check_found hash (err e, n) = (none, n)
  check_found hash (ok receipt, n) =
      if same_text receipt.transaction_hash hash
      then check_block receipt receipt.block_hash n
      else (none, n)

  -- The body of `try`.
  unfoldable pub observe : Str → N → Option TransactionReceipt × N
  observe hash n = check_found hash (client.get_transaction_receipt hash n)

  -- The end of a round: a pause, and another round before the deadline.
  unfoldable pub next_round :
      ℕ
      → Option TransactionReceipt × N
      → Option (Result TransactionReceipt × N)
      → Option (Result TransactionReceipt × N)
  next_round deadline (some receipt, n) later = some (ok receipt, n)
  next_round deadline (none, n) later =
      if ltb (client.now (client.wait n)) deadline
      then later
      else some (
        err "Mined receipt remains pending; observe the same transaction hash again",
        client.wait n,
      )

  -- The loop, on the number of observations; none if they do not suffice.
  unfoldable pub poll : ℕ → Str → ℕ → N → Option (Result TransactionReceipt × N)
  poll zero hash deadline n = none
  poll (suc rounds) hash deadline n =
      let later = poll rounds hash deadline (client.wait (observe hash n).1) in
      next_round deadline (observe hash n) later

  -- `canonicalReceipt` with its timeout.
  unfoldable pub canonical_receipt : ℕ → ℕ → Str → N → Option (Result TransactionReceipt × N)
  canonical_receipt rounds timeout hash n = poll rounds hash (client.now n + timeout) n

-- ===== src/Tests/Live.antt =====
-- scripts/lib on small machines.
use cardano_on_evm.Prelude.{ℕ, ◌+◌, ◌≡◌, arith, some, Result, ok, err, codes, if◌then◌else◌, ltb}
use cardano_on_evm.Live.Receipt.{TransactionReceipt, ReceiptClient, canonical_receipt}
use cardano_on_evm.Live.Receipt.Returns.{Settled, canonical_receipt-returns}

abbrev mined : TransactionReceipt
mined = record {
  transaction_hash = codes "0xa";
  block_hash = some (codes "0xb");
  block_number = 5;
  status = codes "success";
}

-- A client that finds the receipt from the third second on; its state is the time in milliseconds.
abbrev client : ReceiptClient ℕ
client = record {
  get_transaction_receipt = λ hash n. (if ltb n 3000 then err "not found" else ok mined, n);
  get_block = λ number n. (ok (some (codes "0xB")), n);
  wait = λ n. n + 1500;
  now = λ n. n;
}

canonical_receipt-returns_example :
    (r : Result TransactionReceipt) × (n' : ℕ) × (canonical_receipt client 45000 45000
        (codes "0xA")
        0
      ≡ some (r, n'))
    × Settled client (codes "0xA") r
canonical_receipt-returns_example =
    canonical_receipt-returns client (λ hash n. omega arith) (λ number n. omega arith)
      (λ n. omega arith) 45000 45000 (codes "0xA") 0 (omega arith) (omega arith)

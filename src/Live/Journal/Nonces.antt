-- ===== src/Live/Journal/Nonces.antt =====
-- No nonce is reserved twice, however a transaction ends.
use cardano_on_evm.Prelude.{
  ℕ, ◌≤◌, ◌<◌, ◌≡◌, refl, sym, ap, ◌∙◌, Bool, true, false, List, [], ◌∷◌, ◌++◌, append_assoc,
  Option, none, some, arith, Result, ok, err, Str, codes, str_eq, ◌==◌, All, inl, inr, Bool-cases,
}
use mathlib.Core.Path.{subst}
use cardano_on_evm.Submission.Adapters.{Call, chain_call, pure_call, then_call}
use cardano_on_evm.Live.Journal.{
  Intent, Fees, Record, ChainClient, State, find_record, set_status, nonces, above, max_of,
  check_success, ask, update, await_receipt, resume, next_nonce, signed_record, keep_signed,
  reserve, submit, submit_if, prepare, continue_from, transact,
}

abbrev pub Distinct : List ℕ → Type 0
Distinct [] = Unit
Distinct (n ∷ ns) = All (λ (m : ℕ). (n == m) ≡ false) ns × Distinct ns

all-below : (k l : ℕ) (ns : List ℕ) → k ≤ l → All (λ (n : ℕ). n < k) ns → All (λ (n : ℕ). n < l) ns
all-below k l [] h a = tt
all-below k l (n ∷ ns) h (a, rest) = (omega (arith, a, h), all-below k l ns h rest)

all-above : (ns : List ℕ) → All (λ (n : ℕ). n < above ns) ns
unfolding above
all-above [] = tt
all-above (n ∷ ns) =
    (ground arith, all-below (above ns) (above (n ∷ ns)) ns (ground arith) (all-above ns))

all_apart :
    (n k : ℕ) (ns : List ℕ)
    → n < k
    → All (λ (m : ℕ). (n == m) ≡ false) ns
    → All (λ (m : ℕ). (n == m) ≡ false) (ns ++ k ∷ [])
all_apart n k [] h a = (ground arith, tt)
all_apart n k (m ∷ ns) h (a, rest) = (a, all_apart n k ns h rest)

Distinct-snoc :
    (k : ℕ) (ns : List ℕ) → All (λ (n : ℕ). n < k) ns → Distinct ns → Distinct (ns ++ k ∷ [])
Distinct-snoc k [] below d = (tt, tt)
Distinct-snoc k (n ∷ ns) (h, below) (a, d) = (all_apart n k ns h a, Distinct-snoc k ns below d)

nonces-set_status :
    (id status : Str) (rs : List Record) → nonces (set_status id status rs) ≡ nonces rs
unfolding set_status
nonces-set_status id status [] = refl
nonces-set_status id status (r ∷ rs) = elim (Bool-cases (str_eq r.id id)) [
  | inl same ↦ rw (same, nonces-set_status id status rs)
  | inr other ↦ rw (other, nonces-set_status id status rs)
]

nonces-snoc : (rs : List Record) (r : Record) → nonces (rs ++ r ∷ []) ≡ nonces rs ++ r.nonce ∷ []
nonces-snoc [] r = refl
nonces-snoc (x ∷ rs) r = rw (nonces-snoc rs r)

module _ {N : Type 0} (chain : ChainClient N) (hash_intent : Intent → Str) (deployed : List ℕ) where
  -- The reserved nonces are distinct, and the file holds the journal.
  abbrev pub Sound : State N → Type 0
  Sound s = Distinct (deployed ++ nonces s.journal) × (s.saved ≡ s.journal)

  Keeps : {A : Type 0} → Call (State N) A → Type 0
  Keeps m = (s : State N) → Sound s → Sound (m s).1

  Keeps-chain :
      {A B : Type 0} (m : Call (State N) A) (next : A → Call (State N) B)
      → Keeps m
      → ((a : A) → Keeps (next a))
      → Keeps (chain_call m next)
  unfolding Keeps chain_call
  Keeps-chain {A} {B} m next first rest s sound = after (m s) (first s sound)
    where
      after : (p : Result A × State N) → Sound p.1 → Sound (then_call p next).1
      after (ok a, s') kept = rest a s' kept
      after (err e, s') kept = kept

  Keeps-pure : {A : Type 0} (r : Result A) → Keeps (pure_call r)
  unfolding Keeps
  Keeps-pure r s sound = sound

  Keeps-ask : {A : Type 0} (m : Call N A) → Keeps (ask chain hash_intent deployed m)
  unfolding Keeps ask
  Keeps-ask m s sound = sound

  Keeps-update : (id status : Str) → Keeps (update chain hash_intent deployed id status)
  unfolding Keeps update
  Keeps-update id status s (distinct, same) =
      (rw (nonces-set_status id status s.journal) distinct, refl)

  next_nonce-fresh :
      (count : ℕ) (journal : List Record)
      → All
          (λ (n : ℕ). n < next_nonce chain hash_intent deployed count journal)
          (deployed ++ nonces journal)
  next_nonce-fresh count journal =
      all-below (above (deployed ++ nonces journal))
        (max_of count (above (deployed ++ nonces journal))) _ (ground arith)
        (all-above (deployed ++ nonces journal))

  keep_signed-Sound :
      (id : Str) (intent : Intent) (nonce gas : ℕ) (r : Result Str) (s : State N)
      → All (λ (n : ℕ). n < nonce) (deployed ++ nonces s.journal)
      → Sound s
      → Sound (keep_signed chain hash_intent deployed id intent nonce gas (r, s)).1
  keep_signed-Sound id intent nonce gas (err e) s fresh sound = sound
  keep_signed-Sound id intent nonce gas (ok hash) s fresh (distinct, same) = (
    subst Distinct
        (append_assoc deployed (nonces s.journal) (nonce ∷ [])
          ∙ ap (λ (ns : List ℕ). deployed ++ ns)
              (sym (
                nonces-snoc s.journal
                  (signed_record chain hash_intent deployed id intent nonce gas hash))))
        (Distinct-snoc nonce (deployed ++ nonces s.journal) fresh distinct),
    refl,
  )

  Keeps-reserve :
      (id : Str) (intent : Intent) (gas : ℕ) (fees : Fees) (count : ℕ)
      → Keeps (reserve chain hash_intent deployed id intent gas fees count)
  unfolding Keeps reserve ask
  Keeps-reserve id intent gas fees count s sound =
      let nonce = next_nonce chain hash_intent deployed count s.journal in
      let signed = chain.sign intent gas nonce fees s.net in
      keep_signed-Sound id intent nonce gas signed.0 (record s { net = signed.1 })
        (next_nonce-fresh count s.journal) sound

  Keeps-receipt : (id hash : Str) → Keeps (await_receipt chain hash_intent deployed id hash)
  unfolding await_receipt
  Keeps-receipt id hash = Keeps-chain _ _ (Keeps-ask (chain.receipt_status hash)) λ status.
      Keeps-chain _ _ (Keeps-update id status)
        λ u. Keeps-chain _ _ (Keeps-pure (check_success status)) λ u'. Keeps-pure (ok (some status))

  Keeps-submit :
      (id : Str) (intent : Intent) (gas : ℕ) (fees : Fees)
      → Keeps (submit chain hash_intent deployed id intent gas fees)
  unfolding submit
  Keeps-submit id intent gas fees = Keeps-chain _ _ (Keeps-ask chain.transaction_count) λ count.
      Keeps-chain _ _ (Keeps-reserve id intent gas fees count) λ hash.
        Keeps-chain _ _ (Keeps-ask (chain.send_raw hash)) λ sent.
          Keeps-chain _ _ (Keeps-pure _)
            λ u. Keeps-chain _ _ (Keeps-update id (codes "broadcast")) λ u'. Keeps-receipt id hash

  Keeps-submit_if :
      (send : Bool) (id : Str) (intent : Intent) (gas : ℕ) (fees : Fees)
      → Keeps (submit_if chain hash_intent deployed send id intent gas fees)
  Keeps-submit_if true id intent gas fees = Keeps-submit id intent gas fees
  Keeps-submit_if false id intent gas fees = Keeps-pure (ok none)

  Keeps-prepare :
      (id : Str) (intent : Intent) (send : Bool)
      → Keeps (prepare chain hash_intent deployed id intent send)
  unfolding prepare
  Keeps-prepare id intent send = Keeps-chain _ _ (Keeps-ask (chain.estimate_gas intent)) λ estimate.
      Keeps-chain _ _ (Keeps-ask chain.estimate_fees) λ fees. Keeps-chain _ _ (Keeps-pure _) λ u.
        Keeps-chain _ _ (Keeps-ask chain.balance)
          λ balance. Keeps-chain _ _ (Keeps-pure _) λ u'. Keeps-submit_if send id intent _ fees

  Keeps-resume :
      (existing : Record) (intent : Intent)
      → Keeps (resume chain hash_intent deployed existing intent)
  unfolding resume
  Keeps-resume existing intent =
      Keeps-chain _ _ (Keeps-pure _) λ u. Keeps-receipt existing.id existing.transaction_hash

  Keeps-continue :
      (o : Option Record) (id : Str) (intent : Intent) (send : Bool)
      → Keeps (continue_from chain hash_intent deployed o id intent send)
  Keeps-continue (some existing) id intent send = Keeps-resume existing intent
  Keeps-continue none id intent send = Keeps-prepare id intent send

  -- However a transaction ends, with a receipt, a preview or an error at any of its requests: if the
  -- nonces that the deployments and the journal have reserved are distinct and the file holds the
  -- journal, both are so afterwards.
  pub transact-Sound :
      (id : Str) (intent : Intent) (send : Bool) (s : State N)
      → Sound s
      → Sound (transact chain hash_intent deployed id intent send s).1
  unfolding transact Keeps
  transact-Sound id intent send s sound =
      Keeps-continue (find_record id s.journal) id intent send s sound

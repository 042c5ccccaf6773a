-- ===== src/Submission/Inclusion/Sound.antt =====
-- What an inclusion proves about the logs of its receipt.
use mathlib.Core.Path.{subst}
use mathlib.Core.Bool.{false≢true}
use cardano_on_evm.Prelude.{
  ◌≡◌, refl, sym, ap, ◌∙◌, Bool, true, false, not, ◌||◌, ◌⊎◌, List, [], ◌∷◌, ◌++◌, Option, none,
  some, arith, ok, err, or_throw, >>=-eq-ok, >>-eq-ok, or_throw-eq-ok, ok-injective, ok-ne-err, Str,
  codes, str_eq, str_eq_iff, ◌==◌, if◌then◌else◌, inl, inr, Bool-cases,
}
use cardano_on_evm.Prelude.Json.{Json, member_at, as_text}
use cardano_on_evm.Submission.Inclusion.{
  OperationContext, OperationEvent, Inclusion, Chain, expected, pending, included,
  execution_reverted, transaction_reverted, hash32, same_text, is_text, from_address, is_falsy,
  as_elements, nonce_of, sender_of, event_status, one_event, keep_event, log_events, has_null,
  matching_events, check_event, read_logs, by_status, read_receipt, inclusion_from_receipt,
  still_pending, reverted,
}

module _ (chain : Chain) where
  -- A log of the EntryPoint that decodes to an event of the operation.
  abbrev pub Logs : OperationContext → Str → OperationEvent → Json → Type 0
  Logs context hash e log =
      (from_address (as_text (member_at log (codes "address"))) context.entry_point ≡ true)
      × (chain.decode_event log ≡ some e)
      × (same_text e.user_op_hash hash ≡ true)

  -- One log of the list tells of the operation, and none of the others does.
  abbrev pub OnlyLog : OperationContext → Str → OperationEvent → List Json → Type 0
  OnlyLog context hash e logs =
      (front : List Json) × (log : Json) × (back : List Json) × (logs ≡ front ++ log ∷ back)
      × Logs context hash e log
      × (matching_events chain context hash front ≡ [])
      × (matching_events chain context hash back ≡ [])

  -- What stands behind a status that was read off an event.
  pub record Observed (context : OperationContext) (receipt : Json) (i : Inclusion)
      (e : OperationEvent) : Type 0 where
    pub hash : expected chain context ≡ ok i.user_operation_hash
    pub logs : List Json
    pub are_logs : as_elements (member_at receipt (codes "logs")) ≡ some logs
    pub only_log : OnlyLog context i.user_operation_hash e logs
    pub same_sender : chain.get_address e.sender ≡ chain.get_address (sender_of context.operation)
    pub same_nonce : e.nonce ≡ nonce_of context.operation
    pub status : i.status ≡ event_status e.success

  log_cases :
      (context : OperationContext) (hash : Str) (log : Json)
      → (log_events chain context hash log ≡ [])
        ⊎ ((e : OperationEvent) × (log_events chain context hash log ≡ e ∷ [])
            × Logs context hash e log)
  unfolding log_events
  log_cases context hash log =
      either (from_address (as_text (member_at log (codes "address"))) context.entry_point)
        (chain.decode_event log)
    where
      either :
          (b : Bool) (o : Option OperationEvent)
          → ((if b then keep_event chain hash o else []) ≡ [])
            ⊎ ((e : OperationEvent) × ((if b then keep_event chain hash o else []) ≡ e ∷ [])
                × ((b ≡ true) × (o ≡ some e) × (same_text e.user_op_hash hash ≡ true)))
      either false o = inl refl
      either true none = inl refl
      either true (some e) = elim (Bool-cases (same_text e.user_op_hash hash)) [
        | inl same ↦ inr (e, rw same, (refl, refl, same))
        | inr other ↦ inl (rw other)
      ]

  matching_events-OnlyLog :
      (context : OperationContext) (hash : Str) (e : OperationEvent) (logs : List Json)
      → matching_events chain context hash logs ≡ e ∷ []
      → OnlyLog context hash e logs
  unfolding matching_events
  matching_events-OnlyLog context hash e [] h = cc
  matching_events-OnlyLog context hash e (log ∷ logs) h = elim (log_cases context hash log) [
    | inl silent ↦
        let (front, found, back, split, is_log, before, after) =
          matching_events-OnlyLog context hash e logs (rw silent at h) in
        (log ∷ front, found, back, ap (◌∷◌ log) split, is_log, rw (silent, before), after)
    | inr (e', speaks, is_log) ↦
        let whole : e' ∷ matching_events chain context hash logs ≡ e ∷ [] = (rw speaks at h) in
        let same : e' ≡ e = cc whole in
        ([], log, logs, refl, subst (λ x. Logs context hash x log) same is_log, refl, cc whole)
  ]

  one_event-eq-some :
      (es : List OperationEvent) (e : OperationEvent) → one_event es ≡ some e → es ≡ e ∷ []
  one_event-eq-some [] e h = cc
  one_event-eq-some (x ∷ []) e h = cc
  one_event-eq-some (x ∷ y ∷ es) e h = cc

  read_logs-Observed :
      (context : OperationContext) (hash transaction : Str) (receipt : Json) (i : Inclusion)
      → expected chain context ≡ ok hash
      → read_logs chain context hash transaction receipt ≡ ok i
      → (e : OperationEvent) × Observed context receipt i e
  unfolding read_logs check_event
  read_logs-Observed context hash transaction receipt i known h =
      let (logs, el, h₁) =
        >>=-eq-ok (or_throw (as_elements (member_at receipt (codes "logs"))) _) _ h in
      let (_, h₀) = >>-eq-ok (has_null logs) _ _ h₁ in
      let (e, ee, h₂) =
        >>=-eq-ok (or_throw (one_event (matching_events chain context hash logs)) _) _ h₀ in
      let (a, ea, h₃) = >>=-eq-ok (chain.get_address e.sender) _ h₂ in
      let (b, eb, h₄) = >>=-eq-ok (chain.get_address (sender_of context.operation)) _ h₃ in
      let (fits, h₅) =
        >>-eq-ok (not (str_eq a b) || not (e.nonce == nonce_of context.operation)) _ _ h₄ in
      let sender : a ≡ b = (str_eq_iff a b).0 (ground (arith, fits)) in
      let nonce : e.nonce ≡ nonce_of context.operation = ground (arith, fits) in
      let made = ok-injective h₅ in
      let same : hash ≡ i.user_operation_hash =
        ap (λ (x : Inclusion). x.user_operation_hash) made in
      let found =
        matching_events-OnlyLog context hash e logs
          (one_event-eq-some _ e (or_throw-eq-ok _ _ ee)) in
      (
        e,
        record {
          hash = known ∙ ap ok same;
          logs = logs;
          are_logs = or_throw-eq-ok _ _ el;
          only_log = subst (λ k. OnlyLog context k e logs) same found;
          same_sender = ea ∙ (ap ok sender ∙ sym eb);
          same_nonce = nonce;
          status = sym (ap (λ (x : Inclusion). x.status) made);
        },
      )

  -- Whether a status is read off an event, and not off the transaction alone.
  unfoldable pub is_executed : Inclusion → Bool
  is_executed i = elim i.status [
    | included ↦ true
    | execution_reverted ↦ true
    | pending ↦ false
    | transaction_reverted ↦ false
  ]

  by_status-Observed :
      (context : OperationContext) (hash transaction : Str) (receipt : Json) (status : Option Str)
      (i : Inclusion)
      → expected chain context ≡ ok hash
      → by_status chain context hash transaction receipt status ≡ ok i
      → is_executed i ≡ true
      → (e : OperationEvent) × Observed context receipt i e
  unfolding by_status is_executed
  by_status-Observed context hash transaction receipt status i known h executed =
      either (is_text status (codes "0x0") || is_text status (codes "reverted"))
        (is_text status (codes "0x1") || is_text status (codes "success")) h
    where
      either :
          (b c : Bool)
          → (if b
              then ok (reverted chain hash transaction receipt)
              else if c
              then read_logs chain context hash transaction receipt
              else err "Invalid transaction receipt status")
            ≡ ok i
          → (e : OperationEvent) × Observed context receipt i e
      either true c h =
          absurd (false≢true (subst (λ x. is_executed x ≡ true) (sym (ok-injective h)) executed))
      either false true h = read_logs-Observed context hash transaction receipt i known h
      either false false h = absurd (ok-ne-err h)

  -- An inclusion that reports that the operation was executed, well or not, rests on its event: of
  -- the receipt's logs, exactly one is from the EntryPoint and decodes to an event with the hash of
  -- the operation, whose sender and nonce are the operation's, and whose success is the status.
  pub inclusion_from_receipt-Observed :
      (context : OperationContext) (receipt : Json) (i : Inclusion)
      → inclusion_from_receipt chain context receipt ≡ ok i
      → is_executed i ≡ true
      → (e : OperationEvent) × Observed context receipt i e
  unfolding inclusion_from_receipt read_receipt is_executed
  inclusion_from_receipt-Observed context receipt i h executed =
      let (hash, known, h₁) = >>=-eq-ok (expected chain context) _ h in
      either hash known (is_falsy receipt) h₁
    where
      either :
          (hash : Str)
          → expected chain context ≡ ok hash
          → (b : Bool)
          → (if b then ok (still_pending chain hash) else read_receipt chain context hash receipt)
            ≡ ok i
          → (e : OperationEvent) × Observed context receipt i e
      either hash known true h =
          absurd (false≢true (subst (λ x. is_executed x ≡ true) (sym (ok-injective h)) executed))
      either hash known false h =
          let (transaction, _, h₁) =
            >>=-eq-ok (hash32 (as_text (member_at receipt (codes "transactionHash")))) _ h in
          by_status-Observed context hash transaction receipt
            (as_text (member_at receipt (codes "status"))) i known h₁ executed

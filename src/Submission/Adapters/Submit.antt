-- ===== src/Submission/Adapters/Submit.antt =====
-- What a submission says of the network that accepted it.
use mathlib.Core.Path.{subst}
use cardano_on_evm.Prelude.{
  ◌≡◌, refl, sym, ap, ◌∙◌, true, not, [], ◌∷◌, map, >>=-eq-ok, Option, none, some, arith, Result,
  ok, err, throw_if, ok-injective, Str, codes, str_eq_refl, str_eq_iff,
}
use cardano_on_evm.Prelude.Json.{Json, text, object, Members, entries}
use cardano_on_evm.Protocol.Operation.{Operation, Field, integer, string}
use cardano_on_evm.Submission.Inclusion.{
  OperationContext, Chain, copy_operation, snapshot_context, expected, hash32, same_text, is_text,
}
use cardano_on_evm.Submission.Adapters.{
  Mode, mode_eq, Submission, Rpc, Call, chain_call, then_call, pure_call, check_entry_points,
  text_json, check_same, rpc_members, rpc_operation, bundler_submit, check_submission, Transaction,
  transaction_json, call_json, check_chain, direct_submit,
}

module _ {N : Type 0} where
  then_call-eq-ok :
      {A B : Type 0} (r : Result A × N) (next : A → Call N B) (b : B) (n' : N)
      → then_call r next ≡ (ok b, n')
      → (a : A) × (n₁ : N) × (r ≡ (ok a, n₁)) × (next a n₁ ≡ (ok b, n'))
  then_call-eq-ok (ok a, n₁) next b n' h = (a, n₁, refl, h)
  then_call-eq-ok (err e, n₁) next b n' h = cc

  -- A chain of requests that returned: what its first one returned, and what the rest made of it.
  pub chain_call-eq-ok :
      {A B : Type 0} (m : Call N A) (next : A → Call N B) (n : N) (b : B) (n' : N)
      → chain_call m next n ≡ (ok b, n')
      → (a : A) × (n₁ : N) × (m n ≡ (ok a, n₁)) × (next a n₁ ≡ (ok b, n'))
  unfolding chain_call
  chain_call-eq-ok m next n b n' h = then_call-eq-ok (m n) next b n' h

  pub pure_call-eq-ok :
      {A B : Type 0} (r : Result A) (next : A → Call N B) (n : N) (b : B) (n' : N)
      → chain_call (pure_call r) next n ≡ (ok b, n')
      → (a : A) × (r ≡ ok a) × (next a n ≡ (ok b, n'))
  unfolding chain_call
  pure_call-eq-ok (ok a) next n b n' h = (a, refl, h)
  pure_call-eq-ok (err e) next n b n' h = cc

mode_eq_refl : (m : Mode) → mode_eq m m ≡ true
unfolding mode_eq
mode_eq_refl Mode.public = refl
mode_eq_refl Mode.private = refl
mode_eq_refl Mode.direct = refl

check_same-eq-ok : (a b : Str) (u : Unit {0}) → check_same a b ≡ ok u → same_text a b ≡ true
unfolding check_same
check_same-eq-ok a b u h = ground arith

module _ {N : Type 0} (chain : Chain) (rpc : Rpc N) where
  -- A submission is what its own status check asks for.
  check_submission-ok :
      (mode : Mode) (context : OperationContext) (wanted : Str) (t : Option Str)
      → expected chain context ≡ ok wanted
      → check_submission chain rpc mode context
          (record { mode = mode; user_operation_hash = wanted; transaction_hash = t })
        ≡ ok tt
  unfolding check_submission
  check_submission-ok mode context wanted t e = rw (mode_eq_refl mode, e, str_eq_refl wanted)

  -- The object that stands for an operation: its entries by name and in order, an integer as its
  -- quantity and a string as it is.
  abbrev pub quantity_text : Field → Str
  quantity_text (integer n) = chain.to_quantity n
  quantity_text (string t) = t

  abbrev pub Sends : Operation → Json → Type 0
  Sends operation op =
      (ms : Members) × (op ≡ object ms)
      × (entries ms
          ≡ map (λ (entry : Str × Field). (entry.0, text (quantity_text entry.1))) operation)

  entries-rpc_members :
      (operation : Operation)
      → entries (rpc_members chain operation)
        ≡ map (λ (entry : Str × Field). (entry.0, text (quantity_text entry.1))) operation
  unfolding rpc_members
  entries-rpc_members [] = refl
  entries-rpc_members ((name, integer n) ∷ rest) =
      ap (λ es. (name, text (chain.to_quantity n)) ∷ es) (entries-rpc_members rest)
  entries-rpc_members ((name, string t) ∷ rest) =
      ap (λ es. (name, text t) ∷ es) (entries-rpc_members rest)

  rpc_operation-Sends :
      (operation : Operation) (op : Json)
      → rpc_operation chain operation ≡ ok op
      → (copy : Operation) × (copy_operation chain operation ≡ ok copy) × Sends copy op
  unfolding rpc_operation
  rpc_operation-Sends operation op h =
      let (copy, e, h₁) = >>=-eq-ok (copy_operation chain operation) _ h in
      (copy, e, (rpc_members chain copy, sym (ok-injective h₁), entries-rpc_members copy))

  -- A bundler's submission has the hash of the operation as it was copied. After the bundler has
  -- listed its EntryPoints, the last request sends the copied operation, field by field, to the
  -- EntryPoint of the context, and the answer is that hash, but for the case of its letters; and
  -- asking for the status of the submission passes the check of its context.
  pub bundler_submit-eq-ok :
      (mode : Mode) (input : OperationContext) (n n' : N) (s : Submission)
      → bundler_submit chain rpc mode input n ≡ (ok s, n')
      → (context : OperationContext) × (copy : Operation) × (entry_points op sent : Json) × (n₁ : N)
        × (hash : Str) × (snapshot_context chain input ≡ ok context)
        × (expected chain context ≡ ok s.user_operation_hash)
        × (copy_operation chain context.operation ≡ ok copy)
        × Sends copy op
        × (rpc (codes "eth_supportedEntryPoints") [] n ≡ (ok entry_points, n₁))
        × (rpc (codes "eth_sendUserOperation") (op ∷ text context.entry_point ∷ []) n₁
            ≡ (ok sent, n'))
        × (hash32 (text_json sent) ≡ ok hash)
        × (same_text hash s.user_operation_hash ≡ true)
        × (check_submission chain rpc mode context s ≡ ok tt)
  unfolding bundler_submit
  bundler_submit-eq-ok mode input n n' s h =
      let (context, e₁, h₁) = pure_call-eq-ok (snapshot_context chain input) _ n s n' h in
      let (entry_points, n₁, e₂, h₂) =
        chain_call-eq-ok (rpc (codes "eth_supportedEntryPoints") []) _ n s n' h₁ in
      let (_, _, h₃) =
        pure_call-eq-ok (check_entry_points context.entry_point entry_points) _ n₁ s n' h₂ in
      let (wanted, e₄, h₄) = pure_call-eq-ok (expected chain context) _ n₁ s n' h₃ in
      let (op, e₅, h₅) = pure_call-eq-ok (rpc_operation chain context.operation) _ n₁ s n' h₄ in
      let (sent, n₂, e₆, h₆) =
        chain_call-eq-ok (rpc (codes "eth_sendUserOperation") (op ∷ text context.entry_point ∷ []))
          _ n₁ s n' h₅ in
      let (hash, e₇, h₇) = pure_call-eq-ok (hash32 (text_json sent)) _ n₂ s n' h₆ in
      let (u, e₈, h₈) = pure_call-eq-ok (check_same hash wanted) _ n₂ s n' h₇ in
      let made = ok-injective (ap (λ (x : Result Submission × N). x.0) h₈) in
      let same = ap (λ (x : Submission). x.user_operation_hash) made in
      let last = ap (λ (x : Result Submission × N). x.1) h₈ in
      let (copy, copied, sends) = rpc_operation-Sends context.operation op e₅ in
      (
        context,
        copy,
        entry_points,
        op,
        sent,
        n₁,
        hash,
        e₁,
        e₄ ∙ ap ok same,
        copied,
        sends,
        e₂,
        e₆ ∙ ap (λ (x : N). (ok sent, x)) last,
        e₇,
        subst (λ k. same_text hash k ≡ true) same (check_same-eq-ok hash wanted u e₈),
        subst (λ x. check_submission chain rpc mode context x ≡ ok tt) made
            (check_submission-ok mode context wanted none e₄),
      )

is_text-eq-ok :
    (o : Option Str) (w : Str) (u : Unit {0})
    → throw_if (not (is_text o w)) "EntryPoint operation hash mismatch" ≡ ok u
    → o ≡ some w
unfolding is_text
is_text-eq-ok none w u h = cc
is_text-eq-ok (some t) w u h = ap some ((str_eq_iff t w).0 (ground arith))

module _ {N : Type 0} (chain : Chain) (rpc : Rpc N) (submitter : Str)
    (send_transaction : Transaction → Call N Str) where
  -- A direct submission has the hash of the operation as it was copied, which the EntryPoint itself
  -- has computed, and the transaction that was sent is the one that was tried before without error.
  pub direct_submit-eq-ok :
      (input : OperationContext) (n n' : N) (s : Submission)
      → direct_submit chain rpc submitter send_transaction input n ≡ (ok s, n')
      → (context : OperationContext) × (named tried : Json) × (sent hash : Str) × (n₁ n₂ n₃ : N)
        × (snapshot_context chain input ≡ ok context)
        × (expected chain context ≡ ok s.user_operation_hash)
        × (rpc
              (codes "eth_call")
              (transaction_json
                  (record { to = context.entry_point; call = chain.hash_call context.operation })
                ∷ text (codes "latest")
                ∷ [])
              n₁
            ≡ (ok named, n₂))
        × (text_json named ≡ some s.user_operation_hash)
        × (rpc
              (codes "eth_call")
              (call_json submitter (record {
                to = context.entry_point;
                call = chain.handle_call context.operation submitter;
              })
                ∷ text (codes "latest")
                ∷ [])
              n₂
            ≡ (ok tried, n₃))
        × (send_transaction
              (record {
                to = context.entry_point;
                call = chain.handle_call context.operation submitter;
              })
              n₃
            ≡ (ok sent, n'))
        × (hash32 (some sent) ≡ ok hash)
        × (s.transaction_hash ≡ some hash)
  unfolding direct_submit
  direct_submit-eq-ok input n n' s h =
      let (context, e₁, h₁) = pure_call-eq-ok (snapshot_context chain input) _ n s n' h in
      let (id, n₁, _, h₂) = chain_call-eq-ok (rpc (codes "eth_chainId") []) _ n s n' h₁ in
      let (_, _, h₃) =
        pure_call-eq-ok (check_chain chain rpc submitter send_transaction context (text_json id)) _
          n₁ s n' h₂ in
      let (wanted, e₄, h₄) = pure_call-eq-ok (expected chain context) _ n₁ s n' h₃ in
      let (named, n₂, e₅, h₅) =
        chain_call-eq-ok
          (rpc (codes "eth_call") (
            transaction_json
              (record { to = context.entry_point; call = chain.hash_call context.operation })
            ∷ text (codes "latest")
            ∷ []))
          _ n₁ s n' h₄ in
      let (u, e₆, h₆) =
        pure_call-eq-ok
          (throw_if (not (is_text (text_json named) wanted)) "EntryPoint operation hash mismatch") _
          n₂ s n' h₅ in
      let (tried, n₃, e₇, h₇) =
        chain_call-eq-ok
          (rpc (codes "eth_call") (
            call_json submitter (record {
              to = context.entry_point;
              call = chain.handle_call context.operation submitter;
            })
            ∷ text (codes "latest")
            ∷ []))
          _ n₂ s n' h₆ in
      let (sent, n₄, e₈, h₈) =
        chain_call-eq-ok
          (send_transaction (record {
            to = context.entry_point;
            call = chain.handle_call context.operation submitter;
          }))
          _ n₃ s n' h₇ in
      let (hash, e₉, h₉) = pure_call-eq-ok (hash32 (some sent)) _ n₄ s n' h₈ in
      let made = ok-injective (ap (λ (x : Result Submission × N). x.0) h₉) in
      let last = ap (λ (x : Result Submission × N). x.1) h₉ in
      let same = ap (λ (x : Submission). x.user_operation_hash) made in
      (
        context,
        named,
        tried,
        sent,
        hash,
        n₁,
        n₂,
        n₃,
        e₁,
        e₄ ∙ ap ok same,
        e₅,
        is_text-eq-ok _ wanted u e₆ ∙ ap some same,
        e₇,
        e₈ ∙ ap (λ (x : N). (ok sent, x)) last,
        e₉,
        sym (ap (λ (x : Submission). x.transaction_hash) made),
      )

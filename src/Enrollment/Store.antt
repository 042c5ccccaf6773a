-- ===== src/Enrollment/Store.antt =====
-- packages/enrollment/src/store.ts and sqlite.ts: challenge records, and what a store of them keeps
-- to. The two stores are modelled in the modules below.
pub mod Memory
pub mod Sqlite
use cardano_on_evm.Prelude.{
  ℕ, ◌≤◌, ◌<◌, ◌≡◌, Bool, true, false, not, ◌&&◌, ◌||◌, Option, none, some, Result, ok, err, is_ok,
  Str, str_eq, leb, if◌then◌else◌,
}

pub record ChallengeRecord : Type 0 where
  pub id : Str
  pub application : Str
  pub cardano_address : Str
  pub cardano_network : ℕ
  pub base_chain_id : ℕ
  pub config_hash : Str
  pub issued_at : ℕ
  pub expires_at : ℕ
  pub payload_hex : Str

-- `!record || record.payloadHex !== payloadHex || now >= record.expiresAt`, negated.
abbrev pub is_consumable : Option ChallengeRecord → Str → ℕ → Bool
is_consumable none payload_hex now = false
is_consumable (some r) payload_hex now =
    str_eq r.payload_hex payload_hex && not (leb r.expires_at now)

-- The interface `ChallengeStore`: its operations on a state, and the contract that its comment asks
-- for. `consume` compares and deletes in one step.
pub record ChallengeStore : Type 1 where
  pub State : Type 0
  pub IsValid : State → Type 0
  pub put : ChallengeRecord → State → Result (Unit {0}) × State
  pub get : Str → State → Option ChallengeRecord
  pub consume : Str → Str → ℕ → State → Bool × State
  pub put-IsValid : (r : ChallengeRecord) (s : State) → IsValid s → IsValid (put r s).1
  pub consume-IsValid :
      (id payload_hex : Str) (now : ℕ) (s : State)
      → IsValid s
      → IsValid (consume id payload_hex now s).1
  pub put_taken :
      (r old : ChallengeRecord) (s : State)
      → IsValid s
      → get r.id s ≡ some old
      → (is_ok (put r s).0 ≡ false) × ((put r s).1 ≡ s)
  pub put_fresh :
      (r : ChallengeRecord) (s : State)
      → IsValid s
      → get r.id s ≡ none
      → ((put r s).0 ≡ ok tt)
        × ((j : Str) → get j (put r s).1 ≡ (if str_eq r.id j then some r else get j s))
  pub consume_answer :
      (id payload_hex : Str) (now : ℕ) (s : State)
      → IsValid s
      → (consume id payload_hex now s).0 ≡ is_consumable (get id s) payload_hex now
  pub get-consume :
      (id payload_hex : Str) (now : ℕ) (s : State) (j : Str)
      → IsValid s
      → get j (consume id payload_hex now s).1
        ≡ (if is_consumable (get id s) payload_hex now && str_eq id j then none else get j s)
  pub consume_false :
      (id payload_hex : Str) (now : ℕ) (s : State)
      → IsValid s
      → is_consumable (get id s) payload_hex now ≡ false
      → (consume id payload_hex now s).1 ≡ s

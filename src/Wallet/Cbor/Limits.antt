-- ===== src/Wallet/Cbor/Limits.antt =====
-- The values inside the limits of the decoder of packages/wallet/src/cbor.ts.
use cardano_on_evm.Prelude.{ℕ, zero, suc, ◌^◌, ◌≤◌, ◌<◌, ◌≡◌, false, List, [], ◌∷◌, Str, length}
use cardano_on_evm.Prelude.Int.{ℤ, pos, negsuc}
use cardano_on_evm.Wallet.Utf8.{utf8_encode, IsPlain}
use cardano_on_evm.Wallet.Cbor.{
  Key, Cbor, Items, Entries, num_key, text_key, num, bool, null, text, bytes, array, object, nil,
  cons, end, entry, key_mem, count, map_size,
}

-- A number that the head can carry, at a depth that the decoder reaches.
abbrev pub FitsNum : ℕ → ℤ → Type 0
FitsNum zero n = ⊥
FitsNum (suc levels) (pos n) = n < 2 ^ 32
FitsNum (suc levels) (negsuc n) = n < 2 ^ 32

abbrev pub FitsText : ℕ → Str → Type 0
FitsText zero s = ⊥
FitsText (suc levels) s = IsPlain s × (length (utf8_encode s) < 2 ^ 32)

abbrev pub FitsKey : ℕ → Key → Type 0
FitsKey levels (num_key n) = FitsNum levels n
FitsKey levels (text_key s) = FitsText levels s

-- A value inside the limits: `levels` of nesting, lengths below 2 ^ 32, 64 items and 16 entries at
-- most, distinct keys, texts that survive UTF-8.
abbrev mutual
  pub Fits : ℕ → Cbor → Type 0
  Fits zero null = ⊥
  Fits zero (bool b) = ⊥
  Fits zero (num n) = ⊥
  Fits zero (text s) = ⊥
  Fits zero (bytes b) = ⊥
  Fits zero (array vs) = ⊥
  Fits zero (object es) = ⊥
  Fits (suc levels) null = Unit
  Fits (suc levels) (bool b) = Unit
  Fits (suc levels) (num n) = FitsNum (suc levels) n
  Fits (suc levels) (text s) = FitsText (suc levels) s
  Fits (suc levels) (bytes b) = length b < 2 ^ 32
  Fits (suc levels) (array vs) = (count vs ≤ 64) × FitsItems levels vs
  Fits (suc levels) (object es) = (map_size es ≤ 16) × FitsEntries levels [] es

  pub FitsItems : ℕ → Items → Type 0
  FitsItems levels nil = Unit
  FitsItems levels (cons v vs) = Fits levels v × FitsItems levels vs

  pub FitsEntries : ℕ → List Key → Entries → Type 0
  FitsEntries levels seen end = Unit
  FitsEntries levels seen (entry k v es) =
      FitsKey levels k × (key_mem k seen ≡ false) × Fits levels v × FitsEntries levels (k ∷ seen) es

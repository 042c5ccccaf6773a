-- ===== src/Prelude/Decimal/Digits.antt =====
-- Decimal numerals read back: what `decimal` writes has no superfluous zero, and BigInt reads it.
use cardano_on_evm.Prelude.{
  ℕ, zero, suc, ◌+◌, ◌*◌, ◌-◌, ◌/◌, ◌%◌, ◌<◌, ◌≡◌, refl, ap, Bool, true, false, ◌&&◌, [], ◌∷◌, ◌++◌,
  arith, Str, leb, ◌==◌, inl, inr, Bool-cases,
}
use cardano_on_evm.Prelude.Decimal.{decimal, decimal_loop}

-- `[0-9]`
abbrev pub is_digit : ℕ → Bool
is_digit c = leb b'0' c && leb c b'9'

-- `/^[0-9]*$/`
unfoldable pub all_digits : Str → Bool
all_digits [] = true
all_digits (c ∷ s) = is_digit c && all_digits s

-- `/^(0|[1-9][0-9]*)$/`
unfoldable pub is_numeral : Str → Bool
is_numeral [] = false
is_numeral (c ∷ []) = is_digit c
is_numeral (c ∷ d ∷ s) = leb b'1' c && leb c b'9' && all_digits (d ∷ s)

-- The value of the digits after those already read.
unfoldable pub digits_value : ℕ → Str → ℕ
digits_value v [] = v
digits_value v (c ∷ s) = digits_value (v * 10 + (c - b'0')) s

digits_value-append :
    (v d : ℕ) (s : Str) → digits_value v (s ++ d ∷ []) ≡ digits_value v s * 10 + (d - b'0')
unfolding digits_value
digits_value-append v d [] = refl
digits_value-append v d (c ∷ s) = digits_value-append (v * 10 + (c - b'0')) d s

all_digits-append :
    (d : ℕ) (s : Str) → all_digits s ≡ true → is_digit d ≡ true → all_digits (s ++ d ∷ []) ≡ true
unfolding all_digits
all_digits-append d [] h e = ground (arith, e)
all_digits-append d (c ∷ s) h e = ground (arith, all_digits-append d s (ground arith) e)

-- A numeral that does not start with 0.
abbrev IsLong : Str → Type 0
IsLong s =
    (c : ℕ) × (t : Str) × (s ≡ c ∷ t) × (leb b'1' c && leb c b'9' ≡ true) × (all_digits t ≡ true)

last_digit : (n : ℕ) → is_digit (b'0' + n % 10) ≡ true
last_digit n = ground arith

decimal_loop-IsLong : (fuel n : ℕ) → n < fuel → 0 < n → IsLong (decimal_loop fuel n)
unfolding decimal_loop all_digits
decimal_loop-IsLong zero n h pos = absurd (omega (arith, h))
decimal_loop-IsLong (suc fuel) n h pos = elim (Bool-cases (n / 10 == 0)) [
  | inl small ↦
      let low : leb b'1' (b'0' + n % 10) && leb (b'0' + n % 10) b'9' ≡ true = ground arith in
      rw small (b'0' + n % 10, [], refl, low, refl)
  | inr large ↦
      let (c, t, e, lead, rest) = decimal_loop-IsLong fuel (n / 10) (ground arith) (ground arith) in
      rw large (
        c,
        t ++ (b'0' + n % 10) ∷ [],
        ap (λ (s : Str). s ++ (b'0' + n % 10) ∷ []) e,
        lead,
        all_digits-append _ t rest (last_digit n),
      )
]

digits_value-decimal_loop : (fuel n : ℕ) → n < fuel → digits_value 0 (decimal_loop fuel n) ≡ n
unfolding decimal_loop
digits_value-decimal_loop zero n h = absurd (omega (arith, h))
digits_value-decimal_loop (suc fuel) n h = elim (Bool-cases (n / 10 == 0)) [
  | inl small ↦
      rw (small, digits_value-append 0 (b'0' + n % 10) []) (unfold digits_value in ground arith)
  | inr large ↦
      rw
        (
          large,
          digits_value-append 0 (b'0' + n % 10) (decimal_loop fuel (n / 10)),
          digits_value-decimal_loop fuel (n / 10) (ground arith),
        )
        (ground arith)
]

-- The digits of a number have its value.
pub digits_value-decimal : (n : ℕ) → digits_value 0 (decimal n) ≡ n
unfolding decimal
digits_value-decimal n = digits_value-decimal_loop (suc n) n (omega arith)

pub is_numeral-decimal : (n : ℕ) → is_numeral (decimal n) ≡ true
unfolding decimal is_numeral
is_numeral-decimal zero = refl
is_numeral-decimal (suc n) =
    let (c, t, e, lead, rest) =
      decimal_loop-IsLong (suc (suc n)) (suc n) (omega arith) (omega arith) in
    rw e (long c t lead rest)
  where
    long :
        (c : ℕ) (t : Str)
        → leb b'1' c && leb c b'9' ≡ true
        → all_digits t ≡ true
        → is_numeral (c ∷ t) ≡ true
    long c [] lead rest = ground arith
    long c (d ∷ t) lead rest = ground (arith, lead, rest)

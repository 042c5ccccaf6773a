-- ===== src/Prelude/Decimal.antt =====
-- A number in a template string or in JSON: its decimal digits.
pub mod Digits
use Prim.Native.Nat.{ℕ, zero, suc, ◌/◌, ◌%◌, ◌+◌}
use mathlib.Core.List.{[], ◌∷◌, ◌++◌}
use cardano_on_evm.Prelude.Tests.{◌==◌, if◌then◌else◌}
use cardano_on_evm.Prelude.Int.{ℤ, pos, negsuc}
use cardano_on_evm.Prelude.Text.{Str}

-- The decimal digits of a number. A number has fewer digits than it is large.
unfoldable pub decimal_loop : ℕ → ℕ → Str
decimal_loop zero n = []
decimal_loop (suc fuel) n =
    let front = decimal_loop fuel (n / 10) in
    (if n / 10 == 0 then [] else front) ++ (b'0' + n % 10) ∷ []

unfoldable pub decimal : ℕ → Str
unfolding decimal_loop
decimal n = decimal_loop (suc n) n

unfoldable pub signed_decimal : ℤ → Str
signed_decimal (pos n) = decimal n
signed_decimal (negsuc n) = b'-' ∷ decimal (suc n)

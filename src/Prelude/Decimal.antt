-- ===== src/Prelude/Decimal.antt =====
-- `String(n)` of a natural number.
use Prim.Native.Nat.{ℕ, zero, suc, ◌+◌, ◌/◌, ◌%◌}
use Prim.Native.String.{String, ◌++◌, slice}
use mathlib.Core.Bool.{true, false}
use glyph_protocol.Prelude.Tests.{ltb}

digit : ℕ → String
digit n = slice "0123456789" n (n + 1)

-- The fuel is never used up: a number has fewer digits than its successor counts.
digits : ℕ → ℕ → String
digits zero n = digit n
digits (suc fuel) n = elim (ltb n 10) [
  | true ↦ digit n
  | false ↦ digits fuel (n / 10) ++ digit (n % 10)
]

unfoldable pub decimal : ℕ → String
unfolding digits digit
decimal n = digits n n

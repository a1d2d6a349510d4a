-- ===== src/Common/Integers.antt =====
-- Python's negative numbers, on the native ones: `negsuc n` is -(n + 1).
use Prim.Native.Nat.{ℕ, ◌+◌}
use Prim.Native.String.{String}
use mathlib.Core.Bool.{Bool, false}
use pullsmith.Common.Tests.{◌==◌}
use pullsmith.Common.Text.{show, ◌<>◌}

pub data ℤ : Type 0 where
  pos negsuc : ℕ → ℤ

unfoldable pub show_int : ℤ → String
unfolding show
show_int (pos n) = show n
show_int (negsuc n) = "-" <> show (n + 1)

-- Equality with a number that is not negative.
abbrev pub int_eq : ℤ → ℕ → Bool
int_eq (pos n) m = n == m
int_eq (negsuc n) m = false

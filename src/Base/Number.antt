-- ===== src/Base/Number.antt =====
-- The number values of JavaScript, as far as the program tells them apart.
use Prim.Native.Nat.{ℕ, suc}
use mathlib.Core.Bool.{Bool, true, false}
use log_stream.Base.Int.{ℤ, pos, negsuc}
use log_stream.Base.Tests.{leb}

-- `int z` is the integer z (0 is the positive zero); `fraction n` is the finite number with bits n,
-- where that is no integer.
pub data Number : Type 0 where
  int : ℤ → Number
  negative_zero : Number
  fraction : ℕ → Number
  infinite : Bool → Number
  nan : Number

abbrev pub max_safe_integer : ℕ
max_safe_integer = 9007199254740991

-- `Number.isFinite`.
abbrev pub is_finite : Number → Bool
is_finite (infinite s) = false
is_finite nan = false
is_finite _ = true

-- `Number.isSafeInteger`.
abbrev pub is_safe_integer : Number → Bool
is_safe_integer (int (pos n)) = leb n max_safe_integer
is_safe_integer (int (negsuc n)) = leb (suc n) max_safe_integer
is_safe_integer negative_zero = true
is_safe_integer _ = false

-- `x >= least` and `x <= most` for a safe integer x, as a natural number.
abbrev pub natural : Number → ℕ
natural (int (pos n)) = n
natural _ = 0

-- `x < 0`, for a safe integer.
abbrev pub is_negative : Number → Bool
is_negative (int (negsuc n)) = true
is_negative _ = false

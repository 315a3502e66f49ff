-- ===== src/Prelude/Real.antt =====
-- The numbers that are no integers. `Decimal` is a finite `decimal.Decimal`: a coefficient and
-- the number of places behind the point. `Float` is a finite IEEE double as the fraction that it
-- is, a mantissa over a power of two; multiplying it by 1024 ** 3 is exact.
use Prim.Native.Nat.{ℕ, ◌*◌, ◌/◌, ◌^◌}
use mathlib.Core.Bool.{Bool, ◌&&◌, ◌||◌}
use fake_ui.Prelude.Tests.{ltb, ◌==◌}

pub record Decimal : Type 0 where
  pub negative : Bool
  pub coefficient : ℕ
  pub places : ℕ

pub record Float : Type 0 where
  pub negative : Bool
  pub mantissa : ℕ
  pub shift : ℕ

-- `a < b`, for two decimals that are not negative
abbrev pub decimal_ltb : Decimal → Decimal → Bool
decimal_ltb a b = ltb (a.coefficient * 10 ^ b.places) (b.coefficient * 10 ^ a.places)

-- `a <= 0`
abbrev pub is_not_positive : Decimal → Bool
is_not_positive a = a.negative || a.coefficient == 0

-- `x < 0`
abbrev pub is_negative : Float → Bool
is_negative x = x.negative && ltb 0 x.mantissa

-- `int(x * 1024 * 1024 * 1024)`, for an `x` that is not negative
abbrev pub gib : Float → ℕ
gib x = x.mantissa * 2 ^ 30 / 2 ^ x.shift

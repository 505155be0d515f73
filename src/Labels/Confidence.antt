-- ===== src/Labels/Confidence.antt =====
-- Confidences. Every finite double is a whole multiple of 2 ^ -1074, and the code only compares,
-- clamps and copies them, so a finite one is the integer of those units, with no rounding.
use rd_news.Prelude.{ℕ, ◌^◌, ◌≤◌, arith}
use rd_news.Prelude.Int.{ℤ, clamp}

-- The argument of `_finite_clamped`: `float(value)` raises, or is an infinity or nan, or is finite.
pub data Number : Type 0 where
  not_a_number : Number
  not_finite : Number
  finite : ℤ → Number

-- 1.0
unfoldable pub one : ℕ
one = 2 ^ 1074

-- `_finite_clamped`
unfoldable pub finite_clamped : Number → ℕ
finite_clamped not_a_number = 0
finite_clamped not_finite = 0
finite_clamped (finite value) = clamp one value

pub finite_clamped-le-one : (value : Number) → finite_clamped value ≤ one
unfolding finite_clamped
finite_clamped-le-one not_a_number = omega arith
finite_clamped-le-one not_finite = omega arith
finite_clamped-le-one (finite value) = omega arith

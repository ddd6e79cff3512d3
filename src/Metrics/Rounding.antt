-- ===== src/Metrics/Rounding.antt =====
-- The divisions of src/metrics/metrics-aggregation.service.ts, done exactly: its doubles may differ in
-- their last binary place.
pub mod Laws
use eventify.Common.{
  ℕ, zero, suc, ◌+◌, ◌-◌, ◌*◌, ◌/◌, Bool, Option, none, some, ltb, ◌==◌, if◌then◌else◌,
}
use eventify.Common.Number.{ℤ, pos, negsuc, sub_ℕ, Number}

-- A part of a whole in percent, `part / whole * 100`, or 0 where the source does not divide.
pub data Share : Type 0 where
  nothing : Share
  share : Number → Number → Share

-- `Math.round(sum / count)`: the nearest whole number, and of two the higher one.
unfoldable pub round_div : Number → ℕ → Number
round_div none count = none
round_div (some (pos n)) count = some (pos ((2 * n + count) / (2 * count)))
round_div (some (negsuc n)) count = some (sub_ℕ 0 ((2 * suc n + (count - 1)) / (2 * count)))

-- `calculatePercentageChange`, in hundredths of a percent. Counts are not negative; for one that is
-- not a number the change is none.
unfoldable pub calculate_percentage_change : Number → Number → Number
calculate_percentage_change (some (pos current)) (some (pos zero)) =
    if ltb 0 current then some (pos 10000) else some (pos 0)
calculate_percentage_change (some (pos current)) (some (pos (suc p))) =
    some (sub_ℕ ((2 * (current * 10000) + suc p) / (2 * suc p)) 10000)
calculate_percentage_change _ _ = none

-- ===== src/Metrics/Rounding/Laws.antt =====
-- How far the rounded values are from the exact ones.
use native.Mathlib.Nat.{lt-div-mul-add, div-mul-le_self, mul_left_comm}
use eventify.Common.{ℕ, zero, suc, ◌+◌, ◌*◌, ◌/◌, ◌≤◌, ◌<◌, ◌≡◌, refl, some, arith}
use eventify.Common.Number.{pos, sub_ℕ}
use eventify.Metrics.Rounding.{calculate_percentage_change}

-- Twice a part, rounded: between `2n - d` and `2n + d`.
rounded_bounds :
    (n d : ℕ)
    → 0 < d
    → let q = (2 * n + d) / (2 * d) in (2 * (q * d) ≤ 2 * n + d) × (2 * n < 2 * (q * d) + d)
rounded_bounds n d h =
    let q : ℕ = (2 * n + d) / (2 * d) in
    let low : 2 * (q * d) ≤ 2 * n + d =
      omega (arith, div-mul-le_self (2 * n + d) (2 * d), mul_left_comm q 2 d) in
    let high : 2 * n < 2 * (q * d) + d =
      omega
        (arith, lt-div-mul-add {a = 2 * n + d} {b = 2 * d} (omega arith), mul_left_comm q 2 d) in
    (low, high)

-- For a previous count that is not 0, the change plus a hundred percent is the quotient of the counts,
-- in hundredths of a percent and rounded to the nearest.
pub calculate_percentage_change_lem :
    (current previous : ℕ)
    → 0 < previous
    → (q : ℕ) × (calculate_percentage_change (some (pos current)) (some (pos previous))
        ≡ some (sub_ℕ q 10000))
      × (2 * (q * previous) ≤ 2 * (current * 10000) + previous)
      × (2 * (current * 10000) < 2 * (q * previous) + previous)
unfolding calculate_percentage_change
calculate_percentage_change_lem current zero h = absurd (omega arith)
calculate_percentage_change_lem current (suc p) h =
    let (low, high) = rounded_bounds (current * 10000) (suc p) h in
    ((2 * (current * 10000) + suc p) / (2 * suc p), refl, low, high)

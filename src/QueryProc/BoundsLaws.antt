-- ===== src/QueryProc/BoundsLaws.antt =====
-- The order of the bounds of a time range (internal/queryproc/variables.go).
use Prim.Native.Nat.{ℕ, ◌≤◌}
use mathlib.Core.Path.{◌≡◌, ap}
use mathlib.Core.Logic.{inl, inr}
use mathlib.Core.Bool.{true, false, ◌||◌}
use mathlib.Core.Option.{Option, none, some}
use native.Mathlib.Omega.{arith}
use ch_ui.Prelude.Tests.{Bool-cases}
use ch_ui.Prelude.Int.{ℤ, ltb_ℤ}
use ch_ui.QueryProc.Times.{is_zero, Parse, TimeRange, read_bounds, order_bounds, get_time_bounds}
use ch_ui.QueryProc.Variables.{calculate_interval}

abbrev bounds : ℤ → ℤ → Option (ℤ × ℤ)
bounds from to = some (from, to)

pair_parts : (a b from to : ℤ) → bounds a b ≡ bounds from to → (a ≡ from) × (b ≡ to)
pair_parts a b from to h = (ap (λ o. first_or from o) h, ap (λ o. second_or to o) h)
  where
    first_or : ℤ → Option (ℤ × ℤ) → ℤ
    first_or d none = d
    first_or d (some (x, y)) = x

    second_or : ℤ → Option (ℤ × ℤ) → ℤ
    second_or d none = d
    second_or d (some (x, y)) = y

ltb_ℤ-flip : (a b : ℤ) → ltb_ℤ b a ≡ true → ltb_ℤ a b ≡ false
ltb_ℤ-flip a b h = ground arith

order_bounds-ordered :
    (a b from to : ℤ) → order_bounds (a, b) ≡ bounds from to → ltb_ℤ to from ≡ false
unfolding order_bounds
order_bounds-ordered a b from to h = elim (Bool-cases (is_zero a || is_zero b)) [
  | inl e ↦ (let bad : none ≡ bounds from to = rw e at h in cc)
  | inr e ↦ elim (Bool-cases (ltb_ℤ b a)) [
    | inl swapped ↦
        (let (x, y) = pair_parts b a from to (rw (e, swapped) at h) in
          rw (← x, ← y) (ltb_ℤ-flip a b swapped))
    | inr kept ↦ (let (x, y) = pair_parts a b from to (rw (e, kept) at h) in rw (← x, ← y) kept)
  ]
]

calculate_interval_positive : (from to : ℤ) (points : ℕ) → 1 ≤ calculate_interval from to points
unfolding calculate_interval
calculate_interval_positive from to points = ground arith

-- The bounds that are read from a time range are in order, and the interval between them that a query
-- is given is at least a second, for any number of data points.
pub get_time_bounds-ordered :
    (parse : Parse) (now : ℤ) (tr : TimeRange) (from to : ℤ) (points : ℕ)
    → get_time_bounds parse now tr ≡ some (from, to)
    → (ltb_ℤ to from ≡ false) × (1 ≤ calculate_interval from to points)
unfolding get_time_bounds
get_time_bounds-ordered parse now tr from to points h = (
  order_bounds-ordered (read_bounds parse now tr).0 (read_bounds parse now tr).1 from to h,
  calculate_interval_positive from to points,
)

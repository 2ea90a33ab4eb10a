-- ===== src/Alerts/BackoffLaws.antt =====
-- The waits between the attempts of a delivery: `retryBackoff` (internal/alerts/dispatcher.go).
use Prim.Native.Nat.{ℕ, zero, suc, ◌*◌, ◌^◌, ◌≤◌, ◌<◌}
use mathlib.Core.Path.{◌≡◌}
use native.Mathlib.Omega.{arith}
use ch_ui.Prelude.Tests.{ltb, if◌then◌else◌}
use ch_ui.Prelude.Int.{ℤ, pos, ltb_ℤ}
use ch_ui.Prelude.Clock.{second, minute}
use ch_ui.Alerts.Delivery.{retry_backoff, backoff_product}

pow_pos : (n : ℕ) → 1 ≤ 2 ^ n
pow_pos zero = omega arith
pow_pos (suc n) = omega (arith, pow_pos n)

pow_double : (n : ℕ) → 2 ^ suc n ≡ 2 * 2 ^ n
pow_double n = omega arith

-- The smaller of ten seconds doubled `n` times and half an hour.
abbrev wait : ℕ → ℕ
wait p = if ltb (30 * minute) (p * (10 * second)) then 30 * minute else p * (10 * second)

backoff_product-small :
    (overflow : ℤ) (n : ℕ) → n < 30 → backoff_product overflow n ≡ pos (2 ^ n * (10 * second))
unfolding backoff_product
backoff_product-small overflow n h = ground arith

capped :
    (p : ℕ)
    → (if ltb_ℤ (pos (30 * minute)) (pos (p * (10 * second)))
        then pos (30 * minute)
        else pos (p * (10 * second)))
      ≡ pos (wait p)
capped p = ground arith

retry_backoff-suc :
    (overflow : ℤ) (n : ℕ) → n < 30 → retry_backoff overflow (suc n) ≡ pos (wait (2 ^ n))
unfolding retry_backoff
retry_backoff-suc overflow n h = rw (backoff_product-small overflow n h) (capped (2 ^ n))

wait_bounds :
    (p : ℕ) → 1 ≤ p → (10 * second ≤ wait p) × (wait p ≤ 30 * minute) × (wait p ≤ wait (2 * p))
wait_bounds p h = (ground arith, ground arith, ground arith)

-- Up to the attempt 29 the wait is between ten seconds and half an hour, and the wait behind the next
-- attempt is not shorter, whatever numbers that do not fit in 64 bits are converted to.
pub retry_backoff_bounds :
    (overflow : ℤ) (n : ℕ)
    → n < 29
    → (d : ℕ) × (e : ℕ) × (retry_backoff overflow (suc n) ≡ pos d)
      × (retry_backoff overflow (suc (suc n)) ≡ pos e)
      × (10 * second ≤ d)
      × (d ≤ e)
      × (e ≤ 30 * minute)
retry_backoff_bounds overflow n h =
    let (lo, hi, up) = wait_bounds (2 ^ n) (pow_pos n) in
    let (lo', hi', up') = wait_bounds (2 ^ suc n) (pow_pos (suc n)) in
    (
      wait (2 ^ n),
      wait (2 ^ suc n),
      retry_backoff-suc overflow n (omega (arith, h)),
      retry_backoff-suc overflow (suc n) (omega (arith, h)),
      lo,
      rw (pow_double n) up,
      hi',
    )

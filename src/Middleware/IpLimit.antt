-- ===== src/Middleware/IpLimit.antt =====
-- The limiter of requests per address: internal/server/middleware/limits.go. Instants are nanoseconds.
use Prim.Native.Nat.{ℕ, ◌+◌}
use mathlib.Core.Bool.{Bool, true, false, not}
use mathlib.Core.Option.{Option, none, some}
use mathlib.Core.List.{List, [], ◌∷◌}
use ch_ui.Prelude.Tests.{ltb, leb, if◌then◌else◌}
use ch_ui.Prelude.Text.{Text, is_blank, cut, trim}
use ch_ui.Prelude.Maps.{lookup, insert}

pub record WindowCount : Type 0 where
  pub count : ℕ
  pub reset : ℕ

pub record IpRateLimiter : Type 0 where
  pub counts : List (Text × WindowCount)
  pub limit : ℕ
  pub window : ℕ
  pub last_gc : ℕ

-- The limiter of `IPRateLimit` when it is made.
abbrev pub ip_rate_limit : ℕ → ℕ → ℕ → IpRateLimiter
ip_rate_limit limit window now = record {
  counts = [];
  limit = limit;
  window = window;
  last_gc = now;
}

unfoldable pub drop_expired : ℕ → List (Text × WindowCount) → List (Text × WindowCount)
drop_expired now [] = []
drop_expired now ((k, wc) ∷ m) =
    let rest = drop_expired now m in if ltb wc.reset now then rest else (k, wc) ∷ rest

-- The cleanup of expired windows.
unfoldable pub collect_garbage : ℕ → IpRateLimiter → IpRateLimiter
unfolding drop_expired
collect_garbage now rl =
    if ltb (rl.last_gc + rl.window) now
    then record rl { counts = drop_expired now rl.counts; last_gc = now }
    else rl

abbrev open_window : ℕ → Text → IpRateLimiter → IpRateLimiter
open_window now ip rl = record rl {
  counts = insert ip (record { count = 1; reset = now + rl.window }) rl.counts;
}

unfoldable pub count_in : ℕ → Text → IpRateLimiter → Option WindowCount → Bool × IpRateLimiter
count_in now ip rl none = (true, open_window now ip rl)
count_in now ip rl (some wc) =
    if ltb wc.reset now
    then (true, open_window now ip rl)
    else if leb rl.limit wc.count
    then (false, rl)
    else (true, record rl { counts = insert ip (record wc { count = wc.count + 1 }) rl.counts })

unfoldable pub allow : ℕ → Text → IpRateLimiter → Bool × IpRateLimiter
unfolding count_in
allow now ip rl =
    let cleaned = collect_garbage now rl in count_in now ip cleaned (lookup ip cleaned.counts)

abbrev first_part : Text × Option Text → Text
first_part (before, after) = before

-- `clientIP`, from the two headers and the remote address; `host` is what `net.SplitHostPort` makes of
-- the latter, none on an error.
unfoldable pub client_ip : (forwarded_for real_ip remote_addr : Text) → Option Text → Text
unfolding cut trim
client_ip forwarded_for real_ip remote_addr host =
    let first = trim (first_part (cut b',' forwarded_for)) in
    if not (is_blank first)
    then first
    else if not (is_blank (trim real_ip))
    then trim real_ip
    else elim host [ none ↦ remote_addr | some h ↦ h ]

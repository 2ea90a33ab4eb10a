-- ===== src/Middleware/Quota.antt =====
-- What the limiter of requests (internal/server/middleware/limits.go) promises: a quota for each
-- address, on a function from addresses that keeps every window and never cleans up.
use Prim.Native.Nat.{ℕ, ◌+◌, ◌≤◌}
use mathlib.Core.Bool.{Bool, true, false}
use mathlib.Core.Option.{Option, none, some}
use mathlib.Core.List.{List, [], ◌∷◌}
use ch_ui.Prelude.Tests.{ltb, if◌then◌else◌}
use ch_ui.Prelude.Lists.{length}
use ch_ui.Prelude.Text.{Text, same}
use ch_ui.Middleware.IpLimit.{IpRateLimiter, allow}

-- A window of an address: when it was opened, and when a request passed in it.
pub record Window : Type 0 where
  pub opened : ℕ
  pub passed : List ℕ

-- Requests with their times, at any addresses.
abbrev pub Requests : Type 0
Requests = List (ℕ × Text)

-- The clock does not run backwards from `start` on.
abbrev pub InOrder : ℕ → Requests → Type 0
InOrder start [] = Unit
InOrder start ((now, ip) ∷ rs) = (start ≤ now) × InOrder now rs

-- What the limiter answers to the requests.
unfoldable pub answers : Requests → IpRateLimiter → List Bool
unfolding allow
answers [] rl = []
answers ((now, ip) ∷ rs) rl = let (passed, rl') = allow now ip rl in passed ∷ answers rs rl'

abbrev pub opens : ℕ → Window
opens now = record { opened = now; passed = now ∷ [] }

abbrev pub enter : Text → Window → (Text → Option Window) → Text → Option Window
enter ip w f j = if same ip j then some w else f j

module _ (limit window : ℕ) where
  -- A request passes if it opens a window or the window has room for it.
  unfoldable pub admit_request : ℕ → Option Window → Bool × Window
  admit_request now none = (true, opens now)
  admit_request now (some w) =
      if ltb (w.opened + window) now
      then (true, opens now)
      else if ltb (length w.passed) limit
      then (true, record w { passed = now ∷ w.passed })
      else (false, w)

  unfoldable pub quota : Requests → (Text → Option Window) → List Bool
  unfolding admit_request
  quota [] f = []
  quota ((now, ip) ∷ rs) f =
      let (passed, w) = admit_request now (f ip) in passed ∷ quota rs (enter ip w f)

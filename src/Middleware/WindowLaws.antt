-- ===== src/Middleware/WindowLaws.antt =====
-- How many requests the limiter (internal/server/middleware/limits.go) lets through in a window.
use Prim.Native.Nat.{ℕ, suc, ◌+◌, ◌-◌, ◌≤◌, ◌<◌}
use mathlib.Core.Path.{◌≡◌, ap, ◌∙◌}
use mathlib.Core.Logic.{inl, inr}
use mathlib.Core.Bool.{Bool, true, false}
use mathlib.Core.Option.{none, some}
use mathlib.Core.List.{List, [], ◌∷◌}
use native.Mathlib.Omega.{arith}
use ch_ui.Prelude.Tests.{ltb, leb, if◌then◌else◌, Bool-cases, ltb→lt}
use ch_ui.Prelude.Lists.{All, length}
use ch_ui.Prelude.Text.{Text}
use ch_ui.Prelude.Maps.{lookup}
use ch_ui.Middleware.IpLimit.{WindowCount, IpRateLimiter, allow}
use ch_ui.Middleware.IpLimitLaws.{allow_room, allow_full, allow_first}

-- How many of the requests of an address, at the given times, are let through.
unfoldable pub passes : List ℕ → Text → IpRateLimiter → ℕ
unfolding allow
passes [] ip rl = 0
passes (now ∷ times) ip rl =
    let (passed, rl') = allow now ip rl in
    let rest = passes times ip rl' in if passed then suc rest else rest

abbrev pub smaller : ℕ → ℕ → ℕ
smaller a b = if leb a b then a else b

passes_passed :
    (now : ℕ) (times : List ℕ) (ip : Text) (rl rl' : IpRateLimiter) (b : Bool)
    → allow now ip rl ≡ (b, rl')
    → passes (now ∷ times) ip rl ≡ (if b then suc (passes times ip rl') else passes times ip rl')
unfolding passes
passes_passed now times ip rl rl' b e =
    ap (λ r. if r.0 then suc (passes times ip r.1) else passes times ip r.1) e

more_room :
    (p n limit' limit c : ℕ)
    → p ≡ smaller n (limit' - (c + 1))
    → limit' ≡ limit
    → c < limit
    → suc p ≡ smaller (suc n) (limit - c)
more_room p n limit' limit c h e room = ground arith

no_room :
    (p n limit' limit c : ℕ)
    → p ≡ smaller n (limit' - c)
    → limit' ≡ limit
    → limit ≤ c
    → p ≡ smaller (suc n) (limit - c)
no_room p n limit' limit c h e full = ground arith

le_of_ltb : (a b : ℕ) → ltb a b ≡ false → b ≤ a
le_of_ltb a b h = ground arith

-- In an open window of an address exactly as many further requests pass as the window has room for.
passes_in_window :
    (times : List ℕ) (ip : Text) (rl : IpRateLimiter) (wc : WindowCount)
    → lookup ip rl.counts ≡ some wc
    → All (λ t. t ≤ wc.reset) times
    → passes times ip rl ≡ smaller (length times) (rl.limit - wc.count)
unfolding passes
passes_in_window [] ip rl wc h all = ground arith
passes_in_window (now ∷ times) ip rl wc h (le, all) = elim (Bool-cases (ltb wc.count rl.limit)) [
  | inl room ↦
      let (rl', e, found, limit) = allow_room now ip rl wc h le (ltb→lt wc.count rl.limit room) in
      let rest = passes_in_window times ip rl' (record wc { count = wc.count + 1 }) found all in
      passes_passed now times ip rl rl' true e
      ∙ more_room (passes times ip rl') (length times) rl'.limit rl.limit wc.count rest limit
          (ltb→lt wc.count rl.limit room)
  | inr full ↦
      let (rl', e, found, limit) =
        allow_full now ip rl wc h le (le_of_ltb wc.count rl.limit full) in
      let rest = passes_in_window times ip rl' wc found all in
      passes_passed now times ip rl rl' false e
      ∙ no_room (passes times ip rl') (length times) rl'.limit rl.limit wc.count rest limit
          (le_of_ltb wc.count rl.limit full)
]

-- Of the requests of an address that the limiter does not know yet, the first passes, and of the
-- others within one window of it as many pass as the limit leaves: whatever the cleanup removes in
-- between, the limit is met exactly, save that a limit of 0 lets the first request pass.
pub passes_first_window :
    (now : ℕ) (times : List ℕ) (ip : Text) (rl : IpRateLimiter)
    → lookup ip rl.counts ≡ none
    → All (λ t. t ≤ now + rl.window) times
    → passes (now ∷ times) ip rl ≡ suc (smaller (length times) (rl.limit - 1))
passes_first_window now times ip rl h all =
    let (rl', e, found, limit) = allow_first now ip rl h in
    let rest =
      passes_in_window times ip rl' (record { count = 1; reset = now + rl.window }) found all in
    passes_passed now times ip rl rl' true e
    ∙ ap (λ p. suc p) (rest ∙ ap (λ l. smaller (length times) (l - 1)) limit)

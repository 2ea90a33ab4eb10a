-- ===== src/RateLimit/Level.antt =====
-- The escalation level of a lockout, which the limiter keeps inside the `type` column, and the
-- schedule of lockout durations (internal/server/middleware/ratelimit.go).
use Prim.Native.Nat.{ℕ, zero, suc, ◌-◌, ◌*◌}
use mathlib.Core.Option.{Option, none, some}
use mathlib.Core.List.{List, [], ◌∷◌, ◌++◌}
use ch_ui.Prelude.Tests.{if◌then◌else◌}
use ch_ui.Prelude.Int.{ℤ, pos, negsuc, ◌+ℤ◌, ltb_ℤ, int64}
use ch_ui.Prelude.Lists.{length}
use ch_ui.Prelude.Text.{Text, is_blank, trim, cut, atoi, itoa}
use ch_ui.Prelude.Clock.{minute}

-- Durations are nanoseconds.
abbrev pub lockout_schedule : List ℕ
lockout_schedule = (3 * minute) ∷ (5 * minute) ∷ (10 * minute) ∷ []

-- A level that does not parse, or is negative, is read as 0.
unfoldable pub level_of : Option ℤ → ℤ
level_of none = pos 0
level_of (some (negsuc n)) = pos 0
level_of (some (pos n)) = pos n

unfoldable pub level_part : Option Text → ℤ
unfolding level_of
level_part none = pos 0
level_part (some s) = level_of (atoi (trim s))

-- `parseLimitTypeAndLockLevel`
unfoldable pub parse_limit_type_and_lock_level : Text → Text → Text × ℤ
unfolding level_part
parse_limit_type_and_lock_level stored fallback =
    let trimmed = trim stored in
    let (before, after) = cut b':' trimmed in
    let base = trim before in
    if is_blank trimmed
    then (fallback, pos 0)
    else ((if is_blank base then fallback else base), level_part after)

-- `formatLimitTypeWithLockLevel`
unfoldable pub format_limit_type_with_lock_level : Text → ℤ → Text
format_limit_type_with_lock_level base (negsuc n) = base
format_limit_type_with_lock_level base (pos zero) = base
format_limit_type_with_lock_level base (pos (suc n)) = base ++ b':' ∷ itoa (suc n)

-- `nextLockoutLevel`; the sum is computed in 64 bits.
unfoldable pub next_lockout_level : ℤ → ℤ
unfolding int64 ◌+ℤ◌
next_lockout_level current =
    let next = int64 (current +ℤ pos 1) in
    let raised = if ltb_ℤ next (pos 1) then pos 1 else next in
    let top = pos (length lockout_schedule) in if ltb_ℤ top raised then top else raised

abbrev nth : List ℕ → ℕ → ℕ
nth [] i = 0
nth (d ∷ ds) zero = d
nth (d ∷ ds) (suc i) = nth ds i

-- `lockoutDurationForLevel`
unfoldable pub lockout_duration_for_level : ℤ → ℕ
lockout_duration_for_level (negsuc n) = nth lockout_schedule 0
lockout_duration_for_level (pos n) =
    if ltb_ℤ (pos 1) (pos n)
    then if ltb_ℤ (pos (length lockout_schedule)) (pos n)
      then nth lockout_schedule (length lockout_schedule - 1)
      else nth lockout_schedule (n - 1)
    else nth lockout_schedule 0

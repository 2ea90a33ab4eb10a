-- ===== src/RateLimit/LevelLaws.antt =====
-- Lockout levels and the `type` column that holds them.
use Prim.Native.Nat.{ℕ, zero, suc, ◌*◌, ◌≤◌, ◌<◌}
use mathlib.Core.Path.{◌≡◌, refl}
use mathlib.Core.Logic.{◌≢◌}
use mathlib.Core.Bool.{false}
use mathlib.Core.List.{[], ◌∷◌, ◌++◌}
use mathlib.Core.Option.{some}
use native.Mathlib.Omega.{arith}
use ch_ui.Prelude.Lists.{All}
use ch_ui.Prelude.Int.{ℤ, pos, negsuc, int_bound, ◌≤ℤ◌}
use ch_ui.Prelude.Clock.{minute}
use ch_ui.Prelude.Text.{Text, is_blank, atoi, itoa, atoi-itoa}
use ch_ui.Prelude.TextLaws.{
  IsTidy, trim-tidy, cut-Lacks, cut-append, itoa-IsTidy, itoa-ne-nil, join-IsTidy,
}
use ch_ui.RateLimit.Level.{
  parse_limit_type_and_lock_level, format_limit_type_with_lock_level, next_lockout_level,
  lockout_duration_for_level,
}

-- A limit type that the limiter can keep a level behind.
pub record IsPlain (base : Text) : Type 0 where
  pub tidy : IsTidy base
  pub filled : is_blank base ≡ false
  pub no_colon : All (λ c. c ≢ b':') base

is_blank-append : (s t : Text) → is_blank s ≡ false → is_blank (s ++ t) ≡ false
is_blank-append [] t h = cc
is_blank-append (c ∷ s) t h = refl

parse_bare :
    (base fallback : Text)
    → IsPlain base
    → parse_limit_type_and_lock_level base fallback ≡ (base, pos 0)
unfolding parse_limit_type_and_lock_level
parse_bare base fallback h =
    rw (trim-tidy base h.tidy, cut-Lacks b':' base h.no_colon, trim-tidy base h.tidy, h.filled)

parse_level :
    (base number fallback : Text) (n : ℕ)
    → IsPlain base
    → IsTidy number
    → is_blank number ≡ false
    → atoi number ≡ some (pos n)
    → parse_limit_type_and_lock_level (base ++ b':' ∷ number) fallback ≡ (base, pos n)
unfolding parse_limit_type_and_lock_level
parse_level base number fallback n h tidy filled read = rw (
  trim-tidy _ (join-IsTidy base number b':' h.filled filled h.tidy tidy),
  cut-append b':' base number h.no_colon,
  trim-tidy base h.tidy,
  trim-tidy number tidy,
  read,
  h.filled,
  is_blank-append base (b':' ∷ number) h.filled,
)

-- Writing a level behind a plain limit type and reading it back gives the type and the level, for
-- every level from 0 up to the largest 64-bit integer.
pub parse-format :
    (base fallback : Text) (n : ℕ)
    → IsPlain base
    → n < int_bound
    → parse_limit_type_and_lock_level (format_limit_type_with_lock_level base (pos n)) fallback
      ≡ (base, pos n)
unfolding format_limit_type_with_lock_level
parse-format base fallback zero h fits = parse_bare base fallback h
parse-format base fallback (suc n) h fits =
    parse_level base (itoa (suc n)) fallback (suc n) h (itoa-IsTidy (suc n)) (itoa-ne-nil (suc n))
      (atoi-itoa (suc n) fits)

pub next_lockout_level_bounds :
    (level : ℤ) → (pos 1 ≤ℤ next_lockout_level level) × (next_lockout_level level ≤ℤ pos 3)
unfolding next_lockout_level
next_lockout_level_bounds (pos n) = ground arith
next_lockout_level_bounds (negsuc n) = ground arith

pub lockout_duration_bounds :
    (level : ℤ)
    → (3 * minute ≤ lockout_duration_for_level level)
      × (lockout_duration_for_level level ≤ 10 * minute)
unfolding lockout_duration_for_level
lockout_duration_bounds (negsuc n) = omega arith
lockout_duration_bounds (pos zero) = omega arith
lockout_duration_bounds (pos (suc zero)) = omega arith
lockout_duration_bounds (pos (suc (suc zero))) = omega arith
lockout_duration_bounds (pos (suc (suc (suc zero)))) = omega arith
lockout_duration_bounds (pos (suc (suc (suc (suc n))))) = ground arith

-- The level after a number of lockouts in a row, from no level at all.
abbrev pub level_after : ℕ → ℤ
level_after zero = pos 0
level_after (suc k) = next_lockout_level (level_after k)

next_capped : next_lockout_level (pos 3) ≡ pos 3
unfolding next_lockout_level
next_capped = refl

level_after_capped : (k : ℕ) → level_after (suc (suc (suc k))) ≡ pos 3
unfolding next_lockout_level
level_after_capped zero = refl
level_after_capped (suc k) = rw (level_after_capped k) next_capped

-- Lockouts in a row last three, five and ten minutes, and ten minutes from then on.
pub escalation :
    (k : ℕ)
    → (lockout_duration_for_level (level_after 1) ≡ 3 * minute)
      × (lockout_duration_for_level (level_after 2) ≡ 5 * minute)
      × (lockout_duration_for_level (level_after (suc (suc (suc k)))) ≡ 10 * minute)
unfolding lockout_duration_for_level next_lockout_level
escalation k = (refl, refl, rw (level_after_capped k))

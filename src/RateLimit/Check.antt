-- ===== src/RateLimit/Check.antt =====
-- The operations of `RateLimiter` (internal/server/middleware/ratelimit.go). The readings of the
-- clock that one call makes are its `Clock`, in the order in which the code takes them.
use Prim.Native.Nat.{ℕ, ◌+◌}
use mathlib.Core.Bool.{Bool, true, false}
use mathlib.Core.Option.{Option, none, some}
use ch_ui.Prelude.Tests.{ltb, if◌then◌else◌}
use ch_ui.Prelude.Int.{ℤ, pos, ◌+ℤ◌, ◌-ℤ◌, ltb_ℤ, int64}
use ch_ui.Prelude.Text.{Text}
use ch_ui.Prelude.Clock.{Moment, Stamp, zero_time, at}
use ch_ui.RateLimit.Level.{
  parse_limit_type_and_lock_level, format_limit_type_with_lock_level, next_lockout_level,
  lockout_duration_for_level,
}
use ch_ui.RateLimit.Table.{
  RateLimitEntry, Db, Fetched, failed, fetched, get_rate_limit, upsert_rate_limit,
  delete_rate_limit,
}

-- `now` is read first, then the two calls of `time.Until`; `written` is the reading of an upsert.
pub record Clock : Type 0 where
  pub now : ℕ
  pub until : ℕ
  pub until_again : ℕ
  pub written : ℕ

pub record RateLimitResult : Type 0 where
  pub allowed : Bool
  pub retry_after : ℤ
  pub attempts : ℤ
  pub max_attempts : ℤ

abbrev pub allow : ℤ → RateLimitResult
allow max_attempts = record {
  allowed = true;
  retry_after = pos 0;
  attempts = pos 0;
  max_attempts = max_attempts;
}

abbrev pub deny : ℤ → ℤ → ℤ → RateLimitResult
deny retry_after attempts max_attempts = record {
  allowed = false;
  retry_after = retry_after;
  attempts = attempts;
  max_attempts = max_attempts;
}

-- `lockedUntil` as it stands after the compatibility branch, with the row that the branch writes.
abbrev active_level : ℤ → ℤ
active_level level = if ltb_ℤ (pos 0) level then level else pos 1

unfoldable pub hold_lock :
    Db → Text → Text → ℤ → RateLimitEntry → ℤ → ℕ → Clock → Db × RateLimitResult
hold_lock db identifier base level entry max_attempts locked_until clock =
    let active = active_level level in
    let max_duration = lockout_duration_for_level active in
    let normalized = clock.now + max_duration in
    if ltb (clock.until + max_duration) locked_until
    then (
      upsert_rate_limit db identifier (format_limit_type_with_lock_level base active) entry.attempts
          (at clock.now) (some (at normalized)) (at clock.written),
      deny (pos normalized -ℤ pos clock.until_again) entry.attempts max_attempts,
    )
    else (db, deny (pos locked_until -ℤ pos clock.until_again) entry.attempts max_attempts)

-- The branch of a row with `LockedUntil`: the lock holds while `now` is before it.
unfoldable pub check_lock :
    Db → Text → Text → ℤ → RateLimitEntry → ℤ → Stamp → Clock → Db × RateLimitResult
unfolding hold_lock
check_lock db identifier base level entry max_attempts (some (at locked_until)) clock =
    if ltb clock.now locked_until
    then hold_lock db identifier base level entry max_attempts locked_until clock
    else (
      upsert_rate_limit db identifier (format_limit_type_with_lock_level base level) (pos 0)
          (at clock.now) none (at clock.written),
      allow max_attempts,
    )
check_lock db identifier base level entry max_attempts other clock = (
  upsert_rate_limit db identifier (format_limit_type_with_lock_level base level) (pos 0)
      (at clock.now) none (at clock.written),
  allow max_attempts,
)

-- `err == nil && now.Sub(firstAttempt) > windowDuration`. From the zero time on the difference is the
-- largest duration, which exceeds every window.
unfoldable pub window_expired : Stamp → ℕ → ℕ → Bool
window_expired none window now = false
window_expired (some zero_time) window now = true
window_expired (some (at first)) window now = ltb (first + window) now

-- The instant that `time.Parse` returns, its zero value on an error.
unfoldable pub parsed : Stamp → Moment
parsed none = zero_time
parsed (some t) = t

-- The branch of a row with no `LockedUntil`.
unfoldable pub check_window :
    Db → Text → Text → Text → ℤ → RateLimitEntry → ℤ → ℕ → Clock → Db × RateLimitResult
unfolding window_expired parsed
check_window db identifier limit_type base level entry max_attempts window clock =
    let next = next_lockout_level level in
    let duration = lockout_duration_for_level next in
    if window_expired entry.first_attempt_at window clock.now
    then (
      upsert_rate_limit db identifier limit_type (pos 0) (at clock.now) none (at clock.written),
      allow max_attempts,
    )
    else if ltb_ℤ entry.attempts max_attempts
    then (db, allow max_attempts)
    else (
      upsert_rate_limit db identifier (format_limit_type_with_lock_level base next) entry.attempts
          (parsed entry.first_attempt_at) (some (at (clock.now + duration))) (at clock.written),
      deny (pos duration) entry.attempts max_attempts,
    )

unfoldable pub check_locked_until :
    Db
    → Text
    → Text
    → Text
    → ℤ
    → RateLimitEntry
    → ℤ
    → ℕ
    → Clock
    → Option Stamp
    → Db × RateLimitResult
unfolding check_lock check_window
check_locked_until db identifier limit_type base level entry max_attempts window clock none =
    check_window db identifier limit_type base level entry max_attempts window clock
check_locked_until db identifier limit_type base level entry max_attempts window clock (some s) =
    check_lock db identifier base level entry max_attempts s clock

unfoldable pub check_fetched : Db → Text → Text → ℤ → ℕ → Clock → Fetched → Db × RateLimitResult
unfolding check_locked_until
check_fetched db identifier limit_type max_attempts window clock failed = (db, allow max_attempts)
check_fetched db identifier limit_type max_attempts window clock (fetched none) =
    (db, allow max_attempts)
check_fetched db identifier limit_type max_attempts window clock (fetched (some entry)) =
    let (base, level) = parse_limit_type_and_lock_level entry.limit_type limit_type in
    check_locked_until db identifier limit_type base level entry max_attempts window clock
      entry.locked_until

-- `CheckAuthRateLimit`
unfoldable pub check_auth_rate_limit : Db → Text → Text → ℤ → ℕ → Clock → Db × RateLimitResult
unfolding check_fetched
check_auth_rate_limit db identifier limit_type max_attempts window clock =
    check_fetched db identifier limit_type max_attempts window clock (get_rate_limit db identifier)

-- `firstAttempt` of `RecordAttempt`: now, where the column does not parse.
unfoldable pub first_or_now : Stamp → ℕ → Moment
first_or_now none now = at now
first_or_now (some t) now = t

unfoldable pub record_fetched : Db → Text → Text → ℕ → ℕ → Fetched → Db
unfolding first_or_now
record_fetched db identifier limit_type now written failed =
    upsert_rate_limit db identifier limit_type (pos 1) (at now) none (at written)
record_fetched db identifier limit_type now written (fetched none) =
    upsert_rate_limit db identifier limit_type (pos 1) (at now) none (at written)
record_fetched db identifier limit_type now written (fetched (some entry)) =
    let (base, level) = parse_limit_type_and_lock_level entry.limit_type limit_type in
    upsert_rate_limit db identifier (format_limit_type_with_lock_level base level)
      (int64 (entry.attempts +ℤ pos 1)) (first_or_now entry.first_attempt_at now) none (at written)

-- `RecordAttempt`
unfoldable pub record_attempt : Db → Text → Text → ℕ → ℕ → Db
unfolding record_fetched
record_attempt db identifier limit_type now written =
    record_fetched db identifier limit_type now written (get_rate_limit db identifier)

-- `ResetLimit`
unfoldable pub reset_limit : Db → Text → Db
reset_limit db identifier = delete_rate_limit db identifier

-- ===== src/RateLimit/LockLaws.antt =====
-- Lockouts and waits of the login rate limiter (internal/server/middleware/ratelimit.go).
use Prim.Native.Nat.{ℕ, ◌+◌, ◌-◌, ◌*◌, ◌%◌, ◌≤◌, ◌<◌}
use mathlib.Core.Path.{◌≡◌, refl}
use mathlib.Core.Logic.{inl, inr}
use mathlib.Core.Bool.{false}
use mathlib.Core.Option.{Option, none, some}
use native.Mathlib.Omega.{arith}
use ch_ui.Prelude.Tests.{ltb, Bool-cases}
use ch_ui.Prelude.Int.{ℤ, pos, ltb_ℤ, ◌-ℤ◌, ◌≤ℤ◌}
use ch_ui.Prelude.Text.{Text}
use ch_ui.Prelude.Maps.{lookup-delete_self}
use ch_ui.Prelude.Clock.{Stamp, zero_time, at, second, minute, stamp}
use ch_ui.RateLimit.Level.{
  parse_limit_type_and_lock_level, format_limit_type_with_lock_level, next_lockout_level,
  lockout_duration_for_level,
}
use ch_ui.RateLimit.LevelLaws.{lockout_duration_bounds}
use ch_ui.RateLimit.Table.{
  RateLimitEntry, Db, Fetched, failed, fetched, get_rate_limit, upsert_rate_limit,
  delete_rate_limit,
}
use ch_ui.RateLimit.Check.{
  Clock, allow, deny, hold_lock, check_lock, check_window, check_locked_until, check_fetched,
  check_auth_rate_limit, reset_limit,
}
use ch_ui.RateLimit.CheckLaws.{Works, Stores, upsert-Stores}

-- A row with a lock is refused before the lock ends.
check_locked :
    (db : Db) (identifier limit_type fallback : Text) (attempts max : ℤ) (first : Stamp)
    (until window : ℕ) (clock : Clock)
    → Stores db identifier limit_type attempts first (some (some (at until)))
    → clock.now < until
    → (check_auth_rate_limit db identifier fallback max window clock).1.allowed ≡ false
unfolding check_auth_rate_limit
check_locked db identifier limit_type fallback attempts max first until window clock h early =
    ground arith

-- What a check writes when a row has reached the limit.
check_locks :
    (db : Db) (identifier limit_type fallback : Text) (attempts max : ℤ) (first window : ℕ)
    (clock : Clock)
    → Stores db identifier limit_type attempts (some (at first)) none
    → clock.now ≤ first + window
    → ltb_ℤ attempts max ≡ false
    → (locked_type : Text) × (level : ℤ) × (check_auth_rate_limit db identifier fallback max window
          clock
        ≡ (
          upsert_rate_limit db identifier locked_type attempts
              (at first)
              (some (at (clock.now + lockout_duration_for_level level)))
              (at clock.written),
          deny (pos (lockout_duration_for_level level)) attempts max,
        ))
unfolding check_auth_rate_limit
check_locks db identifier limit_type fallback attempts max first window clock h inside over =
    let (base, level) = parse_limit_type_and_lock_level h.row.limit_type fallback in
    (
      format_limit_type_with_lock_level base (next_lockout_level level),
      next_lockout_level level,
      ground arith,
    )

-- In a table whose statements succeed, let the row of an identifier have no lock, be inside its window
-- and have reached the limit. Then the check refuses and sets a lock, and the next check of the
-- identifier on the table that the first has left, with nothing else written in between, refuses too if
-- its clock reads at least one second less than three minutes after the first: the table stores whole
-- seconds, so that a lock may be over by up to a second early.
pub lockout_holds :
    (db : Db) (identifier limit_type fallback : Text) (attempts max : ℤ) (first window : ℕ)
    (clock later : Clock)
    → Works db
    → Stores db identifier limit_type attempts (some (at first)) none
    → clock.now ≤ first + window
    → ltb_ℤ attempts max ≡ false
    → later.now + second ≤ clock.now + 3 * minute
    → let (db', result) = check_auth_rate_limit db identifier fallback max window clock in
      (result.allowed ≡ false)
      × ((check_auth_rate_limit db' identifier fallback max window later).1.allowed ≡ false)
unfolding stamp
lockout_holds db identifier limit_type fallback attempts max first window clock later w h inside
      over soon =
    go (check_locks db identifier limit_type fallback attempts max first window clock h inside over)
  where
    go :
        (locked_type : Text) × (level : ℤ) × (check_auth_rate_limit db identifier fallback max
              window clock
            ≡ (
              upsert_rate_limit db identifier locked_type attempts
                  (at first)
                  (some (at (clock.now + lockout_duration_for_level level)))
                  (at clock.written),
              deny (pos (lockout_duration_for_level level)) attempts max,
            ))
        → let (db', result) = check_auth_rate_limit db identifier fallback max window clock in
          (result.allowed ≡ false)
          × ((check_auth_rate_limit db' identifier fallback max window later).1.allowed ≡ false)
    go (locked_type, level, e) =
        let until = clock.now + lockout_duration_for_level level in
        rw e (
          refl,
          check_locked _ identifier locked_type fallback attempts max (stamp (at first))
              (until - until % second) window later
              (upsert-Stores db identifier locked_type attempts (at first) (some (at until))
                (at clock.written) w)
              (omega (arith, lockout_duration_bounds level)),
        )

-- The readings of one call are taken in order.
pub record IsOrdered (clock : Clock) : Type 0 where
  pub first_step : clock.now ≤ clock.until
  pub second_step : clock.until ≤ clock.until_again

hold_lock_bounded :
    (db : Db) (identifier base : Text) (level : ℤ) (entry : RateLimitEntry) (max : ℤ) (until : ℕ)
    (clock : Clock)
    → IsOrdered clock
    → (hold_lock db identifier base level entry max until clock).1.retry_after ≤ℤ pos (10 * minute)
unfolding hold_lock ◌-ℤ◌
hold_lock_bounded db identifier base level entry max until clock o =
    ground (arith, lockout_duration_bounds level, lockout_duration_bounds (pos 1))

check_lock_bounded :
    (db : Db) (identifier base : Text) (level : ℤ) (entry : RateLimitEntry) (max : ℤ) (s : Stamp)
    (clock : Clock)
    → IsOrdered clock
    → (check_lock db identifier base level entry max s clock).1.retry_after ≤ℤ pos (10 * minute)
unfolding check_lock
check_lock_bounded db identifier base level entry max none clock o = omega arith
check_lock_bounded db identifier base level entry max (some zero_time) clock o = omega arith
check_lock_bounded db identifier base level entry max (some (at until)) clock o =
    elim (Bool-cases (ltb clock.now until)) [
      | inl early ↦ rw early (hold_lock_bounded db identifier base level entry max until clock o)
      | inr late ↦ rw late (omega arith)
    ]

check_window_bounded :
    (db : Db) (identifier limit_type base : Text) (level : ℤ) (entry : RateLimitEntry) (max : ℤ)
    (window : ℕ) (clock : Clock)
    → (check_window db identifier limit_type base level entry max window clock).1.retry_after
      ≤ℤ pos (10 * minute)
unfolding check_window
check_window_bounded db identifier limit_type base level entry max window clock =
    ground (arith, lockout_duration_bounds (next_lockout_level level))

-- No check asks for a wait of more than ten minutes, whatever the row holds: a longer lock of an
-- older version, a damaged column or any level. The readings of the clock are taken in order.
pub retry_after_bounded :
    (db : Db) (identifier limit_type : Text) (max : ℤ) (window : ℕ) (clock : Clock)
    → IsOrdered clock
    → (check_auth_rate_limit db identifier limit_type max window clock).1.retry_after
      ≤ℤ pos (10 * minute)
unfolding check_auth_rate_limit
retry_after_bounded db identifier limit_type max window clock o =
    by_row (get_rate_limit db identifier)
  where
    by_lock :
        (base : Text) (level : ℤ) (entry : RateLimitEntry) (lock : Option Stamp)
        → (check_locked_until db identifier limit_type base level entry max window clock
            lock).1.retry_after
          ≤ℤ pos (10 * minute)
    by_lock base level entry none =
        check_window_bounded db identifier limit_type base level entry max window clock
    by_lock base level entry (some s) =
        check_lock_bounded db identifier base level entry max s clock o

    by_row :
        (row : Fetched)
        → (check_fetched db identifier limit_type max window clock row).1.retry_after
          ≤ℤ pos (10 * minute)
    by_row failed = omega arith
    by_row (fetched none) = omega arith
    by_row (fetched (some entry)) =
        let (base, level) = parse_limit_type_and_lock_level entry.limit_type limit_type in
        by_lock base level entry entry.locked_until

-- A successful login forgets the identifier: after a reset the next check allows, and no row is left.
pub check-reset_limit :
    (db : Db) (identifier limit_type : Text) (max : ℤ) (window : ℕ) (clock : Clock)
    → Works db
    → check_auth_rate_limit (reset_limit db identifier) identifier limit_type max window clock
      ≡ (reset_limit db identifier, allow max)
unfolding check_auth_rate_limit reset_limit delete_rate_limit get_rate_limit
check-reset_limit db identifier limit_type max window clock w =
    rw (w.reads, w.writes, lookup-delete_self identifier db.rows)

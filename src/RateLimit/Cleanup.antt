-- ===== src/RateLimit/Cleanup.antt =====
-- The periodic cleanup of the table: CleanupExpiredRateLimits of internal/database/rate_limits.go and
-- cleanupRateLimits of internal/database/cleanup.go. Columns are compared as texts by the database; for
-- the texts that the program writes this is the order of the instants, and for any other text `strange`
-- says whether it is less.
use Prim.Native.Nat.{ℕ, suc, ◌-◌, ◌*◌}
use mathlib.Core.Path.{◌≡◌, refl, ap}
use mathlib.Core.Logic.{inl, inr}
use mathlib.Core.Bool.{Bool, true, false, ◌&&◌, ◌||◌}
use mathlib.Core.Option.{Option, none, some}
use mathlib.Core.List.{List, [], ◌∷◌}
use ch_ui.Prelude.Tests.{if◌then◌else◌, Bool-cases}
use ch_ui.Prelude.Text.{Text, same}
use ch_ui.Prelude.Maps.{lookup}
use ch_ui.Prelude.Clock.{at, Stamp, stamp, before}
use ch_ui.RateLimit.Table.{RateLimitEntry, Db}

abbrev pub stamp_less : Bool → Stamp → Stamp → Bool
stamp_less strange none u = strange
stamp_less strange (some t) none = strange
stamp_less strange (some t) (some u) = before t u

-- `locked_until IS NOT NULL AND locked_until < ?`
abbrev pub lock_over : Bool → Stamp → Option Stamp → Bool
lock_over strange now none = false
lock_over strange now (some t) = stamp_less strange t now

-- `locked_until IS NULL OR locked_until < ?`
abbrev pub unlocked : Bool → Stamp → Option Stamp → Bool
unlocked strange now none = true
unlocked strange now (some t) = stamp_less strange t now

unfoldable pub is_expired : Bool → Stamp → Stamp → RateLimitEntry → Bool
is_expired strange cutoff now row =
    (stamp_less strange row.first_attempt_at cutoff && unlocked strange now row.locked_until)
    || lock_over strange now row.locked_until

-- What the statement leaves, and how many rows it deletes.
unfoldable pub delete_expired :
    Bool → Stamp → Stamp → List (Text × RateLimitEntry) → List (Text × RateLimitEntry) × ℕ
unfolding is_expired
delete_expired strange cutoff now [] = ([], 0)
delete_expired strange cutoff now ((k, row) ∷ rows) =
    let (left, count) = delete_expired strange cutoff now rows in
    if is_expired strange cutoff now row then (left, suc count) else ((k, row) ∷ left, count)

abbrev millisecond : ℕ
millisecond = 1000000

-- The two readings of the clock are nanoseconds since 1970, at least the window.
unfoldable pub cleanup_expired_rate_limits : Bool → ℕ → ℕ → ℕ → Db → Option (Db × ℕ)
unfolding delete_expired stamp
cleanup_expired_rate_limits strange window_ms cutoff_clock now db =
    let cutoff = stamp (at (cutoff_clock - window_ms * millisecond)) in
    let (left, count) = delete_expired strange cutoff (stamp (at now)) db.rows in
    if db.writes_ok then some (record db { rows = left }, count) else none

abbrev cleaned_or : Db → Option (Db × ℕ) → Db
cleaned_or db none = db
cleaned_or db (some (db', count)) = db'

-- The window of 15 minutes.
unfoldable pub cleanup_rate_limits : Bool → ℕ → ℕ → Db → Db
unfolding cleanup_expired_rate_limits
cleanup_rate_limits strange cutoff_clock now db =
    cleaned_or db (cleanup_expired_rate_limits strange (15 * 60 * 1000) cutoff_clock now db)

is_expired-locked :
    (strange : Bool) (cutoff now : Stamp) (row : RateLimitEntry) (until : Stamp)
    → row.locked_until ≡ some until
    → stamp_less strange until now ≡ false
    → is_expired strange cutoff now row ≡ false
unfolding is_expired
is_expired-locked strange cutoff now row until locked active =
    by_lock (stamp_less strange row.first_attempt_at cutoff) row.locked_until locked
  where
    by_lock :
        (b : Bool) (o : Option Stamp)
        → o ≡ some until
        → ((b && unlocked strange now o) || lock_over strange now o) ≡ false
    by_lock true o e = rw e (rw active refl)
    by_lock false o e = rw e active

-- A row whose lock is not over stays, whatever its first attempt is.
pub delete_expired-locked :
    (strange : Bool) (cutoff now : Stamp) (k : Text) (row : RateLimitEntry) (until : Stamp)
    (rows : List (Text × RateLimitEntry))
    → lookup k rows ≡ some row
    → row.locked_until ≡ some until
    → stamp_less strange until now ≡ false
    → lookup k (delete_expired strange cutoff now rows).0 ≡ some row
unfolding delete_expired lookup
delete_expired-locked strange cutoff now k row until [] h locked active = h
delete_expired-locked strange cutoff now k row until ((j, r) ∷ rows) h locked active =
    elim (Bool-cases (same j k)) [
      | inl mine ↦
          let e : r ≡ row = some_eq r row (rw mine at h) in
          let kept : is_expired strange cutoff now r ≡ false =
            rw e (is_expired-locked strange cutoff now row until locked active) in
          rw (kept, mine) (ap (λ x. some x) e)
      | inr other ↦
          let rest =
            delete_expired-locked strange cutoff now k row until rows (rw other at h) locked
              active in
          elim (Bool-cases (is_expired strange cutoff now r)) [
            | inl gone ↦ rw gone rest
            | inr kept ↦ rw (kept, other) rest
          ]
    ]
  where
    some_eq : (x y : RateLimitEntry) → some x ≡ some y → x ≡ y
    some_eq x y f = cc

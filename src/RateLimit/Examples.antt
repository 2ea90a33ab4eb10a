-- ===== src/RateLimit/Examples.antt =====
-- The limiter on concrete rows.
use Prim.Native.Nat.{ℕ, ◌*◌}
use mathlib.Core.Path.{◌≡◌, refl}
use mathlib.Core.Bool.{true, false}
use mathlib.Core.Option.{none, some}
use mathlib.Core.List.{[], ◌∷◌}
use native.Mathlib.Omega.{arith}
use ch_ui.Prelude.Int.{pos, ◌≤ℤ◌}
use ch_ui.Prelude.Tests.{ltb}
use ch_ui.Prelude.Text.{Text, codes, trim, cut, atoi, same, is_space}
use ch_ui.Prelude.TextLaws.{starts_solid}
use ch_ui.Prelude.Maps.{lookup}
use ch_ui.Prelude.Clock.{at, second, minute}
use ch_ui.RateLimit.Level.{parse_limit_type_and_lock_level, format_limit_type_with_lock_level}
use ch_ui.RateLimit.LevelLaws.{IsPlain, parse-format}
use ch_ui.RateLimit.Table.{RateLimitEntry, Db, get_rate_limit}
use ch_ui.RateLimit.Cleanup.{cleanup_rate_limits}
use ch_ui.RateLimit.Check.{Clock, check_auth_rate_limit}
use ch_ui.RateLimit.CheckLaws.{Works, Stores, record_all, check-record_all}
use ch_ui.RateLimit.LockLaws.{lockout_holds, retry_after_bounded}

abbrev ip : Text
ip = codes "ip"

ip-IsPlain : IsPlain ip
unfolding starts_solid is_space
ip-IsPlain = record { tidy = (refl, refl); filled = refl; no_colon = omega arith }

parse-format_example :
    parse_limit_type_and_lock_level (format_limit_type_with_lock_level ip (pos 2)) ip ≡ (ip, pos 2)
parse-format_example = parse-format ip ip 2 ip-IsPlain (omega arith)

-- A damaged level is read as none.
damaged : parse_limit_type_and_lock_level (codes " ip : -4") ip ≡ (ip, pos 0)
unfolding parse_limit_type_and_lock_level trim cut atoi
damaged = refl

abbrev host : Text
host = codes "ip:10.0.0.7"

abbrev empty_db : Db
empty_db = record { rows = []; reads_ok = true; writes_ok = true }

empty_db-Works : Works empty_db
empty_db-Works = record { reads = refl; writes = refl }

abbrev at_second : ℕ → Clock
at_second t = record {
  now = t * second;
  until = t * second;
  until_again = t * second;
  written = t * second;
}

check-record_all_example :
    (check_auth_rate_limit
      (record_all empty_db host ip (7 ∷ 8 ∷ 9 ∷ []))
      host
      ip
      (pos 3)
      (15 * minute)
      (at_second 10)).1.allowed
    ≡ ltb 3 3
unfolding get_rate_limit lookup
check-record_all_example =
    check-record_all empty_db host ip 7 (8 ∷ 9 ∷ []) 3 (15 * minute) (at_second 10) empty_db-Works
      ip-IsPlain (omega arith) refl (omega arith)

abbrev full_row : RateLimitEntry
full_row = record {
  limit_type = codes "ip:1";
  attempts = pos 5;
  first_attempt_at = some (at 0);
  locked_until = none;
  created_at = some (at 0);
  updated_at = some (at 0);
}

abbrev full_db : Db
full_db = record { rows = (host, full_row) ∷ []; reads_ok = true; writes_ok = true }

full_db-Stores : Stores full_db host (codes "ip:1") (pos 5) (some (at 0)) none
unfolding get_rate_limit lookup same
full_db-Stores = record {
  row = full_row;
  found = refl;
  type_is = refl;
  attempts_are = refl;
  first_is = refl;
  lock_is = refl;
}

lockout_holds_example :
    let (db', result) =
      check_auth_rate_limit full_db host ip (pos 5) (15 * minute) (at_second 60) in
    (result.allowed ≡ false)
    × ((check_auth_rate_limit db' host ip (pos 5) (15 * minute) (at_second 200)).1.allowed ≡ false)
lockout_holds_example =
    lockout_holds full_db host (codes "ip:1") ip (pos 5) (pos 5) 0 (15 * minute) (at_second 60)
      (at_second 200) (record { reads = refl; writes = refl }) full_db-Stores (omega arith) refl
      (omega arith)

retry_after_bounded_example :
    (check_auth_rate_limit full_db host ip (pos 5) (15 * minute) (at_second 60)).1.retry_after
    ≤ℤ pos (10 * minute)
retry_after_bounded_example =
    retry_after_bounded full_db host ip (pos 5) (15 * minute) (at_second 60) (omega arith)

-- The cleanup takes a row whose lock is over, and with it the level of its next lock.
forgotten :
    (cleanup_rate_limits false (3000 * second) (3000 * second) (record full_db {
      rows =
          (
            host,
            record {
              limit_type = codes "ip:2";
              attempts = pos 5;
              first_attempt_at = some (at (2900 * second));
              locked_until = some (some (at (2990 * second)));
              created_at = none;
              updated_at = none;
            },
          )
          ∷ [];
    })).rows
    ≡ []
unfolding cleanup_rate_limits
forgotten = refl

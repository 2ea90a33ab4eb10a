-- ===== src/RateLimit/Table.antt =====
-- The `rate_limits` table of internal/database/rate_limits.go: one row for each identifier. Whether a
-- statement fails is the environment's choice, `reads_ok` and `writes_ok`.
use mathlib.Core.Bool.{Bool}
use mathlib.Core.Option.{Option, none, some}
use mathlib.Core.List.{List}
use ch_ui.Prelude.Tests.{if◌then◌else◌}
use ch_ui.Prelude.Int.{ℤ}
use ch_ui.Prelude.Text.{Text}
use ch_ui.Prelude.Maps.{lookup, insert, delete}
use ch_ui.Prelude.Clock.{Moment, Stamp, stamp}

pub record RateLimitEntry : Type 0 where
  pub limit_type : Text
  pub attempts : ℤ
  pub first_attempt_at : Stamp
  pub locked_until : Option Stamp
  pub created_at : Stamp
  pub updated_at : Stamp

pub record Db : Type 0 where
  pub rows : List (Text × RateLimitEntry)
  pub reads_ok : Bool
  pub writes_ok : Bool

-- What `GetRateLimit` returns: an error, or the row if there is one.
pub data Fetched : Type 0 where
  failed : Fetched
  fetched : Option RateLimitEntry → Fetched

unfoldable pub get_rate_limit : Db → Text → Fetched
get_rate_limit db identifier = if db.reads_ok then fetched (lookup identifier db.rows) else failed

-- The row after the upsert: a row that is there keeps its `created_at`.
unfoldable pub created : Option RateLimitEntry → Stamp → Stamp
created none now = now
created (some old) now = old.created_at

abbrev pub stamp_option : Option Moment → Option Stamp
stamp_option none = none
stamp_option (some t) = some (stamp t)

-- `UpsertRateLimit`; the last argument is its own reading of the clock.
unfoldable pub upsert_rate_limit : Db → Text → Text → ℤ → Moment → Option Moment → Moment → Db
unfolding created
upsert_rate_limit db identifier limit_type attempts first_attempt locked_until now =
    let row : RateLimitEntry = record {
      limit_type = limit_type;
      attempts = attempts;
      first_attempt_at = stamp first_attempt;
      locked_until = stamp_option locked_until;
      created_at = created (lookup identifier db.rows) (stamp now);
      updated_at = stamp now;
    } in
    if db.writes_ok then record db { rows = insert identifier row db.rows } else db

-- `DeleteRateLimit`
unfoldable pub delete_rate_limit : Db → Text → Db
delete_rate_limit db identifier =
    if db.writes_ok then record db { rows = delete identifier db.rows } else db

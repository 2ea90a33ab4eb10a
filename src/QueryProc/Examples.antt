-- ===== src/QueryProc/Examples.antt =====
-- Tests and witnesses for the variables of queries.
use Prim.Native.Nat.{◌-◌, ◌*◌}
use mathlib.Core.Path.{◌≡◌, refl}
use mathlib.Core.Bool.{false}
use mathlib.Core.Option.{none, some}
use mathlib.Core.List.{[]}
use ch_ui.Prelude.Int.{ℤ, pos, ◌+ℤ◌, int64}
use ch_ui.Prelude.Lists.{take}
use ch_ui.Prelude.Text.{codes, same, lower, trim, itoa, magnitude, has_prefix}
use ch_ui.Prelude.Maps.{insert}
use ch_ui.Prelude.Clock.{minute, second}
use ch_ui.QueryProc.Times.{Parse, TimeRange, parse_relative_time, get_time_bounds}
use ch_ui.QueryProc.Variables.{ProcessorOptions, has_time_variables, replace_word, filter_step}

abbrev never : Parse
never layout s = none

abbrev noon : ℤ
noon = pos (1000000 * second)

-- A month in upper case is a minute.
relative_1M : parse_relative_time (codes "1M") noon ≡ pos (1000000 * second - minute)
unfolding parse_relative_time same trim lower magnitude int64 ◌+ℤ◌ has_prefix
relative_1M = refl

-- The column of the first filter stands in the second as well.
two_filters :
    (filter_step
      (pos 0)
      (pos 0)
      (codes "s")
      (record { query = codes "$__timeFilter(a) $__timeFilter(b)"; vars = []; errors = [] })).query
    ≡ codes "a >= 0 AND a <= 0 a >= 0 AND a <= 0"
unfolding filter_step same trim lower itoa int64 insert take
two_filters = refl

-- A dollar in the name of a table starts a reference.
dollar_table :
    replace_word (codes "$__table") (codes "a$b") 0 (codes "FROM $__table") ≡ codes "FROM a"
unfolding replace_word same take
dollar_table = refl

abbrev options : ProcessorOptions
options = record {
  query = codes "SELECT 1";
  time_range = some (record { kind = codes "relative"; from = codes "7d"; to = [] });
  time_field = [];
  time_field_unit = [];
  max_data_points = pos 0;
  table = codes "t";
}

no_variables : has_time_variables options.query ≡ false
unfolding has_time_variables
no_variables = refl

abbrev last_hour : TimeRange
last_hour = record { kind = codes "relative"; from = []; to = [] }

last_hour_read : get_time_bounds never noon last_hour ≡ some (pos (996400 * second), noon)
unfolding get_time_bounds same trim lower magnitude int64 ◌+ℤ◌ has_prefix
last_hour_read = refl

-- ===== src/QueryProc/Variables.antt =====
-- `HasTimeVariables` and `ProcessQueryVariables` of internal/queryproc/variables.go.
use Prim.Native.Nat.{ℕ, zero, suc, ◌+◌, ◌-◌, ◌/◌}
use mathlib.Core.Bool.{Bool, false, ◌||◌}
use mathlib.Core.Option.{Option, none, some}
use mathlib.Core.List.{List, [], ◌∷◌, ◌++◌}
use ch_ui.Prelude.Tests.{ltb, if◌then◌else◌}
use ch_ui.Prelude.Int.{ℤ, pos, negsuc, pos_part, int_bound, ◌-ℤ◌}
use ch_ui.Prelude.Lists.{length, take}
use ch_ui.Prelude.Text.{Text, codes, is_blank, trim}
use ch_ui.Prelude.Maps.{insert}
use ch_ui.QueryProc.Patterns.{is_some, word_at, call_at, has_word, has_call, find_call, expand}
use ch_ui.QueryProc.Times.{
  show, Parse, TimeRange, get_time_bounds, convert_to_epoch, generate_time_filter,
}

-- The words of the patterns, in lower case.
abbrev pub time_filter : Text
time_filter = codes "$__timefilter"

abbrev pub timestamp : Text
timestamp = codes "$__timestamp"

abbrev pub time_field : Text
time_field = codes "$__timefield"

abbrev pub time_from : Text
time_from = codes "$__timefrom"

abbrev pub time_to : Text
time_to = codes "$__timeto"

abbrev pub interval : Text
interval = codes "$__interval"

abbrev pub table : Text
table = codes "$__table"

unfoldable pub has_time_variables : Text → Bool
unfolding has_call has_word
has_time_variables query =
    has_call time_filter query
    || (has_word time_filter query
        || (has_call timestamp query
            || (has_word time_field query
                || (has_word time_from query
                    || (has_word time_to query
                        || (has_word interval query || has_word table query))))))

-- `ReplaceAllString` for a word; the counter skips the bytes of a match.
unfoldable pub replace_word : Text → Text → ℕ → Text → Text
unfolding word_at expand take
replace_word w by n [] = []
replace_word w by (suc n) (c ∷ s) = replace_word w by n s
replace_word w by zero (c ∷ s) =
    let plain = c ∷ replace_word w by 0 s in
    let put = expand (take (length w) (c ∷ s)) [] 0 by ++ replace_word w by (length w - 1) s in
    if is_some (word_at w (c ∷ s)) then put else plain

-- `ReplaceAllString` or `ReplaceAllStringFunc` for a call, by what is made of the match and its group.
unfoldable pub replace_call : Text → (Text → Text → Text) → ℕ → Text → Text
unfolding call_at take
replace_call w by n [] = []
replace_call w by (suc n) (c ∷ s) = replace_call w by n s
replace_call w by zero (c ∷ s) =
    let plain = c ∷ replace_call w by 0 s in
    let put = λ (column : Text) (rest : Text).
      by (take (length w + length column + 2) (c ∷ s)) column ++ rest in
    elim (call_at w (c ∷ s)) [
      | none ↦ plain
      | some column ↦ put column (replace_call w by (length w + length column + 1) s)
    ]

pub data Value : Type 0 where
  text_value : Text → Value
  number_value : ℤ → Value

-- `processedQuery`, `interpolatedVars` and `errors`.
pub record Progress : Type 0 where
  pub query : Text
  pub vars : List (Text × Value)
  pub errors : List Text

pub record ProcessorOptions : Type 0 where
  pub query : Text
  pub time_range : Option TimeRange
  pub time_field : Text
  pub time_field_unit : Text
  pub max_data_points : ℤ
  pub table : Text

abbrev with_var : Text → Value → Progress → Progress
with_var name v p = record p { vars = insert name v p.vars }

abbrev with_error : Text → Progress → Progress
with_error e p = record p { errors = p.errors ++ e ∷ [] }

abbrev put_word : Text → Text → Progress → Progress
unfolding replace_word
put_word w by p = record p { query = replace_word w by 0 p.query }

-- A word is replaced and noted where it occurs.
unfoldable pub word_step : Text → Text → Text → Value → Progress → Progress
unfolding put_word has_word
word_step w name by v p = if has_word w p.query then with_var name v (put_word w by p) else p

unfoldable pub table_step : Text → Progress → Progress
unfolding word_step has_word
table_step name p =
    if is_blank name
    then (if has_word table p.query
        then with_error (codes "$__table variable used but no table specified") p
        else p)
    else word_step table (codes "table") name (text_value name) p

abbrev pub or_timestamp : Text → Text
or_timestamp field = if is_blank field then codes "timestamp" else field

-- The filter of the first call replaces all of them.
unfoldable pub filter_found : ℤ → ℤ → Text → Option Text → Progress → Progress
unfolding replace_call generate_time_filter expand
filter_found from to unit none p = p
filter_found from to unit (some group) p =
    let filter = generate_time_filter from to (trim group) unit in
    with_var (codes "timeFilterColumn") (text_value (trim group)) (
      with_var (codes "timeFilter") (text_value filter) (record p {
        query = replace_call time_filter (λ whole column. expand whole column 0 filter) 0 p.query;
      }))

unfoldable pub filter_step : ℤ → ℤ → Text → Progress → Progress
unfolding filter_found find_call
filter_step from to unit p = filter_found from to unit (find_call time_filter p.query) p

abbrev pub timestamp_filter : ℤ → ℤ → Text → Text
timestamp_filter from_sec to_sec column =
    codes "("
    ++ column
    ++ codes " >= toDateTime("
    ++ show from_sec
    ++ codes ") AND "
    ++ column
    ++ codes " <= toDateTime("
    ++ show to_sec
    ++ codes "))"

unfoldable pub timestamp_step : ℤ → ℤ → Progress → Progress
unfolding replace_call has_call convert_to_epoch
timestamp_step from to p =
    let from_sec = convert_to_epoch from (codes "s") in
    let to_sec = convert_to_epoch to (codes "s") in
    if has_call timestamp p.query
    then with_var (codes "timestampTo") (number_value to_sec) (
        with_var (codes "timestampFrom") (number_value from_sec) (record p {
          query =
              replace_call timestamp
                (λ whole column. timestamp_filter from_sec to_sec (trim column)) 0 p.query;
        }))
    else p

-- The quotient of floating-point numbers is taken as exact.
unfoldable pub calculate_interval : ℤ → ℤ → ℕ → ℕ
unfolding ◌-ℤ◌
calculate_interval from to max_data_points =
    let nanoseconds = pos_part (to -ℤ from) in
    let duration = if ltb nanoseconds int_bound then nanoseconds else int_bound - 1 in
    let interval_ms = duration / 1000000 / max_data_points in
    if ltb interval_ms 1000 then 1 else interval_ms / 1000

abbrev pub points_or_default : ℤ → ℕ
points_or_default (pos zero) = 1000
points_or_default (pos (suc n)) = suc n
points_or_default (negsuc n) = 1000

abbrev pub or_ms : Text → Text
or_ms unit = if is_blank unit then codes "ms" else unit

-- The steps that need the bounds.
unfoldable pub range_steps : ProcessorOptions → Option (ℤ × ℤ) → Progress → Progress
unfolding word_step filter_step timestamp_step generate_time_filter convert_to_epoch
    calculate_interval
range_steps opts none p = with_error (codes "Invalid time range provided") p
range_steps opts (some (from, to)) p =
    let unit = or_ms opts.time_field_unit in
    let filter = generate_time_filter from to (or_timestamp opts.time_field) unit in
    let from_value = convert_to_epoch from unit in
    let to_value = convert_to_epoch to unit in
    let seconds = pos (calculate_interval from to (points_or_default opts.max_data_points)) in
    timestamp_step from to (
      word_step interval (codes "interval") (show seconds) (number_value seconds) (
        word_step time_to (codes "timeTo") (show to_value) (number_value to_value) (
          word_step time_from (codes "timeFrom") (show from_value) (number_value from_value) (
            word_step time_filter (codes "timeFilter") filter (text_value filter)
              (filter_step from to unit p)))))

unfoldable pub has_range_variables : Text → Bool
unfolding has_call has_word
has_range_variables query =
    has_call time_filter query
    || (has_word time_filter query
        || (has_word time_from query
            || (has_word time_to query || (has_word interval query || has_call timestamp query))))

unfoldable pub time_steps : Parse → ℤ → ProcessorOptions → Option TimeRange → Progress → Progress
unfolding range_steps has_range_variables get_time_bounds
time_steps parse now opts none p =
    if has_range_variables p.query
    then with_error (codes "Time-range variables found but no time range was provided") p
    else p
time_steps parse now opts (some tr) p = range_steps opts (get_time_bounds parse now tr) p

unfoldable pub process_query : Parse → ℤ → ProcessorOptions → Progress
unfolding time_steps word_step table_step
process_query parse now opts = time_steps parse now opts opts.time_range (
    word_step time_field (codes "timeField") (or_timestamp opts.time_field)
      (text_value (or_timestamp opts.time_field))
      (table_step opts.table (record { query = opts.query; vars = []; errors = [] })))

-- `ProcessQueryVariables`, with the field `HasTimeVariables`.
unfoldable pub process_query_variables : Parse → ℤ → ProcessorOptions → Progress × Bool
unfolding process_query has_time_variables
process_query_variables parse now opts =
    if is_blank opts.query
    then (record { query = []; vars = []; errors = codes "Invalid query provided" ∷ [] }, false)
    else (process_query parse now opts, has_time_variables opts.query)

-- ===== src/QueryProc/VariableLaws.antt =====
-- What the interpolation of variables (internal/queryproc/variables.go) leaves as it is.
use mathlib.Core.Path.{◌≡◌, refl, sym, ap}
use mathlib.Core.Logic.{inl, inr}
use mathlib.Core.Bool.{Bool, true, false, ◌||◌}
use mathlib.Core.Option.{Option, none, some}
use mathlib.Core.List.{[], ◌∷◌}
use native.Mathlib.Omega.{arith}
use ch_ui.Prelude.Tests.{Bool-cases}
use ch_ui.Prelude.Int.{ℤ, pos}
use ch_ui.Prelude.Text.{Text, codes, is_blank}
use ch_ui.QueryProc.Patterns.{is_some, call_at, has_word, has_call, find_call}
use ch_ui.QueryProc.Times.{
  Parse, TimeRange, get_time_bounds, convert_to_epoch, generate_time_filter, show,
}
use ch_ui.QueryProc.Variables.{
  time_filter, timestamp, time_field, time_from, time_to, interval, table, has_time_variables,
  Value, text_value, number_value, Progress, or_timestamp, or_ms, points_or_default,
  calculate_interval, ProcessorOptions, word_step, table_step, filter_found, filter_step,
  timestamp_step, range_steps, has_range_variables, time_steps, process_query,
  process_query_variables,
}

or_false : (a b : Bool) → (a || b) ≡ false → (a ≡ false) × (b ≡ false)
or_false a b h = ground arith

is_some-false : (o : Option Text) → is_some o ≡ false → o ≡ none
is_some-false none h = refl
is_some-false (some a) h = cc

find_call-none : (w s : Text) → has_call w s ≡ false → find_call w s ≡ none
unfolding find_call has_call
find_call-none w [] h = refl
find_call-none w (c ∷ s) h =
    let (first, rest) = or_false (is_some (call_at w (c ∷ s))) (has_call w s) h in
    rw (is_some-false (call_at w (c ∷ s)) first) (find_call-none w s rest)

-- No variable of a query occurs in it.
record Untouched (q : Text) : Type 0 where
  filter_call : has_call time_filter q ≡ false
  filter : has_word time_filter q ≡ false
  stamps : has_call timestamp q ≡ false
  field : has_word time_field q ≡ false
  pub from : has_word time_from q ≡ false
  pub to : has_word time_to q ≡ false
  bucket : has_word interval q ≡ false
  source : has_word table q ≡ false

untouched : (q : Text) → has_time_variables q ≡ false → Untouched q
unfolding has_time_variables
untouched q h = record {
  filter_call = ground arith;
  filter = ground arith;
  stamps = ground arith;
  field = ground arith;
  from = ground arith;
  to = ground arith;
  bucket = ground arith;
  source = ground arith;
}

word_step-absent :
    (w name by : Text) (v : Value) (p : Progress)
    → has_word w p.query ≡ false
    → word_step w name by v p ≡ p
unfolding word_step
word_step-absent w name by v p h = rw h refl

table_step-absent :
    (name : Text) (p : Progress) → has_word table p.query ≡ false → table_step name p ≡ p
unfolding table_step
table_step-absent name p h = elim (Bool-cases (is_blank name)) [
  | inl e ↦ rw (e, h) refl
  | inr e ↦ rw e (word_step-absent table (codes "table") name _ p h)
]

filter_step-absent :
    (from to : ℤ) (unit : Text) (p : Progress)
    → has_call time_filter p.query ≡ false
    → filter_step from to unit p ≡ p
unfolding filter_step filter_found
filter_step-absent from to unit p h =
    ap (λ o. filter_found from to unit o p) (find_call-none time_filter p.query h)

timestamp_step-absent :
    (from to : ℤ) (p : Progress) → has_call timestamp p.query ≡ false → timestamp_step from to p ≡ p
unfolding timestamp_step
timestamp_step-absent from to p h = rw h refl

-- The query is as it was, and no variable is noted.
record Kept (q : Text) (p : Progress) : Type 0 where
  pub query : p.query ≡ q
  vars : p.vars ≡ []

Kept-path : (q : Text) (p r : Progress) → p ≡ r → Kept q r → Kept q p
Kept-path q p r e k = rw e k

module _ (q : Text) (u : Untouched q) where
  word_step-Kept :
      (w name by : Text) (v : Value) (p : Progress)
      → has_word w q ≡ false
      → Kept q p
      → Kept q (word_step w name by v p)
  word_step-Kept w name by v p h k =
      Kept-path q (word_step w name by v p) p (word_step-absent w name by v p (rw (k.query) h)) k

  filter_step-Kept :
      (from to : ℤ) (unit : Text) (p : Progress) → Kept q p → Kept q (filter_step from to unit p)
  filter_step-Kept from to unit p k =
      Kept-path q (filter_step from to unit p) p
        (filter_step-absent from to unit p (rw (k.query) u.filter_call)) k

  timestamp_step-Kept : (from to : ℤ) (p : Progress) → Kept q p → Kept q (timestamp_step from to p)
  timestamp_step-Kept from to p k =
      Kept-path q (timestamp_step from to p) p
        (timestamp_step-absent from to p (rw (k.query) u.stamps)) k

  table_step-Kept : (name : Text) (p : Progress) → Kept q p → Kept q (table_step name p)
  table_step-Kept name p k =
      Kept-path q (table_step name p) p (table_step-absent name p (rw (k.query) u.source)) k

  range_steps-Kept :
      (opts : ProcessorOptions) (o : Option (ℤ × ℤ)) (p : Progress)
      → Kept q p
      → Kept q (range_steps opts o p)
  unfolding range_steps
  range_steps-Kept opts none p k = record { query = k.query; vars = k.vars }
  range_steps-Kept opts (some (from, to)) p k =
      let unit = or_ms opts.time_field_unit in
      let filter = generate_time_filter from to (or_timestamp opts.time_field) unit in
      let from_value = convert_to_epoch from unit in
      let to_value = convert_to_epoch to unit in
      let seconds = pos (calculate_interval from to (points_or_default opts.max_data_points)) in
      let p1 = filter_step from to unit p in
      let p2 = word_step time_filter (codes "timeFilter") filter (text_value filter) p1 in
      let p3 =
        word_step time_from (codes "timeFrom") (show from_value) (number_value from_value) p2 in
      let p4 = word_step time_to (codes "timeTo") (show to_value) (number_value to_value) p3 in
      let p5 = word_step interval (codes "interval") (show seconds) (number_value seconds) p4 in
      let k1 = filter_step-Kept from to unit p k in
      let k2 =
        word_step-Kept time_filter (codes "timeFilter") filter (text_value filter) p1 u.filter k1 in
      let k3 =
        word_step-Kept time_from (codes "timeFrom") (show from_value) (number_value from_value) p2
          u.from k2 in
      let k4 =
        word_step-Kept time_to (codes "timeTo") (show to_value) (number_value to_value) p3 u.to
          k3 in
      timestamp_step-Kept from to p5 (
        word_step-Kept interval (codes "interval") (show seconds) (number_value seconds) p4 u.bucket
          k4)

  time_steps-Kept :
      (parse : Parse) (now : ℤ) (opts : ProcessorOptions) (o : Option TimeRange) (p : Progress)
      → Kept q p
      → Kept q (time_steps parse now opts o p)
  unfolding time_steps
  time_steps-Kept parse now opts none p k = elim (Bool-cases (has_range_variables p.query)) [
    | inl e ↦ rw e (record { query = k.query; vars = k.vars })
    | inr e ↦ rw e k
  ]
  time_steps-Kept parse now opts (some tr) p k =
      range_steps-Kept opts (get_time_bounds parse now tr) p k

  process_query-Kept :
      (parse : Parse) (now : ℤ) (opts : ProcessorOptions)
      → opts.query ≡ q
      → Kept q (process_query parse now opts)
  unfolding process_query
  process_query-Kept parse now opts e =
      let start : Progress = record { query = opts.query; vars = []; errors = [] } in
      let field = or_timestamp opts.time_field in
      let p1 = table_step opts.table start in
      let k1 = table_step-Kept opts.table start (record { query = e; vars = refl }) in
      time_steps-Kept parse now opts opts.time_range
        (word_step time_field (codes "timeField") field (text_value field) p1)
        (word_step-Kept time_field (codes "timeField") field (text_value field) p1 u.field k1)

blank_eq : (s : Text) → is_blank s ≡ true → s ≡ []
blank_eq [] h = refl
blank_eq (c ∷ s) h = cc

-- A query in which HasTimeVariables finds no variable is returned as it is, with no variable noted,
-- whatever the options are.
pub process_query_variables-untouched :
    (parse : Parse) (now : ℤ) (opts : ProcessorOptions)
    → has_time_variables opts.query ≡ false
    → let processed = (process_query_variables parse now opts).0 in
      (processed.query ≡ opts.query) × (processed.vars ≡ [])
unfolding process_query_variables
process_query_variables-untouched parse now opts h = elim (Bool-cases (is_blank opts.query)) [
  | inl e ↦ rw e (sym (blank_eq opts.query e), refl)
  | inr e ↦
      (let k = process_query-Kept opts.query (untouched opts.query h) parse now opts refl in
        rw e (k.query, k.vars))
]

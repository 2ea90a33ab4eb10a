-- ===== src/Scheduler/Cron.antt =====
-- Cron expressions: internal/scheduler/cron.go. An instant is its minutes since 1970 in UTC. A result
-- under `Option` is none where the source's loop does not end.
use Prim.Native.Nat.{ℕ, zero, suc, ◌+◌, ◌-◌, ◌*◌, ◌/◌, ◌%◌}
use mathlib.Core.Bool.{Bool, true, false, ◌&&◌, ◌||◌}
use mathlib.Core.Option.{Option, none, some}
use mathlib.Core.List.{List, [], ◌∷◌, ◌++◌}
use ch_ui.Prelude.Tests.{ltb, ◌==◌, if◌then◌else◌}
use ch_ui.Prelude.Int.{ℤ, pos, int_bound}
use ch_ui.Prelude.Text.{Text, codes, same, is_blank, is_space, trim, cut, split, atoi}
use ch_ui.Prelude.Options.{◌>>=◌}
use ch_ui.Prelude.Clock.{minute}

-- The values from `v` on, `count` of them, that are whole steps from `start`.
unfoldable pub steps_from : ℕ → ℕ → ℕ → ℕ → List ℕ
steps_from zero v start step = []
steps_from (suc count) v start step =
    let rest = steps_from count (v + 1) start step in
    if ((v - start) % step) == 0 then v ∷ rest else rest

-- `for v := first; v <= last; v++`
unfoldable pub range_values : ℕ → ℕ → ℕ → List ℕ
unfolding steps_from
range_values first last step = steps_from (last + 1 - first) first first step

-- The two bounds of a range, read by `Atoi`. A bound in front of the first hyphen is never negative;
-- a range that ends at the largest `int` never ends, because `v++` wraps around.
unfoldable pub bounded : ℕ → Option ℤ → Option ℤ → Option (List ℕ)
unfolding range_values
bounded step (some (pos first)) (some (pos last)) =
    if last + 1 == int_bound then none else some (range_values first last step)
bounded step first last = some []

-- `strings.SplitN(rangePart, "-", 2)`
unfoldable pub hyphen_range : ℕ → Text × Option Text → Option (List ℕ)
unfolding bounded atoi
hyphen_range step (first, none) = some []
hyphen_range step (first, some last) = bounded step (atoi first) (atoi last)

unfoldable pub single : Option ℤ → List ℕ
single (some (pos n)) = n ∷ []
single other = []

abbrev is_some {ℓ} : {A : Type ℓ} → Option A → Bool
is_some none = false
is_some (some a) = true

abbrev behind : Text × Option Text → Option Text
behind (before, after) = after

-- The switch of `parseField`.
unfoldable pub parse_range : Text → ℕ → ℕ → ℕ → Option (List ℕ)
unfolding range_values hyphen_range single cut
parse_range range_part min max step =
    if same range_part (codes "*")
    then some (range_values min max step)
    else if is_some (behind (cut b'-' range_part))
    then hyphen_range step (cut b'-' range_part)
    else some (single (atoi range_part))

-- The step is read by `Atoi`; a part whose step is not positive is passed over.
unfoldable pub stepped : Text → Option ℤ → ℕ → ℕ → Option (List ℕ)
unfolding parse_range
stepped range_part (some (pos (suc step))) min max = parse_range range_part min max (suc step)
stepped range_part other min max = some []

unfoldable pub parse_part : Text × Option Text → ℕ → ℕ → Option (List ℕ)
unfolding stepped parse_range
parse_part (part, none) min max = parse_range part min max 1
parse_part (range_part, some step) min max = stepped range_part (atoi step) min max

unfoldable pub both : Option (List ℕ) → Option (List ℕ) → Option (List ℕ)
both (some a) (some b) = some (a ++ b)
both a b = none

unfoldable pub parse_parts : List Text → ℕ → ℕ → Option (List ℕ)
unfolding parse_part both cut
parse_parts [] min max = some []
parse_parts (part ∷ parts) min max =
    both (parse_part (cut b'/' part) min max) (parse_parts parts min max)

-- The set of values, as a list of those that are put into it.
unfoldable pub parse_field : Text → ℕ → ℕ → Option (List ℕ)
unfolding parse_parts split
parse_field field min max = parse_parts (split b',' field) min max

abbrev push : Text → List Text → List Text
push word words = if is_blank word then words else word ∷ words

-- The word that the text starts with, and the words behind it.
unfoldable pub words : Text → Text × List Text
unfolding is_space
words [] = ([], [])
words (c ∷ s) =
    let (word, rest) = words s in if is_space c then ([], push word rest) else (c ∷ word, rest)

unfoldable pub as_list : Text × List Text → List Text
as_list (word, rest) = push word rest

-- `strings.Fields`
unfoldable pub fields : Text → List Text
unfolding words as_list
fields s = as_list (words s)

pub record Schedule : Type 0 where
  pub minutes : List ℕ
  pub hours : List ℕ
  pub dom : List ℕ
  pub months : List ℕ
  pub dow : List ℕ

abbrev is_nil : List ℕ → Bool
is_nil [] = true
is_nil (x ∷ xs) = false

-- A schedule, or none where a field has no value.
unfoldable pub filled : List ℕ → List ℕ → List ℕ → List ℕ → List ℕ → Option Schedule
filled minutes hours dom months dow =
    if is_nil minutes || is_nil hours || is_nil dom || is_nil months || is_nil dow
    then none
    else some (record { minutes = minutes; hours = hours; dom = dom; months = months; dow = dow })

-- The part of `ComputeNextRun` that reads the expression.
unfoldable pub parse_cron : List Text → Option (Option Schedule)
unfolding parse_field filled
parse_cron (f1 ∷ f2 ∷ f3 ∷ f4 ∷ f5 ∷ []) = do
  minutes ← parse_field f1 0 59
  hours ← parse_field f2 0 23
  dom ← parse_field f3 1 31
  months ← parse_field f4 1 12
  dow ← parse_field f5 0 6
  some (filled minutes hours dom months dow)
parse_cron other = some none

-- The day of the month and the month of a day since 1970, in the Gregorian calendar: the year is
-- counted from March, in eras of 400 years.
unfoldable pub day_and_month : ℕ → ℕ × ℕ
day_and_month days =
    let era_day = (days + 719468) % 146097 in
    let year = (era_day - era_day / 1460 + era_day / 36524 - era_day / 146096) / 365 in
    let year_day = era_day - (365 * year + year / 4 - year / 100) in
    let month = (5 * year_day + 2) / 153 in
    (year_day - (153 * month + 2) / 5 + 1, (if ltb month 10 then month + 3 else month - 9))

unfoldable pub has : ℕ → List ℕ → Bool
has v [] = false
has v (x ∷ xs) = (x == v) || has v xs

unfoldable pub matches_day : Schedule → ℕ × ℕ → ℕ → Bool
unfolding has
matches_day schedule (day, month) weekday =
    has day schedule.dom && has month schedule.months && has weekday schedule.dow

-- The condition of the loop; the first of January 1970 was a Thursday.
unfoldable pub matches : Schedule → ℕ → Bool
unfolding matches_day has day_and_month
matches schedule next =
    has (next % 60) schedule.minutes
    && has (next / 60 % 24) schedule.hours
    && matches_day schedule (day_and_month (next / 1440)) ((next / 1440 + 4) % 7)

-- The loop of `ComputeNextRun`.
unfoldable pub first_match : Schedule → ℕ → ℕ → Option ℕ
first_match schedule zero next = none
first_match schedule (suc i) next = elim (matches schedule next) [
  | true ↦ some next
  | false ↦ first_match schedule i (next + 1)
]

abbrev pub one_year : ℕ
one_year = 525600

unfoldable pub next_of : Option Schedule → ℕ → Option ℕ
unfolding first_match
next_of none next = none
next_of (some schedule) next = first_match schedule one_year next

-- `from` is in nanoseconds since 1970; the result in minutes.
unfoldable pub compute_next_run : Text → ℕ → Option (Option ℕ)
unfolding parse_cron next_of fields
compute_next_run cron from = do
  schedule ← parse_cron (fields (trim cron))
  some (next_of schedule (from / minute + 1))

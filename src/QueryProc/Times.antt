-- ===== src/QueryProc/Times.antt =====
-- The times of internal/queryproc/variables.go. An instant is its nanoseconds since 1970.
use Prim.Native.Nat.{ℕ, zero, suc, ◌-◌, ◌*◌, ◌/◌}
use mathlib.Core.Bool.{Bool, true, false, ◌&&◌, ◌||◌}
use mathlib.Core.Option.{Option, none, some}
use mathlib.Core.List.{List, [], ◌∷◌, ◌++◌}
use ch_ui.Prelude.Tests.{ltb, leb, ◌==◌, if◌then◌else◌}
use ch_ui.Prelude.Int.{ℤ, pos, negsuc, ◌+ℤ◌, ltb_ℤ, int_bound, int64}
use ch_ui.Prelude.Lists.{any}
use ch_ui.Prelude.Text.{
  Text, codes, same, is_blank, lower, trim, itoa, magnitude, contains, has_prefix,
}
use ch_ui.Prelude.Clock.{second, minute}

abbrev neg : ℕ → ℤ
neg zero = pos 0
neg (suc n) = negsuc n

-- Rounded down.
abbrev over : ℤ → ℕ → ℤ
over (pos n) k = pos (n / k)
over (negsuc n) k = negsuc (n / k)

abbrev pub show : ℤ → Text
show (pos n) = itoa n
show (negsuc n) = b'-' ∷ itoa (suc n)

-- `time.Time{}`, the first of January of the year 1.
abbrev pub zero_time : ℤ
zero_time = neg (62135596800 * second)

abbrev pub is_zero : ℤ → Bool
is_zero t = if ltb_ℤ t zero_time then false else if ltb_ℤ zero_time t then false else true

abbrev is_re_space : ℕ → Bool
is_re_space c = c == 32 || c == 9 || c == 10 || c == 12 || c == 13

unfoldable pub skip_spaces : Text → Text
skip_spaces [] = []
skip_spaces (c ∷ s) = let rest = skip_spaces s in if is_re_space c then rest else c ∷ s

abbrev is_digit : ℕ → Bool
is_digit c = leb b'0' c && leb c b'9'

abbrev is_lower_letter : ℕ → Bool
is_lower_letter c = leb b'a' c && leb c b'z'

-- The longest start of which every byte passes, and the rest.
unfoldable pub span : (ℕ → Bool) → Text → Text × Text
span p [] = ([], [])
span p (c ∷ s) = let (xs, rest) = span p s in if p c then (c ∷ xs, rest) else ([], c ∷ s)

abbrev without_now : Text → Text
without_now s = if has_prefix s (codes "now-") then drop4 s else s
  where
    drop4 : Text → Text
    drop4 (a ∷ b ∷ c ∷ d ∷ s) = s
    drop4 s = s

-- `patRelativeTime` on a text in lower case: the digits and the unit.
unfoldable pub relative_parts : Text → Option (Text × Text)
unfolding skip_spaces span
relative_parts s =
    let (number, rest) = span is_digit (skip_spaces (without_now s)) in
    let (unit, end) = span is_lower_letter (skip_spaces rest) in
    if is_blank number || is_blank unit
    then none
    else if is_blank end
    then some (number, unit)
    else none

-- `strconv.Atoi` on digits, whose error is dropped: the largest integer where it does not fit.
abbrev value_or_largest : Option ℕ → ℕ
value_or_largest none = 0
value_or_largest (some n) = if ltb n int_bound then n else int_bound - 1

abbrev one_of : Text → List Text → Bool
one_of unit = any (λ u. same u unit)

-- The length of a unit, none for the default.
unfoldable pub unit_length : Text → Option ℕ
unfolding any
unit_length unit =
    if one_of unit (codes "s" ∷ codes "sec" ∷ codes "secs" ∷ codes "second" ∷ codes "seconds" ∷ [])
    then some second
    else if one_of unit
        (codes "m" ∷ codes "min" ∷ codes "mins" ∷ codes "minute" ∷ codes "minutes" ∷ [])
    then some minute
    else if one_of unit (codes "h" ∷ codes "hr" ∷ codes "hrs" ∷ codes "hour" ∷ codes "hours" ∷ [])
    then some (60 * minute)
    else if one_of unit (codes "d" ∷ codes "day" ∷ codes "days" ∷ [])
    then some (1440 * minute)
    else if one_of unit (codes "w" ∷ codes "week" ∷ codes "weeks" ∷ [])
    then some (10080 * minute)
    else if one_of unit
        (codes "mo" ∷ codes "mon" ∷ codes "month" ∷ codes "months" ∷ codes "mth" ∷ [])
    then some (43200 * minute)
    else if one_of unit (codes "y" ∷ codes "yr" ∷ codes "yrs" ∷ codes "year" ∷ codes "years" ∷ [])
    then some (525600 * minute)
    else none

-- `base.Add` of a negative duration, a 64-bit number of nanoseconds.
unfoldable pub back : ℤ → ℕ → ℕ → ℤ
unfolding int64 ◌+ℤ◌
back base value unit = base +ℤ int64 (neg (value * unit))

abbrev back_by : ℤ → ℕ → Option ℕ → ℤ
unfolding back
back_by base value none = back base 5 minute
back_by base value (some unit) = back base value unit

unfoldable pub parsed_relative : ℤ → Option (Text × Text) → ℤ
unfolding back_by unit_length
parsed_relative base none = back base 5 minute
parsed_relative base (some (number, unit)) =
    back_by base (value_or_largest (magnitude number)) (unit_length unit)

unfoldable pub parse_relative_time : Text → ℤ → ℤ
unfolding parsed_relative relative_parts
parse_relative_time time_str base =
    let trimmed = lower (trim time_str) in
    if is_blank trimmed
    then back base 5 minute
    else if same trimmed (codes "now")
    then base
    else parsed_relative base (relative_parts trimmed)

-- `time.Parse` with a layout, none where it fails.
abbrev pub Parse : Type 0
Parse = Text → Text → Option ℤ

unfoldable pub first_layout : Parse → List Text → Text → ℤ
first_layout parse [] s = zero_time
first_layout parse (layout ∷ layouts) s = elim (parse layout s) [
  | none ↦ first_layout parse layouts s
  | some t ↦ t
]

unfoldable pub parse_absolute_time : Parse → Text → ℤ
unfolding first_layout
parse_absolute_time parse s =
    first_layout parse
      (codes "2006-01-02T15:04:05Z07:00"
        ∷ codes "2006-01-02T15:04:05.999999999Z07:00"
        ∷ codes "2006-01-02"
        ∷ codes "2006-01-02 15:04:05"
        ∷ codes "2006-01-02T15:04"
        ∷ codes "2006-01-02T15:04:05"
        ∷ [])
      s

pub record TimeRange : Type 0 where
  pub kind : Text
  pub from : Text
  pub to : Text

abbrev or_default : Text → Text → Text
or_default default s = if is_blank (trim s) then default else trim s

-- The bounds as they are read, before they are ordered.
unfoldable pub read_bounds : Parse → ℤ → TimeRange → ℤ × ℤ
unfolding parse_relative_time parse_absolute_time
read_bounds parse now tr =
    if same tr.kind (codes "relative")
    then (
      parse_relative_time (or_default (codes "1h") tr.from) now,
      parse_relative_time (or_default (codes "now") tr.to) now,
    )
    else (parse_absolute_time parse tr.from, parse_absolute_time parse tr.to)

unfoldable pub order_bounds : ℤ × ℤ → Option (ℤ × ℤ)
order_bounds (from, to) =
    if is_zero from || is_zero to
    then none
    else if ltb_ℤ to from
    then some (to, from)
    else some (from, to)

unfoldable pub get_time_bounds : Parse → ℤ → TimeRange → Option (ℤ × ℤ)
unfolding read_bounds order_bounds
get_time_bounds parse now tr = order_bounds (read_bounds parse now tr)

unfoldable pub convert_to_epoch : ℤ → Text → ℤ
unfolding int64
convert_to_epoch t unit =
    if same unit (codes "ns")
    then int64 t
    else if same unit (codes "us")
    then int64 (over t 1000)
    else if same unit (codes "ms")
    then int64 (over t 1000000)
    else if same unit (codes "s")
    then int64 (over t second)
    else int64 (over t 1000000)

unfoldable pub generate_time_filter : ℤ → ℤ → Text → Text → Text
unfolding convert_to_epoch
generate_time_filter from to column unit =
    column
    ++ codes " >= "
    ++ show (convert_to_epoch from unit)
    ++ codes " AND "
    ++ column
    ++ codes " <= "
    ++ show (convert_to_epoch to unit)

-- `strings.HasSuffix`
unfoldable pub has_suffix : Text → Text → Bool
has_suffix [] suffix = is_blank suffix
has_suffix (c ∷ s) suffix = same (c ∷ s) suffix || has_suffix s suffix

unfoldable pub infer_time_unit : Text → Text
unfolding has_suffix
infer_time_unit column_name =
    let name = lower column_name in
    if has_suffix name (codes "_ns") || contains name (codes "_ns_")
    then codes "ns"
    else if has_suffix name (codes "_us") || contains name (codes "_us_")
    then codes "us"
    else if has_suffix name (codes "_ms") || contains name (codes "_ms_")
    then codes "ms"
    else if has_suffix name (codes "_s")
    then codes "s"
    else codes "ms"

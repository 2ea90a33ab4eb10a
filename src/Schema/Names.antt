-- ===== src/Schema/Names.antt =====
-- Names and fragments that enter a statement: internal/server/handlers/query.go.
use Prim.Native.Nat.{ℕ}
use mathlib.Core.Bool.{Bool, false, ◌||◌}
use mathlib.Core.List.{[], ◌∷◌, ◌++◌}
use ch_ui.Prelude.Tests.{◌==◌, if◌then◌else◌}
use ch_ui.Prelude.Lists.{any}
use ch_ui.Prelude.Text.{Text, codes, same, is_blank, lower, trim, contains}
use ch_ui.Prelude.Result.{Result, ◌>>◌, refuse_if}

-- `strings.ReplaceAll` of one byte by two of it.
unfoldable pub double : ℕ → Text → Text
double b [] = []
double b (c ∷ s) = let rest = double b s in if c == b then c ∷ c ∷ rest else c ∷ rest

abbrev pub backtick : ℕ
backtick = 96

abbrev pub quote : ℕ
quote = 39

abbrev pub double_quote : ℕ
double_quote = 34

abbrev pub backslash : ℕ
backslash = 92

unfoldable pub escape_identifier : Text → Text
unfolding double
escape_identifier name = backtick ∷ (double backtick name ++ backtick ∷ [])

unfoldable pub escape_literal : Text → Text
unfolding double
escape_literal value = double quote (double backslash value)

-- `strings.ContainsAny`
unfoldable pub contains_any : Text → Text → Bool
unfolding any
contains_any s chars = any (λ c. any (λ d. c == d) chars) s

-- Why a request is refused with the status 400.
pub data Refusal : Type 0 where
  name_required : Text → Refusal
  name_with_dot : Text → Refusal
  name_with_control : Text → Refusal
  system_database : Refusal
  no_columns : Refusal
  invalid_engine : Refusal
  invalid_cluster : Refusal
  invalid_type : Text → Refusal
  invalid_default : Text → Refusal
  invalid_expression : Text → Refusal

abbrev control_characters : Text
control_characters = 0 ∷ 13 ∷ 10 ∷ 9 ∷ []

unfoldable pub validate_simple_object_name : Text → Text → Result Refusal (Unit {0})
unfolding trim contains contains_any
validate_simple_object_name name label =
    refuse_if (is_blank (trim name)) (name_required label)
    >> (refuse_if (contains name (codes ".")) (name_with_dot label)
        >> refuse_if (contains_any name control_characters) (name_with_control label))

abbrev line_breaks : Text
line_breaks = 0 ∷ 13 ∷ 10 ∷ []

abbrev pub has_unsafe_part : Text → Bool
has_unsafe_part v =
    contains v (codes ";")
    || contains v (codes "--")
    || contains v (codes "/*")
    || contains v (codes "*/")
    || contains_any v line_breaks

unfoldable pub is_unsafe_sql_fragment : Text → Bool
unfolding trim lower contains contains_any
is_unsafe_sql_fragment value =
    let v = trim (lower value) in if is_blank v then false else has_unsafe_part v

unfoldable pub is_system_database_name : Text → Bool
unfolding lower trim same
is_system_database_name name =
    same (lower (trim name)) (codes "system")
    || same (lower (trim name)) (codes "information_schema")

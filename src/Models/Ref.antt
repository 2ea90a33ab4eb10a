-- ===== src/Models/Ref.antt =====
-- References between models: internal/models/ref.go. Its regular expressions are written out as the
-- scanners that they describe; a scan has fuel for every byte of its text.
use Prim.Native.Nat.{ℕ, zero, suc, ◌-◌}
use mathlib.Core.Bool.{Bool, true, false, ◌&&◌, ◌||◌}
use mathlib.Core.Option.{Option, none, some}
use mathlib.Core.List.{List, [], ◌∷◌, ◌++◌}
use ch_ui.Prelude.Tests.{◌==◌, leb, if◌then◌else◌}
use ch_ui.Prelude.Lists.{length, take}
use ch_ui.Prelude.Text.{Text, codes}
use ch_ui.Prelude.Maps.{lookup}
use ch_ui.Models.Dag.Components.{member}

-- The text behind a prefix.
unfoldable pub strip_prefix : Text → Text → Option Text
strip_prefix [] s = some s
strip_prefix (d ∷ p) [] = none
strip_prefix (d ∷ p) (c ∷ s) = let rest = strip_prefix p s in if c == d then rest else none

-- The text behind the first `*/`.
unfoldable pub after_close : Text → Option Text
after_close [] = none
after_close (c ∷ []) = none
after_close (c ∷ d ∷ s) =
    let rest = after_close (d ∷ s) in if c == b'*' && d == b'/' then some s else rest

abbrev then_close : Option Text → Option Text
then_close none = none
then_close (some s) = after_close s

-- `(?s)/\*.*?\*/` replaced by nothing.
unfoldable pub strip_blocks : ℕ → Text → Text
unfolding strip_prefix after_close
strip_blocks zero s = s
strip_blocks (suc fuel) [] = []
strip_blocks (suc fuel) (c ∷ s) = elim (then_close (strip_prefix (codes "/*") (c ∷ s))) [
  | some rest ↦ strip_blocks fuel rest
  | none ↦ c ∷ strip_blocks fuel s
]

-- `--[^\n]*` replaced by nothing; the flag says that a comment is open.
unfoldable pub strip_lines : Bool → Text → Text
strip_lines open_comment [] = []
strip_lines true (c ∷ s) =
    let rest = strip_lines true s in
    let back = c ∷ strip_lines false s in if c == 10 then back else rest
strip_lines false (c ∷ []) = c ∷ []
strip_lines false (c ∷ d ∷ s) =
    let comment = strip_lines true s in
    let text = c ∷ strip_lines false (d ∷ s) in if c == b'-' && d == b'-' then comment else text

-- `stripSQLComments`
unfoldable pub strip_sql_comments : Text → Text
unfolding strip_blocks strip_lines
strip_sql_comments sql = strip_lines false (strip_blocks (length sql) sql)

unfoldable pub is_name_start : ℕ → Bool
is_name_start c = (leb b'a' c && leb c b'z') || ((leb b'A' c && leb c b'Z') || c == b'_')

unfoldable pub is_name_byte : ℕ → Bool
unfolding is_name_start
is_name_byte c = is_name_start c || (leb b'0' c && leb c b'9')

-- `\s` of the regular expressions.
unfoldable pub is_blank_byte : ℕ → Bool
is_blank_byte c = c == 32 || (c == 9 || (c == 10 || (c == 12 || c == 13)))

unfoldable pub skip_blank : Text → Text
unfolding is_blank_byte
skip_blank [] = []
skip_blank (c ∷ s) = let rest = skip_blank s in if is_blank_byte c then rest else c ∷ s

unfoldable pub take_name : Text → Text × Text
unfolding is_name_byte
take_name [] = ([], [])
take_name (c ∷ s) =
    let (name, rest) = take_name s in if is_name_byte c then (c ∷ name, rest) else ([], c ∷ s)

-- `ValidateModelName`: the empty name and every other text that is no identifier are refused.
unfoldable pub all_name_bytes : Text → Bool
unfolding is_name_byte
all_name_bytes [] = true
all_name_bytes (c ∷ s) = is_name_byte c && all_name_bytes s

unfoldable pub validate_model_name : Text → Bool
unfolding all_name_bytes is_name_start
validate_model_name [] = false
validate_model_name (c ∷ s) = is_name_start c && all_name_bytes s

-- The end of a reference behind its name.
unfoldable pub close_ref : Text → Text → Option (Text × Text)
close_ref name [] = none
close_ref name (c ∷ s) = if c == b')' then some (name, s) else none

unfoldable pub name_ref : Text × Text → Option (Text × Text)
unfolding close_ref skip_blank validate_model_name
name_ref (name, s) = if validate_model_name name then close_ref name (skip_blank s) else none

abbrev pub ref_body : Option Text → Option (Text × Text)
ref_body none = none
ref_body (some s) = name_ref (take_name (skip_blank s))

-- A match of `refPattern` at the start of a text: the name, and the text behind the match.
unfoldable pub match_ref : Text → Option (Text × Text)
unfolding strip_prefix name_ref take_name skip_blank
match_ref s = ref_body (strip_prefix (codes "$ref(") s)

-- A reference has its name and the text of the match.
pub data Piece : Type 0 where
  plain : ℕ → Piece
  ref : Text → Text → Piece

-- The text cut into references, found from the left, and the bytes between them.
unfoldable pub pieces : ℕ → Text → List Piece
unfolding match_ref take
pieces zero s = []
pieces (suc fuel) [] = []
pieces (suc fuel) (c ∷ s) = elim (match_ref (c ∷ s)) [
  | some (name, rest) ↦ ref name (take (length (c ∷ s) - length rest) (c ∷ s)) ∷ pieces fuel rest
  | none ↦ plain c ∷ pieces fuel s
]

unfoldable pub body_pieces : Text → List Piece
unfolding pieces strip_sql_comments
body_pieces sql = let body = strip_sql_comments sql in pieces (length body) body

-- The loop of `ExtractRefs`, with the names that it has seen.
unfoldable pub distinct_refs : List Piece → List Text → List Text
distinct_refs [] seen = []
distinct_refs (plain c ∷ ps) seen = distinct_refs ps seen
distinct_refs (ref name match ∷ ps) seen =
    let old = distinct_refs ps seen in
    let new = name ∷ distinct_refs ps (name ∷ seen) in if member name seen then old else new

-- `ExtractRefs`
unfoldable pub extract_refs : Text → List Text
unfolding distinct_refs body_pieces
extract_refs sql_body = distinct_refs (body_pieces sql_body) []

unfoldable pub qualified : Text → Text → Text
qualified db name = codes "`" ++ db ++ codes "`.`" ++ name ++ codes "`"

abbrev pub last_error : Text → Option Text → Option Text
last_error name none = some name
last_error name (some later) = some later

-- One match of `ResolveRefs`, before the resolved rest. A reference with no target is left in place,
-- and the name of the last such reference is the error.
unfoldable pub resolve_ref : Text → Text → Option Text → Text × Option Text → Text × Option Text
unfolding qualified
resolve_ref name match none (text, error) = (match ++ text, last_error name error)
resolve_ref name match (some db) (text, error) = (qualified db name ++ text, error)

unfoldable pub resolve_pieces : List (Text × Text) → List Piece → Text × Option Text
unfolding resolve_ref
resolve_pieces targets [] = ([], none)
resolve_pieces targets (plain c ∷ ps) =
    let (text, error) = resolve_pieces targets ps in (c ∷ text, error)
resolve_pieces targets (ref name match ∷ ps) =
    resolve_ref name match (lookup name targets) (resolve_pieces targets ps)

-- `ResolveRefs`
unfoldable pub resolve_refs : Text → List (Text × Text) → Text × Option Text
unfolding resolve_pieces body_pieces
resolve_refs sql_body model_targets = resolve_pieces model_targets (body_pieces sql_body)

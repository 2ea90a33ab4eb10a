-- ===== src/Explain/Plan.antt =====
-- The lines of an EXPLAIN and the tree that is built from them: extractExplainLines, buildPlanTree and
-- their helpers in internal/server/handlers/query.go. A text is a list of code points here. What
-- decodeRows reads from the answer is an argument: the rows, with each value as `fmt.Sprint` prints it.
use Prim.Native.Nat.{ℕ, zero, suc}
use mathlib.Core.Bool.{◌&&◌, ◌||◌}
use mathlib.Core.Option.{Option, none, some}
use mathlib.Core.List.{List, [], ◌∷◌, ◌++◌}
use ch_ui.Prelude.Tests.{◌==◌, ltb, if◌then◌else◌}
use ch_ui.Prelude.Lists.{length, take, any}
use ch_ui.Prelude.Text.{text_less, Text, codes, is_blank, trim, itoa}
use ch_ui.Prelude.Maps.{lookup}

abbrev pub bar : ℕ
bar = 9474

abbrev pub dash : ℕ
dash = 9472

abbrev pub Row : Type 0
Row = List (Text × Text)

abbrev priority : List Text
priority =
    codes "explain" ∷ codes "plan" ∷ codes "explain_plan" ∷ codes "explain_ast" ∷ codes "value" ∷ []

-- The value of the first of the keys that the row has.
unfoldable pub pick : List Text → Row → Text
unfolding lookup
pick [] row = []
pick (key ∷ keys) row =
    let rest = pick keys row in elim (lookup key row) [ none ↦ rest | some v ↦ v ]

-- The value of the least key.
unfoldable pub least : Text × Text → Row → Text
unfolding text_less
least (k, v) [] = v
least (k, v) ((j, w) ∷ row) = least (if text_less j k then (j, w) else (k, v)) row

-- The value of a preferred key, or else of the least one.
unfoldable pub chosen : Text × Text → Row → Text
unfolding pick least
chosen entry row =
    let picked = pick priority (entry ∷ row) in if is_blank picked then least entry row else picked

unfoldable pub row_text : Row → Text
unfolding chosen trim
row_text [] = []
row_text (entry ∷ row) = trim (chosen entry row)

unfoldable pub extract_explain_lines : List Row → List Text
unfolding row_text
extract_explain_lines [] = []
extract_explain_lines (row ∷ rows) =
    let rest = extract_explain_lines rows in
    if is_blank (row_text row) then rest else row_text row ∷ rest

unfoldable pub plan_line_level : Text → ℕ
plan_line_level [] = 0
plan_line_level (c ∷ []) = 0
plan_line_level (c ∷ d ∷ s) =
    let two = suc (plan_line_level s) in
    let one = plan_line_level (d ∷ s) in
    if c == b' ' && d == b' '
    then two
    else if c == bar && d == b' '
    then two
    else if c == b' ' || c == bar
    then one
    else 0

-- `strings.TrimLeft`
unfoldable pub trim_set : Text → Text → Text
unfolding any
trim_set set [] = []
trim_set set (c ∷ s) = let rest = trim_set set s in if any (λ d. c == d) set then rest else c ∷ s

-- `strings.TrimPrefix`: the text after_prefix the prefix, or else the text `whole`.
unfoldable pub after_prefix : Text → Text → Text → Text
after_prefix whole [] s = s
after_prefix whole (d ∷ p) [] = whole
after_prefix whole (d ∷ p) (c ∷ s) =
    let rest = after_prefix whole p s in if c == d then rest else whole

abbrev trim_prefix : Text → Text → Text
trim_prefix s prefix = after_prefix s prefix s

unfoldable pub clean_plan_label : Text → Text
unfolding trim trim_set after_prefix
clean_plan_label line =
    let label = trim_set (bar ∷ b' ' ∷ []) (trim line) in
    let inner = trim_prefix label (9492 ∷ dash ∷ []) in
    let side = trim_prefix inner (9500 ∷ dash ∷ []) in trim (trim_prefix side (dash ∷ []))

pub record PlanNode : Type 0 where
  pub id : Text
  pub parent_id : Option Text
  pub level : ℕ
  pub label : Text

module _ {ℓ} {A : Type ℓ} where
  abbrev pub get_elem? : List A → ℕ → Option A
  get_elem? [] i = none
  get_elem? (x ∷ xs) zero = some x
  get_elem? (x ∷ xs) (suc i) = get_elem? xs i

  abbrev pub set : List A → ℕ → A → List A
  set [] i v = []
  set (x ∷ xs) zero v = v ∷ xs
  set (x ∷ xs) (suc i) v = x ∷ set xs i v

-- The level of a line is at most the height of the stack.
abbrev pub clamp : ℕ → ℕ → ℕ
clamp level height = if ltb height level then height else level

unfoldable pub parent_of : List Text → ℕ → Option Text
parent_of stack zero = none
parent_of stack (suc level) = get_elem? stack level

-- The stack with the node at its level, and nothing above it.
unfoldable pub place_id : List Text → ℕ → Text → List Text
unfolding take
place_id stack level id =
    if level == length stack then stack ++ id ∷ [] else take (suc level) (set stack level id)

abbrev pub node_id : ℕ → Text
node_id i = b'n' ∷ itoa i

-- The node of a line and the stack after_prefix it.
unfoldable pub plan_node : ℕ → List Text → Text → Text → PlanNode × List Text
unfolding plan_line_level parent_of place_id itoa
plan_node i stack line label =
    let level = clamp (plan_line_level line) (length stack) in
    (
      record { id = node_id i; parent_id = parent_of stack level; level = level; label = label },
      place_id stack level (node_id i),
    )

-- The loop over the lines, the first of which has the number `i`.
unfoldable pub plan_nodes : ℕ → List Text → List Text → List PlanNode
unfolding plan_node clean_plan_label
plan_nodes i stack [] = []
plan_nodes i stack (line ∷ lines) =
    let label = clean_plan_label line in
    let (node, stack') = plan_node i stack line label in
    let rest = plan_nodes (suc i) (if is_blank label then stack else stack') lines in
    if is_blank label then rest else node ∷ rest

unfoldable pub build_plan_tree : List Text → List PlanNode
unfolding plan_nodes
build_plan_tree lines = plan_nodes 1 [] lines

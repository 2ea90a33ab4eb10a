-- ===== src/Explain/Examples.antt =====
-- Tests and witnesses for the trees of plans.
use mathlib.Core.Path.{◌≡◌, refl}
use mathlib.Core.Bool.{false}
use mathlib.Core.Option.{Option, none, some}
use mathlib.Core.List.{List, [], ◌∷◌, map}
use ch_ui.Prelude.Lists.{All}
use ch_ui.Prelude.Maps.{lookup}
use ch_ui.Prelude.Text.{Text, codes, same}
use ch_ui.Explain.Plan.{Row, PlanNode, extract_explain_lines, build_plan_tree}
use ch_ui.Explain.PlanLaws.{IsTree, build_plan_tree-IsTree}
use ch_ui.Explain.FlatLaws.{starts_with_bar, IsRoot, build_plan_tree-extract_flat}

abbrev plan_lines : List Text
plan_lines =
    codes "Expression" ∷ codes "  Sorting" ∷ codes "    Filter" ∷ codes "  Union" ∷ codes "" ∷ []

abbrev parents : List Text → List (Option Text)
parents lines = map (λ (n : PlanNode). n.parent_id) (build_plan_tree lines)

parents_of_plan :
    parents plan_lines ≡ none ∷ some (codes "n1") ∷ some (codes "n2") ∷ some (codes "n1") ∷ []
unfolding build_plan_tree
parents_of_plan = refl

build_plan_tree-IsTree_example : IsTree [] (build_plan_tree plan_lines)
build_plan_tree-IsTree_example = build_plan_tree-IsTree plan_lines

abbrev row : Text → Row
row line = (codes "explain", line) ∷ []

abbrev plan_rows : List Row
plan_rows = row (codes "Expression") ∷ row (codes "  Sorting") ∷ row (codes "    Filter") ∷ []

no_bars : All (λ s. starts_with_bar s ≡ false) (extract_explain_lines plan_rows)
unfolding extract_explain_lines lookup same
no_bars = (refl, (refl, (refl, tt)))

build_plan_tree-extract_flat_example :
    All IsRoot (build_plan_tree (extract_explain_lines plan_rows))
build_plan_tree-extract_flat_example = build_plan_tree-extract_flat plan_rows no_bars

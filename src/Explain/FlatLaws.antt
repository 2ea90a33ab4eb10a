-- ===== src/Explain/FlatLaws.antt =====
-- What extractExplainLines leaves of the indentation that buildPlanTree reads
-- (internal/server/handlers/query.go).
use Prim.Native.Nat.{ℕ, suc}
use mathlib.Core.Path.{◌≡◌, refl}
use mathlib.Core.Logic.{inl, inr}
use mathlib.Core.Bool.{Bool, true, false}
use mathlib.Core.Option.{none}
use mathlib.Core.List.{List, [], ◌∷◌}
use native.Mathlib.Omega.{arith}
use ch_ui.Prelude.Tests.{◌==◌, Bool-cases}
use ch_ui.Prelude.Lists.{length, All}
use ch_ui.Prelude.Text.{Text, is_blank, is_space}
use ch_ui.Prelude.TextLaws.{starts_solid}
use ch_ui.Prelude.Trimming.{starts_solid-trim}
use ch_ui.Explain.Plan.{
  bar, Row, chosen, row_text, extract_explain_lines, plan_line_level, clean_plan_label, PlanNode,
  place_id, node_id, plan_node, parent_of, clamp, plan_nodes, build_plan_tree,
}

-- The line starts with the box character of an indentation.
abbrev pub starts_with_bar : Text → Bool
starts_with_bar [] = false
starts_with_bar (c ∷ s) = c == bar

row_text-solid : (row : Row) → starts_solid (row_text row) ≡ true
unfolding row_text starts_solid
row_text-solid [] = refl
row_text-solid (entry ∷ row) = starts_solid-trim (chosen entry row)

extract-solid : (rows : List Row) → All (λ s. starts_solid s ≡ true) (extract_explain_lines rows)
unfolding extract_explain_lines
extract-solid [] = tt
extract-solid (row ∷ rows) = elim (Bool-cases (is_blank (row_text row))) [
  | inl e ↦ rw e (extract-solid rows)
  | inr e ↦ rw e (row_text-solid row, extract-solid rows)
]

plan_line_level-solid :
    (s : Text) → starts_solid s ≡ true → starts_with_bar s ≡ false → plan_line_level s ≡ 0
unfolding plan_line_level starts_solid is_space
plan_line_level-solid [] h k = refl
plan_line_level-solid (c ∷ []) h k = refl
plan_line_level-solid (c ∷ d ∷ s) h k = ground arith

-- A node that stands alone.
abbrev pub IsRoot : PlanNode → Type 0
IsRoot n = (n.level ≡ 0) × (n.parent_id ≡ none)

clamp_zero : (height : ℕ) → clamp 0 height ≡ 0
clamp_zero height = ground arith

plan_nodes-roots :
    (i : ℕ) (stack lines : List Text)
    → All (λ s. plan_line_level s ≡ 0) lines
    → All IsRoot (plan_nodes i stack lines)
unfolding plan_nodes plan_node parent_of
plan_nodes-roots i stack [] h = tt
plan_nodes-roots i stack (line ∷ lines) (e, h) =
    elim (Bool-cases (is_blank (clean_plan_label line))) [
      | inl blank ↦ rw blank (plan_nodes-roots (suc i) stack lines h)
      | inr full ↦
          rw (full, e, clamp_zero (length stack))
            ((refl, refl), plan_nodes-roots (suc i) (place_id stack 0 (node_id i)) lines h)
    ]

levels :
    (lines : List Text)
    → All (λ s. starts_solid s ≡ true) lines
    → All (λ s. starts_with_bar s ≡ false) lines
    → All (λ s. plan_line_level s ≡ 0) lines
levels [] h k = tt
levels (s ∷ lines) (hs, h) (ks, k) = (plan_line_level-solid s hs ks, levels lines h k)

-- Where no line of an EXPLAIN starts with a box character once it is trimmed, all nodes of its tree are
-- roots: the lines are trimmed before the white space that indents them is read.
pub build_plan_tree-extract_flat :
    (rows : List Row)
    → All (λ s. starts_with_bar s ≡ false) (extract_explain_lines rows)
    → All IsRoot (build_plan_tree (extract_explain_lines rows))
unfolding build_plan_tree
build_plan_tree-extract_flat rows h =
    plan_nodes-roots 1 [] (extract_explain_lines rows)
      (levels (extract_explain_lines rows) (extract-solid rows) h)

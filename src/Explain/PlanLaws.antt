-- ===== src/Explain/PlanLaws.antt =====
-- The tree that buildPlanTree (internal/server/handlers/query.go) builds.
use Prim.Native.Nat.{ℕ, zero, suc, ◌≤◌, ◌<◌}
use mathlib.Core.Path.{◌≡◌, refl, sym, ◌∙◌}
use mathlib.Core.Logic.{inl, inr}
use mathlib.Core.Option.{Option, none, some}
use mathlib.Core.List.{List, [], ◌∷◌}
use native.Mathlib.Omega.{arith}
use ch_ui.Prelude.Tests.{◌==◌, if◌then◌else◌, Bool-cases}
use ch_ui.Prelude.Lists.{length, take}
use ch_ui.Prelude.Text.{Text, is_blank}
use ch_ui.Explain.Plan.{
  PlanNode, get_elem?, clamp, parent_of, place_id, node_id, plan_line_level, clean_plan_label,
  plan_node, plan_nodes, build_plan_tree,
}

-- The node nearest before, newest first, that has the level.
abbrev pub last_at : ℕ → List PlanNode → Option Text
last_at level [] = none
last_at level (n ∷ earlier) = if n.level == level then some n.id else last_at level earlier

-- The levels that may follow the nodes, newest first, go up to this one.
abbrev pub height : List PlanNode → ℕ
height [] = 0
height (n ∷ earlier) = suc n.level

-- The place of a node in a tree in preorder, behind the nodes `earlier`: it is a root, or its parent is
-- the nearest node before it that is one level above it.
abbrev pub Placed : List PlanNode → PlanNode → Type 0
Placed earlier n = PlacedAt n.level
  where
    PlacedAt : ℕ → Type 0
    PlacedAt zero = n.parent_id ≡ none
    PlacedAt (suc level) = (id : Text) × (n.parent_id ≡ some id) × (last_at level earlier ≡ some id)

-- Every node has its place, and is at most one level below the node before it.
abbrev pub IsTree : List PlanNode → List PlanNode → Type 0
IsTree earlier [] = Unit
IsTree earlier (n ∷ ns) = Placed earlier n × (n.level ≤ height earlier) × IsTree (n ∷ earlier) ns

put : List Text → ℕ → Text → List Text
put [] level id = id ∷ []
put (x ∷ stack) zero id = id ∷ []
put (x ∷ stack) (suc level) id = x ∷ put stack level id

place_id-put :
    (stack : List Text) (level : ℕ) (id : Text)
    → level ≤ length stack
    → place_id stack level id ≡ put stack level id
unfolding place_id put take
place_id-put [] zero id h = refl
place_id-put [] (suc level) id h = absurd (omega arith)
place_id-put (x ∷ stack) zero id h = ground arith
place_id-put (x ∷ stack) (suc level) id h = ground (arith, place_id-put stack level id)

length-put :
    (stack : List Text) (level : ℕ) (id : Text)
    → level ≤ length stack
    → length (put stack level id) ≡ suc level
unfolding put
length-put [] level id h = omega arith
length-put (x ∷ stack) zero id h = refl
length-put (x ∷ stack) (suc level) id h = omega (arith, length-put stack level id)

get_elem?-put :
    (stack : List Text) (level : ℕ) (id : Text) (l : ℕ)
    → level ≤ length stack
    → l ≤ level
    → get_elem? (put stack level id) l ≡ (if level == l then some id else get_elem? stack l)
unfolding put
get_elem?-put [] level id zero h k = ground arith
get_elem?-put [] level id (suc l) h k = absurd (omega arith)
get_elem?-put (x ∷ stack) zero id zero h k = refl
get_elem?-put (x ∷ stack) zero id (suc l) h k = absurd (omega arith)
get_elem?-put (x ∷ stack) (suc level) id zero h k = ground arith
get_elem?-put (x ∷ stack) (suc level) id (suc l) h k =
    ground (arith, get_elem?-put stack level id l)

get_elem?-below :
    (stack : List Text) (l : ℕ) → l < length stack → (id : Text) × (get_elem? stack l ≡ some id)
get_elem?-below [] l h = absurd (omega arith)
get_elem?-below (x ∷ stack) zero h = (x, refl)
get_elem?-below (x ∷ stack) (suc l) h = get_elem?-below stack l (omega arith)

-- The stack holds, for each level up to that of the newest node, the nearest node of that level.
record Tracks (stack : List Text) (earlier : List PlanNode) : Type 0 where
  high : length stack ≡ height earlier
  nearest : (l : ℕ) → l < length stack → get_elem? stack l ≡ last_at l earlier

clamp-le : (level top : ℕ) → clamp level top ≤ top
clamp-le level top = ground arith

parent_of-Placed :
    (stack : List Text) (earlier : List PlanNode) (level : ℕ) (id label : Text)
    → Tracks stack earlier
    → level ≤ length stack
    → Placed earlier
        (record { id = id; parent_id = parent_of stack level; level = level; label = label })
unfolding parent_of
parent_of-Placed stack earlier zero id label t h = refl
parent_of-Placed stack earlier (suc level) id label t h =
    let (parent, e) = get_elem?-below stack level (omega arith) in
    (parent, e, sym (t.nearest level (omega arith)) ∙ e)

place_id-Tracks :
    (stack : List Text) (earlier : List PlanNode) (level : ℕ) (id label : Text)
    (parent : Option Text)
    → Tracks stack earlier
    → level ≤ length stack
    → Tracks
        (place_id stack level id)
        (record { id = id; parent_id = parent; level = level; label = label } ∷ earlier)
place_id-Tracks stack earlier level id label parent t h =
    rw (place_id-put stack level id h) (record {
      high = length-put stack level id h;
      nearest = λ l below. near l (rw (length-put stack level id h) at below);
    })
  where
    near :
        (l : ℕ)
        → l < suc level
        → get_elem? (put stack level id) l ≡ (if level == l then some id else last_at l earlier)
    near l below =
        get_elem?-put stack level id l h (omega arith) ∙ (elim (Bool-cases (level == l)) [
          | inl e ↦ rw e refl
          | inr e ↦ rw e (t.nearest l (ground arith))
        ])

plan_nodes-IsTree :
    (i : ℕ) (stack : List Text) (earlier : List PlanNode) (lines : List Text)
    → Tracks stack earlier
    → IsTree earlier (plan_nodes i stack lines)
unfolding plan_nodes plan_node
plan_nodes-IsTree i stack earlier [] t = tt
plan_nodes-IsTree i stack earlier (line ∷ lines) t =
    let label = clean_plan_label line in
    let level = clamp (plan_line_level line) (length stack) in
    let low = clamp-le (plan_line_level line) (length stack) in
    elim (Bool-cases (is_blank label)) [
      | inl e ↦ rw e (plan_nodes-IsTree (suc i) stack earlier lines t)
      | inr e ↦ rw e (
        parent_of-Placed stack earlier level (node_id i) label t low,
        omega (arith, low, t.high),
        plan_nodes-IsTree (suc i) (place_id stack level (node_id i)) _ lines
            (place_id-Tracks stack earlier level (node_id i) label (parent_of stack level) t low),
      )
    ]

-- The nodes of a plan form a tree in preorder: each is a root without a parent, or its parent is the
-- nearest node before it that is one level above it; and no node is more than one level below the node
-- before it.
pub build_plan_tree-IsTree : (lines : List Text) → IsTree [] (build_plan_tree lines)
unfolding build_plan_tree
build_plan_tree-IsTree lines =
    plan_nodes-IsTree 1 [] [] lines (record { high = refl; nearest = λ l h. absurd (omega arith) })

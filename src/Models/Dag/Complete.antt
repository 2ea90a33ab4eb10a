-- ===== src/Models/Dag/Complete.antt =====
-- The pipeline of a model holds the dependencies of its members (internal/models/dag.go).
use Prim.Native.Nat.{◌<◌}
use mathlib.Core.Path.{◌≡◌, refl}
use mathlib.Core.Logic.{inl, inr}
use mathlib.Core.Bool.{Bool, true}
use mathlib.Core.List.{List, [], ◌∷◌}
use native.Mathlib.Omega.{arith}
use ch_ui.Prelude.Tests.{Bool-cases}
use ch_ui.Prelude.Lists.{keep, All}
use ch_ui.Prelude.Text.{Text, same, same_iff}
use ch_ui.Prelude.Counts.{count}
use ch_ui.Prelude.Result.{ok}
use ch_ui.Models.Dag.{Lists, DepGraph, slice, build_dag}
use ch_ui.Models.Dag.Edges.{Edges, targets, sources}
use ch_ui.Models.Dag.Links.{edges_of}
use ch_ui.Models.Dag.Order.{IsInput, build_dag-topological, build_dag-maps}
use ch_ui.Models.Dag.Acyclic.{edges_of-named}
use ch_ui.Models.Dag.Components.{member, connected_components, first_with, component_containing}
use ch_ui.Models.Dag.Partition.{concat, count-connected_components}
use ch_ui.Models.Dag.Closed.{member-append}
use ch_ui.Models.Dag.Pipelines.{
  IsSymmetric, IsPipeline, member-count, connected_components-IsPipeline,
}

first_with_lem :
    (g : DepGraph) (id : Text) (cs : List (List Text))
    → All (IsPipeline g) cs
    → member id (concat cs) ≡ true
    → (member id (first_with id cs) ≡ true) × IsPipeline g (first_with id cs)
unfolding first_with
first_with_lem g id [] h k = unfold member in cc
first_with_lem g id (c ∷ cs) (p, h) k = elim (Bool-cases (member id c)) [
  | inl here ↦ rw here (here, p)
  | inr later ↦ rw later (first_with_lem g id cs h (ground (arith, member-append id c (concat cs))))
]

sources-targets : (es : Edges) (x d : Text) → member d (sources x es) ≡ member x (targets d es)
unfolding sources targets member
sources-targets [] x d = refl
sources-targets ((e, y) ∷ es) x d = ground (arith, sources-targets es x d)

build_dag-IsSymmetric :
    (ids : List Text) (refs : Lists) (name_to_id : List (Text × Text)) (g : DepGraph)
    → IsInput ids refs name_to_id
    → build_dag ids refs name_to_id ≡ ok g
    → IsSymmetric g
build_dag-IsSymmetric ids refs name_to_id g h e x d =
    let (deps, _) = build_dag-maps ids refs name_to_id g h e x in
    let (_, rev_deps) = build_dag-maps ids refs name_to_id g h e d in
    rw (deps, rev_deps) (sources-targets (edges_of name_to_id refs) x d)

sources-All :
    (P : Text → Type 0) (es : Edges) (x : Text) → All (λ e. P e.0) es → All P (sources x es)
unfolding sources
sources-All P [] x h = tt
sources-All P ((d, y) ∷ es) x (p, h) = elim (Bool-cases (same y x)) [
  | inl e ↦ rw e (p, sources-All P es x h)
  | inr e ↦ rw e (sources-All P es x h)
]

All-member :
    (ids : List Text) (l : List Text) (d : Text)
    → All (λ y. 0 < count y ids) l
    → member d l ≡ true
    → 0 < count d ids
unfolding member
All-member ids [] d h k = cc
All-member ids (y ∷ l) d (p, h) k = elim (Bool-cases (same y d)) [
  | inl e ↦ rw (← (same_iff y d).0 e) p
  | inr e ↦ All-member ids l d h (ground arith)
]

-- A dependency of a sorted graph is a model of the graph.
pub build_dag-inside :
    (ids : List Text) (refs : Lists) (name_to_id : List (Text × Text)) (g : DepGraph)
    → IsInput ids refs name_to_id
    → build_dag ids refs name_to_id ≡ ok g
    → (x d : Text) → member d (slice x g.deps) ≡ true
    → member d g.order ≡ true
build_dag-inside ids refs name_to_id g h e x d n =
    let (all_once, _) = build_dag-topological ids refs name_to_id g h e in
    ground (
      arith,
      member-count d g.order,
      all_once d,
      All-member ids (slice x g.deps) d
          (rw ((build_dag-maps ids refs name_to_id g h e x).0) (
            sources-All (λ y. 0 < count y ids) (edges_of name_to_id refs) x
              (edges_of-named ids name_to_id refs h.named)))
          n,
    )

-- The pipeline of a model of a sorted graph holds the model and, with each of its members, all the
-- dependencies of that member; it is a part of the order, in that order, so each member stands behind
-- its dependencies. The models are distinct, only models have references, and names stand for models.
pub component_containing_complete :
    (ids : List Text) (refs : Lists) (name_to_id : List (Text × Text)) (g : DepGraph) (id : Text)
    → IsInput ids refs name_to_id
    → build_dag ids refs name_to_id ≡ ok g
    → 0 < count id ids
    → let pipeline = component_containing g id in
      (member id pipeline ≡ true)
      × ((x d : Text)
          → member x pipeline ≡ true
          → member d (slice x g.deps) ≡ true
          → member d pipeline ≡ true)
      × ((part : Text → Bool) × (pipeline ≡ keep part g.order))
unfolding component_containing
component_containing_complete ids refs name_to_id g id h e there =
    let (all_once, _) = build_dag-topological ids refs name_to_id g h e in
    let symm = build_dag-IsSymmetric ids refs name_to_id g h e in
    let (here, p) =
      first_with_lem g id (connected_components g) (connected_components-IsPipeline g symm) (
        ground (
          arith,
          member-count id (concat (connected_components g)),
          count-connected_components g id,
          all_once id,
        )) in
    (
      here,
      λ x d k n. p.closed x d k (ground arith) (build_dag-inside ids refs name_to_id g h e x d n),
      (p.part, p.ordered),
    )

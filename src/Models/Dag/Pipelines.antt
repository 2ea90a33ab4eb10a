-- ===== src/Models/Dag/Pipelines.antt =====
-- The pipeline of a model, the component that `RunPipeline` executes (internal/models/dag.go).
use Prim.Native.Nat.{suc}
use mathlib.Core.Path.{◌≡◌, refl}
use mathlib.Core.Logic.{inl, inr}
use mathlib.Core.Bool.{Bool, true, ◌||◌}
use mathlib.Core.List.{List, [], ◌∷◌}
use native.Mathlib.Omega.{arith}
use ch_ui.Prelude.Tests.{ltb, Bool-cases}
use ch_ui.Prelude.Lists.{keep, All}
use ch_ui.Prelude.Text.{Text, same, same_iff, same_refl}
use ch_ui.Prelude.Counts.{count}
use ch_ui.Models.Dag.{DepGraph, slice}
use ch_ui.Models.Dag.Components.{
  member, weight, component_of, components_from, connected_components,
}
use ch_ui.Models.Dag.Partition.{component_of-union}
use ch_ui.Models.Dag.Closed.{neighbour, IsClosing, search_from-closed, member-keep}

-- Each map of the graph is the other, read backwards.
abbrev pub IsSymmetric : DepGraph → Type 0
IsSymmetric g = (x d : Text) → member d (slice x g.deps) ≡ member x (slice d g.rev_deps)

-- A part of the order that holds the neighbours of its members.
pub record IsPipeline (g : DepGraph) (c : List Text) : Type 0 where
  pub closed :
      (x d : Text)
      → member x c ≡ true
      → neighbour g x d ≡ true
      → member d g.order ≡ true
      → member d c ≡ true
  pub part : Text → Bool
  pub ordered : c ≡ keep part g.order

component_of-closed :
    (g : DepGraph) (id : Text) (visited : List Text)
    → member id g.order ≡ true
    → IsClosing g visited []
    → IsClosing g (component_of g id visited).0 []
unfolding component_of
component_of-closed g id visited there h =
    search_from-closed g (suc (suc (weight g visited g.order))) (id ∷ []) visited [] (omega arith)
      (λ x k. inside x k) (λ x d k n o. waits x d (h x d k n o))
  where
    inside : (x : Text) → member x (id ∷ []) ≡ true → member x g.order ≡ true
    inside x k =
        let e : same id x ≡ true = unfold member in ground arith in rw (← (same_iff id x).0 e) there

    waits :
        (x d : Text)
        → (member d visited || member d []) ≡ true
        → (member d visited || member d (id ∷ [])) ≡ true
    waits x d k = unfold member in ground arith

neighbour_symm : (g : DepGraph) (x d : Text) → IsSymmetric g → neighbour g x d ≡ neighbour g d x
neighbour_symm g x d s = ground (arith, s x d, s d x)

components_from-IsPipeline :
    (g : DepGraph) (ids visited : List Text)
    → IsSymmetric g
    → All (λ id. member id g.order ≡ true) ids
    → IsClosing g visited []
    → All (IsPipeline g) (components_from g ids visited)
unfolding components_from
components_from-IsPipeline g [] visited s i h = tt
components_from-IsPipeline g (id ∷ ids) visited s (there, i) h =
    elim (Bool-cases (member id visited)) [
      | inl seen ↦ rw seen (components_from-IsPipeline g ids visited s i h)
      | inr new ↦
          let (visited', component) = component_of g id visited in
          let after = component_of-closed g id visited there h in
          rw new (
            record {
              closed = λ x d k n o. closed_part x d k n o (after x d);
              part = λ x. member x component;
              ordered = refl;
            },
            components_from-IsPipeline g ids visited' s i after,
          )
    ]
  where
    closed_part :
        (x d : Text)
        → let (visited', component) = component_of g id visited in
          member x (keep (λ y. member y component) g.order) ≡ true
          → neighbour g x d ≡ true
          → member d g.order ≡ true
          → (member x visited' ≡ true
              → neighbour g x d ≡ true
              → member d g.order ≡ true
              → (member d visited' || member d []) ≡ true)
          → member d (keep (λ y. member y component) g.order) ≡ true
    closed_part x d k n o after =
        let (visited', component) = component_of g id visited in
        let p = λ (y : Text). member y component in
        let (ux, ax) = component_of-union g id visited x in
        let (ud, ad) = component_of-union g id visited d in
        let kx = member-keep x p g.order in
        let a = after (ground (arith, k, kx, ux)) n o in
        let back = h d x in
        unfold member in
        ground (
          arith,
          a,
          o,
          n,
          k,
          kx,
          member-keep d p g.order,
          ux,
          ax,
          ud,
          ad,
          back,
          neighbour_symm g x d s,
        )

pub member-count : (x : Text) (l : List Text) → member x l ≡ ltb 0 (count x l)
unfolding member count
member-count x [] = refl
member-count x (y ∷ l) = ground (arith, member-count x l)

order_inside :
    (xs ys : List Text)
    → ((x : Text) → member x xs ≡ true → member x ys ≡ true)
    → All (λ x. member x ys ≡ true) xs
unfolding member
order_inside [] ys h = tt
order_inside (x ∷ xs) ys h =
    (h x (ground (arith, same_refl x)), order_inside xs ys (λ z k. h z (ground arith)))

pub connected_components-IsPipeline :
    (g : DepGraph) → IsSymmetric g → All (IsPipeline g) (connected_components g)
unfolding connected_components
connected_components-IsPipeline g s =
    components_from-IsPipeline g g.order [] s (order_inside g.order g.order (λ x h. h))
      (λ x d k n o. absurd_member x k)
  where
    absurd_member : {P : Type 0} (x : Text) → member x [] ≡ true → P
    absurd_member x k = unfold member in cc

-- ===== src/Models/Dag/Partition.antt =====
-- The components partition the order (internal/models/dag.go).
use Prim.Native.Nat.{ℕ, zero, suc, ◌<◌}
use mathlib.Core.Path.{◌≡◌, refl, ap, ◌∙◌}
use mathlib.Core.Logic.{inl, inr}
use mathlib.Core.Bool.{true, false, ◌&&◌, ◌||◌}
use mathlib.Core.List.{List, [], ◌∷◌, ◌++◌}
use native.Mathlib.Omega.{arith}
use ch_ui.Prelude.Tests.{if◌then◌else◌, Bool-cases}
use ch_ui.Prelude.Lists.{keep}
use ch_ui.Prelude.Text.{Text, same, same_refl, same→eq}
use ch_ui.Prelude.Counts.{count, count-append}
use ch_ui.Models.Dag.{DepGraph, slice}
use ch_ui.Models.Dag.Components.{
  member, fresh, weight, search_from, component_of, components_from, connected_components,
}

-- All members of all components.
abbrev pub concat : List (List Text) → List Text
concat [] = []
concat (c ∷ cs) = c ++ concat cs

pub count-keep :
    (l c : List Text) (x : Text)
    → count x (keep (λ y. member y c) l) ≡ (if member x c then count x l else 0)
unfolding count keep
count-keep [] c x = ground arith
count-keep (y ∷ l) c x = elim (Bool-cases (same y x)) [
  | inl e ↦ let e' = same→eq y x e in rw e' (ground (arith, count-keep l c x, same_refl x))
  | inr e ↦ ground (arith, count-keep l c x)
]

pub member-cong : (x y : Text) (l : List Text) → same x y ≡ true → member x l ≡ member y l
member-cong x y l e = ap (λ t. member t l) (same→eq x y e)

-- Marking a model that was not visited keeps the account of both sets.
mark_step :
    (cur x : Text) (visited component old : List Text)
    → member cur visited ≡ false
    → member x visited ≡ (member x old || member x component)
    → (member x old && member x component) ≡ false
    → (member x (cur ∷ visited) ≡ (member x old || member x (cur ∷ component)))
      × ((member x old && member x (cur ∷ component)) ≡ false)
unfolding member
mark_step cur x visited component old new h k = elim (Bool-cases (same cur x)) [
  | inl e ↦ ground (arith, member-cong cur x visited e)
  | inr e ↦ ground arith
]

-- A search adds to both sets alike.
pub search_from-union :
    (g : DepGraph) (fuel : ℕ) (queue visited component old : List Text) (x : Text)
    → member x visited ≡ (member x old || member x component)
    → (member x old && member x component) ≡ false
    → let (visited', component') = search_from fuel g queue visited component in
      (member x visited' ≡ (member x old || member x component'))
      × ((member x old && member x component') ≡ false)
unfolding search_from
search_from-union g zero queue visited component old x h k = (h, k)
search_from-union g (suc fuel) [] visited component old x h k = (h, k)
search_from-union g (suc fuel) (cur ∷ queue) visited component old x h k =
    elim (Bool-cases (member cur visited)) [
      | inl seen ↦ rw seen (search_from-union g fuel queue visited component old x h k)
      | inr new ↦
          let (h', k') = mark_step cur x visited component old new h k in
          rw new (
            search_from-union g fuel
              (queue
                ++ (fresh g.order (cur ∷ visited) (slice cur g.deps)
                    ++ fresh g.order (cur ∷ visited) (slice cur g.rev_deps)))
              (cur ∷ visited) (cur ∷ component) old x h' k')
    ]

-- What is visited stays visited, and the model that a search starts from is visited after it.
search_from-grows :
    (g : DepGraph) (fuel : ℕ) (queue visited component : List Text) (x : Text)
    → member x visited ≡ true
    → member x (search_from fuel g queue visited component).0 ≡ true
unfolding search_from
search_from-grows g zero queue visited component x h = h
search_from-grows g (suc fuel) [] visited component x h = h
search_from-grows g (suc fuel) (cur ∷ queue) visited component x h =
    elim (Bool-cases (member cur visited)) [
      | inl seen ↦ rw seen (search_from-grows g fuel queue visited component x h)
      | inr new ↦ rw new (
          search_from-grows g fuel
            (queue
              ++ (fresh g.order (cur ∷ visited) (slice cur g.deps)
                  ++ fresh g.order (cur ∷ visited) (slice cur g.rev_deps)))
            (cur ∷ visited) (cur ∷ component) x (unfold member in ground arith))
    ]

pub component_of-start :
    (g : DepGraph) (id : Text) (visited : List Text)
    → member id (component_of g id visited).0 ≡ true
unfolding component_of search_from
component_of-start g id visited = elim (Bool-cases (member id visited)) [
  | inl seen ↦ rw seen (search_from-grows g (suc (weight g visited g.order)) [] visited [] id seen)
  | inr new ↦ rw new (
      search_from-grows g (suc (weight g visited g.order))
        (fresh g.order (id ∷ visited) (slice id g.deps)
          ++ fresh g.order (id ∷ visited) (slice id g.rev_deps))
        (id ∷ visited) (id ∷ []) id (unfold member in ground (arith, same_refl id)))
]

pub component_of-union :
    (g : DepGraph) (id : Text) (visited : List Text) (x : Text)
    → let (visited', component) = component_of g id visited in
      (member x visited' ≡ (member x visited || member x component))
      × ((member x visited && member x component) ≡ false)
unfolding component_of
component_of-union g id visited x =
    search_from-union g (suc (suc (weight g visited g.order))) (id ∷ []) visited [] visited x
      (unfold member in ground arith) (unfold member in ground arith)

drop_head :
    (id x : Text) (ids done : List Text)
    → member id done ≡ true
    → member x done ≡ false
    → 0 < count x (id ∷ ids)
    → 0 < count x ids
unfolding count
drop_head id x ids done h k there = elim (Bool-cases (same id x)) [
  | inl e ↦ ground (arith, member-cong id x done e)
  | inr e ↦ ground arith
]

-- The components found from the models `ids` hold those of the order that are not visited before.
components_from-count :
    (g : DepGraph) (ids visited : List Text) (x : Text)
    → (member x visited ≡ false → 0 < count x g.order → 0 < count x ids)
    → count x (concat (components_from g ids visited))
      ≡ (if member x visited then 0 else count x g.order)
unfolding components_from
components_from-count g [] visited x h = unfold count in ground arith
components_from-count g (id ∷ ids) visited x h = elim (Bool-cases (member id visited)) [
  | inl seen ↦ rw seen (
      components_from-count g ids visited x
        (λ k there. drop_head id x ids visited seen k (h k there)))
  | inr new ↦
      let (visited', component) = component_of g id visited in
      let (union, apart) = component_of-union g id visited x in
      let rest = components_from-count g ids visited' x (λ k there.
        drop_head id x ids visited' (component_of-start g id visited) k
          (h (ground (arith, union, k)) there)) in
      rw new (
        ground (
          arith,
          rest,
          union,
          apart,
          count-keep g.order component x,
          count-append x (keep (λ y. member y component) g.order)
              (concat (components_from g ids visited')),
        ))
]

-- The components partition the order: each model stands in the components, taken together, exactly
-- as often as in the order.
pub count-connected_components :
    (g : DepGraph) (x : Text) → count x (concat (connected_components g)) ≡ count x g.order
unfolding connected_components
count-connected_components g x =
    components_from-count g g.order [] x (λ _ h. h) ∙ (unfold member in refl)

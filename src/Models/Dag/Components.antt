-- ===== src/Models/Dag/Components.antt =====
-- `ConnectedComponents`, `ComponentContaining` and `GetUpstreamDeps` of internal/models/dag.go. A
-- `map[string]bool` that only ever gets `true` is the list of its keys.
use Prim.Native.Nat.{ℕ, zero, suc, ◌+◌}
use mathlib.Core.Bool.{Bool, true, false, not, ◌&&◌, ◌||◌}
use mathlib.Core.List.{List, [], ◌∷◌, ◌++◌}
use ch_ui.Prelude.Tests.{if◌then◌else◌}
use ch_ui.Prelude.Lists.{length, keep}
use ch_ui.Prelude.Text.{Text, same}
use ch_ui.Models.Dag.{Lists, DepGraph, slice}

unfoldable pub member : Text → List Text → Bool
member x [] = false
member x (y ∷ l) = same y x || member x l

-- What the code appends to the queue from one list of neighbours.
unfoldable pub fresh : List Text → List Text → List Text → List Text
unfolding keep member
fresh everything visited = keep (λ x. not (member x visited) && member x everything)

-- How many rounds are at most to come: what waits, and what the models not visited can add.
unfoldable pub weight : DepGraph → List Text → List Text → ℕ
weight g visited [] = 0
weight g visited (x ∷ xs) =
    let rest = weight g visited xs in
    if member x visited then rest else length (slice x g.deps) + length (slice x g.rev_deps) + rest

-- The search over undirected edges from the queue; it returns `visited` and `component`.
unfoldable pub search_from :
    ℕ → DepGraph → List Text → List Text → List Text → List Text × List Text
unfolding fresh
search_from zero g queue visited component = (visited, component)
search_from (suc fuel) g [] visited component = (visited, component)
search_from (suc fuel) g (cur ∷ queue) visited component =
    let seen = search_from fuel g queue visited component in
    let marked = cur ∷ visited in
    let new =
      search_from fuel g
        (queue
          ++ (fresh g.order marked (slice cur g.deps)
              ++ fresh g.order marked (slice cur g.rev_deps)))
        marked (cur ∷ component) in
    if member cur visited then seen else new

-- The search from one model, with fuel for every round.
unfoldable pub component_of : DepGraph → Text → List Text → List Text × List Text
unfolding search_from weight
component_of g id visited =
    search_from (suc (suc (weight g visited g.order))) g (id ∷ []) visited []

unfoldable pub components_from : DepGraph → List Text → List Text → List (List Text)
components_from g [] visited = []
components_from g (id ∷ ids) visited =
    let skip = components_from g ids visited in
    let (visited', component) = component_of g id visited in
    let more = keep (λ x. member x component) g.order ∷ components_from g ids visited' in
    if member id visited then skip else more

-- `ConnectedComponents`
unfoldable pub connected_components : DepGraph → List (List Text)
unfolding components_from
connected_components g = components_from g g.order []

unfoldable pub first_with : Text → List (List Text) → List Text
first_with id [] = []
first_with id (c ∷ cs) = if member id c then c else first_with id cs

-- `ComponentContaining`; the nil slice is the empty list.
unfoldable pub component_containing : DepGraph → Text → List Text
unfolding first_with
component_containing g id = first_with id (connected_components g)

-- `walk` of `GetUpstreamDeps`: one call on the dependencies `todo` of a model, with the calls that it
-- makes. The fuel bounds the depth of the calls.
unfoldable pub walk : ℕ → Lists → List Text → List Text → List Text
walk fuel deps [] visited = visited
walk zero deps (d ∷ todo) visited = visited
walk (suc fuel) deps (d ∷ todo) visited =
    let inner = walk fuel deps (slice d deps) (d ∷ visited) in
    elim (member d visited) [
      | true ↦ walk (suc fuel) deps todo visited
      | false ↦ walk (suc fuel) deps todo inner
    ]

-- `GetUpstreamDeps`, for a graph of at most `size` models.
unfoldable pub get_upstream_deps : ℕ → Text → Lists → List Text
unfolding walk
get_upstream_deps size model_id deps = walk (suc size) deps (slice model_id deps) []

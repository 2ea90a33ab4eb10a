-- ===== src/Models/Dag/Links.antt =====
-- The loops of `BuildDAG` over the references of each model build the maps of the edges that the
-- references name (internal/models/dag.go).
use mathlib.Core.Path.{◌≡◌, refl}
use mathlib.Core.Logic.{inl, inr}
use mathlib.Core.Bool.{false}
use mathlib.Core.Option.{Option, none, some}
use mathlib.Core.List.{List, [], ◌∷◌, ◌++◌, append_assoc, append-nil}
use native.Mathlib.Omega.{arith}
use ch_ui.Prelude.Tests.{Bool-cases}
use ch_ui.Prelude.Lists.{All}
use ch_ui.Prelude.Int.{pos}
use ch_ui.Prelude.Text.{Text, same}
use ch_ui.Prelude.Maps.{lookup}
use ch_ui.Prelude.Result.{ok, bind_eq_ok}
use ch_ui.Models.Dag.{
  Lists, Building, slice, degree, start_degrees, add_edge, link_found, link_refs, link_all,
}
use ch_ui.Models.Dag.Edges.{
  Edges, Represents, targets, sources, waiting, add_edge-Represents, degree-insert,
}

abbrev pub edge_to : Text → Option Text → Edges
edge_to id none = []
edge_to id (some dep) = (dep, id) ∷ []

-- The edges that the references of one model name, and those of all models.
unfoldable pub edges_from : List (Text × Text) → Text → List Text → Edges
edges_from name_to_id id [] = []
edges_from name_to_id id (name ∷ names) =
    edge_to id (lookup name name_to_id) ++ edges_from name_to_id id names

unfoldable pub edges_of : List (Text × Text) → Lists → Edges
unfolding edges_from
edges_of name_to_id [] = []
edges_of name_to_id ((id, names) ∷ refs) =
    edges_from name_to_id id names ++ edges_of name_to_id refs

start-degree : (ids : List Text) (x : Text) → degree x (start_degrees ids) ≡ pos 0
unfolding start_degrees
start-degree [] x = unfold degree lookup in refl
start-degree (id ∷ ids) x =
    ground (arith, degree-insert id x (pos 0) (start_degrees ids), start-degree ids x)

pub start-Represents :
    (ids : List Text)
    → Represents (record { deps = []; rev_deps = []; in_degree = start_degrees ids }) []
unfolding slice lookup sources targets waiting
start-Represents ids = record {
  deps_are = λ x. refl;
  rev_deps_are = λ d. refl;
  degrees_are = start-degree ids;
}

link_found-Represents :
    (id name : Text) (found : Option Text) (b b' : Building) (es : Edges)
    → link_found id name found b ≡ ok b'
    → Represents b es
    → Represents b' (es ++ edge_to id found)
unfolding link_found
link_found-Represents id name none b b' es e h = cc
link_found-Represents id name (some dep) b b' es e h = elim (Bool-cases (same dep id)) [
  | inl self ↦ let e' = rw self at e in cc
  | inr other ↦
      let e' : add_edge id dep b ≡ b' = ground (arith, e, other) in
      rw (← e') (add_edge-Represents b es id dep h)
]

link_refs-Represents :
    (name_to_id : List (Text × Text)) (id : Text) (names : List Text) (b b' : Building) (es : Edges)
    → link_refs name_to_id id names b ≡ ok b'
    → Represents b es
    → Represents b' (es ++ edges_from name_to_id id names)
unfolding link_refs edges_from
link_refs-Represents name_to_id id [] b b' es e h =
    let e' : b ≡ b' = ground arith in rw (append-nil es, ← e') h
link_refs-Represents name_to_id id (name ∷ names) b b' es e h =
    let found = lookup name name_to_id in
    let (c, q, k) =
      bind_eq_ok (link_found id name found b) (λ c. link_refs name_to_id id names c) e in
    rw (← append_assoc es (edge_to id found) (edges_from name_to_id id names)) (
      link_refs-Represents name_to_id id names c b' (es ++ edge_to id found) k
        (link_found-Represents id name found b c es q h))

pub link_all-Represents :
    (name_to_id : List (Text × Text)) (refs : Lists) (b b' : Building) (es : Edges)
    → link_all name_to_id refs b ≡ ok b'
    → Represents b es
    → Represents b' (es ++ edges_of name_to_id refs)
unfolding link_all edges_of
link_all-Represents name_to_id [] b b' es e h =
    let e' : b ≡ b' = ground arith in rw (append-nil es, ← e') h
link_all-Represents name_to_id ((id, names) ∷ refs) b b' es e h =
    let (c, q, k) =
      bind_eq_ok (link_refs name_to_id id names b) (λ c. link_all name_to_id refs c) e in
    rw (← append_assoc es (edges_from name_to_id id names) (edges_of name_to_id refs)) (
      link_all-Represents name_to_id refs c b' (es ++ edges_from name_to_id id names) k
        (link_refs-Represents name_to_id id names b c es q h))

-- A reference names a model, and not the model itself.
pub record Resolves (name_to_id : List (Text × Text)) (id name : Text) : Type 0 where
  pub dep : Text
  pub found : lookup name name_to_id ≡ some dep
  pub other : same dep id ≡ false

abbrev pub AllResolve : List (Text × Text) → Lists → Type 0
AllResolve name_to_id = All (λ r. All (Resolves name_to_id r.0) r.1)

link_refs_total :
    (name_to_id : List (Text × Text)) (id : Text) (names : List Text) (b : Building)
    → All (Resolves name_to_id id) names
    → (b' : Building) × (link_refs name_to_id id names b ≡ ok b')
unfolding link_refs
link_refs_total name_to_id id [] b h = (b, refl)
link_refs_total name_to_id id (name ∷ names) b (r, h) =
    rw (r.found, r.other) (link_refs_total name_to_id id names (add_edge id r.dep b) h)

pub link_all_total :
    (name_to_id : List (Text × Text)) (refs : Lists) (b : Building)
    → AllResolve name_to_id refs
    → (b' : Building) × (link_all name_to_id refs b ≡ ok b')
unfolding link_all
link_all_total name_to_id [] b h = (b, refl)
link_all_total name_to_id ((id, names) ∷ refs) b (r, h) =
    let (c, q) = link_refs_total name_to_id id names b r in
    rw q (link_all_total name_to_id refs c h)

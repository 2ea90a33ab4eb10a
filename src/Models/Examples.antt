-- ===== src/Models/Examples.antt =====
-- Two models, of which one references the other.
use Prim.Native.Nat.{ℕ, ◌+◌, ◌≤◌, ◌<◌}
use mathlib.Core.Path.{◌≡◌, refl}
use mathlib.Core.Logic.{◌↔◌}
use mathlib.Core.Bool.{Bool, true}
use mathlib.Core.Option.{none, some}
use mathlib.Core.List.{List, [], ◌∷◌, ◌++◌}
use native.Mathlib.Omega.{arith}
use ch_ui.Prelude.Tests.{if◌then◌else◌}
use ch_ui.Prelude.Int.{◌+ℤ◌, ◌-ℤ◌}
use ch_ui.Prelude.Lists.{All, keep, any, length}
use ch_ui.Prelude.Text.{Text, codes, same, same_iff}
use ch_ui.Prelude.Maps.{lookup, insert}
use ch_ui.Prelude.Counts.{count}
use ch_ui.Prelude.Result.{ok}
use ch_ui.Models.Dag.{Lists, DepGraph, slice, degree, start_degrees, add_edge, positives, build_dag}
use ch_ui.Models.Dag.Links.{edges_of, AllResolve}
use ch_ui.Models.Dag.Order.{IsInput, build_dag-topological}
use ch_ui.Models.Dag.Acyclic.{build_dag-acyclic}
use ch_ui.Models.Dag.Components.{
  member, component_of, connected_components, component_containing, get_upstream_deps,
}
use ch_ui.Models.Dag.Partition.{concat, count-connected_components}
use ch_ui.Models.Dag.Complete.{component_containing_complete}
use ch_ui.Models.Ref.{extract_refs, resolve_refs}
use ch_ui.Models.RefLaws.{HasTarget, resolve_refs-extract_refs}
use ch_ui.Models.Runner.{
  Model, Environment, RunStatus, all_success, Action, finalize, run_model, execute,
}
use ch_ui.Models.Runner.Failures.{execute-counts, execute-propagates}
use ch_ui.Models.Runner.Lock.{
  Runs, Reach, here, next, begin, idle, is_running, acquire_lock, Reach-one_run, change,
}

abbrev a : Text
a = codes "1"

abbrev b : Text
b = codes "2"

abbrev ids : List Text
ids = b ∷ a ∷ []

abbrev refs : Lists
refs = (b, codes "base" ∷ []) ∷ (a, []) ∷ []

abbrev names : List (Text × Text)
names = (codes "base", a) ∷ (codes "top", b) ∷ []

two_models-IsInput : IsInput ids refs names
unfolding count lookup same
two_models-IsInput = record {
  unique = λ x. ground (arith, same_iff a x, same_iff b x);
  known = omega arith;
  named = λ name dep h. ground arith;
}

abbrev graph : DepGraph
graph = record { order = a ∷ b ∷ []; deps = (b, a ∷ []) ∷ []; rev_deps = (a, b ∷ []) ∷ [] }

graph_built : build_dag ids refs names ≡ ok graph
unfolding build_dag start_degrees add_edge slice degree positives insert lookup same ◌+ℤ◌ ◌-ℤ◌
graph_built = refl

build_dag-topological_example :
    ((x : Text) → count x graph.order ≡ count x ids)
    × ((before after : List Text) (x : Text)
        → graph.order ≡ before ++ x ∷ after
        → All (λ d. 0 < count d before) (slice x graph.deps))
build_dag-topological_example =
    build_dag-topological ids refs names graph two_models-IsInput graph_built

abbrev rank : Text → ℕ
rank x = if same x b then 1 else 0

refs_resolve : AllResolve names refs
unfolding lookup same
refs_resolve = ((record { dep = a; found = refl; other = refl }, tt), (tt, tt))

ranks_fall : All (λ e. rank e.0 < rank e.1) (edges_of names refs)
unfolding edges_of lookup same
ranks_fall = omega arith

build_dag-acyclic_example : (g : DepGraph) × (build_dag ids refs names ≡ ok g)
build_dag-acyclic_example =
    build_dag-acyclic ids refs names rank two_models-IsInput refs_resolve ranks_fall

count-connected_components_example :
    count b (concat (connected_components graph)) ≡ count b graph.order
count-connected_components_example = count-connected_components graph b

-- A third model stands alone.
abbrev graph_of_three : DepGraph
graph_of_three = record graph { order = a ∷ codes "3" ∷ b ∷ [] }

two_components : connected_components graph_of_three ≡ (a ∷ b ∷ []) ∷ (codes "3" ∷ []) ∷ []
unfolding connected_components component_of slice lookup same member keep
two_components = refl

b_needs_a : get_upstream_deps 3 b graph.deps ≡ a ∷ []
unfolding get_upstream_deps slice lookup same member
b_needs_a = refl

component_containing_complete_example :
    let pipeline = component_containing graph b in
    (member b pipeline ≡ true)
    × ((x d : Text)
        → member x pipeline ≡ true
        → member d (slice x graph.deps) ≡ true
        → member d pipeline ≡ true)
    × ((part : Text → Bool) × (pipeline ≡ keep part graph.order))
unfolding count same
component_containing_complete_example =
    component_containing_complete ids refs names graph b two_models-IsInput graph_built
      (omega arith)

abbrev top_sql : Text
top_sql = codes "SELECT 1 FROM $ref( base ) /* $ref(no) */ -- $ref(no)"

abbrev target_of : List (Text × Text)
target_of = (codes "base", codes "db") ∷ []

resolved : resolve_refs top_sql target_of ≡ (codes "SELECT 1 FROM `db`.`base`  ", none)
unfolding resolve_refs lookup same
resolved = refl

resolve_refs-extract_refs_example :
    ((resolve_refs top_sql target_of).1 ≡ none) ↔ All (HasTarget target_of) (extract_refs top_sql)
resolve_refs-extract_refs_example = resolve_refs-extract_refs top_sql target_of

-- A gateway that refuses every statement.
abbrev broken : Environment
broken = record { query = λ _ _. some (codes "offline"); elapsed = λ _. 0 }

abbrev models : List (Text × Model)
models =
    (
      a,
      record {
        id = a;
        name = codes "base";
        target_database = codes "db";
        materialization = codes "view";
        table_engine = [];
        order_by = [];
        sql_body = codes "SELECT 1";
      },
    )
    ∷ []

execute-counts_example :
    let p = execute broken graph models target_of in
    let total = length graph.order in
    (p.succeeded + p.failed_count + p.skipped_count ≡ total)
    × ((status : RunStatus) × (earlier : List Action) × (p.actions
          ≡ earlier ++ finalize status p.succeeded p.failed_count p.skipped_count ∷ [])
        × ((status ≡ all_success) ↔ ((p.succeeded ≡ total) × (0 < total))))
execute-counts_example = execute-counts broken graph models target_of

execute-propagates_example : member b (execute broken graph models target_of).failed ≡ true
unfolding slice lookup same member execute run_model any count
execute-propagates_example =
    execute-propagates broken ids refs names graph models target_of b a two_models-IsInput
      graph_built (omega arith) refl refl

abbrev conn : Text
conn = codes "conn"

abbrev busy : Runs
busy = record { running = (conn, true) ∷ []; active = change (λ _. 0) conn (λ n. n + 1) }

busy_reached : Reach idle busy
unfolding acquire_lock lookup insert
busy_reached = next here (begin idle conn ((conn, true) ∷ []) refl)

Reach-one_run_example :
    (busy.active conn ≤ 1) × ((is_running busy.running conn ≡ true) ↔ (0 < busy.active conn))
Reach-one_run_example = Reach-one_run conn busy_reached

-- ===== src/Models/RunExamples.antt =====
-- Tests and witnesses for the entry points of the runner and its scheduler.
use Prim.Native.Nat.{ℕ, ◌+◌, ◌<◌}
use mathlib.Core.Path.{◌≡◌, refl}
use mathlib.Core.Logic.{◌⊎◌, ◌↔◌}
use mathlib.Core.Bool.{true}
use mathlib.Core.Option.{none, some}
use mathlib.Core.List.{List, [], ◌∷◌, ◌++◌}
use native.Mathlib.Omega.{arith}
use ch_ui.Prelude.Int.{◌+ℤ◌, ◌-ℤ◌, pos}
use ch_ui.Prelude.Lists.{All, length}
use ch_ui.Prelude.Options.{◌>>=◌}
use ch_ui.Prelude.Text.{Text, codes, same, same_iff, trim}
use ch_ui.Prelude.Maps.{lookup, insert}
use ch_ui.Prelude.Counts.{count}
use ch_ui.Prelude.Result.{ok}
use ch_ui.Scheduler.Cron.{Schedule, range_values, fields, parse_cron}
use ch_ui.Models.Dag.{
  Lists, DepGraph, Building, slice, degree, start_degrees, add_edge, roots, positives, kahn,
  link_all, build_dag,
}
use ch_ui.Models.Dag.Order.{IsInput, kahn-ends}
use ch_ui.Models.Dag.Components.{member, get_upstream_deps}
use ch_ui.Models.Dag.Upstream.{Upstream}
use ch_ui.Models.Dag.Reached.{get_upstream_deps_iff}
use ch_ui.Models.Runner.{Model, Environment, Progress}
use ch_ui.Models.Runner.Lock.{is_running}
use ch_ui.Models.Runner.Runs.{Site, first_login, find_credentials, single_graph, run_all}
use ch_ui.Models.Runner.RunsLaws.{single_graph-order}
use ch_ui.Models.Runner.Validate.{validate}
use ch_ui.Models.Runner.Validated.{validate-run_all}
use ch_ui.Models.Schedule.{ModelSchedule, Surroundings, Ticking, tick_models}
use ch_ui.Models.ScheduleLaws.{updated, due_ids, IsLater, IsRead, tick_models-Ticked}

abbrev a : Text
a = codes "1"

abbrev b : Text
b = codes "2"

abbrev ids : List Text
ids = b ∷ a ∷ []

abbrev refs : Lists
refs = (b, codes "base" ∷ []) ∷ (a, []) ∷ []

abbrev names : List (Text × Text)
names = (codes "base", a) ∷ (codes "top", b) ∷ []

ids-IsInput : IsInput ids refs names
unfolding count lookup same
ids-IsInput = record {
  unique = λ x. ground (arith, same_iff a x, same_iff b x);
  known = omega arith;
  named = λ name dep h. ground arith;
}

abbrev graph : DepGraph
graph = record { order = a ∷ b ∷ []; deps = (b, a ∷ []) ∷ []; rev_deps = (a, b ∷ []) ∷ [] }

graph_there : build_dag ids refs names ≡ ok graph
unfolding build_dag start_degrees add_edge slice degree positives insert lookup same ◌+ℤ◌ ◌-ℤ◌
graph_there = refl

abbrev filled : Building
filled = record {
  deps = (b, a ∷ []) ∷ [];
  rev_deps = (a, b ∷ []) ∷ [];
  in_degree = (a, pos 0) ∷ (b, pos 1) ∷ [];
}

filled_there :
    link_all names refs (record { deps = []; rev_deps = []; in_degree = start_degrees ids })
    ≡ ok filled
unfolding link_all start_degrees add_edge slice degree insert lookup same ◌+ℤ◌
filled_there = refl

kahn-ends_example :
    (kahn
      (ℕ.suc (length (roots filled.in_degree ids) + positives filled.in_degree))
      filled.rev_deps
      filled.in_degree
      (roots filled.in_degree ids)
      []).0
    ≡ []
kahn-ends_example = kahn-ends ids refs names filled ids-IsInput filled_there

deps_inside : (x d : Text) → member d (slice x graph.deps) ≡ true → member d (a ∷ []) ≡ true
unfolding slice lookup member
deps_inside x d h = ground arith

get_upstream_deps_iff_example :
    (member a (get_upstream_deps 1 b graph.deps) ≡ true) ↔ Upstream graph.deps b a
get_upstream_deps_iff_example =
    get_upstream_deps_iff graph.deps (a ∷ []) 1 b deps_inside (omega arith) a

single_graph-order_example :
    let order = (single_graph b graph).order in
    ((x : Text) → (member x order ≡ true) ↔ ((b ≡ x) ⊎ Upstream graph.deps b x))
    × ((before after : List Text) (x : Text)
        → order ≡ before ++ x ∷ after
        → All (λ d. 0 < count d before) (slice x graph.deps))
unfolding count same
single_graph-order_example =
    single_graph-order ids refs names graph b ids-IsInput graph_there (omega arith)

abbrev base : Model
base = record {
  id = a;
  name = codes "base";
  target_database = codes "db";
  materialization = codes "view";
  table_engine = [];
  order_by = [];
  sql_body = codes "SELECT 1";
}

abbrev gateway : Environment
gateway = record { query = λ _ _. none; elapsed = λ _. 1 }

abbrev site : Site
site = record {
  online = true;
  sessions = ok (record { clickhouse_user = codes "u"; encrypted_password = codes "x" } ∷ []);
  decrypt = λ p. some p;
  models = ok (base ∷ []);
  created = ok (codes "run");
}

validate-run_all_example :
    (validate site.models ≡ ok [])
    ↔ ((p : Progress) × ((run_all gateway site (codes "c") []).1 ≡ ok (codes "run", p)))
unfolding find_credentials first_login is_running lookup
validate-run_all_example =
    validate-run_all gateway site (codes "c") (codes "run") [] base [] (codes "u", codes "x")
      (tt, tt) refl refl refl refl refl

abbrev hourly : ModelSchedule
hourly = record {
  id = codes "s1";
  connection_id = codes "c";
  anchor_model_id = some a;
  cron = codes "0 * * * *";
  next_run_at = some (codes "now");
}

abbrev surroundings : Surroundings
surroundings = record {
  parse_time = λ _. some 0;
  clock = λ _. 60;
  gateway = λ _. gateway;
  site = λ _ _. site;
}

abbrev every_hour : Schedule
every_hour = record {
  minutes = 0 ∷ [];
  hours = range_values 0 23 1;
  dom = range_values 1 31 1;
  months = range_values 1 12 1;
  dow = range_values 0 6 1;
}

hourly-IsRead : IsRead hourly
unfolding parse_cron fields trim same ◌>>=◌ range_values
hourly-IsRead = (some every_hour, refl)

tick_models-Ticked_example :
    (t : Ticking) × (tick_models surroundings 60 (ok (hourly ∷ [])) [] ≡ some t)
    × (updated t.updates ≡ due_ids surroundings 60 (hourly ∷ []))
    × All (IsLater 60) t.updates
    × ((j : Text) → is_running t.running j ≡ is_running [] j)
tick_models-Ticked_example =
    tick_models-Ticked surroundings 60 (hourly ∷ []) [] (λ _. omega arith) (hourly-IsRead, tt)

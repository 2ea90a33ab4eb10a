-- ===== src/Models/Runner.antt =====
-- The model runner: internal/models/runner.go. The tunnel gateway and the clock are the environment's
-- choice after each action so far; the statements of internal/database whose errors the runner drops
-- are recorded as actions.
pub mod Propagation
pub mod Failures
pub mod Lock
pub mod Runs
pub mod RunsLaws
pub mod Validate
pub mod ValidateLaws
pub mod Validated
use Prim.Native.Nat.{ℕ, zero, suc, ◌+◌}
use mathlib.Core.Bool.{Bool, true, false, not, ◌&&◌, ◌||◌}
use mathlib.Core.Option.{Option, none, some}
use mathlib.Core.List.{List, [], ◌∷◌, ◌++◌}
use ch_ui.Prelude.Tests.{ltb, ◌==◌, if◌then◌else◌}
use ch_ui.Prelude.Lists.{length, keep, any}
use ch_ui.Prelude.Text.{Text, codes, same, is_blank}
use ch_ui.Prelude.Maps.{lookup, insert}
use ch_ui.Prelude.Result.{Result, ok, err, ◌>>=◌}
use ch_ui.Models.Dag.{Lists, DepGraph, DagError, slice, build_dag}
use ch_ui.Models.Dag.Components.{member, component_containing, get_upstream_deps}
use ch_ui.Models.Ref.{extract_refs, resolve_refs}

-- The fields of `database.Model` that the runner reads.
pub record Model : Type 0 where
  pub id : Text
  pub name : Text
  pub target_database : Text
  pub materialization : Text
  pub table_engine : Text
  pub order_by : Text
  pub sql_body : Text

-- What a map of models gives for a key that is not there.
abbrev pub zero_model : Model
zero_model = record {
  id = [];
  name = [];
  target_database = [];
  materialization = [];
  table_engine = [];
  order_by = [];
  sql_body = [];
}

abbrev pub or_zero_model : Option Model → Model
or_zero_model none = zero_model
or_zero_model (some m) = m

pub data Status : Type 0 where
  success failure skipped running : Status

pub data RunStatus : Type 0 where
  all_success partial_success run_error : RunStatus

-- The calls that the runner makes of the database and of the gateway.
pub data Action : Type 0 where
  create_result : Text → Text → Action
  update_result : Text → Status → Text → ℕ → Text → Action
  update_status : Text → Bool → Text → Action
  execute_query : Text → Action
  finalize : RunStatus → ℕ → ℕ → ℕ → Action

-- `query` answers a statement after the actions so far: an error, or none. `elapsed` are milliseconds.
pub record Environment : Type 0 where
  pub query : List Action → Text → Option Text
  pub elapsed : List Action → ℕ

-- The variables of the loop of `execute`.
pub record Progress : Type 0 where
  pub failed : List Text
  pub succeeded : ℕ
  pub failed_count : ℕ
  pub skipped_count : ℕ
  pub actions : List Action

-- `buildDDL`
unfoldable pub build_ddl : Model → Text → List Text
build_ddl m sql =
    let path = codes "`" ++ m.target_database ++ codes "`.`" ++ m.name ++ codes "`" in
    if same m.materialization (codes "table")
    then (codes "DROP TABLE IF EXISTS " ++ path)
      ∷ (codes "CREATE TABLE "
          ++ path
          ++ codes " ENGINE = "
          ++ m.table_engine
          ++ codes " ORDER BY "
          ++ m.order_by
          ++ codes " AS "
          ++ sql)
      ∷ []
    else (codes "CREATE OR REPLACE VIEW " ++ path ++ codes " AS " ++ sql) ∷ []

-- The loop over the statements, which stops at the first error.
unfoldable pub run_statements : Environment → List Text → List Action → Option Text × List Action
run_statements env [] actions = (none, actions)
run_statements env (stmt ∷ stmts) actions =
    let rest = run_statements env stmts (actions ++ execute_query stmt ∷ []) in
    elim (env.query actions stmt) [
      | none ↦ rest
      | some e ↦ (some e, actions ++ execute_query stmt ∷ [])
    ]

-- `stmts[len(stmts)-1]`
unfoldable pub last_statement : List Text → Text
last_statement [] = []
last_statement (s ∷ []) = s
last_statement (s ∷ t ∷ ss) = last_statement (t ∷ ss)

abbrev log : Progress → List Action → Progress
log p more = record p { actions = p.actions ++ more }

-- An upstream dependency failed.
unfoldable pub skip_model : Text → Progress → Progress
skip_model id p = record p {
  skipped_count = p.skipped_count + 1;
  failed = id ∷ p.failed;
  actions =
      p.actions
      ++ update_result id skipped [] 0 (codes "upstream dependency failed")
        ∷ update_status id false (codes "upstream dependency failed")
        ∷ [];
}

unfoldable pub fail_model : Text → Text → ℕ → Text → Progress → Progress
fail_model id sql elapsed error p = record p {
  failed_count = p.failed_count + 1;
  failed = id ∷ p.failed;
  actions =
      p.actions ++ update_result id failure sql elapsed error ∷ update_status id false error ∷ [];
}

unfoldable pub succeed_model : Text → Text → ℕ → Progress → Progress
succeed_model id sql elapsed p = record p {
  succeeded = p.succeeded + 1;
  actions = p.actions ++ update_result id success sql elapsed [] ∷ update_status id true [] ∷ [];
}

-- The end of a round, when the statements have been run.
unfoldable pub settle : Environment → Text → Text → Progress → Option Text × List Action → Progress
unfolding fail_model succeed_model
settle env id ddl p (none, actions) =
    succeed_model id ddl (env.elapsed actions) (record p { actions = actions })
settle env id ddl p (some e, actions) =
    fail_model id ddl (env.elapsed actions) e (record p { actions = actions })

unfoldable pub build_resolved :
    Environment → Text → Model → Progress → Text × Option Text → Progress
unfolding fail_model settle build_ddl run_statements last_statement
build_resolved env id m p (sql, some name) =
    fail_model id sql 0 (codes "unresolved reference: $ref(" ++ name ++ codes ")") p
build_resolved env id m p (sql, none) =
    let stmts = build_ddl m sql in
    settle env id (last_statement stmts) p
      (run_statements env stmts (p.actions ++ update_result id running [] 0 [] ∷ []))

-- One round of the loop of `execute`.
unfoldable pub run_model :
    Environment → Lists → List (Text × Model) → List (Text × Text) → Text → Progress → Progress
unfolding skip_model build_resolved resolve_refs any
run_model env deps id_to_model model_targets id p =
    let m = or_zero_model (lookup id id_to_model) in
    let resolved = resolve_refs m.sql_body model_targets in
    let should_skip = any (λ dep. member dep p.failed) (slice id deps) in
    if should_skip then skip_model id p else build_resolved env id m p resolved

unfoldable pub run_models :
    Environment → Lists → List (Text × Model) → List (Text × Text) → List Text → Progress → Progress
run_models env deps id_to_model model_targets [] p = p
run_models env deps id_to_model model_targets (id ∷ ids) p =
    run_models env deps id_to_model model_targets ids
      (run_model env deps id_to_model model_targets id p)

unfoldable pub run_status : ℕ → Progress → RunStatus
run_status total p =
    if ltb 0 p.failed_count && ltb 0 p.succeeded
    then partial_success
    else if ltb 0 p.failed_count || p.skipped_count == total
    then run_error
    else all_success

unfoldable pub pending : List (Text × Model) → List Text → List Action
pending id_to_model [] = []
pending id_to_model (id ∷ ids) =
    let m = or_zero_model (lookup id id_to_model) in
    create_result m.id m.name ∷ pending id_to_model ids

-- `execute`, behind the creation of the run.
unfoldable pub execute :
    Environment → DepGraph → List (Text × Model) → List (Text × Text) → Progress
unfolding run_models run_status pending
execute env dag id_to_model model_targets =
    let p = run_models env dag.deps id_to_model model_targets dag.order (record {
      failed = [];
      succeeded = 0;
      failed_count = 0;
      skipped_count = 0;
      actions = pending id_to_model dag.order;
    }) in
    log p
      (finalize (run_status (length dag.order) p) p.succeeded p.failed_count p.skipped_count ∷ [])

-- The maps of `buildDAG`.
pub record Maps : Type 0 where
  pub name_to_id : List (Text × Text)
  pub id_to_model : List (Text × Model)
  pub model_targets : List (Text × Text)
  pub model_ids : List Text
  pub refs_by_id : Lists

abbrev pub no_maps : Maps
no_maps = record {
  name_to_id = [];
  id_to_model = [];
  model_targets = [];
  model_ids = [];
  refs_by_id = [];
}

-- One round of the loop over the models.
abbrev pub add_model : Model → Maps → Maps
add_model m maps = record {
  name_to_id = insert m.name m.id maps.name_to_id;
  id_to_model = insert m.id m maps.id_to_model;
  model_targets = insert m.name m.target_database maps.model_targets;
  model_ids = maps.model_ids ++ m.id ∷ [];
  refs_by_id = insert m.id (extract_refs m.sql_body) maps.refs_by_id;
}

unfoldable pub collect_maps : List Model → Maps → Maps
collect_maps [] maps = maps
collect_maps (m ∷ ms) maps = collect_maps ms (add_model m maps)

-- `(*Runner).buildDAG`
unfoldable pub runner_build_dag : List Model → Result DagError (DepGraph × Maps)
unfolding collect_maps
runner_build_dag all_models =
    let maps = collect_maps all_models no_maps in
    do dag ← build_dag maps.model_ids maps.refs_by_id maps.name_to_id; ok (dag, maps)

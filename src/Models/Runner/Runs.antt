-- ===== src/Models/Runner/Runs.antt =====
-- The entry points of the runner: `RunAll`, `RunPipeline` and `RunSingle` of internal/models/runner.go.
use mathlib.Core.Bool.{Bool, true, ◌||◌}
use mathlib.Core.Option.{Option, none, some}
use mathlib.Core.List.{List, [], ◌∷◌}
use ch_ui.Prelude.Tests.{if◌then◌else◌}
use ch_ui.Prelude.Lists.{length, keep}
use ch_ui.Prelude.Text.{Text, same}
use ch_ui.Prelude.Result.{Result, ok, err, ◌>>=◌}
use ch_ui.Models.Dag.{DepGraph, DagError}
use ch_ui.Models.Dag.Components.{member, component_containing, get_upstream_deps}
use ch_ui.Models.Runner.{Model, Environment, Progress, Maps, execute, runner_build_dag}
use ch_ui.Models.Runner.Lock.{Running, acquire_lock, release_lock}

pub data RunError : Type 0 where
  already_running not_connected no_models no_anchor : RunError
  no_credentials : Text → RunError
  load_models : Text → RunError
  build_error : DagError → RunError
  create_run : Text → RunError

-- A session of the table that the search for credentials reads.
pub record Login : Type 0 where
  pub clickhouse_user : Text
  pub encrypted_password : Text

-- What the database, the gateway and the decryption answer for a connection; `created` is the run's
-- identifier. `none` is a password that cannot be decrypted.
pub record Site : Type 0 where
  pub online : Bool
  pub sessions : Result Text (List Login)
  pub decrypt : Text → Option Text
  pub models : Result Text (List Model)
  pub created : Result Text Text

-- `findCredentials`: the first session whose password can be decrypted.
unfoldable pub first_login : (Text → Option Text) → List Login → Result RunError (Text × Text)
first_login decrypt [] = err (no_credentials [])
first_login decrypt (s ∷ ss) = elim (decrypt s.encrypted_password) [
  | none ↦ first_login decrypt ss
  | some password ↦ ok (s.clickhouse_user, password)
]

unfoldable pub find_credentials : Site → Result RunError (Text × Text)
unfolding first_login
find_credentials site = elim site.sessions [
  | err e ↦ err (no_credentials e)
  | ok sessions ↦ first_login site.decrypt sessions
]

abbrev pub check_online : Site → Result RunError Bool
check_online site = if site.online then ok true else err not_connected

unfoldable pub loaded : Result Text (List Model) → Result RunError (List Model)
loaded (err e) = err (load_models e)
loaded (ok models) = ok models

abbrev pub some_models : List Model → Result RunError (List Model)
some_models [] = err no_models
some_models (m ∷ ms) = ok (m ∷ ms)

unfoldable pub built : Result DagError (DepGraph × Maps) → Result RunError (DepGraph × Maps)
built (err e) = err (build_error e)
built (ok r) = ok r

-- `execute`, with the creation of the run.
unfoldable pub execute_created :
    Environment → Result Text Text → DepGraph → Maps → Result RunError (Text × Progress)
unfolding execute
execute_created env (err e) dag maps = err (create_run e)
execute_created env (ok run_id) dag maps =
    ok (run_id, execute env dag maps.id_to_model maps.model_targets)

-- What `RunAll` and `RunPipeline` do first, and `RunSingle` but for the test for an empty list.
unfoldable pub prepare_all : Site → Result RunError (DepGraph × Maps)
unfolding find_credentials loaded built
prepare_all site = do
  o ← check_online site
  c ← find_credentials site
  models ← loaded site.models
  m ← some_models models
  built (runner_build_dag models)

unfoldable pub prepare_single : Site → Result RunError (DepGraph × Maps)
unfolding find_credentials loaded built
prepare_single site = do
  o ← check_online site
  c ← find_credentials site
  models ← loaded site.models
  built (runner_build_dag models)

unfoldable pub pipeline_graph : Text → DepGraph → List Text → Result RunError DepGraph
pipeline_graph anchor dag [] = err no_anchor
pipeline_graph anchor dag (c ∷ cs) = ok (record dag { order = c ∷ cs })

-- The graph of a model and what it depends on.
unfoldable pub single_graph : Text → DepGraph → DepGraph
unfolding get_upstream_deps
single_graph model_id dag =
    let upstream = get_upstream_deps (length dag.order) model_id dag.deps in
    record dag { order = keep (λ id. same model_id id || member id upstream) dag.order }

unfoldable pub all_body : Environment → Site → Result RunError (Text × Progress)
unfolding prepare_all execute_created
all_body env site = do (dag, maps) ← prepare_all site; execute_created env site.created dag maps

unfoldable pub pipeline_body : Environment → Site → Text → Result RunError (Text × Progress)
unfolding prepare_all pipeline_graph execute_created
pipeline_body env site anchor = do
  (dag, maps) ← prepare_all site
  part ← pipeline_graph anchor dag (component_containing dag anchor)
  execute_created env site.created part maps

unfoldable pub single_body : Environment → Site → Text → Result RunError (Text × Progress)
unfolding prepare_single single_graph execute_created
single_body env site model_id = do
  (dag, maps) ← prepare_single site
  execute_created env site.created (single_graph model_id dag) maps

-- The lock is taken first, and given back however the body ends.
unfoldable pub with_lock {ℓ} :
    {A : Type ℓ} → Text → Result RunError A → Option Running → Running → Running × Result RunError A
unfolding release_lock
with_lock conn body none running = (running, err already_running)
with_lock conn body (some held) running = (release_lock held conn, body)

unfoldable pub run_all :
    Environment → Site → Text → Running → Running × Result RunError (Text × Progress)
unfolding with_lock all_body
run_all env site conn running =
    with_lock conn (all_body env site) (acquire_lock running conn) running

unfoldable pub run_pipeline :
    Environment → Site → Text → Text → Running → Running × Result RunError (Text × Progress)
unfolding with_lock pipeline_body
run_pipeline env site conn anchor running =
    with_lock conn (pipeline_body env site anchor) (acquire_lock running conn) running

unfoldable pub run_single :
    Environment → Site → Text → Text → Running → Running × Result RunError (Text × Progress)
unfolding with_lock single_body
run_single env site conn model_id running =
    with_lock conn (single_body env site model_id) (acquire_lock running conn) running

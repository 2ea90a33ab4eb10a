-- ===== src/Models/Runner/Failures.antt =====
-- The outcome of a run of models (internal/models/runner.go, `execute`).
use Prim.Native.Nat.{◌+◌, ◌≤◌, ◌<◌}
use mathlib.Core.Path.{◌≡◌, refl, sym, ap, ◌∙◌}
use mathlib.Core.Logic.{◌↔◌}
use mathlib.Core.Bool.{true}
use mathlib.Core.List.{List, [], ◌∷◌, ◌++◌, append_assoc}
use native.Mathlib.Omega.{arith}
use ch_ui.Prelude.Lists.{All, All-map, length}
use ch_ui.Prelude.Text.{Text}
use ch_ui.Prelude.Counts.{count, count-append}
use ch_ui.Prelude.Result.{ok}
use ch_ui.Models.Dag.{Lists, DepGraph, slice, build_dag}
use ch_ui.Models.Dag.Order.{IsInput, build_dag-topological}
use ch_ui.Models.Dag.Components.{member}
use ch_ui.Models.Runner.{
  Model, Environment, Progress, RunStatus, all_success, Action, finalize, run_status, execute,
  pending, run_models,
}
use ch_ui.Models.Runner.Propagation.{
  IsSorted, run_models-total, run_models-Accounts, run_models-propagates,
}

-- After a run the three counts add up to the models of the order; the last thing that the run writes is
-- its end with these counts, and the status written there is that of a success exactly if there is a
-- model and every model succeeded.
pub execute-counts :
    (env : Environment) (dag : DepGraph) (id_to_model : List (Text × Model))
    (model_targets : List (Text × Text))
    → let p = execute env dag id_to_model model_targets in
      let total = length dag.order in
      (p.succeeded + p.failed_count + p.skipped_count ≡ total)
      × ((status : RunStatus) × (earlier : List Action) × (p.actions
            ≡ earlier ++ finalize status p.succeeded p.failed_count p.skipped_count ∷ [])
          × ((status ≡ all_success) ↔ ((p.succeeded ≡ total) × (0 < total))))
unfolding execute run_status
execute-counts env dag id_to_model model_targets =
    let start : Progress = record {
      failed = [];
      succeeded = 0;
      failed_count = 0;
      skipped_count = 0;
      actions = pending id_to_model dag.order;
    } in
    let total = run_models-total env dag.deps id_to_model model_targets dag.order start in
    let accounts =
      run_models-Accounts env dag.deps id_to_model model_targets dag.order start
        (record { failures = refl; first = λ h. h }) in
    let first = accounts.first in
    (
      omega arith,
      (
        run_status (length dag.order)
            (run_models env dag.deps id_to_model model_targets dag.order start),
        (run_models env dag.deps id_to_model model_targets dag.order start).actions,
        refl,
        (λ h. ground (arith, total, first), λ (a, b). ground (arith, total, first)),
      ),
    )

-- An order in which every model stands behind its dependencies, each model once.
IsSorted-of_splits :
    (deps : Lists) (order done xs : List Text)
    → order ≡ done ++ xs
    → ((x : Text) → count x order ≤ 1)
    → ((before after : List Text) (x : Text)
        → order ≡ before ++ x ∷ after
        → All (λ d. 0 < count d before) (slice x deps))
    → IsSorted deps xs
IsSorted-of_splits deps order done [] e unique h = tt
IsSorted-of_splits deps order done (x ∷ xs) e unique h = (
  All-map (λ d. 0 < count d done) (λ d. count d (x ∷ xs) ≡ 0) (slice x deps)
      (λ d k. omega (arith, unique d, ap (count d) e, count-append d done (x ∷ xs)))
      (h done xs x e),
  IsSorted-of_splits deps order (done ++ x ∷ []) xs (e ∙ sym (append_assoc done (x ∷ []) xs)) unique
      h,
)

-- A failure reaches everything downstream: after a run of a graph that `BuildDAG` returned, a model of
-- the order whose dependency failed or was skipped has failed or was skipped itself. The models are
-- distinct, only models have references, and names stand for models.
pub execute-propagates :
    (env : Environment) (ids : List Text) (refs : Lists) (name_to_id : List (Text × Text))
    (g : DepGraph) (id_to_model : List (Text × Model)) (model_targets : List (Text × Text))
    (x d : Text)
    → IsInput ids refs name_to_id
    → build_dag ids refs name_to_id ≡ ok g
    → 0 < count x ids
    → member d (slice x g.deps) ≡ true
    → let p = execute env g id_to_model model_targets in
      member d p.failed ≡ true → member x p.failed ≡ true
unfolding execute
execute-propagates env ids refs name_to_id g id_to_model model_targets x d h e there dep failed =
    let (all_once, sorted) = build_dag-topological ids refs name_to_id g h e in
    run_models-propagates env g.deps id_to_model model_targets g.order
      (record {
        failed = [];
        succeeded = 0;
        failed_count = 0;
        skipped_count = 0;
        actions = pending id_to_model g.order;
      })
      x d
      (IsSorted-of_splits g.deps g.order [] g.order refl
        (λ y. omega (arith, all_once y, h.unique y)) sorted)
      (omega (arith, all_once x)) dep failed

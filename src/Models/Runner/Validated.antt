-- ===== src/Models/Runner/Validated.antt =====
-- `Validate` against `RunAll` (internal/models/runner.go).
use mathlib.Core.Path.{◌≡◌, refl, sym, ap, ◌∙◌}
use mathlib.Core.Logic.{◌↔◌}
use mathlib.Core.Bool.{true, false}
use mathlib.Core.Option.{none}
use mathlib.Core.List.{List, [], ◌∷◌}
use ch_ui.Prelude.Lists.{All}
use ch_ui.Prelude.Text.{Text}
use ch_ui.Prelude.Maps.{lookup}
use ch_ui.Prelude.Result.{Result, ok, err, ◌>>=◌, bind_eq_ok}
use ch_ui.Models.Dag.{DepGraph, Building, start_degrees, link_all, sort_built, build_dag}
use ch_ui.Models.Runner.{
  Model, Environment, Progress, Maps, no_maps, collect_maps, execute, runner_build_dag,
}
use ch_ui.Models.Runner.Lock.{Running, is_running, acquire_lock}
use ch_ui.Models.Runner.Runs.{
  RunError, Site, find_credentials, loaded, built, execute_created, prepare_all, all_body,
  with_lock, run_all,
}
use ch_ui.Models.Runner.Validate.{
  ValidationError, check_models, graph_problems, check_graph, check_all, validate,
}
use ch_ui.Models.Runner.ValidateLaws.{
  DistinctIds, collect_maps-refs, link_all-AllResolve, check_models_none, built_ok,
  check_graph_none,
}

none_yet : (ms : List Model) → All (λ n. lookup n.id no_maps.refs_by_id ≡ none) ms
unfolding lookup
none_yet [] = tt
none_yet (m ∷ ms) = (refl, none_yet ms)

-- The check of a list of models finds nothing exactly if their graph can be built.
check_all_iff :
    (ms : List Model)
    → DistinctIds ms
    → (check_all ms ≡ []) ↔ ((r : DepGraph × Maps) × (runner_build_dag ms ≡ ok r))
unfolding check_all runner_build_dag build_dag check_graph
check_all_iff ms d = (to, λ (r, e). from r e)
  where
    to : check_all ms ≡ [] → (r : DepGraph × Maps) × (runner_build_dag ms ≡ ok r)
    to h =
        let maps = collect_maps ms no_maps in
        let (g, e) = check_graph_none maps (check_models maps.name_to_id ms) h in
        ((g, maps), ap (λ b. b >>= (λ dag. ok (dag, maps))) e)

    from : (r : DepGraph × Maps) → runner_build_dag ms ≡ ok r → check_all ms ≡ []
    from r e =
        let maps = collect_maps ms no_maps in
        let start : Building = record {
          deps = [];
          rev_deps = [];
          in_degree = start_degrees maps.model_ids;
        } in
        let (g, q, _) =
          bind_eq_ok (build_dag maps.model_ids maps.refs_by_id maps.name_to_id)
            (λ dag. ok (dag, maps)) e in
        let (b, k, _) =
          bind_eq_ok (link_all maps.name_to_id maps.refs_by_id start)
            (λ b. sort_built maps.model_ids b) q in
        let resolve = link_all-AllResolve maps.name_to_id maps.refs_by_id start b k in
        let named = rw (collect_maps-refs ms no_maps d (none_yet ms)) at resolve in
        ap (λ es. check_graph maps es) (check_models_none maps.name_to_id ms named)
        ∙ ap graph_problems q

abbrev finished : Environment → Text → DepGraph × Maps → Result RunError (Text × Progress)
finished env run_id r = ok (run_id, execute env r.0 r.1.id_to_model r.1.model_targets)

abbrev validated : List ValidationError → Result Text (List ValidationError)
validated es = ok es

problems_eq : (es fs : List ValidationError) → ok es ≡ validated fs → es ≡ fs
problems_eq es fs h = cc

module _ (env : Environment) (site : Site) (conn run_id : Text) (running : Running) (m : Model)
    (ms : List Model) (c : Text × Text) (models : site.models ≡ ok (m ∷ ms))
    (online : site.online ≡ true) (login : find_credentials site ≡ ok c)
    (created : site.created ≡ ok run_id) (idle : is_running running conn ≡ false) where
  prepare_all-built : prepare_all site ≡ built (runner_build_dag (m ∷ ms))
  unfolding prepare_all loaded
  prepare_all-built = rw (online, login, models) refl

  execute_all :
      (r : Result RunError (DepGraph × Maps))
      → (r >>= (λ (dag, maps). execute_created env site.created dag maps))
        ≡ (r >>= finished env run_id)
  unfolding execute_created
  execute_all (ok r) = rw created refl
  execute_all (err e) = refl

  run_all_body : (run_all env site conn running).1 ≡ all_body env site
  unfolding run_all with_lock acquire_lock
  run_all_body = rw idle refl

  run_all-built :
      (run_all env site conn running).1
      ≡ (built (runner_build_dag (m ∷ ms)) >>= finished env run_id)
  unfolding all_body
  run_all-built =
      run_all_body
      ∙ ap (λ r. r >>= (λ (dag, maps). execute_created env site.created dag maps)) prepare_all-built
      ∙ execute_all (built (runner_build_dag (m ∷ ms)))

-- For a connection that has models and no run in progress, with its tunnel online, credentials at hand
-- and a run that can be created: Validate finds nothing exactly if RunAll returns a run. The models have
-- different identifiers.
pub validate-run_all :
    (env : Environment) (site : Site) (conn run_id : Text) (running : Running) (m : Model)
    (ms : List Model) (c : Text × Text)
    → DistinctIds (m ∷ ms)
    → site.models ≡ ok (m ∷ ms)
    → site.online ≡ true
    → find_credentials site ≡ ok c
    → site.created ≡ ok run_id
    → is_running running conn ≡ false
    → (validate site.models ≡ ok [])
      ↔ ((p : Progress) × ((run_all env site conn running).1 ≡ ok (run_id, p)))
unfolding validate built
validate-run_all env site conn run_id running m ms c d models online login created idle =
    let run = run_all-built env site conn run_id running m ms c models online login created idle in
    let same_ids = check_all_iff (m ∷ ms) d in
    (
      λ h.
          let (r, e) = same_ids.0 (problems_eq (check_all (m ∷ ms)) [] (rw models at h)) in
          (
            execute env r.0 r.1.id_to_model r.1.model_targets,
            run ∙ ap (λ b. built b >>= finished env run_id) e,
          ),
      λ (p, h).
          let (r, e, _) =
            bind_eq_ok (built (runner_build_dag (m ∷ ms))) (finished env run_id) (sym run ∙ h) in
          rw models (ap ok (same_ids.1 (r, built_ok (runner_build_dag (m ∷ ms)) r e))),
    )

-- ===== src/Models/Runner/Validate.antt =====
-- `Validate` of internal/models/runner.go.
use mathlib.Core.Option.{Option, none, some}
use mathlib.Core.List.{List, [], ◌∷◌, ◌++◌}
use ch_ui.Prelude.Tests.{if◌then◌else◌}
use ch_ui.Prelude.Text.{Text, same}
use ch_ui.Prelude.Maps.{lookup}
use ch_ui.Prelude.Result.{Result, ok, err}
use ch_ui.Models.Dag.{DepGraph, DagError, build_dag}
use ch_ui.Models.Ref.{extract_refs}
use ch_ui.Models.Runner.{Model, Maps, collect_maps, no_maps}

pub data Problem : Type 0 where
  unknown_ref : Text → Problem
  self_ref : Text → Problem
  of_graph : DagError → Problem

pub record ValidationError : Type 0 where
  pub model_id : Text
  pub model_name : Text
  pub problem : Problem

abbrev pub or_blank : Option Text → Text
or_blank none = []
or_blank (some t) = t

abbrev pub problem_of : Model → Problem → ValidationError
problem_of m p = record { model_id = m.id; model_name = m.name; problem = p }

abbrev pub unknown_at : Model → Text → Option Text → List ValidationError
unknown_at m ref none = problem_of m (unknown_ref ref) ∷ []
unknown_at m ref (some id) = []

-- The body of the loop over the references of a model.
unfoldable pub check_ref : List (Text × Text) → Model → Text → List ValidationError
check_ref name_to_id m ref =
    unknown_at m ref (lookup ref name_to_id)
    ++ (if same (or_blank (lookup ref name_to_id)) m.id
        then problem_of m (self_ref ref) ∷ []
        else [])

unfoldable pub check_refs : List (Text × Text) → Model → List Text → List ValidationError
unfolding check_ref
check_refs name_to_id m [] = []
check_refs name_to_id m (ref ∷ refs) = check_ref name_to_id m ref ++ check_refs name_to_id m refs

unfoldable pub check_models : List (Text × Text) → List Model → List ValidationError
unfolding check_refs
check_models name_to_id [] = []
check_models name_to_id (m ∷ ms) =
    check_refs name_to_id m (extract_refs m.sql_body) ++ check_models name_to_id ms

unfoldable pub graph_problems : Result DagError DepGraph → List ValidationError
graph_problems (ok dag) = []
graph_problems (err e) = record { model_id = []; model_name = []; problem = of_graph e } ∷ []

-- The cycle is only looked for where every reference is right.
unfoldable pub check_graph : Maps → List ValidationError → List ValidationError
unfolding graph_problems
check_graph maps [] = graph_problems (build_dag maps.model_ids maps.refs_by_id maps.name_to_id)
check_graph maps (e ∷ es) = e ∷ es

unfoldable pub check_all : List Model → List ValidationError
unfolding check_models check_graph
check_all models =
    let maps = collect_maps models no_maps in check_graph maps (check_models maps.name_to_id models)

unfoldable pub validate : Result Text (List Model) → Result Text (List ValidationError)
unfolding check_all
validate (err e) = err e
validate (ok []) = ok []
validate (ok (m ∷ ms)) = ok (check_all (m ∷ ms))

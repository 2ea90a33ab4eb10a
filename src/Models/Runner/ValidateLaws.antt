-- ===== src/Models/Runner/ValidateLaws.antt =====
-- Which problems `Validate` (internal/models/runner.go) finds.
use mathlib.Core.Path.{◌≡◌, refl, sym, ap, ◌∙◌}
use mathlib.Core.Logic.{inl, inr}
use mathlib.Core.Bool.{false}
use mathlib.Core.Option.{Option, none, some}
use mathlib.Core.List.{List, [], ◌∷◌, ◌++◌, append_assoc, append-nil}
use ch_ui.Prelude.Tests.{Bool-cases}
use ch_ui.Prelude.Lists.{All}
use ch_ui.Prelude.Text.{Text, same}
use ch_ui.Prelude.Maps.{lookup, insert, lookup-insert}
use ch_ui.Prelude.Result.{Result, ok, err, bind_eq_ok}
use ch_ui.Models.Dag.{
  Lists, DepGraph, DagError, Building, link_found, link_refs, link_all, build_dag,
}
use ch_ui.Models.Dag.Links.{Resolves, AllResolve}
use ch_ui.Models.Ref.{extract_refs}
use ch_ui.Models.Runner.{Model, Maps, add_model, collect_maps}
use ch_ui.Models.Runner.Runs.{built}
use ch_ui.Models.Runner.Validate.{
  ValidationError, check_ref, check_refs, check_models, graph_problems, check_graph,
}

-- The identifier is the primary key of the table of models.
abbrev pub DistinctIds : List Model → Type 0
DistinctIds [] = Unit
DistinctIds (m ∷ ms) = All (λ n. same m.id n.id ≡ false) ms × DistinctIds ms

abbrev pub refs_of : List Model → Lists
refs_of [] = []
refs_of (m ∷ ms) = (m.id, extract_refs m.sql_body) ∷ refs_of ms

insert_new :
    (k : Text) (v : List Text) (m : Lists) → lookup k m ≡ none → insert k v m ≡ m ++ (k, v) ∷ []
unfolding lookup insert
insert_new k v [] h = refl
insert_new k v ((j, w) ∷ m) h = elim (Bool-cases (same j k)) [
  | inl e ↦ (let bad : some w ≡ none = rw e at h in cc)
  | inr e ↦ rw e (ap (λ l. (j, w) ∷ l) (insert_new k v m (rw e at h)))
]

fresh_after :
    (m : Model) (v : List Text) (ms : List Model) (refs : Lists)
    → All (λ n. same m.id n.id ≡ false) ms
    → All (λ n. lookup n.id refs ≡ none) ms
    → All (λ n. lookup n.id (insert m.id v refs) ≡ none) ms
fresh_after m v [] refs d f = tt
fresh_after m v (n ∷ ms) refs (d, ds) (f, fs) =
    (rw (lookup-insert m.id n.id v refs, d) f, fresh_after m v ms refs ds fs)

pub collect_maps-refs :
    (ms : List Model) (maps : Maps)
    → DistinctIds ms
    → All (λ n. lookup n.id maps.refs_by_id ≡ none) ms
    → (collect_maps ms maps).refs_by_id ≡ maps.refs_by_id ++ refs_of ms
unfolding collect_maps refs_of
collect_maps-refs [] maps d f = sym (append-nil maps.refs_by_id)
collect_maps-refs (m ∷ ms) maps (d, ds) (f, fs) =
    let refs = extract_refs m.sql_body in
    collect_maps-refs ms (add_model m maps) ds (fresh_after m refs ms maps.refs_by_id d fs)
    ∙ ap (λ l. l ++ refs_of ms) (insert_new m.id refs maps.refs_by_id f)
    ∙ append_assoc maps.refs_by_id ((m.id, refs) ∷ []) (refs_of ms)

link_found_ok :
    (id name : Text) (found : Option Text) (b b' : Building)
    → link_found id name found b ≡ ok b'
    → (dep : Text) × (found ≡ some dep) × (same dep id ≡ false)
unfolding link_found
link_found_ok id name none b b' e = cc
link_found_ok id name (some dep) b b' e = elim (Bool-cases (same dep id)) [
  | inl h ↦ (let bad = rw h at e in cc)
  | inr h ↦ (dep, refl, h)
]

link_refs-Resolves :
    (name_to_id : List (Text × Text)) (id : Text) (names : List Text) (b b' : Building)
    → link_refs name_to_id id names b ≡ ok b'
    → All (Resolves name_to_id id) names
unfolding link_refs
link_refs-Resolves name_to_id id [] b b' e = tt
link_refs-Resolves name_to_id id (name ∷ names) b b' e =
    let (c, q, k) =
      bind_eq_ok (link_found id name (lookup name name_to_id) b)
        (λ c. link_refs name_to_id id names c) e in
    let (dep, found, other) = link_found_ok id name (lookup name name_to_id) b c q in
    (
      record { dep = dep; found = found; other = other },
      link_refs-Resolves name_to_id id names c b' k,
    )

pub link_all-AllResolve :
    (name_to_id : List (Text × Text)) (refs : Lists) (b b' : Building)
    → link_all name_to_id refs b ≡ ok b'
    → AllResolve name_to_id refs
unfolding link_all
link_all-AllResolve name_to_id [] b b' e = tt
link_all-AllResolve name_to_id ((id, names) ∷ refs) b b' e =
    let (c, q, k) =
      bind_eq_ok (link_refs name_to_id id names b) (λ c. link_all name_to_id refs c) e in
    (link_refs-Resolves name_to_id id names b c q, link_all-AllResolve name_to_id refs c b' k)

check_refs_none :
    (name_to_id : List (Text × Text)) (m : Model) (refs : List Text)
    → All (Resolves name_to_id m.id) refs
    → check_refs name_to_id m refs ≡ []
unfolding check_refs check_ref
check_refs_none name_to_id m [] h = refl
check_refs_none name_to_id m (ref ∷ refs) (r, h) =
    rw (r.found, r.other) (check_refs_none name_to_id m refs h)

pub check_models_none :
    (name_to_id : List (Text × Text)) (ms : List Model)
    → AllResolve name_to_id (refs_of ms)
    → check_models name_to_id ms ≡ []
unfolding check_models refs_of
check_models_none name_to_id [] h = refl
check_models_none name_to_id (m ∷ ms) (r, h) =
    rw (check_refs_none name_to_id m (extract_refs m.sql_body) r)
      (check_models_none name_to_id ms h)

pub built_ok :
    (r : Result DagError (DepGraph × Maps)) (s : DepGraph × Maps) → built r ≡ ok s → r ≡ ok s
unfolding built
built_ok (ok r) s e = cc
built_ok (err x) s e = cc

graph_problems_none :
    (r : Result DagError DepGraph) → graph_problems r ≡ [] → (g : DepGraph) × (r ≡ ok g)
unfolding graph_problems
graph_problems_none (ok g) h = (g, refl)
graph_problems_none (err e) h = cc

pub check_graph_none :
    (maps : Maps) (es : List ValidationError)
    → check_graph maps es ≡ []
    → (g : DepGraph) × (build_dag maps.model_ids maps.refs_by_id maps.name_to_id ≡ ok g)
unfolding check_graph
check_graph_none maps [] h =
    graph_problems_none (build_dag maps.model_ids maps.refs_by_id maps.name_to_id) h
check_graph_none maps (e ∷ es) h = cc

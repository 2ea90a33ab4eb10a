-- ===== src/Models/Dag/Order.antt =====
-- What `BuildDAG` guarantees (internal/models/dag.go).
use Prim.Native.Nat.{suc, ◌+◌, ◌≤◌, ◌<◌}
use mathlib.Core.Path.{◌≡◌}
use mathlib.Core.Option.{Option, none, some}
use mathlib.Core.List.{List, [], ◌∷◌, ◌++◌, append_assoc, append-nil}
use native.Mathlib.Omega.{arith}
use ch_ui.Prelude.Lists.{length, All, All-append}
use ch_ui.Prelude.Int.{ℤ}
use ch_ui.Prelude.Text.{Text}
use ch_ui.Prelude.Maps.{lookup}
use ch_ui.Prelude.Counts.{count, count_eq_of_length}
use ch_ui.Prelude.Result.{ok, bind_eq_ok}
use ch_ui.Models.Dag.{
  Lists, DepGraph, Building, slice, start_degrees, link_all, kahn, roots, positives, finish,
  sort_built, build_dag,
}
use ch_ui.Models.Dag.Edges.{Edges, Represents, targets, sources, waiting}
use ch_ui.Models.Dag.Links.{edge_to, edges_from, edges_of, start-Represents, link_all-Represents}
use ch_ui.Models.Dag.Kahn.{IsTopological, Inv}
use ch_ui.Models.Dag.Rounds.{kahn_lem, start-Inv}

-- What the runner hands over: the models are distinct, only models have references, and names stand
-- for models.
pub record IsInput (ids : List Text) (refs : Lists) (name_to_id : List (Text × Text)) : Type 0 where
  pub unique : (x : Text) → count x ids ≤ 1
  pub known : All (λ r. 0 < count r.0 ids) refs
  pub named : (name dep : Text) → lookup name name_to_id ≡ some dep → 0 < count dep ids

edges_from-known :
    (ids : List Text) (name_to_id : List (Text × Text)) (id : Text) (names : List Text)
    → 0 < count id ids
    → All (λ e. 0 < count e.1 ids) (edges_from name_to_id id names)
unfolding edges_from
edges_from-known ids name_to_id id [] h = tt
edges_from-known ids name_to_id id (name ∷ names) h =
    here (lookup name name_to_id) (edges_from-known ids name_to_id id names h)
  where
    here :
        (found : Option Text)
        → All (λ e. 0 < count e.1 ids) (edges_from name_to_id id names)
        → All (λ e. 0 < count e.1 ids) (edge_to id found ++ edges_from name_to_id id names)
    here none rest = rest
    here (some dep) rest = (h, rest)

pub edges_of-known :
    (ids : List Text) (name_to_id : List (Text × Text)) (refs : Lists)
    → All (λ r. 0 < count r.0 ids) refs
    → All (λ e. 0 < count e.1 ids) (edges_of name_to_id refs)
unfolding edges_of
edges_of-known ids name_to_id [] h = tt
edges_of-known ids name_to_id ((id, names) ∷ refs) (h, hs) =
    All-append (λ e. 0 < count e.1 ids) (edges_from name_to_id id names) (edges_of name_to_id refs)
      (edges_from-known ids name_to_id id names h) (edges_of-known ids name_to_id refs hs)

targets-known :
    (ids : List Text) (es : Edges) (d : Text)
    → All (λ e. 0 < count e.1 ids) es
    → All (λ x. 0 < count x ids) (targets d es)
unfolding targets
targets-known ids [] d h = tt
targets-known ids ((e, x) ∷ es) d (h, hs) = ground (arith, targets-known ids es d hs)

-- If nothing is waited for, every dependency is done.
done-sources :
    (es : Edges) (done : List Text) (x : Text)
    → waiting es done x ≡ 0
    → All (λ d. 0 < count d done) (sources x es)
unfolding waiting sources
done-sources [] done x h = tt
done-sources ((d, y) ∷ es) done x h = ground (arith, done-sources es done x)

topological-split :
    (es : Edges) (done before after : List Text) (x : Text)
    → IsTopological es done (before ++ x ∷ after)
    → waiting es (done ++ before) x ≡ 0
topological-split es done [] after x h = rw (append-nil done) h.0
topological-split es done (y ∷ before) after x h =
    rw (← append_assoc done (y ∷ []) before)
      (topological-split es (done ++ y ∷ []) before after x h.1)

-- What the loop leaves for maps that hold the edges.
pub kahn_built :
    (ids : List Text) (b : Building) (es : Edges)
    → ((x : Text) → count x ids ≤ 1)
    → All (λ e. 0 < count e.1 ids) es
    → Represents b es
    → let queue = roots b.in_degree ids in
      let (left, out) =
        kahn (suc (length queue + positives b.in_degree)) b.rev_deps b.in_degree queue [] in
      (left ≡ [])
      × IsTopological es [] out
      × ((in_degree' : List (Text × ℤ)) × Inv es ids in_degree' [] out [])
kahn_built ids b es unique known h =
    kahn_lem es ids b.rev_deps unique h.rev_deps_are (λ d. targets-known ids es d known)
      (suc (length (roots b.in_degree ids) + positives b.in_degree)) b.in_degree
      (roots b.in_degree ids) [] (omega arith) (start-Inv es ids b.in_degree h.degrees_are) tt

finish_ok :
    (ids out : List Text) (b : Building) (g : DepGraph)
    → finish ids b out ≡ ok g
    → (g ≡ record { order = out; deps = b.deps; rev_deps = b.rev_deps }) × (length out ≡ length ids)
unfolding finish
finish_ok ids out b g e = ground arith

sort_built_ok :
    (ids : List Text) (b : Building) (g : DepGraph) (es : Edges)
    → ((x : Text) → count x ids ≤ 1)
    → All (λ e. 0 < count e.1 ids) es
    → Represents b es
    → sort_built ids b ≡ ok g
    → ((x : Text) → count x g.order ≡ count x ids)
      × IsTopological es [] g.order
      × ((x : Text) → slice x g.deps ≡ sources x es)
      × ((d : Text) → slice d g.rev_deps ≡ targets d es)
unfolding sort_built
sort_built_ok ids b g es unique known h e =
    let queue = roots b.in_degree ids in
    let r = kahn (suc (length queue + positives b.in_degree)) b.rev_deps b.in_degree queue [] in
    let (empty, sorted, (in_degree', inv)) = kahn_built ids b es unique known h in
    let (eg, el) = finish_ok ids r.1 b g e in
    rw eg (
      count_eq_of_length r.1 ids (λ x. rw (append-nil r.1) at (inv.within x)) el,
      sorted,
      h.deps_are,
      h.rev_deps_are,
    )

build_dag_ok :
    (ids : List Text) (refs : Lists) (name_to_id : List (Text × Text)) (g : DepGraph)
    → IsInput ids refs name_to_id
    → build_dag ids refs name_to_id ≡ ok g
    → ((x : Text) → count x g.order ≡ count x ids)
      × IsTopological (edges_of name_to_id refs) [] g.order
      × ((x : Text) → slice x g.deps ≡ sources x (edges_of name_to_id refs))
      × ((d : Text) → slice d g.rev_deps ≡ targets d (edges_of name_to_id refs))
unfolding build_dag
build_dag_ok ids refs name_to_id g h e =
    let start : Building = record { deps = []; rev_deps = []; in_degree = start_degrees ids } in
    let (b, q, k) = bind_eq_ok (link_all name_to_id refs start) (λ b. sort_built ids b) e in
    sort_built_ok ids b g (edges_of name_to_id refs) h.unique
      (edges_of-known ids name_to_id refs h.known)
      (link_all-Represents name_to_id refs start b [] q (start-Represents ids)) k

-- An order that is returned holds every model exactly once, and each model stands behind all its
-- dependencies. The models are distinct, only models have references, and names stand for models.
pub build_dag-topological :
    (ids : List Text) (refs : Lists) (name_to_id : List (Text × Text)) (g : DepGraph)
    → IsInput ids refs name_to_id
    → build_dag ids refs name_to_id ≡ ok g
    → ((x : Text) → count x g.order ≡ count x ids)
      × ((before after : List Text) (x : Text)
          → g.order ≡ before ++ x ∷ after
          → All (λ d. 0 < count d before) (slice x g.deps))
build_dag-topological ids refs name_to_id g h e =
    let (all_once, sorted, deps_are, rev_deps_are) = build_dag_ok ids refs name_to_id g h e in
    let es = edges_of name_to_id refs in
    (
      all_once,
      λ before after x split.
          rw (deps_are x) (
            done-sources es before x (topological-split es [] before after x (rw split at sorted))),
    )

-- The two maps of a returned graph are the references, read in both directions: the dependencies of a
-- model are the models that its references name, and its dependents those that reference it.
pub build_dag-maps :
    (ids : List Text) (refs : Lists) (name_to_id : List (Text × Text)) (g : DepGraph)
    → IsInput ids refs name_to_id
    → build_dag ids refs name_to_id ≡ ok g
    → (x : Text)
    → (slice x g.deps ≡ sources x (edges_of name_to_id refs))
      × (slice x g.rev_deps ≡ targets x (edges_of name_to_id refs))
build_dag-maps ids refs name_to_id g h e x =
    let (all_once, sorted, deps_are, rev_deps_are) = build_dag_ok ids refs name_to_id g h e in
    (deps_are x, rev_deps_are x)

-- Kahn's loop ends: on the maps that the references of the models fill, the queue is empty within as
-- many rounds as models wait in it or have a dependency. The models are distinct, only models have
-- references, and names stand for models.
pub kahn-ends :
    (ids : List Text) (refs : Lists) (name_to_id : List (Text × Text)) (b : Building)
    → IsInput ids refs name_to_id
    → link_all name_to_id refs (record { deps = []; rev_deps = []; in_degree = start_degrees ids })
      ≡ ok b
    → let queue = roots b.in_degree ids in
      (kahn (suc (length queue + positives b.in_degree)) b.rev_deps b.in_degree queue []).0 ≡ []
kahn-ends ids refs name_to_id b h e =
    let start : Building = record { deps = []; rev_deps = []; in_degree = start_degrees ids } in
    let (empty, sorted, inv) =
      kahn_built ids b (edges_of name_to_id refs) h.unique
        (edges_of-known ids name_to_id refs h.known)
        (link_all-Represents name_to_id refs start b [] e (start-Represents ids)) in
    empty

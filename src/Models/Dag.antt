-- ===== src/Models/Dag.antt =====
-- The dependency graph of models: `BuildDAG` of internal/models/dag.go. A map that the code ranges
-- over is a list of its entries in the order of that iteration.
pub mod Edges
pub mod Links
pub mod Kahn
pub mod Rounds
pub mod Order
pub mod Acyclic
pub mod Components
pub mod Partition
pub mod Closed
pub mod Pipelines
pub mod Complete
pub mod Upstream
pub mod Reached
use Prim.Native.Nat.{ℕ, zero, suc, ◌+◌}
use mathlib.Core.Bool.{Bool, true, false, not}
use mathlib.Core.Option.{Option, none, some}
use mathlib.Core.List.{List, [], ◌∷◌, ◌++◌}
use ch_ui.Prelude.Tests.{◌==◌, if◌then◌else◌}
use ch_ui.Prelude.Int.{ℤ, pos, negsuc, ◌+ℤ◌, ◌-ℤ◌}
use ch_ui.Prelude.Lists.{length}
use ch_ui.Prelude.Text.{Text, same}
use ch_ui.Prelude.Maps.{lookup, insert}
use ch_ui.Prelude.Result.{Result, ok, err, ◌>>=◌}

abbrev pub Lists : Type 0
Lists = List (Text × List Text)

pub record DepGraph : Type 0 where
  pub order : List Text
  pub deps : Lists
  pub rev_deps : Lists

pub data DagError : Type 0 where
  unknown_model : Text → DagError
  self_reference : Text → DagError
  cycle : DagError

-- What an index of a map gives: the zero value where the key is not there.
abbrev or_nil : Option (List Text) → List Text
or_nil none = []
or_nil (some l) = l

abbrev or_zero : Option ℤ → ℤ
or_zero none = pos 0
or_zero (some n) = n

unfoldable pub slice : Text → Lists → List Text
slice k m = or_nil (lookup k m)

unfoldable pub degree : Text → List (Text × ℤ) → ℤ
degree k m = or_zero (lookup k m)

-- The maps that `BuildDAG` fills.
pub record Building : Type 0 where
  pub deps : Lists
  pub rev_deps : Lists
  pub in_degree : List (Text × ℤ)

unfoldable pub start_degrees : List Text → List (Text × ℤ)
start_degrees [] = []
start_degrees (id ∷ ids) = insert id (pos 0) (start_degrees ids)

unfoldable pub add_edge : Text → Text → Building → Building
add_edge id dep b = record b {
  deps = insert id (slice id b.deps ++ dep ∷ []) b.deps;
  rev_deps = insert dep (slice dep b.rev_deps ++ id ∷ []) b.rev_deps;
  in_degree = insert id (degree id b.in_degree +ℤ pos 1) b.in_degree;
}

-- The body of the loop over the names that a model references.
unfoldable pub link_found : Text → Text → Option Text → Building → Result DagError Building
link_found id name none b = err (unknown_model name)
link_found id name (some dep) b =
    if same dep id then err (self_reference name) else ok (add_edge id dep b)

unfoldable pub link_refs :
    List (Text × Text) → Text → List Text → Building → Result DagError Building
unfolding link_found
link_refs name_to_id id [] b = ok b
link_refs name_to_id id (name ∷ names) b = do
  b' ← link_found id name (lookup name name_to_id) b
  link_refs name_to_id id names b'

unfoldable pub link_all : List (Text × Text) → Lists → Building → Result DagError Building
unfolding link_refs
link_all name_to_id [] b = ok b
link_all name_to_id ((id, names) ∷ refs) b = do
  b' ← link_refs name_to_id id names b
  link_all name_to_id refs b'

abbrev pub is_zero : ℤ → Bool
is_zero (pos n) = n == 0
is_zero (negsuc n) = false

-- The first queue: the models with no dependency.
unfoldable pub roots : List (Text × ℤ) → List Text → List Text
roots in_degree [] = []
roots in_degree (id ∷ ids) =
    let rest = roots in_degree ids in if is_zero (degree id in_degree) then id ∷ rest else rest

-- The loop over the dependents of the current model.
unfoldable pub relax : List (Text × ℤ) → List Text → List Text → List (Text × ℤ) × List Text
relax in_degree queue [] = (in_degree, queue)
relax in_degree queue (downstream ∷ rest) =
    let n = degree downstream in_degree -ℤ pos 1 in
    relax (insert downstream n in_degree) (if is_zero n then queue ++ downstream ∷ [] else queue)
      rest

-- Kahn's loop, with the queue that is left and the order.
unfoldable pub kahn : ℕ → Lists → List (Text × ℤ) → List Text → List Text → List Text × List Text
unfolding relax
kahn zero rev_deps in_degree queue order = (queue, order)
kahn (suc fuel) rev_deps in_degree [] order = ([], order)
kahn (suc fuel) rev_deps in_degree (curr ∷ queue) order =
    let (in_degree', queue') = relax in_degree queue (slice curr rev_deps) in
    kahn fuel rev_deps in_degree' queue' (order ++ curr ∷ [])

abbrev pub is_positive : ℤ → ℕ
is_positive (pos zero) = 0
is_positive (pos (suc n)) = 1
is_positive (negsuc n) = 0

-- How many entries are positive. With the queue's length this bounds the rounds of the loop.
unfoldable pub positives : List (Text × ℤ) → ℕ
positives [] = 0
positives ((k, n) ∷ m) = is_positive n + positives m

-- The test for a cycle, and the graph that is returned.
unfoldable pub finish : List Text → Building → List Text → Result DagError DepGraph
finish model_ids b order =
    if length order == length model_ids
    then ok (record { order = order; deps = b.deps; rev_deps = b.rev_deps })
    else err cycle

unfoldable pub sort_built : List Text → Building → Result DagError DepGraph
unfolding kahn roots finish
sort_built model_ids b =
    let queue = roots b.in_degree model_ids in
    finish model_ids b
      (kahn (suc (length queue + positives b.in_degree)) b.rev_deps b.in_degree queue []).1

-- `BuildDAG`
unfoldable pub build_dag : List Text → Lists → List (Text × Text) → Result DagError DepGraph
unfolding link_all sort_built
build_dag model_ids refs_by_id name_to_id = do
  b ←
      link_all name_to_id refs_by_id
        (record { deps = []; rev_deps = []; in_degree = start_degrees model_ids })
  sort_built model_ids b

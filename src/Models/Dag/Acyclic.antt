-- ===== src/Models/Dag/Acyclic.antt =====
-- `BuildDAG` sorts every graph without a cycle (internal/models/dag.go).
use Prim.Native.Nat.{ℕ, zero, suc, ◌+◌, ◌≤◌, ◌<◌}
use mathlib.Core.Path.{◌≡◌, refl, ap}
use mathlib.Core.Logic.{inl, inr}
use mathlib.Core.Option.{Option, none, some}
use mathlib.Core.List.{List, [], ◌∷◌, ◌++◌, append-nil}
use native.Mathlib.Omega.{arith}
use ch_ui.Prelude.Tests.{Bool-cases}
use ch_ui.Prelude.Lists.{length, All, All-append}
use ch_ui.Prelude.Text.{Text, same, same_iff}
use ch_ui.Prelude.Maps.{lookup}
use ch_ui.Prelude.Counts.{count, length_le_of_count}
use ch_ui.Prelude.Result.{ok}
use ch_ui.Models.Dag.{
  Lists, DepGraph, Building, start_degrees, kahn, roots, positives, finish, sort_built, build_dag,
}
use ch_ui.Models.Dag.Edges.{Edges, Represents, waiting}
use ch_ui.Models.Dag.Links.{
  edge_to, edges_from, edges_of, start-Represents, link_all-Represents, AllResolve, link_all_total,
}
use ch_ui.Models.Dag.Order.{IsInput, edges_of-known, kahn_built}

-- Edges that climb in a rank leave nothing waiting once all of lower rank is done.
waiting-ranked :
    (ids out : List Text) (rank : Text → ℕ) (n : ℕ) (x : Text) (es : Edges)
    → All (λ e. rank e.0 < rank e.1) es
    → All (λ e. 0 < count e.0 ids) es
    → rank x ≤ n
    → ((d : Text) → rank d < n → 0 < count d ids → 0 < count d out)
    → waiting es out x ≡ 0
unfolding waiting
waiting-ranked ids out rank n x [] climb known low done = refl
waiting-ranked ids out rank n x ((d, y) ∷ es) (c, climb) (k, known) low done =
    elim (Bool-cases (same y x)) [
      | inl e ↦
          let same_rank : rank y ≡ rank x = ap rank ((same_iff y x).0 e) in
          let here : 0 < count d out = done d (omega arith) k in
          ground (arith, waiting-ranked ids out rank n x es climb known low done)
      | inr e ↦ ground (arith, waiting-ranked ids out rank n x es climb known low done)
    ]

ranked-All_done :
    (ids out : List Text) (rank : Text → ℕ) (es : Edges)
    → All (λ e. rank e.0 < rank e.1) es
    → All (λ e. 0 < count e.0 ids) es
    → ((x : Text) → 0 < count x ids → waiting es out x ≡ 0 → 0 < count x out)
    → (n : ℕ) (x : Text) → rank x < n
    → 0 < count x ids
    → 0 < count x out
ranked-All_done ids out rank es climb known full zero x low there = absurd (omega arith)
ranked-All_done ids out rank es climb known full (suc n) x low there = full x there (
    waiting-ranked ids out rank n x es climb known (omega arith)
      (λ d. ranked-All_done ids out rank es climb known full n d))

edges_from-named :
    (ids : List Text) (name_to_id : List (Text × Text)) (id : Text) (names : List Text)
    → ((name dep : Text) → lookup name name_to_id ≡ some dep → 0 < count dep ids)
    → All (λ e. 0 < count e.0 ids) (edges_from name_to_id id names)
unfolding edges_from
edges_from-named ids name_to_id id [] h = tt
edges_from-named ids name_to_id id (name ∷ names) h =
    here (lookup name name_to_id) (h name) (edges_from-named ids name_to_id id names h)
  where
    here :
        (found : Option Text)
        → ((dep : Text) → found ≡ some dep → 0 < count dep ids)
        → All (λ e. 0 < count e.0 ids) (edges_from name_to_id id names)
        → All (λ e. 0 < count e.0 ids) (edge_to id found ++ edges_from name_to_id id names)
    here none k rest = rest
    here (some dep) k rest = (k dep refl, rest)

pub edges_of-named :
    (ids : List Text) (name_to_id : List (Text × Text)) (refs : Lists)
    → ((name dep : Text) → lookup name name_to_id ≡ some dep → 0 < count dep ids)
    → All (λ e. 0 < count e.0 ids) (edges_of name_to_id refs)
unfolding edges_of
edges_of-named ids name_to_id [] h = tt
edges_of-named ids name_to_id ((id, names) ∷ refs) h =
    All-append (λ e. 0 < count e.0 ids) (edges_from name_to_id id names) (edges_of name_to_id refs)
      (edges_from-named ids name_to_id id names h) (edges_of-named ids name_to_id refs h)

finish_full :
    (ids out : List Text) (b : Building)
    → length out ≡ length ids
    → (g : DepGraph) × (finish ids b out ≡ ok g)
unfolding finish
finish_full ids out b e =
    (record { order = out; deps = b.deps; rev_deps = b.rev_deps }, ground arith)

at_most : (n : ℕ) {m : ℕ} → n ≤ 1 → (0 < n → 0 < m) → n ≤ m
at_most zero u k = omega arith
at_most (suc n) u k = omega (arith, k (omega arith))

sort_built_total :
    (ids : List Text) (b : Building) (es : Edges) (rank : Text → ℕ)
    → ((x : Text) → count x ids ≤ 1)
    → All (λ e. 0 < count e.1 ids) es
    → All (λ e. 0 < count e.0 ids) es
    → All (λ e. rank e.0 < rank e.1) es
    → Represents b es
    → (g : DepGraph) × (sort_built ids b ≡ ok g)
unfolding sort_built
sort_built_total ids b es rank unique known named climb h =
    let queue = roots b.in_degree ids in
    let r = kahn (suc (length queue + positives b.in_degree)) b.rev_deps b.in_degree queue [] in
    let (empty, sorted, (in_degree', inv)) = kahn_built ids b es unique known h in
    let all_done : (x : Text) → 0 < count x ids → 0 < count x r.1 = λ x there.
      ranked-All_done ids r.1 rank es climb named
        (λ y k z. rw (append-nil r.1) at (inv.full y k (omega (arith, z, none_left y))))
        (suc (rank x)) x (omega arith) there in
    finish_full ids r.1 b (
      omega (
        arith,
        length_le_of_count r.1 ids (λ x. rw (append-nil r.1) at (inv.within x)),
        length_le_of_count ids r.1 (λ x. at_most (count x ids) (unique x) (all_done x)),
      ))
  where
    none_left : (x : Text) → count x [] ≡ 0
    none_left x = unfold count in refl

-- Every graph without a cycle is sorted: where each reference names another model and a rank falls
-- along every reference, `BuildDAG` returns a graph and no error.
pub build_dag-acyclic :
    (ids : List Text) (refs : Lists) (name_to_id : List (Text × Text)) (rank : Text → ℕ)
    → IsInput ids refs name_to_id
    → AllResolve name_to_id refs
    → All (λ e. rank e.0 < rank e.1) (edges_of name_to_id refs)
    → (g : DepGraph) × (build_dag ids refs name_to_id ≡ ok g)
unfolding build_dag
build_dag-acyclic ids refs name_to_id rank h resolve climb =
    let start : Building = record { deps = []; rev_deps = []; in_degree = start_degrees ids } in
    let (b, q) = link_all_total name_to_id refs start resolve in
    rw q (
      sort_built_total ids b (edges_of name_to_id refs) rank h.unique
        (edges_of-known ids name_to_id refs h.known) (edges_of-named ids name_to_id refs h.named)
        climb (link_all-Represents name_to_id refs start b [] q (start-Represents ids)))

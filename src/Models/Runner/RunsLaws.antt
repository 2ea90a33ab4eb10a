-- ===== src/Models/Runner/RunsLaws.antt =====
-- What `RunSingle` runs (internal/models/runner.go), and the lock around every run.
use Prim.Native.Nat.{◌<◌}
use mathlib.Core.Path.{◌≡◌, refl, sym, ap}
use mathlib.Core.Logic.{◌⊎◌, ◌↔◌, inl, inr}
use mathlib.Core.Bool.{Bool, true, false, ◌||◌}
use mathlib.Core.List.{List, [], ◌∷◌, ◌++◌}
use native.Mathlib.Omega.{arith}
use ch_ui.Prelude.Tests.{if◌then◌else◌, Bool-cases}
use ch_ui.Prelude.Lists.{All, length, keep}
use ch_ui.Prelude.Text.{Text, same, same_iff, same_refl, same→eq}
use ch_ui.Prelude.Counts.{count}
use ch_ui.Prelude.Result.{Result, ok, err}
use ch_ui.Models.Dag.{Lists, DepGraph, slice, build_dag}
use ch_ui.Models.Dag.Components.{member, get_upstream_deps}
use ch_ui.Models.Dag.Order.{IsInput, build_dag-topological}
use ch_ui.Models.Dag.Closed.{member-keep}
use ch_ui.Models.Dag.Pipelines.{member-count}
use ch_ui.Models.Dag.Complete.{build_dag-inside}
use ch_ui.Models.Dag.Upstream.{Upstream, direct, further}
use ch_ui.Models.Dag.Reached.{get_upstream_deps_iff}
use ch_ui.Prelude.Maps.{insert, lookup-insert, lookup-delete}
use ch_ui.Models.Runner.Lock.{Running, is_running, acquire_lock, release_lock}
use ch_ui.Models.Runner.Runs.{RunError, already_running, with_lock, single_graph}

-- A kept element was there before, behind more.
keep_split :
    (p : Text → Bool) (l before after : List Text) (x : Text)
    → keep p l ≡ before ++ x ∷ after
    → (b : List Text) × (a : List Text) × (l ≡ b ++ x ∷ a) × (before ≡ keep p b) × (p x ≡ true)
unfolding keep
keep_split p [] [] after x h = cc
keep_split p [] (y ∷ before) after x h = cc
keep_split p (y ∷ l) [] after x h = elim (Bool-cases (p y)) [
  | inl e ↦
      (let h' : y ∷ keep p l ≡ x ∷ after = rw e at h in
        let same_head : y ≡ x = cc in ([], l, ap (λ z. z ∷ l) same_head, refl, rw (← same_head) e))
  | inr e ↦
      (let (b, a, split, eq, px) = keep_split p l [] after x (rw e at h) in
        (y ∷ b, a, ap (λ t. y ∷ t) split, rw e eq, px))
]
keep_split p (y ∷ l) (z ∷ before) after x h = elim (Bool-cases (p y)) [
  | inl e ↦
      (let h' : y ∷ keep p l ≡ z ∷ (before ++ x ∷ after) = rw e at h in
        let same_head : y ≡ z = cc in
        let same_tail : keep p l ≡ before ++ x ∷ after = cc in
        let (b, a, split, eq, px) = keep_split p l before after x same_tail in
        (y ∷ b, a, ap (λ t. y ∷ t) split, rw (e, same_head) (ap (λ t. z ∷ t) eq), px))
  | inr e ↦
      (let (b, a, split, eq, px) = keep_split p l (z ∷ before) after x (rw e at h) in
        (y ∷ b, a, ap (λ t. y ∷ t) split, rw e eq, px))
]

All-keep :
    (p : Text → Bool) (b ds : List Text)
    → ((d : Text) → member d ds ≡ true → p d ≡ true)
    → All (λ d. 0 < count d b) ds
    → All (λ d. 0 < count d (keep p b)) ds
unfolding member
All-keep p b [] h k = tt
All-keep p b (d ∷ ds) h (there, k) = (
  ground (
    arith,
    member-count d b,
    member-count d (keep p b),
    member-keep d p b,
    h d (ground (arith, same_refl d)),
    there,
  ),
  All-keep p b ds (λ x m. h x (ground (arith, m))) k,
)

-- What stands in the order of a single run.
module _ (g : DepGraph) (id : Text)
    (inside : (x d : Text) → member d (slice x g.deps) ≡ true → member d g.order ≡ true) where
  abbrev wanted : Text → Bool
  wanted x = same id x || member x (get_upstream_deps (length g.order) id g.deps)

  wanted_iff : (x : Text) → (wanted x ≡ true) ↔ ((id ≡ x) ⊎ Upstream g.deps id x)
  wanted_iff x =
      let u = get_upstream_deps_iff g.deps g.order (length g.order) id inside (omega arith) x in
      (λ h. to u.0 h, λ s. from u.1 s)
    where
      to :
          (member x (get_upstream_deps (length g.order) id g.deps) ≡ true → Upstream g.deps id x)
          → wanted x ≡ true
          → (id ≡ x) ⊎ Upstream g.deps id x
      to u h = elim (Bool-cases (same id x)) [
        | inl e ↦ inl (same→eq id x e)
        | inr e ↦ inr (u (rw e at h))
      ]

      from :
          (Upstream g.deps id x → member x (get_upstream_deps (length g.order) id g.deps) ≡ true)
          → ((id ≡ x) ⊎ Upstream g.deps id x)
          → wanted x ≡ true
      from u (inl e) = ground (arith, same_iff id x)
      from u (inr s) = ground (arith, u s)

  wanted_dep : (x d : Text) → wanted x ≡ true → member d (slice x g.deps) ≡ true → wanted d ≡ true
  wanted_dep x d h n = (wanted_iff d).1 (inr (below ((wanted_iff x).0 h)))
    where
      below : ((id ≡ x) ⊎ Upstream g.deps id x) → Upstream g.deps id d
      below (inl e) = direct d (rw e n)
      below (inr u) = further x d u n

  inside_order : (x : Text) → Upstream g.deps id x → member x g.order ≡ true
  inside_order x (direct d n) = inside id d n
  inside_order x (further y d u n) = inside y d n

  kept_iff :
      member id g.order ≡ true
      → (x : Text) → (member x (keep wanted g.order) ≡ true) ↔ ((id ≡ x) ⊎ Upstream g.deps id x)
  kept_iff there x = (λ h. (wanted_iff x).0 (chosen h), λ s. kept s ((wanted_iff x).1 s))
    where
      chosen : member x (keep wanted g.order) ≡ true → wanted x ≡ true
      chosen h = ground (arith, member-keep x wanted g.order)

      kept :
          ((id ≡ x) ⊎ Upstream g.deps id x)
          → wanted x ≡ true
          → member x (keep wanted g.order) ≡ true
      kept (inl e) w =
          let there' : member x g.order ≡ true = rw e at there in
          ground (arith, member-keep x wanted g.order)
      kept (inr u) w = ground (arith, member-keep x wanted g.order, inside_order x u)

  kept_sorted :
      ((before after : List Text) (x : Text)
        → g.order ≡ before ++ x ∷ after
        → All (λ d. 0 < count d before) (slice x g.deps))
      → (before after : List Text) (x : Text) → keep wanted g.order ≡ before ++ x ∷ after
      → All (λ d. 0 < count d before) (slice x g.deps)
  kept_sorted sorted before after x split =
      let (b, a, whole, eq, chosen) = keep_split wanted g.order before after x split in
      rw eq
        (All-keep wanted b (slice x g.deps) (λ d n. wanted_dep x d chosen n) (sorted b a x whole))

-- A single run of a model of a graph that BuildDAG returned goes over exactly the model and its
-- transitive dependencies, and each model in it stands behind all its own dependencies. The models are
-- distinct, only models have references, and names stand for models.
pub single_graph-order :
    (ids : List Text) (refs : Lists) (name_to_id : List (Text × Text)) (g : DepGraph) (id : Text)
    → IsInput ids refs name_to_id
    → build_dag ids refs name_to_id ≡ ok g
    → 0 < count id ids
    → let order = (single_graph id g).order in
      ((x : Text) → (member x order ≡ true) ↔ ((id ≡ x) ⊎ Upstream g.deps id x))
      × ((before after : List Text) (x : Text)
          → order ≡ before ++ x ∷ after
          → All (λ d. 0 < count d before) (slice x g.deps))
unfolding single_graph
single_graph-order ids refs name_to_id g id h e there =
    let inside = build_dag-inside ids refs name_to_id g h e in
    let (all_once, sorted) = build_dag-topological ids refs name_to_id g h e in
    (
      kept_iff g id inside (ground (arith, member-count id g.order, all_once id)),
      kept_sorted g id inside sorted,
    )

released :
    (running : Running) (conn j : Text)
    → is_running running conn ≡ false
    → is_running (release_lock (insert conn true running) conn) j ≡ is_running running j
unfolding is_running release_lock
released running conn j idle = elim (Bool-cases (same conn j)) [
  | inl e ↦
      (let idle' : is_running running j ≡ false = rw (same→eq conn j e) at idle in
        rw (lookup-delete conn j (insert conn true running), e) (sym idle'))
  | inr e ↦
      rw (lookup-delete conn j (insert conn true running), e, lookup-insert conn j true running, e)
        refl
]

-- However a run ends, it gives its lock back, and takes no other.
pub with_lock-running {ℓ} :
    {A : Type ℓ} (body : Result RunError A) (running : Running) (conn j : Text)
    → is_running (with_lock conn body (acquire_lock running conn) running).0 j
      ≡ is_running running j
unfolding with_lock acquire_lock
with_lock-running body running conn j = elim (Bool-cases (is_running running conn)) [
  | inl e ↦ rw e refl
  | inr e ↦ rw e (released running conn j e)
]

pub with_lock-busy {ℓ} :
    {A : Type ℓ} (body : Result RunError A) (running : Running) (conn : Text)
    → (with_lock conn body (acquire_lock running conn) running).1
      ≡ (if is_running running conn then err already_running else body)
unfolding with_lock acquire_lock
with_lock-busy body running conn = elim (Bool-cases (is_running running conn)) [
  | inl e ↦ rw e refl
  | inr e ↦ rw e refl
]

-- ===== src/Models/Dag/Reached.antt =====
-- The recursion of `GetUpstreamDeps` (internal/models/dag.go) reaches all transitive dependencies.
use Prim.Native.Nat.{ℕ, zero, suc, ◌≤◌}
use mathlib.Core.Path.{◌≡◌, refl, ◌∙◌}
use mathlib.Core.Logic.{◌↔◌, inl, inr}
use mathlib.Core.Bool.{true}
use mathlib.Core.List.{List, [], ◌∷◌}
use native.Mathlib.Omega.{arith}
use ch_ui.Prelude.Tests.{Bool-cases}
use ch_ui.Prelude.Lists.{length}
use ch_ui.Prelude.Text.{Text, same, same_refl, same→eq}
use ch_ui.Models.Dag.{Lists, slice}
use ch_ui.Models.Dag.Components.{member, walk, get_upstream_deps}
use ch_ui.Models.Dag.Upstream.{
  Upstream, direct, further, unvisited, unvisited-length, Within, unvisited_mono, unvisited_visit,
  walk_seen, walk_new, Walked, member-cons, skip-Walked, visit-Walked, idle-Walked, absurd_bool,
}

Within-tail : (d : Text) (todo xs : List Text) → Within (d ∷ todo) xs → Within todo xs
Within-tail d todo xs t x h = t x (member-cons x d todo ∙ rw h (ground arith))

all_visited :
    (visited xs todo : List Text) → unvisited visited xs ≤ 0 → Within todo xs → Within todo visited
all_visited visited xs todo enough t x h = elim (Bool-cases (member x visited)) [
  | inl e ↦ e
  | inr e ↦ (let fewer = unvisited_visit visited xs x e (t x h) in absurd (omega arith))
]

module _ (deps : Lists) (universe : List Text)
    (inside : (x d : Text) → member d (slice x deps) ≡ true → member d universe ≡ true) where
  walk-Walked :
      (fuel : ℕ) (todo visited : List Text)
      → unvisited visited universe ≤ fuel
      → Within todo universe
      → Walked deps todo visited (walk fuel deps todo visited)
  unfolding walk
  walk-Walked zero [] visited enough t = idle-Walked deps visited
  walk-Walked (suc fuel) [] visited enough t = idle-Walked deps visited
  walk-Walked zero (d ∷ todo) visited enough t = record {
    keeps = λ x h. h;
    covers = all_visited visited universe (d ∷ todo) enough t;
    closed = λ x e h new next. absurd_bool h new;
  }
  walk-Walked (suc fuel) (d ∷ todo) visited enough t = elim (Bool-cases (member d visited)) [
    | inl e ↦ rw (walk_seen fuel deps d todo visited e) (
        skip-Walked deps d todo visited _ e
          (walk-Walked (suc fuel) todo visited enough (Within-tail d todo universe t)))
    | inr e ↦
        (let inner = walk fuel deps (slice d deps) (d ∷ visited) in
          let fewer =
            unvisited_visit visited universe d e
              (t d (member-cons d d todo ∙ rw (same_refl d) refl)) in
          let below = walk-Walked fuel (slice d deps) (d ∷ visited) (omega arith) (inside d) in
          let rest =
            walk-Walked (suc fuel) todo inner
              (omega (arith, unvisited_mono (d ∷ visited) inner universe below.keeps))
              (Within-tail d todo universe t) in
          rw (walk_new fuel deps d todo visited e)
            (visit-Walked deps d todo visited inner _ below rest))
  ]

-- Whatever a walk visits is visited already or stands upstream.
module _ (deps : Lists) (x : Text) where
  walk-Upstream :
      (fuel : ℕ) (todo visited : List Text)
      → ((d : Text) → member d todo ≡ true → Upstream deps x d)
      → ((d : Text) → member d visited ≡ true → Upstream deps x d)
      → (d : Text) → member d (walk fuel deps todo visited) ≡ true
      → Upstream deps x d
  unfolding walk
  walk-Upstream zero [] visited t v d h = v d h
  walk-Upstream (suc fuel) [] visited t v d h = v d h
  walk-Upstream zero (y ∷ todo) visited t v d h = v d h
  walk-Upstream (suc fuel) (y ∷ todo) visited t v d h = elim (Bool-cases (member y visited)) [
    | inl e ↦
        walk-Upstream (suc fuel) todo visited later v d
          (rw (walk_seen fuel deps y todo visited e) at h)
    | inr e ↦
        walk-Upstream (suc fuel) todo (walk fuel deps (slice y deps) (y ∷ visited)) later
          (walk-Upstream fuel (slice y deps) (y ∷ visited) (λ z k. further y z first k) seen) d
          (rw (walk_new fuel deps y todo visited e) at h)
  ]
    where
      first : Upstream deps x y
      first = t y (member-cons y y todo ∙ rw (same_refl y) refl)

      later : (z : Text) → member z todo ≡ true → Upstream deps x z
      later z k = t z (member-cons z y todo ∙ rw k (ground arith))

      seen : (z : Text) → member z (y ∷ visited) ≡ true → Upstream deps x z
      seen z k = elim (Bool-cases (same y z)) [
        | inl e ↦ rw (← same→eq y z e) first
        | inr e ↦ v z (rw (member-cons z y visited, e) at k)
      ]

Upstream-member :
    (deps : Lists) (x : Text) (result : List Text)
    → Walked deps (slice x deps) [] result
    → (d : Text) → Upstream deps x d
    → member d result ≡ true
unfolding member
Upstream-member deps x result w d (direct e h) = w.covers e h
Upstream-member deps x result w d (further y e u h) =
    w.closed y e (Upstream-member deps x result w y u) refl h

-- Where all dependencies are models of a list that is no longer than the given size, the recursion ends
-- within its fuel, and the models that GetUpstreamDeps returns are exactly the transitive dependencies.
pub get_upstream_deps_iff :
    (deps : Lists) (models : List Text) (size : ℕ) (x : Text)
    → ((y d : Text) → member d (slice y deps) ≡ true → member d models ≡ true)
    → length models ≤ size
    → (d : Text) → (member d (get_upstream_deps size x deps) ≡ true) ↔ Upstream deps x d
unfolding get_upstream_deps
get_upstream_deps_iff deps models size x inside enough d = (
  walk-Upstream deps x (suc size) (slice x deps) [] (λ z k. direct z k) (λ z k. none_visited z k) d,
  Upstream-member deps x (walk (suc size) deps (slice x deps) [])
      (walk-Walked deps models inside (suc size) (slice x deps) []
        (omega (arith, unvisited-length [] models)) (inside x))
      d,
)
  where
    none_visited : (z : Text) → member z [] ≡ true → Upstream deps x z
    none_visited z k = unfold member in cc

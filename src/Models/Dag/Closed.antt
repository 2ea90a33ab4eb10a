-- ===== src/Models/Dag/Closed.antt =====
-- A component holds the dependencies and the dependents of each of its models
-- (internal/models/dag.go).
use Prim.Native.Nat.{ℕ, zero, suc, ◌+◌, ◌≤◌, ◌<◌}
use mathlib.Core.Path.{◌≡◌, refl, ap, subst, ◌∙◌}
use mathlib.Core.Logic.{inl, inr}
use mathlib.Core.Bool.{Bool, true, false, not, ◌&&◌, ◌||◌}
use mathlib.Core.List.{List, [], ◌∷◌, ◌++◌}
use native.Mathlib.Omega.{arith}
use ch_ui.Prelude.Tests.{if◌then◌else◌, Bool-cases}
use ch_ui.Prelude.Lists.{keep, length, length-append, length-keep, All}
use ch_ui.Prelude.Text.{Text, same, same_iff, same_refl, same→eq}
use ch_ui.Models.Dag.{DepGraph, slice}
use ch_ui.Models.Dag.Components.{member, fresh, weight, search_from}
use ch_ui.Models.Dag.Partition.{member-cong}

pub member-append : (x : Text) (l m : List Text) → member x (l ++ m) ≡ (member x l || member x m)
unfolding member
member-append x [] m = refl
member-append x (y ∷ l) m = ground (arith, member-append x l m)

-- A test that looks at a text by its bytes alone keeps all copies of a text.
pub member-keep :
    (x : Text) (p : Text → Bool) (l : List Text) → member x (keep p l) ≡ (member x l && p x)
unfolding member keep
member-keep x p [] = refl
member-keep x p (y ∷ l) = elim (Bool-cases (same y x)) [
  | inl e ↦ let e' : p y ≡ p x = ap p (same→eq y x e) in ground (arith, member-keep x p l)
  | inr e ↦ ground (arith, member-keep x p l)
]

pub member-All : (P : Text → Type 0) (x : Text) (l : List Text) → All P l → member x l ≡ true → P x
unfolding member
member-All P x [] h k = cc
member-All P x (y ∷ l) (p, h) k = elim (Bool-cases (same y x)) [
  | inl e ↦ subst P (same→eq y x e) p
  | inr e ↦ member-All P x l h (ground arith)
]

abbrev pub neighbour : DepGraph → Text → Text → Bool
neighbour g x d = member d (slice x g.deps) || member d (slice x g.rev_deps)

-- The neighbours in the order of what is visited are visited or wait.
abbrev pub IsClosing : DepGraph → List Text → List Text → Type 0
IsClosing g visited queue =
    (x d : Text)
    → member x visited ≡ true
    → neighbour g x d ≡ true
    → member d g.order ≡ true
    → (member d visited || member d queue) ≡ true

abbrev pub IsInside : DepGraph → List Text → Type 0
IsInside g queue = (x : Text) → member x queue ≡ true → member x g.order ≡ true

abbrev added : DepGraph → List Text → Text → List Text
added g visited cur =
    fresh g.order (cur ∷ visited) (slice cur g.deps)
    ++ fresh g.order (cur ∷ visited) (slice cur g.rev_deps)

member-added :
    (g : DepGraph) (visited : List Text) (cur d : Text)
    → member d (added g visited cur)
      ≡ (neighbour g cur d && (not (member d (cur ∷ visited)) && member d g.order))
unfolding fresh
member-added g visited cur d =
    let p = λ (x : Text). not (member x (cur ∷ visited)) && member x g.order in
    ground (
      arith,
      member-append d (keep p (slice cur g.deps)) (keep p (slice cur g.rev_deps)),
      member-keep d p (slice cur g.deps),
      member-keep d p (slice cur g.rev_deps),
    )

length-added :
    (g : DepGraph) (visited : List Text) (cur : Text)
    → length (added g visited cur) ≤ length (slice cur g.deps) + length (slice cur g.rev_deps)
unfolding fresh
length-added g visited cur =
    let p = λ (x : Text). not (member x (cur ∷ visited)) && member x g.order in
    omega (
      arith,
      length-append (keep p (slice cur g.deps)) (keep p (slice cur g.rev_deps)),
      length-keep p (slice cur g.deps),
      length-keep p (slice cur g.rev_deps),
    )

-- Marking a model takes its neighbours from what the rounds can still add.
weight-mark :
    (g : DepGraph) (visited : List Text) (cur : Text) (xs : List Text)
    → member cur visited ≡ false
    → weight g (cur ∷ visited) xs
        + (if member cur xs then length (slice cur g.deps) + length (slice cur g.rev_deps) else 0)
      ≤ weight g visited xs
unfolding weight member
weight-mark g visited cur [] new = omega arith
weight-mark g visited cur (x ∷ xs) new = elim (Bool-cases (same cur x)) [
  | inl e ↦ rw (← same→eq cur x e) (ground (arith, weight-mark g visited cur xs new, same_refl cur))
  | inr e ↦ ground (arith, weight-mark g visited cur xs new, same_iff cur x, same_iff x cur)
]

close_step :
    (g : DepGraph) (cur : Text) (queue visited : List Text)
    → IsClosing g visited (cur ∷ queue)
    → IsClosing g (cur ∷ visited) (queue ++ added g visited cur)
close_step g cur queue visited h x d seen next there = elim (Bool-cases (same cur x)) [
  | inl e ↦
      let e' : neighbour g cur d ≡ neighbour g x d = ap (λ t. neighbour g t d) (same→eq cur x e) in
      close_here (e' ∙ next)
  | inr e ↦ close_old (unfold member in ground arith)
]
  where
    close_here :
        neighbour g cur d ≡ true
        → (member d (cur ∷ visited) || member d (queue ++ added g visited cur)) ≡ true
    close_here k =
        ground (arith, member-append d queue (added g visited cur), member-added g visited cur d)

    close_old :
        member x visited ≡ true
        → (member d (cur ∷ visited) || member d (queue ++ added g visited cur)) ≡ true
    close_old k =
        let w = h x d k next there in
        unfold member in ground (arith, member-append d queue (added g visited cur))

skip_step :
    (g : DepGraph) (cur : Text) (queue visited : List Text)
    → member cur visited ≡ true
    → IsClosing g visited (cur ∷ queue)
    → IsClosing g visited queue
unfolding member
skip_step g cur queue visited old h x d seen next there = elim (Bool-cases (same cur d)) [
  | inl e ↦ ground (arith, member-cong cur d visited e)
  | inr e ↦ ground (arith, h x d seen next there)
]

pub search_from-closed :
    (g : DepGraph) (fuel : ℕ) (queue visited component : List Text)
    → length queue + weight g visited g.order < fuel
    → IsInside g queue
    → IsClosing g visited queue
    → IsClosing g (search_from fuel g queue visited component).0 []
unfolding search_from
search_from-closed g zero queue visited component m i h = absurd (omega arith)
search_from-closed g (suc fuel) [] visited component m i h = h
search_from-closed g (suc fuel) (cur ∷ queue) visited component m i h =
    elim (Bool-cases (member cur visited)) [
      | inl seen ↦ rw seen (
          search_from-closed g fuel queue visited component (omega arith)
            (λ x k. i x (unfold member in ground arith)) (skip_step g cur queue visited seen h))
      | inr new ↦
          let here : member cur g.order ≡ true =
            i cur (unfold member in ground (arith, same_refl cur)) in
          rw new (
            search_from-closed g fuel (queue ++ added g visited cur) (cur ∷ visited)
              (cur ∷ component) (shorter (weight-mark g visited cur g.order new) here)
              (λ x k. inside x k) (close_step g cur queue visited h))
    ]
  where
    shorter :
        weight g (cur ∷ visited) g.order
            + (if member cur g.order
                then length (slice cur g.deps) + length (slice cur g.rev_deps)
                else 0)
          ≤ weight g visited g.order
        → member cur g.order ≡ true
        → length (queue ++ added g visited cur) + weight g (cur ∷ visited) g.order < fuel
    shorter w here =
        let w' = rw here at w in
        omega (arith, length-append queue (added g visited cur), length-added g visited cur)

    inside : (x : Text) → member x (queue ++ added g visited cur) ≡ true → member x g.order ≡ true
    inside x k = elim (Bool-cases (member x queue)) [
      | inl q ↦ i x (unfold member in ground arith)
      | inr q ↦
          ground (arith, member-append x queue (added g visited cur), member-added g visited cur x)
    ]

-- ===== src/Models/Dag/Upstream.antt =====
-- What `GetUpstreamDeps` (internal/models/dag.go) finds: its recursion against the relation of being a
-- transitive dependency.
use Prim.Native.Nat.{ℕ, suc, ◌≤◌, ◌<◌}
use mathlib.Core.Path.{◌≡◌, refl, ◌∙◌}
use mathlib.Core.Logic.{inl, inr}
use mathlib.Core.Bool.{Bool, true, false, ◌||◌}
use mathlib.Core.List.{List, [], ◌∷◌}
use native.Mathlib.Omega.{arith}
use ch_ui.Prelude.Tests.{if◌then◌else◌, Bool-cases}
use ch_ui.Prelude.Lists.{length}
use ch_ui.Prelude.Text.{Text, same, same_iff, same_refl, same→eq}
use ch_ui.Models.Dag.{Lists, slice}
use ch_ui.Models.Dag.Components.{member, walk}

-- `d` is a dependency of `x`, or a dependency of one.
pub data Upstream (deps : Lists) (x : Text) : Text → Type 0 where
  direct : (d : Text) → member d (slice x deps) ≡ true → Upstream deps x d
  further : (y d : Text) → Upstream deps x y → member d (slice y deps) ≡ true → Upstream deps x d

-- How many models of a list are not visited.
unfoldable pub unvisited : List Text → List Text → ℕ
unvisited visited [] = 0
unvisited visited (x ∷ xs) =
    let rest = unvisited visited xs in if member x visited then rest else suc rest

pub unvisited-length : (visited xs : List Text) → unvisited visited xs ≤ length xs
unfolding unvisited
unvisited-length visited [] = omega arith
unvisited-length visited (x ∷ xs) = ground (arith, unvisited-length visited xs)

abbrev pub Within : List Text → List Text → Type 0
Within xs ys = (x : Text) → member x xs ≡ true → member x ys ≡ true

pub unvisited_mono : (v w xs : List Text) → Within v w → unvisited w xs ≤ unvisited v xs
unfolding unvisited
unvisited_mono v w [] h = omega arith
unvisited_mono v w (x ∷ xs) h = ground (arith, unvisited_mono v w xs h, h x)

Within-cons : (d : Text) (v : List Text) → Within v (d ∷ v)
unfolding member
Within-cons d v x h = ground arith

pub unvisited_visit :
    (v xs : List Text) (d : Text)
    → member d v ≡ false
    → member d xs ≡ true
    → unvisited (d ∷ v) xs < unvisited v xs
unfolding unvisited member
unvisited_visit v [] d new there = cc
unvisited_visit v (x ∷ xs) d new there = elim (Bool-cases (same x d)) [
  | inl e ↦
      rw (same→eq x d e, same_refl d, new)
        (ground (arith, unvisited_mono v (d ∷ v) xs (Within-cons d v)))
  | inr e ↦ ground (arith, unvisited_visit v xs d new, same_iff x d, same_iff d x)
]

pub walk_seen :
    (fuel : ℕ) (deps : Lists) (d : Text) (todo visited : List Text)
    → member d visited ≡ true
    → walk (suc fuel) deps (d ∷ todo) visited ≡ walk (suc fuel) deps todo visited
unfolding walk
walk_seen fuel deps d todo visited e = rw (e, walk) refl

pub walk_new :
    (fuel : ℕ) (deps : Lists) (d : Text) (todo visited : List Text)
    → member d visited ≡ false
    → walk (suc fuel) deps (d ∷ todo) visited
      ≡ walk (suc fuel) deps todo (walk fuel deps (slice d deps) (d ∷ visited))
unfolding walk
walk_new fuel deps d todo visited e = rw (e, walk) refl

-- What a walk leaves: it forgets nothing, visits all of `todo`, follows the dependencies of whatever
-- is new, and what is new is of `todo` or stands upstream of it.
pub record Walked (deps : Lists) (todo visited result : List Text) : Type 0 where
  pub keeps : Within visited result
  pub covers : Within todo result
  pub closed :
      (x d : Text)
      → member x result ≡ true
      → member x visited ≡ false
      → member d (slice x deps) ≡ true
      → member d result ≡ true

pub member-cons : (x d : Text) (l : List Text) → member x (d ∷ l) ≡ (same d x || member x l)
unfolding member
member-cons x d l = refl

pub skip-Walked :
    (deps : Lists) (d : Text) (todo visited result : List Text)
    → member d visited ≡ true
    → Walked deps todo visited result
    → Walked deps (d ∷ todo) visited result
unfolding member
skip-Walked deps d todo visited result seen w = record {
  keeps = w.keeps;
  covers = λ x h. all x h;
  closed = w.closed;
}
  where
    all : (x : Text) → member x (d ∷ todo) ≡ true → member x result ≡ true
    all x h = elim (Bool-cases (same d x)) [
      | inl e ↦ rw (← same→eq d x e) (w.keeps d seen)
      | inr e ↦ w.covers x (rw e at h)
    ]

pub visit-Walked :
    (deps : Lists) (d : Text) (todo visited inner result : List Text)
    → Walked deps (slice d deps) (d ∷ visited) inner
    → Walked deps todo inner result
    → Walked deps (d ∷ todo) visited result
visit-Walked deps d todo visited inner result i w = record {
  keeps = λ x h. w.keeps x (i.keeps x (Within-cons d visited x h));
  covers = all;
  closed = close;
}
  where
    here : member d result ≡ true
    here = w.keeps d (i.keeps d (member-cons d d visited ∙ rw (same_refl d) refl))

    all : (x : Text) → member x (d ∷ todo) ≡ true → member x result ≡ true
    all x h = elim (Bool-cases (same d x)) [
      | inl e ↦ rw (← same→eq d x e) here
      | inr e ↦ w.covers x (rw (member-cons x d todo, e) at h)
    ]

    close :
        (x e : Text)
        → member x result ≡ true
        → member x visited ≡ false
        → member e (slice x deps) ≡ true
        → member e result ≡ true
    close x e h new next = elim (Bool-cases (member x inner)) [
      | inr later ↦ w.closed x e h later next
      | inl there ↦ elim (Bool-cases (same d x)) [
        | inl k ↦ w.keeps e (i.covers e (rw (same→eq d x k) next))
        | inr k ↦ w.keeps e (i.closed x e there (member-cons x d visited ∙ rw (k, new) refl) next)
      ]
    ]

pub idle-Walked : (deps : Lists) (visited : List Text) → Walked deps [] visited visited
unfolding member
idle-Walked deps visited = record {
  keeps = λ x h. h;
  covers = λ x h. cc;
  closed = λ x d h new next. cc;
}

pub absurd_bool : {P : Type 0} {b : Bool} → b ≡ true → b ≡ false → P
absurd_bool h k = cc

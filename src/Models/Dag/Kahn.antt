-- ===== src/Models/Dag/Kahn.antt =====
-- The invariant of Kahn's loop in `BuildDAG` (internal/models/dag.go).
use Prim.Native.Nat.{◌+◌, ◌≤◌, ◌<◌}
use mathlib.Core.Path.{◌≡◌, refl}
use mathlib.Core.Logic.{inl, inr}
use mathlib.Core.List.{List, [], ◌∷◌, ◌++◌, append_assoc, append-nil}
use native.Mathlib.Omega.{arith}
use ch_ui.Prelude.Tests.{if◌then◌else◌, Bool-cases}
use ch_ui.Prelude.Lists.{All}
use ch_ui.Prelude.Int.{ℤ, pos, ◌-ℤ◌}
use ch_ui.Prelude.Text.{Text, same, same_iff, same_refl}
use ch_ui.Prelude.Maps.{insert}
use ch_ui.Prelude.Counts.{count, count-append, count-single}
use ch_ui.Models.Dag.{degree, is_zero, relax}
use ch_ui.Models.Dag.Edges.{Edges, targets, waiting, waiting-snoc, degree-insert}

-- Every model of the list stands behind all its dependencies; `done` stands before the list.
abbrev pub IsTopological : Edges → List Text → List Text → Type 0
IsTopological es done [] = Unit
IsTopological es done (x ∷ xs) = (waiting es done x ≡ 0) × IsTopological es (done ++ x ∷ []) xs

pub IsTopological-snoc :
    (es : Edges) (done xs : List Text) (x : Text)
    → IsTopological es done xs
    → waiting es (done ++ xs) x ≡ 0
    → IsTopological es done (xs ++ x ∷ [])
IsTopological-snoc es done [] x h e = (rw (append-nil done) at e, tt)
IsTopological-snoc es done (y ∷ xs) x (hy, h) e =
    (hy, IsTopological-snoc es (done ++ y ∷ []) xs x h (rw (← append_assoc done (y ∷ []) xs) at e))

-- What holds while the dependents `left` of the last model of `order` are still to be visited.
pub record Inv (es : Edges) (ids : List Text) (in_degree : List (Text × ℤ))
    (queue order left : List Text) : Type 0 where
  pub degrees : (x : Text) → degree x in_degree ≡ pos (waiting es order x + count x left)
  pub ready : (x : Text) → 0 < count x (order ++ queue) → waiting es order x + count x left ≡ 0
  pub within : (x : Text) → count x (order ++ queue) ≤ count x ids
  pub full :
      (x : Text)
      → 0 < count x ids
      → waiting es order x + count x left ≡ 0
      → 0 < count x (order ++ queue)

-- The queue after one dependent.
abbrev pub queue_with : ℤ → List Text → Text → List Text
queue_with n queue d = if is_zero n then queue ++ d ∷ [] else queue

count-queue_with :
    (n : ℤ) (order queue : List Text) (d x : Text)
    → count x (order ++ queue_with n queue d)
      ≡ count x (order ++ queue) + (if is_zero n then (if same d x then 1 else 0) else 0)
count-queue_with n order queue d x = elim (Bool-cases (is_zero n)) [
  | inl z ↦ rw z (
      omega (
        arith,
        count-append x order (queue ++ d ∷ []),
        count-append x queue (d ∷ []),
        count-append x order queue,
        count-single x d,
      ))
  | inr z ↦ rw z (omega arith)
]

count-cons :
    (x d : Text) (l : List Text) → count x (d ∷ l) ≡ (if same d x then 1 else 0) + count x l
unfolding count
count-cons x d l = ground arith

module _ (es : Edges) (ids : List Text) where
  -- One dependent is visited.
  relax_step :
      (in_degree : List (Text × ℤ)) (queue order : List Text) (d : Text) (left : List Text)
      → 0 < count d ids
      → Inv es ids in_degree queue order (d ∷ left)
      → Inv es ids
          (insert d (degree d in_degree -ℤ pos 1) in_degree)
          (queue_with (degree d in_degree -ℤ pos 1) queue d)
          order
          left
  unfolding ◌-ℤ◌
  relax_step in_degree queue order d left known h =
      let n = degree d in_degree -ℤ pos 1 in
      record {
        degrees = λ x. ground (
          arith,
          degree-insert d x n in_degree,
          h.degrees x,
          h.degrees d,
          count-cons x d left,
          count-cons d d left,
          same_iff d x,
          same_refl d,
        );
        ready = λ x seen. ground (
          arith,
          h.ready x,
          h.degrees d,
          count-queue_with n order queue d x,
          count-cons x d left,
          count-cons d d left,
          same_iff d x,
          same_refl d,
        );
        within = λ x. ground (
          arith,
          h.within x,
          h.ready x,
          h.degrees d,
          count-queue_with n order queue d x,
          count-cons x d left,
          count-cons d d left,
          same_iff d x,
          same_refl d,
        );
        full = λ x there none_left. ground (
          arith,
          h.full x,
          h.degrees d,
          count-queue_with n order queue d x,
          count-cons x d left,
          count-cons d d left,
          same_iff d x,
          same_refl d,
        );
      }

  pub relax_loop :
      (in_degree : List (Text × ℤ)) (queue order left : List Text)
      → All (λ d. 0 < count d ids) left
      → Inv es ids in_degree queue order left
      → let (in_degree', queue') = relax in_degree queue left in
        Inv es ids in_degree' queue' order []
  unfolding relax
  relax_loop in_degree queue order [] known h = h
  relax_loop in_degree queue order (d ∷ left) (here, known) h =
      relax_loop (insert d (degree d in_degree -ℤ pos 1) in_degree)
        (queue_with (degree d in_degree -ℤ pos 1) queue d) order left known
        (relax_step in_degree queue order d left here h)

  -- The first model of the queue is taken.
  pub take_next :
      (in_degree : List (Text × ℤ)) (curr : Text) (queue order : List Text)
      → ((x : Text) → count x ids ≤ 1)
      → Inv es ids in_degree (curr ∷ queue) order []
      → Inv es ids in_degree queue (order ++ curr ∷ []) (targets curr es)
  take_next in_degree curr queue order unique h =
      let none_yet : count curr order ≡ 0 =
        omega
          (arith, h.within curr, unique curr, count-append curr order (curr ∷ queue), once curr) in
      record {
        degrees = λ x. split x none_yet (h.degrees x);
        ready = λ x seen. omega (arith, waiting-snoc es order curr x none_yet, moved x seen);
        within = λ x. rw (append_assoc order (curr ∷ []) queue) (h.within x);
        full = λ x there e.
            rw (append_assoc order (curr ∷ []) queue)
              (h.full x there (omega (arith, waiting-snoc es order curr x none_yet, empty x)));
      }
    where
      once : (x : Text) → 0 < count x (x ∷ queue)
      once x = unfold count in ground (arith, same_refl x)

      empty : (x : Text) → count x [] ≡ 0
      empty x = unfold count in refl

      moved : (x : Text) → 0 < count x ((order ++ curr ∷ []) ++ queue) → waiting es order x ≡ 0
      moved x seen =
          omega (arith, h.ready x (rw (append_assoc order (curr ∷ []) queue) at seen), empty x)

      split :
          (x : Text)
          → count curr order ≡ 0
          → degree x in_degree ≡ pos (waiting es order x + count x [])
          → degree x in_degree ≡ pos (waiting es (order ++ curr ∷ []) x + count x (targets curr es))
      split x z e = ground (arith, e, waiting-snoc es order curr x z, empty x)

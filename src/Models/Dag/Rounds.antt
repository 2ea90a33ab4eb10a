-- ===== src/Models/Dag/Rounds.antt =====
-- The rounds of Kahn's loop in `BuildDAG` (internal/models/dag.go) and its start.
use Prim.Native.Nat.{ℕ, zero, suc, ◌+◌, ◌≤◌, ◌<◌}
use mathlib.Core.Path.{◌≡◌, refl}
use mathlib.Core.List.{List, [], ◌∷◌, ◌++◌}
use native.Mathlib.Omega.{arith}
use ch_ui.Prelude.Tests.{if◌then◌else◌}
use ch_ui.Prelude.Lists.{length, length-append, All}
use ch_ui.Prelude.Int.{ℤ, pos, negsuc, ◌-ℤ◌}
use ch_ui.Prelude.Text.{Text, same_iff, same_refl}
use ch_ui.Prelude.Maps.{lookup, insert}
use ch_ui.Prelude.Counts.{count, count-append}
use ch_ui.Models.Dag.{Lists, slice, degree, is_zero, relax, kahn, is_positive, positives, roots}
use ch_ui.Models.Dag.Edges.{Edges, targets, waiting}
use ch_ui.Models.Dag.Kahn.{
  IsTopological, IsTopological-snoc, Inv, queue_with, relax_loop, take_next,
}

positives-insert :
    (k : Text) (v : ℤ) (m : List (Text × ℤ))
    → positives (insert k v m) + is_positive (degree k m) ≡ positives m + is_positive v
unfolding positives insert degree lookup
positives-insert k v [] = ground arith
positives-insert k v ((j, w) ∷ m) = ground (arith, positives-insert k v m)

length-queue_with :
    (n : ℤ) (queue : List Text) (d : Text)
    → length (queue_with n queue d) ≡ length queue + (if is_zero n then 1 else 0)
length-queue_with n queue d = ground (arith, length-append queue (d ∷ []))

decrement :
    (k : ℤ) → is_positive (k -ℤ pos 1) + (if is_zero (k -ℤ pos 1) then 1 else 0) ≤ is_positive k
unfolding ◌-ℤ◌
decrement (pos zero) = omega arith
decrement (pos (suc k)) = ground arith
decrement (negsuc k) = ground arith

-- Visiting dependents keeps the bound on the rounds.
relax_measure :
    (in_degree : List (Text × ℤ)) (queue left : List Text)
    → let (in_degree', queue') = relax in_degree queue left in
      length queue' + positives in_degree' ≤ length queue + positives in_degree
unfolding relax
relax_measure in_degree queue [] = omega arith
relax_measure in_degree queue (d ∷ left) =
    let k = degree d in_degree in
    let n = k -ℤ pos 1 in
    omega (
      arith,
      relax_measure (insert d n in_degree) (queue_with n queue d) left,
      decrement k,
      positives-insert d n in_degree,
      length-queue_with n queue d,
    )

module _ (es : Edges) (ids : List Text) (rev_deps : Lists) (unique : (x : Text) → count x ids ≤ 1)
    (reversed : (d : Text) → slice d rev_deps ≡ targets d es)
    (known : (d : Text) → All (λ x. 0 < count x ids) (targets d es)) where
  kahn_step :
      (fuel : ℕ) (in_degree : List (Text × ℤ)) (curr : Text) (queue order : List Text)
      → let (in_degree', queue') = relax in_degree queue (targets curr es) in
        kahn (suc fuel) rev_deps in_degree (curr ∷ queue) order
        ≡ kahn fuel rev_deps in_degree' queue' (order ++ curr ∷ [])
  unfolding kahn
  kahn_step fuel in_degree curr queue order = λ i.
      let (in_degree', queue') = relax in_degree queue (reversed curr i) in
      kahn fuel rev_deps in_degree' queue' (order ++ curr ∷ [])

  -- With enough fuel the loop empties its queue, and its order is topological.
  pub kahn_lem :
      (fuel : ℕ) (in_degree : List (Text × ℤ)) (queue order : List Text)
      → length queue + positives in_degree < fuel
      → Inv es ids in_degree queue order []
      → IsTopological es [] order
      → let (left, out) = kahn fuel rev_deps in_degree queue order in
        (left ≡ [])
        × IsTopological es [] out
        × ((in_degree' : List (Text × ℤ)) × Inv es ids in_degree' [] out [])
  unfolding kahn
  kahn_lem zero in_degree queue order m h t = absurd (omega arith)
  kahn_lem (suc fuel) in_degree [] order m h t = (refl, t, (in_degree, h))
  kahn_lem (suc fuel) in_degree (curr ∷ queue) order m h t =
      rw (kahn_step fuel in_degree curr queue order) (
        kahn_lem fuel (relax in_degree queue (targets curr es)).0
          (relax in_degree queue (targets curr es)).1 (order ++ curr ∷ [])
          (omega (arith, relax_measure in_degree queue (targets curr es)))
          (relax_loop es ids in_degree queue (order ++ curr ∷ []) (targets curr es) (known curr)
            (take_next es ids in_degree curr queue order unique h))
          (IsTopological-snoc es [] order curr t
            (omega (arith, h.ready curr (seen curr), none_here curr))))
    where
      seen : (x : Text) → 0 < count x (order ++ x ∷ queue)
      seen x = unfold count in ground (arith, count-append x order (x ∷ queue), same_refl x)

      none_here : (x : Text) → count x [] ≡ 0
      none_here x = unfold count in refl

count-roots :
    (in_degree : List (Text × ℤ)) (ids : List Text) (x : Text)
    → count x (roots in_degree ids) ≡ (if is_zero (degree x in_degree) then count x ids else 0)
unfolding roots count
count-roots in_degree [] x = ground arith
count-roots in_degree (y ∷ ids) x = ground (arith, count-roots in_degree ids x, same_iff y x)

-- The invariant holds before the first round.
pub start-Inv :
    (es : Edges) (ids : List Text) (in_degree : List (Text × ℤ))
    → ((x : Text) → degree x in_degree ≡ pos (waiting es [] x))
    → Inv es ids in_degree (roots in_degree ids) [] []
unfolding count
start-Inv es ids in_degree h = record {
  degrees = λ x. ground (arith, h x);
  ready = λ x seen. ground (arith, h x, count-roots in_degree ids x);
  within = λ x. ground (arith, h x, count-roots in_degree ids x);
  full = λ x there e. ground (arith, h x, count-roots in_degree ids x);
}

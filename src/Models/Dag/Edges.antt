-- ===== src/Models/Dag/Edges.antt =====
-- The edges of a dependency graph, and what the maps that `BuildDAG` fills say of them
-- (internal/models/dag.go).
use Prim.Native.Nat.{ℕ, suc, ◌+◌}
use mathlib.Core.Path.{◌≡◌, refl}
use mathlib.Core.Logic.{inl, inr}
use mathlib.Core.Bool.{◌&&◌}
use mathlib.Core.List.{List, [], ◌∷◌, ◌++◌, append-nil}
use native.Mathlib.Omega.{arith}
use ch_ui.Prelude.Tests.{◌==◌, if◌then◌else◌, Bool-cases}
use ch_ui.Prelude.Int.{ℤ, pos, ◌+ℤ◌}
use ch_ui.Prelude.Text.{Text, same, same_iff}
use ch_ui.Prelude.Maps.{insert, lookup-insert}
use ch_ui.Prelude.Counts.{count, count-append, count-single}
use ch_ui.Models.Dag.{Lists, Building, slice, degree, add_edge}

-- A dependency and the model that has it.
abbrev pub Edges : Type 0
Edges = List (Text × Text)

-- The models that depend on `d`, and the dependencies of `x`, in the order of the edges.
unfoldable pub targets : Text → Edges → List Text
targets d [] = []
targets d ((e, x) ∷ es) = let rest = targets d es in if same e d then x ∷ rest else rest

unfoldable pub sources : Text → Edges → List Text
sources x [] = []
sources x ((d, y) ∷ es) = let rest = sources x es in if same y x then d ∷ rest else rest

-- How many edges lead to `x` from models that are not in `done`.
unfoldable pub waiting : Edges → List Text → Text → ℕ
waiting [] done x = 0
waiting ((d, y) ∷ es) done x =
    let rest = waiting es done x in if same y x && count d done == 0 then suc rest else rest

pub targets-append :
    (d : Text) (es fs : Edges) → targets d (es ++ fs) ≡ targets d es ++ targets d fs
unfolding targets
targets-append d [] fs = refl
targets-append d ((e, x) ∷ es) fs = ground (arith, targets-append d es fs)

pub sources-append :
    (x : Text) (es fs : Edges) → sources x (es ++ fs) ≡ sources x es ++ sources x fs
unfolding sources
sources-append x [] fs = refl
sources-append x ((d, y) ∷ es) fs = ground (arith, sources-append x es fs)

pub waiting-append :
    (es fs : Edges) (done : List Text) (x : Text)
    → waiting (es ++ fs) done x ≡ waiting es done x + waiting fs done x
unfolding waiting
waiting-append [] fs done x = omega arith
waiting-append ((d, y) ∷ es) fs done x = ground (arith, waiting-append es fs done x)

-- What finishing one more model takes from the count: the edges from it.
pub waiting-snoc :
    (es : Edges) (done : List Text) (curr x : Text)
    → count curr done ≡ 0
    → waiting es done x ≡ waiting es (done ++ curr ∷ []) x + count x (targets curr es)
unfolding waiting targets
waiting-snoc [] done curr x h = unfold count in omega arith
waiting-snoc ((d, y) ∷ es) done curr x h = elim (Bool-cases (same d curr)) [
  | inl e ↦ ground (
    arith,
    waiting-snoc es done curr x h,
    count-append d done (curr ∷ []),
    count-single d curr,
    same_iff d curr,
    same_iff curr d,
    count-cons x y (targets curr es),
  )
  | inr e ↦ ground (
    arith,
    waiting-snoc es done curr x h,
    count-append d done (curr ∷ []),
    count-single d curr,
    same_iff d curr,
    same_iff curr d,
  )
]
  where
    count-cons :
        (z w : Text) (l : List Text)
        → count z (w ∷ l) ≡ (if same w z then suc (count z l) else count z l)
    count-cons z w l = unfold count in refl

-- The maps hold exactly the edges.
pub record Represents (b : Building) (es : Edges) : Type 0 where
  pub deps_are : (x : Text) → slice x b.deps ≡ sources x es
  pub rev_deps_are : (d : Text) → slice d b.rev_deps ≡ targets d es
  pub degrees_are : (x : Text) → degree x b.in_degree ≡ pos (waiting es [] x)

pub slice-insert :
    (k j : Text) (v : List Text) (m : Lists)
    → slice j (insert k v m) ≡ (if same k j then v else slice j m)
unfolding slice
slice-insert k j v m = ground (arith, lookup-insert k j v m)

pub degree-insert :
    (k j : Text) (v : ℤ) (m : List (Text × ℤ))
    → degree j (insert k v m) ≡ (if same k j then v else degree j m)
unfolding degree
degree-insert k j v m = ground (arith, lookup-insert k j v m)

waiting-single : (d y x : Text) → waiting ((d, y) ∷ []) [] x ≡ (if same y x then 1 else 0)
unfolding waiting count
waiting-single d y x = ground arith

sources-single : (d y x : Text) → sources x ((d, y) ∷ []) ≡ (if same y x then d ∷ [] else [])
unfolding sources
sources-single d y x = refl

targets-single : (d y x : Text) → targets x ((d, y) ∷ []) ≡ (if same d x then y ∷ [] else [])
unfolding targets
targets-single d y x = refl

pub add_edge-Represents :
    (b : Building) (es : Edges) (id dep : Text)
    → Represents b es
    → Represents (add_edge id dep b) (es ++ (dep, id) ∷ [])
unfolding add_edge ◌+ℤ◌
add_edge-Represents b es id dep h = record {
  deps_are = λ x. ground (
    arith,
    slice-insert id x (slice id b.deps ++ dep ∷ []) b.deps,
    h.deps_are x,
    h.deps_are id,
    sources-append x es ((dep, id) ∷ []),
    sources-single dep id x,
    same_iff id x,
    append-nil (sources x es),
  );
  rev_deps_are = λ d. ground (
    arith,
    slice-insert dep d (slice dep b.rev_deps ++ id ∷ []) b.rev_deps,
    h.rev_deps_are d,
    h.rev_deps_are dep,
    targets-append d es ((dep, id) ∷ []),
    targets-single dep id d,
    same_iff dep d,
    append-nil (targets d es),
  );
  degrees_are = λ x. ground (
    arith,
    degree-insert id x (degree id b.in_degree +ℤ pos 1) b.in_degree,
    h.degrees_are x,
    h.degrees_are id,
    waiting-append es ((dep, id) ∷ []) [] x,
    waiting-single dep id x,
    same_iff id x,
  );
}

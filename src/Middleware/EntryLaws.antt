-- ===== src/Middleware/EntryLaws.antt =====
-- The entries of the limiter of requests (internal/server/middleware/limits.go) and its cleanup.
use Prim.Native.Nat.{ℕ}
use mathlib.Core.Path.{◌≡◌, refl}
use mathlib.Core.Logic.{inl, inr}
use mathlib.Core.Option.{Option, none, some}
use mathlib.Core.List.{List, [], ◌∷◌}
use native.Mathlib.Omega.{arith}
use ch_ui.Prelude.Tests.{ltb, if◌then◌else◌, Bool-cases}
use ch_ui.Prelude.Text.{Text, same, same→eq, same_iff}
use ch_ui.Prelude.Maps.{lookup, insert, lookup-insert}
use ch_ui.Middleware.IpLimit.{WindowCount, drop_expired}
use ch_ui.Middleware.IpLimitLaws.{lookup-drop_none}

-- One entry for each key.
abbrev pub Distinct : List (Text × WindowCount) → Type 0
Distinct [] = Unit
Distinct ((k, w) ∷ m) = (lookup k m ≡ none) × Distinct m

pub insert-Distinct :
    (k : Text) (v : WindowCount) (m : List (Text × WindowCount))
    → Distinct m
    → Distinct (insert k v m)
unfolding lookup insert
insert-Distinct k v [] h = (refl, tt)
insert-Distinct k v ((j, w) ∷ m) (new, h) = elim (Bool-cases (same j k)) [
  | inl e ↦ rw e (rw (same→eq j k e) at new, h)
  | inr e ↦
      rw e
        (ground (arith, lookup-insert k j v m, same_iff k j, same_iff j k), insert-Distinct k v m h)
]

pub drop_expired-Distinct :
    (now : ℕ) (m : List (Text × WindowCount)) → Distinct m → Distinct (drop_expired now m)
unfolding drop_expired
drop_expired-Distinct now [] h = tt
drop_expired-Distinct now ((k, w) ∷ m) (new, h) = elim (Bool-cases (ltb w.reset now)) [
  | inl e ↦ rw e (drop_expired-Distinct now m h)
  | inr e ↦ rw e (lookup-drop_none now k m new, drop_expired-Distinct now m h)
]

abbrev pub kept : ℕ → Option WindowCount → Option WindowCount
kept now none = none
kept now (some wc) = if ltb wc.reset now then none else some wc

pub lookup-drop_expired :
    (now : ℕ) (k : Text) (m : List (Text × WindowCount))
    → Distinct m
    → lookup k (drop_expired now m) ≡ kept now (lookup k m)
unfolding lookup drop_expired
lookup-drop_expired now k [] h = refl
lookup-drop_expired now k ((j, w) ∷ m) (new, h) = elim (Bool-cases (same j k)) [
  | inl e ↦ elim (Bool-cases (ltb w.reset now)) [
    | inl over ↦ rw (e, over) (lookup-drop_none now k m (rw (same→eq j k e) at new))
    | inr open_yet ↦ rw (e, open_yet, e) refl
  ]
  | inr e ↦ elim (Bool-cases (ltb w.reset now)) [
    | inl over ↦ rw (e, over) (lookup-drop_expired now k m h)
    | inr open_yet ↦ rw (e, open_yet, e) (lookup-drop_expired now k m h)
  ]
]

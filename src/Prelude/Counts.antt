-- ===== src/Prelude/Counts.antt =====
-- How often a text stands in a list: the abstract view in which an order of models is a permutation.
use Prim.Native.Nat.{ℕ, suc, ◌+◌, ◌-◌, ◌≤◌, ◌<◌}
use mathlib.Core.Path.{◌≡◌, refl, ap}
use mathlib.Core.Logic.{inl, inr}
use mathlib.Core.Bool.{false}
use mathlib.Core.List.{List, [], ◌∷◌, ◌++◌}
use native.Mathlib.Omega.{arith}
use ch_ui.Prelude.Tests.{if◌then◌else◌, Bool-cases}
use ch_ui.Prelude.Lists.{length}
use ch_ui.Prelude.Text.{Text, same, same_iff, same_refl, same→eq}

unfoldable pub count : Text → List Text → ℕ
count x [] = 0
count x (y ∷ l) = let rest = count x l in if same y x then suc rest else rest

pub count-append : (x : Text) (l m : List Text) → count x (l ++ m) ≡ count x l + count x m
unfolding count
count-append x [] m = omega arith
count-append x (y ∷ l) m = ground (arith, count-append x l m)

pub count-single : (x y : Text) → count x (y ∷ []) ≡ (if same y x then 1 else 0)
unfolding count
count-single x y = ground arith

-- The list without the first `x`.
remove : Text → List Text → List Text
remove x [] = []
remove x (y ∷ l) = let rest = remove x l in if same y x then l else y ∷ rest

count-remove_self : (x : Text) (l : List Text) → count x (remove x l) ≡ count x l - 1
unfolding remove count
count-remove_self x [] = omega arith
count-remove_self x (y ∷ l) = ground (arith, count-remove_self x l)

count-remove_ne : (x z : Text) (l : List Text) → same x z ≡ false → count z (remove x l) ≡ count z l
unfolding remove count
count-remove_ne x z [] h = refl
count-remove_ne x z (y ∷ l) h =
    ground (arith, count-remove_ne x z l h, same_iff y x, same_iff y z, same_iff x z)

length-remove : (x : Text) (l : List Text) → 0 < count x l → length (remove x l) + 1 ≡ length l
unfolding remove count
length-remove x [] h = absurd (omega arith)
length-remove x (y ∷ l) h = ground (arith, length-remove x l)

count-remove_le :
    (y x : Text) (l m : List Text) → count x (y ∷ l) ≤ count x m → count x l ≤ count x (remove y m)
unfolding count
count-remove_le y x l m k = elim (Bool-cases (same y x)) [
  | inl e ↦
      let e' : y ≡ x = same→eq y x e in
      ground (arith, count-remove_self x m, ap (λ t. count x (remove t m)) e')
  | inr e ↦ ground (arith, count-remove_ne y x m e)
]

-- Fewer occurrences of everything mean a shorter list.
pub length_le_of_count :
    (l m : List Text) → ((x : Text) → count x l ≤ count x m) → length l ≤ length m
unfolding count
length_le_of_count [] m h = omega arith
length_le_of_count (y ∷ l) m h =
    let here : 0 < count y m = ground (arith, h y, same_refl y) in
    omega (
      arith,
      length-remove y m here,
      length_le_of_count l (remove y m) (λ x. count-remove_le y x l m (h x)),
    )

-- Of two lists of one length, where the first has no more of anything, both have the same members.
pub count_eq_of_length :
    (l m : List Text)
    → ((x : Text) → count x l ≤ count x m)
    → length l ≡ length m
    → (x : Text) → count x l ≡ count x m
unfolding count
count_eq_of_length [] [] h e x = refl
count_eq_of_length [] (z ∷ m) h e x = absurd (omega arith)
count_eq_of_length (y ∷ l) m h e x =
    let here : 0 < count y m = ground (arith, h y, same_refl y) in
    let rest =
      count_eq_of_length l (remove y m) (λ z. count-remove_le y z l m (h z))
        (omega (arith, length-remove y m here)) x in
    elim (Bool-cases (same y x)) [
      | inl s ↦
          let e' : y ≡ x = same→eq y x s in
          ground (
            arith,
            rest,
            here,
            count-remove_self x m,
            ap (λ t. count x (remove t m)) e',
            ap (λ t. count t m) e',
          )
      | inr s ↦ ground (arith, rest, count-remove_ne y x m s)
    ]

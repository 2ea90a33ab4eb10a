-- ===== src/Prelude/Trimming.antt =====
-- What trimming cuts off and what it leaves.
use mathlib.Core.Path.{◌≡◌, refl, sym, ap, ◌∙◌}
use mathlib.Core.Logic.{inl, inr}
use mathlib.Core.Bool.{true}
use mathlib.Core.List.{[], ◌∷◌, ◌++◌, reverse, reverse-append, reverse-reverse}
use ch_ui.Prelude.Tests.{Bool-cases}
use ch_ui.Prelude.Lists.{All, All-append}
use ch_ui.Prelude.Text.{Text, is_space, trim_left, trim}
use ch_ui.Prelude.TextLaws.{starts_solid}

-- All bytes are white space.
abbrev pub Spaces : Text → Type 0
Spaces = All (λ c. is_space c ≡ true)

pub trim_left_split : (s : Text) → (a : Text) × (s ≡ a ++ trim_left s) × Spaces a
unfolding trim_left
trim_left_split [] = ([], refl, tt)
trim_left_split (c ∷ s) = elim (Bool-cases (is_space c)) [
  | inl e ↦ let (a, split, h) = trim_left_split s in (c ∷ a, rw e (ap (λ t. c ∷ t) split), (e, h))
  | inr e ↦ ([], rw e refl, tt)
]

reverse-Spaces : (s : Text) → Spaces s → Spaces (reverse s)
reverse-Spaces [] h = tt
reverse-Spaces (c ∷ s) (hc, h) =
    rw (reverse-append (c ∷ []) s)
      (All-append (λ d. is_space d ≡ true) (reverse s) (c ∷ []) (reverse-Spaces s h) (hc, tt))

-- What `trim` cuts off is white space.
pub trim_split :
    (s : Text) → (a : Text) × (b : Text) × (s ≡ a ++ (trim s ++ b)) × Spaces a × Spaces b
unfolding trim
trim_split s =
    let (a, front, ha) = trim_left_split s in
    let (b, back, hb) = trim_left_split (reverse (trim_left s)) in
    (
      a,
      reverse b,
      front
          ∙ ap (λ t. a ++ t)
              (sym (reverse-reverse (trim_left s))
                ∙ ap (λ t. reverse t) back
                ∙ reverse-append b (trim_left (reverse (trim_left s)))),
      ha,
      reverse-Spaces b hb,
    )

pub trim_left-starts_solid : (s : Text) → starts_solid (trim_left s) ≡ true
unfolding trim_left starts_solid
trim_left-starts_solid [] = refl
trim_left-starts_solid (c ∷ s) = elim (Bool-cases (is_space c)) [
  | inl e ↦ rw e (trim_left-starts_solid s)
  | inr e ↦ rw (e, e) refl
]

starts_solid-prefix : (s t : Text) → starts_solid (s ++ t) ≡ true → starts_solid s ≡ true
unfolding starts_solid
starts_solid-prefix [] t h = refl
starts_solid-prefix (c ∷ s) t h = h

-- A trimmed text does not start with white space.
pub starts_solid-trim : (s : Text) → starts_solid (trim s) ≡ true
unfolding trim
starts_solid-trim s =
    let t = trim_left s in
    let (a, split, h) = trim_left_split (reverse t) in
    let e : t ≡ reverse (trim_left (reverse t)) ++ reverse a =
      sym (reverse-reverse t)
      ∙ ap (λ u. reverse u) split
      ∙ reverse-append a (trim_left (reverse t)) in
    starts_solid-prefix (reverse (trim_left (reverse t))) (reverse a)
      (rw e at (trim_left-starts_solid s))

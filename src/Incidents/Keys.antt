-- ===== src/Incidents/Keys.antt =====
-- The key by which violations are told apart (internal/governance/incidents.go) and how it is stored.
use Prim.Native.Nat.{ℕ}
use mathlib.Core.Path.{◌≡◌, refl, sym, ap, ◌∙◌}
use mathlib.Core.Bool.{false}
use mathlib.Core.Option.{some}
use mathlib.Core.List.{[], ◌∷◌, ◌++◌, reverse, reverse-append, reverse-reverse}
use native.Mathlib.Omega.{arith}
use ch_ui.Prelude.Text.{Text, codes, is_blank, is_space, lower, lower_byte, trim, trim_left}
use ch_ui.Prelude.TextLaws.{IsTidy, starts_solid, trim-tidy}
use ch_ui.Prelude.Trimming.{Spaces, trim_split, starts_solid-trim, trim_left-starts_solid}
use ch_ui.Incidents.Store.{Violation, nullable_value, violation_key}

trim-IsTidy : (s : Text) → IsTidy (trim s)
unfolding trim
trim-IsTidy s = (
  starts_solid-trim s,
  rw (reverse-reverse (trim_left (reverse (trim_left s))))
      (trim_left-starts_solid (reverse (trim_left s))),
)

lower-append : (s t : Text) → lower (s ++ t) ≡ lower s ++ lower t
unfolding lower
lower-append [] t = refl
lower-append (c ∷ s) t = ap (λ u. lower_byte c ∷ u) (lower-append s t)

lower-reverse : (s : Text) → reverse (lower s) ≡ lower (reverse s)
unfolding lower
lower-reverse [] = refl
lower-reverse (c ∷ s) =
    reverse-append (lower_byte c ∷ []) (lower s)
    ∙ ap (λ u. u ++ lower_byte c ∷ []) (lower-reverse s)
    ∙ sym (lower-append (reverse s) (c ∷ []))
    ∙ ap (λ u. lower u) (sym (reverse-append (c ∷ []) s))

starts_solid-lower : (s : Text) → starts_solid (lower s) ≡ starts_solid s
unfolding starts_solid lower is_space lower_byte
starts_solid-lower [] = refl
starts_solid-lower (c ∷ s) = ground arith

lower-IsTidy : (s : Text) → IsTidy s → IsTidy (lower s)
lower-IsTidy s (h, k) =
    (starts_solid-lower s ∙ h, rw (lower-reverse s) (starts_solid-lower (reverse s) ∙ k))

v_solid : is_space b'v' ≡ false
unfolding is_space
v_solid = refl

-- A text that starts with a letter is not blank once it is trimmed.
trim-solid : (c : ℕ) (s : Text) → is_space c ≡ false → is_blank (lower (trim (c ∷ s))) ≡ false
unfolding lower
trim-solid c s h =
    let (a, b, split, ha, hb) = trim_split (c ∷ s) in rest (trim (c ∷ s)) a b split ha hb
  where
    rest : (t a b : Text) → c ∷ s ≡ a ++ (t ++ b) → Spaces a → Spaces b → is_blank (lower t) ≡ false
    rest [] [] [] e ha hb = cc
    rest [] [] (d ∷ b) e ha (hd, hb) = cc
    rest [] (d ∷ a) b e (hd, ha) hb = cc
    rest (d ∷ t) a b e ha hb = refl

nullable_value-tidy : (s : Text) → IsTidy s → is_blank s ≡ false → nullable_value s ≡ some s
unfolding nullable_value
nullable_value-tidy s tidy full = rw (trim-tidy s tidy, full) refl

-- The key of a violation is stored as it is.
pub violation_key-nullable_value :
    (v : Violation) → nullable_value (violation_key v) ≡ some (violation_key v)
unfolding violation_key
violation_key-nullable_value v =
    let rest =
      codes "iolation:" ++ (v.policy_name ++ codes ":" ++ v.user ++ codes ":" ++ v.severity) in
    nullable_value-tidy (lower (trim (b'v' ∷ rest)))
      (lower-IsTidy (trim (b'v' ∷ rest)) (trim-IsTidy (b'v' ∷ rest))) (trim-solid b'v' rest v_solid)

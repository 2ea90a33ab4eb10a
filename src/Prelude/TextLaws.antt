-- ===== src/Prelude/TextLaws.antt =====
-- Laws of trimming, cutting and printing texts.
use Prim.Native.Nat.{ℕ, zero, suc, ◌+◌, ◌/◌, ◌%◌, ◌<◌}
use mathlib.Core.Path.{◌≡◌, refl, sym, ◌∙◌}
use mathlib.Core.Logic.{◌≢◌, inl, inr}
use mathlib.Core.Bool.{Bool, true, false, not}
use mathlib.Core.Option.{none, some}
use mathlib.Core.List.{[], ◌∷◌, ◌++◌, reverse, reverse-append, reverse-reverse, append_assoc}
use native.Mathlib.Omega.{arith}
use ch_ui.Prelude.Tests.{ltb, Bool-cases}
use ch_ui.Prelude.Lists.{All}
use ch_ui.Prelude.Text.{Text, is_space, trim_left, trim, is_blank, cut, digits, itoa}

-- The first byte, if there is one, is no white space.
unfoldable pub starts_solid : Text → Bool
starts_solid [] = true
starts_solid (c ∷ s) = not (is_space c)

-- Neither the first nor the last byte is white space.
abbrev pub IsTidy : Text → Type 0
IsTidy s = (starts_solid s ≡ true) × (starts_solid (reverse s) ≡ true)

pub trim_left-solid : (s : Text) → starts_solid s ≡ true → trim_left s ≡ s
unfolding trim_left starts_solid
trim_left-solid [] h = refl
trim_left-solid (c ∷ s) h = ground arith

pub trim-tidy : (s : Text) → IsTidy s → trim s ≡ s
unfolding trim
trim-tidy s (h, k) =
    rw (trim_left-solid s h) (rw (trim_left-solid (reverse s) k) (reverse-reverse s))

-- Without the separator nothing is cut off.
pub cut-Lacks : (sep : ℕ) (s : Text) → All (λ c. c ≢ sep) s → cut sep s ≡ (s, none)
unfolding cut
cut-Lacks sep [] h = refl
cut-Lacks sep (c ∷ s) (hc, hs) = ground (arith, cut-Lacks sep s hs)

pub cut-append :
    (sep : ℕ) (s t : Text) → All (λ c. c ≢ sep) s → cut sep (s ++ sep ∷ t) ≡ (s, some t)
unfolding cut
cut-append sep [] t h = ground arith
cut-append sep (c ∷ s) t (hc, hs) = ground (arith, cut-append sep s t hs)

pub starts_solid-append : (s t : Text) → is_blank s ≡ false → starts_solid (s ++ t) ≡ starts_solid s
unfolding starts_solid
starts_solid-append [] t h = cc
starts_solid-append (c ∷ s) t h = refl

-- A printed number ends in its last digit, and starts in a digit.
digits-ends :
    (f n : ℕ) (out : Text) → n < f → (s : Text) × (digits f n out ≡ s ++ (b'0' + n % 10) ∷ out)
unfolding digits
digits-ends zero n out h = elim h [ ]
digits-ends (suc f) n out h = elim (Bool-cases (ltb n 10)) [
  | inl small ↦ ([], rw small (ground arith))
  | inr big ↦
      let (s, e) = digits-ends f (n / 10) ((b'0' + n % 10) ∷ out) (ground arith) in
      (s ++ (b'0' + n / 10 % 10) ∷ [], rw big (e ∙ sym (append_assoc s _ _)))
]

digits-starts_solid : (f n : ℕ) (out : Text) → n < f → starts_solid (digits f n out) ≡ true
unfolding digits starts_solid is_space
digits-starts_solid zero n out h = elim h [ ]
digits-starts_solid (suc f) n out h =
    ground (arith, digits-starts_solid f (n / 10) ((b'0' + n % 10) ∷ out))

solid_digit : (d : ℕ) (s : Text) → d < 10 → starts_solid ((b'0' + d) ∷ s) ≡ true
unfolding starts_solid is_space
solid_digit d s h = ground arith

pub itoa-IsTidy : (n : ℕ) → IsTidy (itoa n)
unfolding itoa
itoa-IsTidy n =
    let (s, e) = digits-ends (suc n) n [] (omega arith) in
    (
      digits-starts_solid (suc n) n [] (omega arith),
      rw (e, reverse-append) (solid_digit (n % 10) (reverse s) (omega arith)),
    )

digits-ne-nil : (f n : ℕ) (out : Text) → n < f → is_blank (digits f n out) ≡ false
unfolding digits
digits-ne-nil zero n out h = elim h [ ]
digits-ne-nil (suc f) n out h = ground (arith, digits-ne-nil f (n / 10) ((b'0' + n % 10) ∷ out))

pub itoa-ne-nil : (n : ℕ) → is_blank (itoa n) ≡ false
unfolding itoa
itoa-ne-nil n = digits-ne-nil (suc n) n [] (omega arith)

is_blank-reverse : (s : Text) → is_blank s ≡ false → is_blank (reverse s) ≡ false
is_blank-reverse [] h = cc
is_blank-reverse (c ∷ s) h = rw (reverse-append (c ∷ []) s) (last (reverse s))
  where
    last : (t : Text) → is_blank (t ++ c ∷ []) ≡ false
    last [] = refl
    last (d ∷ t) = refl

-- Two tidy texts around a separator are tidy.
pub join-IsTidy :
    (s t : Text) (sep : ℕ)
    → is_blank s ≡ false
    → is_blank t ≡ false
    → IsTidy s
    → IsTidy t
    → IsTidy (s ++ sep ∷ t)
join-IsTidy s t sep hs ht (s0, s1) (t0, t1) = (
  starts_solid-append s (sep ∷ t) hs ∙ s0,
  rw (reverse-append s (sep ∷ t), reverse-append (sep ∷ []) t, append_assoc)
      (starts_solid-append (reverse t) _ (is_blank-reverse t ht) ∙ t1),
)

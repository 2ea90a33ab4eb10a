-- ===== src/Schema/Yields.antt =====
-- What a chain of checks yields if it is not refused, and trimmed texts
-- (internal/server/handlers/query.go).
use Prim.Native.Nat.{ℕ}
use mathlib.Core.Path.{◌≡◌, refl}
use mathlib.Core.Logic.{inl, inr}
use mathlib.Core.Bool.{Bool, true, false}
use mathlib.Core.List.{[], ◌∷◌, reverse, reverse-append}
use ch_ui.Prelude.Tests.{Bool-cases}
use ch_ui.Prelude.Lists.{All, All-append}
use ch_ui.Prelude.Text.{Text, is_space, trim_left, trim}
use ch_ui.Prelude.Result.{Result, ok, err, ◌>>=◌, ◌>>◌, refuse_if}
use ch_ui.Schema.Names.{Refusal}

abbrev pub Yields {ℓ} : {A : Type 0} → (A → Type ℓ) → Result Refusal A → Type ℓ
Yields P (ok a) = P a
Yields P (err e) = Unit

module _ {ℓ} {A : Type 0} (P : A → Type ℓ) where
  pub Yields-then :
      (m : Result Refusal (Unit {0})) (k : Result Refusal A) → Yields P k → Yields P (m >> k)
  Yields-then (ok u) k h = h
  Yields-then (err e) k h = tt

  pub Yields-unless :
      (b : Bool) (e : Refusal) (k : Result Refusal A)
      → (b ≡ false → Yields P k)
      → Yields P (refuse_if b e >> k)
  Yields-unless true e k h = tt
  Yields-unless false e k h = h refl

  pub Yields-always : (k : Result Refusal A) → ((a : A) → P a) → Yields P k
  Yields-always (ok a) h = h a
  Yields-always (err e) h = tt

  pub Yields-ok : (m : Result Refusal A) (a : A) → Yields P m → m ≡ ok a → P a
  Yields-ok m a h e = rw e at h

pub Yields-bind {ℓ κ} :
    {A B : Type 0} (P : A → Type ℓ) (Q : B → Type κ) (m : Result Refusal A)
    (f : A → Result Refusal B)
    → Yields P m
    → ((a : A) → P a → Yields Q (f a))
    → Yields Q (m >>= f)
Yields-bind P Q (ok a) f h k = k a h
Yields-bind P Q (err e) f h k = tt

module _ {ℓ} (P : ℕ → Type ℓ) where
  All-trim_left : (s : Text) → All P s → All P (trim_left s)
  unfolding trim_left
  All-trim_left [] h = tt
  All-trim_left (c ∷ s) (hc, h) = elim (Bool-cases (is_space c)) [
    | inl e ↦ rw e (All-trim_left s h)
    | inr e ↦ rw e (hc, h)
  ]

  All-reverse : (s : Text) → All P s → All P (reverse s)
  All-reverse [] h = tt
  All-reverse (c ∷ s) (hc, h) =
      rw (reverse-append (c ∷ []) s) (All-append P (reverse s) (c ∷ []) (All-reverse s h) (hc, tt))

  -- What holds of all bytes of a text holds of those that trimming leaves.
  pub All-trim : (s : Text) → All P s → All P (trim s)
  unfolding trim
  All-trim s h =
      All-reverse (trim_left (reverse (trim_left s)))
        (All-trim_left (reverse (trim_left s)) (All-reverse (trim_left s) (All-trim_left s h)))

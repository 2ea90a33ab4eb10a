-- ===== src/Prelude/Text.antt =====
-- Go strings as lists of bytes, and what the program uses of `strings` and `strconv`.
-- Text is taken to be ASCII: there `strings.ToLower` and `strings.TrimSpace` act byte by byte.
use Prim.Native.Nat.{ℕ, zero, suc, ◌+◌, ◌-◌, ◌*◌, ◌/◌, ◌%◌, ◌≤◌, ◌<◌}
use Prim.Native.Char.{code}
use Prim.Native.String.{String}
use mathlib.Core.Path.{◌≡◌, refl}
use mathlib.Core.Logic.{◌↔◌, inl, inr}
use mathlib.Core.Bool.{Bool, true, false, ◌&&◌, ◌||◌}
use mathlib.Core.Option.{Option, none, some}
use mathlib.Core.List.{List, [], ◌∷◌, reverse}
use native.Mathlib.Omega.{arith}
use ch_ui.Prelude.Tests.{ltb, leb, ◌==◌, if◌then◌else◌, Bool-cases}
use ch_ui.Prelude.Int.{ℤ, pos, negsuc, int_bound}

abbrev pub Text : Type 0
Text = List ℕ

-- The bytes of a literal.
abbrev pub codes : String → Text
codes String.[] = []
codes (String.◌∷◌ c s) = code c ∷ codes s

-- `a == b` on strings.
unfoldable pub same : Text → Text → Bool
same [] [] = true
same [] (d ∷ t) = false
same (c ∷ s) [] = false
same (c ∷ s) (d ∷ t) = c == d && same s t

pub same_refl : (s : Text) → same s s ≡ true
unfolding same
same_refl [] = refl
same_refl (c ∷ s) = ground (arith, same_refl s)

pub same→eq : (s t : Text) → same s t ≡ true → s ≡ t
unfolding same
same→eq [] [] h = refl
same→eq [] (d ∷ t) h = cc
same→eq (c ∷ s) [] h = cc
same→eq (c ∷ s) (d ∷ t) h = ground (arith, same→eq s t)

pub same_iff : (s t : Text) → (same s t ≡ true) ↔ (s ≡ t)
same_iff s t = (same→eq s t, λ e. rw e (same_refl t))

pub same_sym : (s t : Text) → same s t ≡ same t s
unfolding same
same_sym [] [] = refl
same_sym [] (d ∷ t) = refl
same_sym (c ∷ s) [] = refl
same_sym (c ∷ s) (d ∷ t) = ground (arith, same_sym s t)

-- `s < t` on strings
unfoldable pub text_less : Text → Text → Bool
text_less s [] = false
text_less [] (d ∷ t) = true
text_less (c ∷ s) (d ∷ t) = ltb c d || (c == d && text_less s t)

-- `s == ""`
abbrev pub is_blank : Text → Bool
is_blank [] = true
is_blank (c ∷ s) = false

-- `strings.ToLower`
unfoldable pub lower_byte : ℕ → ℕ
lower_byte c = if leb b'A' c && leb c b'Z' then c + 32 else c

unfoldable pub lower : Text → Text
unfolding lower_byte
lower [] = []
lower (c ∷ s) = lower_byte c ∷ lower s

pub lower-lower : (s : Text) → lower (lower s) ≡ lower s
unfolding lower
lower-lower [] = refl
lower-lower (c ∷ s) = ground (arith, lower-lower s)

-- The ASCII bytes for which `unicode.IsSpace` holds.
unfoldable pub is_space : ℕ → Bool
is_space c = c == 32 || (leb 9 c && leb c 13)

unfoldable pub trim_left : Text → Text
unfolding is_space
trim_left [] = []
trim_left (c ∷ s) = let rest = trim_left s in if is_space c then rest else c ∷ s

-- `strings.TrimSpace`
unfoldable pub trim : Text → Text
unfolding trim_left
trim s = reverse (trim_left (reverse (trim_left s)))

-- `strings.HasPrefix`
unfoldable pub has_prefix : Text → Text → Bool
has_prefix s [] = true
has_prefix [] (d ∷ p) = false
has_prefix (c ∷ s) (d ∷ p) = c == d && has_prefix s p

-- `strings.Contains`
unfoldable pub contains : Text → Text → Bool
unfolding has_prefix
contains [] p = has_prefix [] p
contains (c ∷ s) p = has_prefix (c ∷ s) p || contains s p

-- The text before the first `sep` and, if there is one, the text behind it.
unfoldable pub cut : ℕ → Text → Text × Option Text
cut sep [] = ([], none)
cut sep (c ∷ s) =
    let (before, after) = cut sep s in if c == sep then ([], some s) else (c ∷ before, after)

-- `strings.Split(s, sep)` for a separator of one byte.
unfoldable pub split : ℕ → Text → List Text
split sep [] = [] ∷ []
split sep (c ∷ s) = push (split sep s)
  where
    push : List Text → List Text
    push [] = []
    push (p ∷ ps) = if c == sep then [] ∷ p ∷ ps else (c ∷ p) ∷ ps

-- Decimal digits, the least significant last; the fuel `suc n` is enough.
unfoldable pub digits : ℕ → ℕ → Text → Text
digits zero n out = out
digits (suc f) n out =
    let rest = digits f (n / 10) ((b'0' + n % 10) ∷ out) in
    if ltb n 10 then (b'0' + n) ∷ out else rest

-- `strconv.Itoa` and `%d` for a number that is not negative.
unfoldable pub itoa : ℕ → Text
unfolding digits
itoa n = digits (suc n) n []

unfoldable pub scan : Text → ℕ → Option ℕ
scan [] n = some n
scan (c ∷ s) n =
    let rest = scan s (n * 10 + (c - b'0')) in if leb b'0' c && leb c b'9' then rest else none

-- A run of digits, at least one.
unfoldable pub magnitude : Text → Option ℕ
unfolding scan
magnitude [] = none
magnitude (c ∷ s) = scan (c ∷ s) 0

-- An integer is refused where it does not fit in 64 bits.
unfoldable pub to_pos : Option ℕ → Option ℤ
to_pos none = none
to_pos (some n) = if ltb n int_bound then some (pos n) else none

unfoldable pub to_neg : Option ℕ → Option ℤ
to_neg none = none
to_neg (some zero) = some (pos 0)
to_neg (some (suc n)) = if ltb n int_bound then some (negsuc n) else none

-- `strconv.Atoi`
unfoldable pub atoi : Text → Option ℤ
unfolding magnitude to_pos to_neg
atoi [] = none
atoi (c ∷ s) =
    if c == b'-'
    then to_neg (magnitude s)
    else if c == b'+'
    then to_pos (magnitude s)
    else to_pos (magnitude (c ∷ s))

-- Reading what `digits` wrote before `out` gives `n`.
scan-digits : (f n : ℕ) (out : Text) → n < f → scan (digits f n out) 0 ≡ scan out n
unfolding scan digits
scan-digits zero n out h = elim h [ ]
scan-digits (suc f) n out h = ground (arith, scan-digits f (n / 10) ((b'0' + n % 10) ∷ out))

-- The first byte of a printed number is a digit.
digits-starts :
    (f n : ℕ) (out : Text)
    → n < f
    → (c : ℕ) × (s : Text) × (digits f n out ≡ c ∷ s) × (b'0' ≤ c) × (c ≤ b'9')
unfolding digits
digits-starts zero n out h = elim h [ ]
digits-starts (suc f) n out h = elim (Bool-cases (ltb n 10)) [
  | inl small ↦ (b'0' + n, out, rw small, omega arith, ground arith)
  | inr big ↦ rw big (digits-starts f (n / 10) ((b'0' + n % 10) ∷ out) (ground arith))
]

-- A text that starts with a digit has no sign.
atoi_digits :
    (c n : ℕ) (s : Text)
    → b'0' ≤ c
    → c ≤ b'9'
    → n < int_bound
    → scan (c ∷ s) 0 ≡ some n
    → atoi (c ∷ s) ≡ some (pos n)
unfolding atoi
atoi_digits c n s lo hi fits e = ground arith

-- `strconv.Atoi` reads back what `%d` prints, for every `int` that is not negative.
pub atoi-itoa : (n : ℕ) → n < int_bound → atoi (itoa n) ≡ some (pos n)
unfolding itoa scan
atoi-itoa n h = read (digits-starts (suc n) n [] (omega arith))
  where
    read :
        (c : ℕ) × (s : Text) × (digits (suc n) n [] ≡ c ∷ s) × (b'0' ≤ c) × (c ≤ b'9')
        → atoi (digits (suc n) n []) ≡ some (pos n)
    read (c, s, e, lo, hi) =
        rw e (atoi_digits c n s lo hi h (rw e at (scan-digits (suc n) n [] (omega arith))))

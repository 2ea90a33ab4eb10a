-- ===== src/Schema/ScanLaws.antt =====
-- Pieces that a statement can be put together from (internal/server/handlers/query.go).
use Prim.Native.Nat.{ℕ}
use mathlib.Core.Path.{◌≡◌, refl, ap, ◌∙◌, fun_ext}
use mathlib.Core.Logic.{◌≢◌, inl, inr}
use mathlib.Core.Bool.{true}
use mathlib.Core.Option.{Option, none, some}
use mathlib.Core.List.{[], ◌∷◌, ◌++◌}
use native.Mathlib.Omega.{arith}
use ch_ui.Prelude.Tests.{◌==◌, Bool-cases}
use ch_ui.Prelude.Lists.{All}
use ch_ui.Prelude.Text.{Text}
use ch_ui.Schema.Names.{backtick, quote, backslash, double, escape_identifier, escape_literal}
use ch_ui.Schema.Scan.{Mode, plain, quoted, move, onward, read}

onward-onward :
    (o : Option Mode) (f g : Mode → Option Mode)
    → onward (onward o f) g ≡ onward o (λ m. onward (f m) g)
onward-onward none f g = refl
onward-onward (some m) f g = refl

pub read-append : (m : Mode) (s t : Text) → read m (s ++ t) ≡ onward (read m s) (λ m'. read m' t)
unfolding read
read-append m [] t = refl
read-append m (c ∷ s) t =
    rw (onward-onward (move m c) (λ m'. read m' s) (λ m'. read m' t))
      (ap (λ k. onward (move m c) k) (fun_ext (λ m'. read-append m' s t)))

-- A text between whose bytes no statement ends, wherever it stands outside of quotes, and that leaves
-- no quotes open.
pub record IsPiece (s : Text) : Type 0 where
  pub last : ℕ → ℕ
  pub reads : (before : ℕ) → read (plain before) s ≡ some (plain (last before))

pub append-IsPiece : (s t : Text) → IsPiece s → IsPiece t → IsPiece (s ++ t)
append-IsPiece s t p q = record {
  last = λ b. q.last (p.last b);
  reads = λ b.
      read-append (plain b) s t
      ∙ ap (λ o. onward o (λ m. read m t)) (p.reads b)
      ∙ q.reads (p.last b);
}

infixl 65 ◌⊕◌
abbrev pub ◌⊕◌ : {s t : Text} → IsPiece s → IsPiece t → IsPiece (s ++ t)
p ⊕ q = append-IsPiece _ _ p q

pub nil-IsPiece : IsPiece []
unfolding read
nil-IsPiece = record { last = λ b. b; reads = λ b. refl }

-- A name in backticks.
abbrev pub NoBackslash : Text → Type 0
NoBackslash = All (λ c. c ≢ backslash)

==→eq : (c d : ℕ) → (c == d) ≡ true → c ≡ d
==→eq c d h = ground arith

read-double-backtick :
    (s t : Text)
    → NoBackslash s
    → read (quoted backtick) (double backtick s ++ t) ≡ read (quoted backtick) t
unfolding double read
read-double-backtick [] t h = refl
read-double-backtick (c ∷ s) t (hc, h) = elim (Bool-cases (c == backtick)) [
  | inl e ↦ rw (==→eq c backtick e) (read-double-backtick s t h)
  | inr e ↦ ground (arith, read-double-backtick s t h)
]

pub read-escape_literal :
    (s t : Text) → read (quoted quote) (escape_literal s ++ t) ≡ read (quoted quote) t
unfolding escape_literal double read
read-escape_literal [] t = refl
read-escape_literal (c ∷ s) t = elim (Bool-cases (c == backslash)) [
  | inl e ↦ rw (==→eq c backslash e) (read-escape_literal s t)
  | inr e ↦ elim (Bool-cases (c == quote)) [
    | inl f ↦ rw (==→eq c quote f) (read-escape_literal s t)
    | inr f ↦ ground (arith, read-escape_literal s t)
  ]
]

-- A piece behind a byte of its own that starts no comment.
pub escape_identifier-IsPiece : (s : Text) → NoBackslash s → IsPiece (escape_identifier s)
unfolding escape_identifier read
escape_identifier-IsPiece s h = record {
  last = λ b. 0;
  reads = λ b. read-double-backtick s (backtick ∷ []) h;
}

-- A comment between its quotes.
pub quoted-IsPiece : (s : Text) → IsPiece (quote ∷ (escape_literal s ++ quote ∷ []))
unfolding read
quoted-IsPiece s = record { last = λ b. 0; reads = λ b. read-escape_literal s (quote ∷ []) }

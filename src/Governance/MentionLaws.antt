-- ===== src/Governance/MentionLaws.antt =====
-- What `columnMentioned` (internal/governance/policy_engine.go) finds.
use Prim.Native.Nat.{ℕ}
use mathlib.Core.Path.{◌≡◌, refl}
use mathlib.Core.Logic.{◌↔◌, inl, inr}
use mathlib.Core.Bool.{Bool, true, false, ◌&&◌}
use mathlib.Core.Option.{Option, none, some}
use mathlib.Core.List.{[], ◌∷◌, ◌++◌}
use native.Mathlib.Omega.{arith}
use ch_ui.Prelude.Tests.{Bool-cases, and-eq_true, or_true}
use ch_ui.Prelude.Lists.{length}
use ch_ui.Prelude.Text.{Text, is_blank, lower, has_prefix}
use ch_ui.Governance.Policy.{start_ok, end_ok, drop, mentioned_from, column_mentioned}

-- No identifier runs into the text behind `before`, when `prev` is the byte before it.
unfoldable pub ends_clean : Option ℕ → Text → Bool
unfolding start_ok
ends_clean prev [] = start_ok prev
ends_clean prev (c ∷ s) = ends_clean (some c) s

-- `col` stands in `text` as a whole word.
abbrev pub WordFrom : Option ℕ → Text → Text → Type 0
WordFrom prev text col =
    (before : Text) × (after : Text) × (text ≡ before ++ col ++ after)
    × (ends_clean prev before ≡ true)
    × (end_ok after ≡ true)

abbrev pub Word : Text → Text → Type 0
Word text col = WordFrom none text col

has_prefix-append : (p t : Text) → has_prefix (p ++ t) p ≡ true
unfolding has_prefix
has_prefix-append [] [] = refl
has_prefix-append [] (d ∷ t) = refl
has_prefix-append (c ∷ p) t = ground (arith, has_prefix-append p t)

drop-append : (p t : Text) → drop (length p) (p ++ t) ≡ t
unfolding drop
drop-append [] t = refl
drop-append (c ∷ p) t = drop-append p t

append-drop : (s p : Text) → has_prefix s p ≡ true → s ≡ p ++ drop (length p) s
unfolding has_prefix drop
append-drop s [] h = refl
append-drop [] (d ∷ p) h = cc
append-drop (c ∷ s) (d ∷ p) h = ground (arith, append-drop s p)

found-WordFrom :
    (prev : Option ℕ) (s col : Text)
    → has_prefix s col ≡ true
    → start_ok prev ≡ true
    → end_ok (drop (length col) s) ≡ true
    → WordFrom prev s col
unfolding ends_clean
found-WordFrom prev s col h start stop = ([], drop (length col) s, append-drop s col h, start, stop)

later-WordFrom :
    (prev : Option ℕ) (c : ℕ) (s col : Text) → WordFrom (some c) s col → WordFrom prev (c ∷ s) col
unfolding ends_clean
later-WordFrom prev c s col (before, after, e, start, stop) = (c ∷ before, after, rw e, start, stop)

mentioned-WordFrom :
    (prev : Option ℕ) (s col : Text) → mentioned_from prev s col ≡ true → WordFrom prev s col
unfolding mentioned_from
mentioned-WordFrom prev [] col h = cc
mentioned-WordFrom prev (c ∷ s) col h =
    elim (Bool-cases
      (has_prefix (c ∷ s) col && start_ok prev && end_ok (drop (length col) (c ∷ s)))) [
        | inl here ↦
            let (both, stop) =
              and-eq_true (has_prefix (c ∷ s) col && start_ok prev)
                (end_ok (drop (length col) (c ∷ s))) here in
            let (p, start) = and-eq_true (has_prefix (c ∷ s) col) (start_ok prev) both in
            found-WordFrom prev (c ∷ s) col p start stop
        | inr away ↦ later-WordFrom prev c s col (mentioned-WordFrom (some c) s col (rw away at h))
      ]

WordFrom-mentioned :
    (prev : Option ℕ) (c : ℕ) (col before after : Text)
    → ends_clean prev before ≡ true
    → end_ok after ≡ true
    → mentioned_from prev (before ++ (c ∷ col) ++ after) (c ∷ col) ≡ true
unfolding mentioned_from ends_clean
WordFrom-mentioned prev c col [] after start stop =
    rw (has_prefix-append (c ∷ col) after, start, drop-append (c ∷ col) after, stop)
WordFrom-mentioned prev c col (b ∷ before) after start stop =
    rw (WordFrom-mentioned (some b) c col before after start stop) (
      or_true (
        has_prefix (b ∷ before ++ (c ∷ col) ++ after) (c ∷ col)
        && start_ok prev
        && end_ok (drop (length (c ∷ col)) (b ∷ before ++ (c ∷ col) ++ after))))

WordFrom→mentioned :
    (prev : Option ℕ) (text col : Text)
    → is_blank col ≡ false
    → WordFrom prev text col
    → mentioned_from prev text col ≡ true
WordFrom→mentioned prev text [] h w = cc
WordFrom→mentioned prev text (c ∷ col) h (before, after, e, start, stop) =
    rw e (WordFrom-mentioned prev c col before after start stop)

lower-is_blank : (s : Text) → is_blank (lower s) ≡ is_blank s
unfolding lower
lower-is_blank [] = refl
lower-is_blank (c ∷ s) = refl

-- For a column that is not empty, `columnMentioned` says yes exactly if the column stands in the
-- query as a whole word, the case of letters aside.
pub column_mentioned_iff :
    (query_text column : Text)
    → is_blank column ≡ false
    → (column_mentioned query_text column ≡ true) ↔ Word (lower query_text) (lower column)
unfolding column_mentioned
column_mentioned_iff query_text column h = (
  mentioned-WordFrom none (lower query_text) (lower column),
  WordFrom→mentioned none (lower query_text) (lower column) (rw (lower-is_blank column) h),
)

-- ===== src/Schema/PieceLaws.antt =====
-- The optional parts of a statement (internal/server/handlers/query.go, query_upload.go).
use Prim.Native.Nat.{ℕ}
use mathlib.Core.Path.{◌≡◌, refl, ap, ◌∙◌}
use mathlib.Core.Logic.{inl, inr}
use mathlib.Core.Bool.{Bool, true, false, ◌&&◌}
use mathlib.Core.Option.{some}
use mathlib.Core.List.{List, [], ◌∷◌, ◌++◌}
use ch_ui.Prelude.Tests.{Bool-cases}
use ch_ui.Prelude.Lists.{All}
use ch_ui.Prelude.Text.{Text, codes, is_blank, lower, contains}
use ch_ui.Schema.Names.{quote, escape_literal, is_unsafe_sql_fragment}
use ch_ui.Schema.Scan.{plain, quoted, onward, read, is_mark}
use ch_ui.Schema.ScanLaws.{
  IsPiece, nil-IsPiece, append-IsPiece, NoBackslash, escape_identifier-IsPiece, read-append,
  read-escape_literal,
}
use ch_ui.Schema.FragmentLaws.{NoMarks, fragment-IsPiece}
use ch_ui.Schema.Statements.{when, named_clause, clause, comment_clause, invalid_fragment}
use ch_ui.Schema.CreateTable.{join, with_order}

-- A text of the program's own.
pub text-IsPiece : (s : Text) (q : ℕ) → ((b : ℕ) → read (plain b) s ≡ some (plain q)) → IsPiece s
text-IsPiece s q h = record { last = λ b. q; reads = h }

pub when-IsPiece : (test : Bool) (s : Text) → IsPiece s → IsPiece (when test s)
when-IsPiece true s p = p
when-IsPiece false s p = nil-IsPiece

pub named_clause-IsPiece :
    (k name : Text) → IsPiece k → NoBackslash name → IsPiece (named_clause k name)
named_clause-IsPiece k [] p h = nil-IsPiece
named_clause-IsPiece k (c ∷ name) p h =
    append-IsPiece k _ p (escape_identifier-IsPiece (c ∷ name) h)

pub clause-IsPiece :
    (k value : Text)
    → ((b : ℕ) → read (plain b) k ≡ some (plain b' '))
    → invalid_fragment value ≡ false
    → NoMarks value
    → IsPiece (clause k value)
clause-IsPiece k [] hk h quotes = nil-IsPiece
clause-IsPiece k (c ∷ value) hk h quotes = fragment-IsPiece k (c ∷ value) hk h quotes

pub comment_clause-IsPiece :
    (k comment : Text)
    → ((b : ℕ) → read (plain b) k ≡ some (quoted quote))
    → IsPiece (comment_clause k comment)
unfolding read
comment_clause-IsPiece k [] hk = nil-IsPiece
comment_clause-IsPiece k (c ∷ comment) hk =
    let literal = escape_literal (c ∷ comment) ++ quote ∷ [] in
    record {
      last = λ b. 0;
      reads = λ b.
          read-append (plain b) k literal
          ∙ ap (λ o. onward o (λ m. read m literal)) (hk b)
          ∙ read-escape_literal (c ∷ comment) (quote ∷ []);
    }

-- The order that is written down is as safe as the one of the request.
pub with_order_safe :
    (engine order_by : Text)
    → invalid_fragment order_by ≡ false
    → NoMarks order_by
    → (invalid_fragment (with_order engine order_by) ≡ false) × NoMarks (with_order engine order_by)
unfolding is_unsafe_sql_fragment is_mark
with_order_safe engine order_by h quotes =
    elim (Bool-cases (contains (lower engine) (codes "mergetree") && is_blank order_by)) [
      | inl e ↦ rw e (refl, (refl, (refl, (refl, (refl, (refl, (refl, (refl, tt))))))))
      | inr e ↦ rw e (h, quotes)
    ]

pub join-IsPiece :
    (sep : Text) (ss : List Text) → IsPiece sep → All IsPiece ss → IsPiece (join sep ss)
unfolding join
join-IsPiece sep [] p h = nil-IsPiece
join-IsPiece sep (s ∷ []) p (q, h) = q
join-IsPiece sep (s ∷ t ∷ ts) p (q, h) =
    append-IsPiece s _ q (append-IsPiece sep _ p (join-IsPiece sep (t ∷ ts) p h))

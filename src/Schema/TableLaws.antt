-- ===== src/Schema/TableLaws.antt =====
-- A statement that creates a table is one statement: buildCreateTableSQL of
-- internal/server/handlers/query_upload.go.
use Prim.Native.Nat.{ℕ, suc}
use mathlib.Core.Path.{◌≡◌, refl}
use mathlib.Core.Logic.{◌≢◌}
use mathlib.Core.Bool.{Bool, false, ◌||◌}
use mathlib.Core.List.{List, [], ◌∷◌}
use native.Mathlib.Omega.{arith}
use ch_ui.Prelude.Lists.{All}
use ch_ui.Prelude.Text.{Text, codes, is_blank, trim}
use ch_ui.Prelude.Result.{ok}
use ch_ui.Schema.Names.{
  backslash, validate_simple_object_name, is_unsafe_sql_fragment, invalid_type, invalid_default,
}
use ch_ui.Schema.Scan.{read, is_mark}
use ch_ui.Schema.ScanLaws.{IsPiece, ◌⊕◌, NoBackslash, escape_identifier-IsPiece}
use ch_ui.Schema.FragmentLaws.{NoMarks, fragment-IsPiece}
use ch_ui.Schema.Statements.{invalid_fragment}
use ch_ui.Schema.CreateTable.{
  CreateTableColumn, Expressions, column_label, column_text, column_sql, columns_sql, with_order,
  options_text, table_text,
}
use ch_ui.Schema.Yields.{Yields, Yields-then, Yields-unless, Yields-bind, All-trim}
use ch_ui.Schema.PieceLaws.{
  text-IsPiece, when-IsPiece, named_clause-IsPiece, clause-IsPiece, comment_clause-IsPiece,
  with_order_safe, join-IsPiece,
}

-- A column whose name holds no backslash and whose type and default expression hold no mark.
pub record PlainColumn (col : CreateTableColumn) : Type 0 where
  pub name : NoBackslash col.name
  pub type : NoMarks col.type
  pub default_expression : NoMarks col.default_expression

or_false_right : (a b : Bool) → (a || b) ≡ false → b ≡ false
or_false_right a b h = ground arith

column_text-IsPiece :
    (name type default_expression comment : Text)
    → NoBackslash name
    → NoMarks type
    → NoMarks default_expression
    → is_unsafe_sql_fragment type ≡ false
    → invalid_fragment default_expression ≡ false
    → IsPiece (column_text name type default_expression comment)
unfolding read
column_text-IsPiece name type default_expression comment hn ht hd safe valid =
    escape_identifier-IsPiece name hn
    ⊕ fragment-IsPiece (codes " ") type (λ b. refl) safe ht
    ⊕ clause-IsPiece (codes " DEFAULT ") default_expression (λ b. refl) valid hd
    ⊕ comment_clause-IsPiece (codes " COMMENT '") comment (λ b. refl)

column_sql-IsPiece :
    (i : ℕ) (col : CreateTableColumn) → PlainColumn col → Yields IsPiece (column_sql i col)
unfolding column_sql
column_sql-IsPiece i col p =
    let name = trim col.name in
    let type = trim col.type in
    let default_expression = trim col.default_expression in
    Yields-then IsPiece (validate_simple_object_name name (column_label i)) _ (
      Yields-unless IsPiece (is_blank type || is_unsafe_sql_fragment type) (invalid_type name) _
        (λ safe.
          Yields-unless IsPiece (invalid_fragment default_expression) (invalid_default name) _
            (λ valid.
              column_text-IsPiece name type default_expression (trim col.comment)
                (All-trim (λ c. c ≢ backslash) col.name p.name)
                (All-trim (λ c. is_mark c ≡ false) col.type p.type)
                (All-trim (λ c. is_mark c ≡ false) col.default_expression p.default_expression)
                (or_false_right _ _ safe) valid)))

pub columns_sql-IsPiece :
    (i : ℕ) (cols : List CreateTableColumn)
    → All PlainColumn cols
    → Yields (All IsPiece) (columns_sql i cols)
unfolding columns_sql
columns_sql-IsPiece i [] h = tt
columns_sql-IsPiece i (col ∷ cols) (p, h) =
    Yields-bind IsPiece (All IsPiece) (column_sql i col) _ (column_sql-IsPiece i col p) (λ part q.
      Yields-bind (All IsPiece) (All IsPiece) (columns_sql (suc i) cols)
        (λ parts. ok (part ∷ parts)) (columns_sql-IsPiece (suc i) cols h) (λ parts qs. (q, qs)))

-- Expressions without marks that pass the guard.
pub record SafeExpressions (e : Expressions) : Type 0 where
  pub order_by : (invalid_fragment e.order_by ≡ false) × NoMarks e.order_by
  pub partition_by : (invalid_fragment e.partition_by ≡ false) × NoMarks e.partition_by
  pub primary_key : (invalid_fragment e.primary_key ≡ false) × NoMarks e.primary_key
  pub sample_by : (invalid_fragment e.sample_by ≡ false) × NoMarks e.sample_by
  pub ttl : (invalid_fragment e.ttl ≡ false) × NoMarks e.ttl
  pub settings : (invalid_fragment e.settings ≡ false) × NoMarks e.settings

pub options_text-IsPiece :
    (engine : Text) (e : Expressions) (comment : Text)
    → is_unsafe_sql_fragment engine ≡ false
    → NoMarks engine
    → SafeExpressions e
    → IsPiece (options_text engine e comment)
unfolding options_text read
options_text-IsPiece engine e comment safe quotes s =
    let (order, order_quotes) = with_order_safe engine e.order_by s.order_by.0 s.order_by.1 in
    fragment-IsPiece (codes "\nENGINE = ") engine (λ b. refl) safe quotes
    ⊕ clause-IsPiece (codes "\nPARTITION BY ") e.partition_by (λ b. refl) s.partition_by.0
        s.partition_by.1
    ⊕ clause-IsPiece (codes "\nORDER BY ") (with_order engine e.order_by) (λ b. refl) order
        order_quotes
    ⊕ clause-IsPiece (codes "\nPRIMARY KEY ") e.primary_key (λ b. refl) s.primary_key.0
        s.primary_key.1
    ⊕ clause-IsPiece (codes "\nSAMPLE BY ") e.sample_by (λ b. refl) s.sample_by.0 s.sample_by.1
    ⊕ clause-IsPiece (codes "\nTTL ") e.ttl (λ b. refl) s.ttl.0 s.ttl.1
    ⊕ clause-IsPiece (codes "\nSETTINGS ") e.settings (λ b. refl) s.settings.0 s.settings.1
    ⊕ comment_clause-IsPiece (codes "\nCOMMENT '") comment (λ b. refl)

pub table_text-IsPiece :
    (if_not_exists : Bool) (database name cluster : Text) (columns : List Text)
    → NoBackslash database
    → NoBackslash name
    → NoBackslash cluster
    → All IsPiece columns
    → IsPiece (table_text if_not_exists database name cluster columns)
unfolding table_text read
table_text-IsPiece if_not_exists database name cluster columns hd hn hc h =
    text-IsPiece (codes "CREATE TABLE ") b' ' (λ b. refl)
    ⊕ when-IsPiece if_not_exists (codes "IF NOT EXISTS ")
        (text-IsPiece (codes "IF NOT EXISTS ") b' ' (λ b. refl))
    ⊕ escape_identifier-IsPiece database hd
    ⊕ text-IsPiece (codes ".") b'.' (λ b. refl)
    ⊕ escape_identifier-IsPiece name hn
    ⊕ named_clause-IsPiece (codes " ON CLUSTER ") cluster
        (text-IsPiece (codes " ON CLUSTER ") b' ' (λ b. refl)) hc
    ⊕ text-IsPiece (codes " (\n  ") b' ' (λ b. refl)
    ⊕ join-IsPiece (codes ",\n  ") columns (text-IsPiece (codes ",\n  ") b' ' (λ b. refl)) h
    ⊕ text-IsPiece (codes "\n)") b')' (λ b. refl)

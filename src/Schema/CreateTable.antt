-- ===== src/Schema/CreateTable.antt =====
-- The statement that creates a table: buildCreateTableSQL of internal/server/handlers/query_upload.go,
-- which the handler CreateTable of query.go repeats.
use Prim.Native.Nat.{ℕ, suc}
use mathlib.Core.Bool.{Bool, true, false, ◌&&◌, ◌||◌}
use mathlib.Core.Option.{Option}
use mathlib.Core.List.{List, [], ◌∷◌, ◌++◌}
use ch_ui.Prelude.Tests.{if◌then◌else◌}
use ch_ui.Prelude.Text.{Text, codes, is_blank, lower, trim, contains, itoa}
use ch_ui.Prelude.Result.{Result, ok, ◌>>=◌, ◌>>◌, refuse_if}
use ch_ui.Schema.Names.{
  escape_identifier, Refusal, system_database, no_columns, invalid_engine, invalid_cluster,
  invalid_type, invalid_default, invalid_expression, validate_simple_object_name,
  is_unsafe_sql_fragment, is_system_database_name,
}
use ch_ui.Schema.Statements.{
  or_unset, when, named_clause, clause, comment_clause, invalid_fragment, or_else,
}

pub record CreateTableColumn : Type 0 where
  pub name : Text
  pub type : Text
  pub default_expression : Text
  pub comment : Text

pub record CreateTableRequest : Type 0 where
  pub database : Text
  pub name : Text
  pub engine : Text
  pub on_cluster : Text
  pub if_not_exists : Option Bool
  pub columns : List CreateTableColumn
  pub order_by : Text
  pub partition_by : Text
  pub primary_key : Text
  pub sample_by : Text
  pub ttl : Text
  pub settings : Text
  pub comment : Text

abbrev pub column_label : ℕ → Text
column_label i = codes "column #" ++ itoa i

abbrev pub column_text : Text → Text → Text → Text → Text
column_text name type default_expression comment =
    escape_identifier name
    ++ (codes " " ++ type)
    ++ clause (codes " DEFAULT ") default_expression
    ++ comment_clause (codes " COMMENT '") comment

-- The part of one column, the one with the number `i` from 1.
unfoldable pub column_sql : ℕ → CreateTableColumn → Result Refusal Text
unfolding trim validate_simple_object_name is_unsafe_sql_fragment itoa
column_sql i col =
    let name = trim col.name in
    let type = trim col.type in
    let default_expression = trim col.default_expression in
    do
      validate_simple_object_name name (column_label i)
      refuse_if (is_blank type || is_unsafe_sql_fragment type) (invalid_type name)
      refuse_if (invalid_fragment default_expression) (invalid_default name)
      ok (column_text name type default_expression (trim col.comment))

unfoldable pub columns_sql : ℕ → List CreateTableColumn → Result Refusal (List Text)
unfolding column_sql
columns_sql i [] = ok []
columns_sql i (col ∷ cols) = do
  part ← column_sql i col
  parts ← columns_sql (suc i) cols
  ok (part ∷ parts)

-- `strings.Join`
unfoldable pub join : Text → List Text → Text
join sep [] = []
join sep (s ∷ []) = s
join sep (s ∷ t ∷ ts) = s ++ (sep ++ join sep (t ∷ ts))

-- The expressions of a table, trimmed.
pub record Expressions : Type 0 where
  pub order_by : Text
  pub partition_by : Text
  pub primary_key : Text
  pub sample_by : Text
  pub ttl : Text
  pub settings : Text

abbrev pub expressions : CreateTableRequest → Expressions
expressions req = record {
  order_by = trim req.order_by;
  partition_by = trim req.partition_by;
  primary_key = trim req.primary_key;
  sample_by = trim req.sample_by;
  ttl = trim req.ttl;
  settings = trim req.settings;
}

unfoldable pub check_expressions : Expressions → Result Refusal (Unit {0})
unfolding is_unsafe_sql_fragment
check_expressions e = do
  refuse_if (invalid_fragment e.order_by) (invalid_expression (codes "order_by"))
  refuse_if (invalid_fragment e.partition_by) (invalid_expression (codes "partition_by"))
  refuse_if (invalid_fragment e.primary_key) (invalid_expression (codes "primary_key"))
  refuse_if (invalid_fragment e.sample_by) (invalid_expression (codes "sample_by"))
  refuse_if (invalid_fragment e.ttl) (invalid_expression (codes "ttl"))
  refuse_if (invalid_fragment e.settings) (invalid_expression (codes "settings"))

-- A table of the MergeTree family has an order.
abbrev pub with_order : Text → Text → Text
with_order engine order_by =
    if contains (lower engine) (codes "mergetree") && is_blank order_by
    then codes "tuple()"
    else order_by

-- What stands behind the columns.
unfoldable pub options_text : Text → Expressions → Text → Text
unfolding lower contains
options_text engine e comment =
    codes "\nENGINE = "
    ++ engine
    ++ clause (codes "\nPARTITION BY ") e.partition_by
    ++ clause (codes "\nORDER BY ") (with_order engine e.order_by)
    ++ clause (codes "\nPRIMARY KEY ") e.primary_key
    ++ clause (codes "\nSAMPLE BY ") e.sample_by
    ++ clause (codes "\nTTL ") e.ttl
    ++ clause (codes "\nSETTINGS ") e.settings
    ++ comment_clause (codes "\nCOMMENT '") comment

unfoldable pub table_text : Bool → Text → Text → Text → List Text → Text
unfolding join
table_text if_not_exists database name cluster columns =
    codes "CREATE TABLE "
    ++ when if_not_exists (codes "IF NOT EXISTS ")
    ++ escape_identifier database
    ++ codes "."
    ++ escape_identifier name
    ++ named_clause (codes " ON CLUSTER ") cluster
    ++ codes " (\n  "
    ++ join (codes ",\n  ") columns
    ++ codes "\n)"

-- `len(req.Columns) == 0`
abbrev pub no_column : List CreateTableColumn → Bool
no_column [] = true
no_column (col ∷ cols) = false

unfoldable pub build_create_table_sql : CreateTableRequest → Result Refusal Text
unfolding trim validate_simple_object_name is_system_database_name is_unsafe_sql_fragment
    columns_sql check_expressions options_text table_text
build_create_table_sql req =
    let database = trim req.database in
    let name = trim req.name in
    let engine = or_else (trim req.engine) (codes "MergeTree") in
    let cluster = trim req.on_cluster in
    do
      validate_simple_object_name database (codes "database")
      validate_simple_object_name name (codes "table")
      refuse_if (is_system_database_name database) system_database
      refuse_if (no_column req.columns) no_columns
      refuse_if (is_unsafe_sql_fragment engine) invalid_engine
      refuse_if (invalid_fragment cluster) invalid_cluster
      columns ← columns_sql 1 req.columns
      check_expressions (expressions req)
      ok (
          table_text (or_unset req.if_not_exists) database name cluster columns
          ++ options_text engine (expressions req) (trim req.comment))

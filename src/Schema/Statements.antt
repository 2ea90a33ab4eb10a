-- ===== src/Schema/Statements.antt =====
-- The statements that change the schema: internal/server/handlers/query.go and query_upload.go.
-- A refusal keeps what is wrong and not the text of its message.
use mathlib.Core.Bool.{Bool, true, ◌&&◌, not}
use mathlib.Core.Option.{Option, none, some}
use mathlib.Core.List.{[], ◌∷◌, ◌++◌}
use ch_ui.Prelude.Tests.{if◌then◌else◌}
use ch_ui.Prelude.Text.{Text, codes, is_blank, trim}
use ch_ui.Prelude.Result.{Result, ok, ◌>>◌, refuse_if}
use ch_ui.Schema.Names.{
  escape_identifier, escape_literal, quote, Refusal, system_database, invalid_engine,
  invalid_cluster, validate_simple_object_name, is_unsafe_sql_fragment, is_system_database_name,
}

pub record CreateDatabaseRequest : Type 0 where
  pub name : Text
  pub engine : Text
  pub on_cluster : Text
  pub if_not_exists : Option Bool

pub record DropDatabaseRequest : Type 0 where
  pub name : Text
  pub on_cluster : Text
  pub if_exists : Option Bool
  pub sync : Bool

pub record DropTableRequest : Type 0 where
  pub database : Text
  pub name : Text
  pub on_cluster : Text
  pub if_exists : Option Bool
  pub sync : Bool

-- `flag == nil || *flag`
abbrev pub or_unset : Option Bool → Bool
or_unset none = true
or_unset (some b) = b

-- `if test { WriteString(s) }`
abbrev pub when : Bool → Text → Text
when test s = if test then s else []

-- A name behind its keyword, if there is a name.
abbrev pub named_clause : Text → Text → Text
named_clause keyword name = if is_blank name then [] else keyword ++ escape_identifier name

-- An expression behind its keyword, if there is an expression.
abbrev pub clause : Text → Text → Text
clause keyword value = if is_blank value then [] else keyword ++ value

-- A comment as a literal behind its keyword, if there is a comment.
abbrev pub comment_clause : Text → Text → Text
comment_clause keyword comment =
    if is_blank comment then [] else keyword ++ (escape_literal comment ++ quote ∷ [])

abbrev pub invalid_fragment : Text → Bool
invalid_fragment value = not (is_blank value) && is_unsafe_sql_fragment value

abbrev pub or_else : Text → Text → Text
or_else value fallback = if is_blank value then fallback else value

unfoldable pub create_database_text : Bool → Text → Text → Text → Text
unfolding escape_identifier
create_database_text if_not_exists name cluster engine =
    codes "CREATE DATABASE "
    ++ when if_not_exists (codes "IF NOT EXISTS ")
    ++ escape_identifier name
    ++ named_clause (codes " ON CLUSTER ") cluster
    ++ (codes " ENGINE = " ++ engine)

unfoldable pub create_database_sql : CreateDatabaseRequest → Result Refusal Text
unfolding trim validate_simple_object_name is_system_database_name is_unsafe_sql_fragment
    create_database_text
create_database_sql req =
    let name = trim req.name in
    let engine = or_else (trim req.engine) (codes "Atomic") in
    let cluster = trim req.on_cluster in
    do
      validate_simple_object_name name (codes "database")
      refuse_if (is_system_database_name name) system_database
      refuse_if (is_unsafe_sql_fragment engine) invalid_engine
      refuse_if (invalid_fragment cluster) invalid_cluster
      ok (create_database_text (or_unset req.if_not_exists) name cluster engine)

unfoldable pub drop_database_text : Bool → Text → Text → Bool → Text
unfolding escape_identifier
drop_database_text if_exists name cluster sync =
    codes "DROP DATABASE "
    ++ when if_exists (codes "IF EXISTS ")
    ++ escape_identifier name
    ++ named_clause (codes " ON CLUSTER ") cluster
    ++ when sync (codes " SYNC")

unfoldable pub drop_database_sql : DropDatabaseRequest → Result Refusal Text
unfolding trim validate_simple_object_name is_system_database_name is_unsafe_sql_fragment
    drop_database_text
drop_database_sql req =
    let name = trim req.name in
    let cluster = trim req.on_cluster in
    do
      validate_simple_object_name name (codes "database")
      refuse_if (is_system_database_name name) system_database
      refuse_if (invalid_fragment cluster) invalid_cluster
      ok (drop_database_text (or_unset req.if_exists) name cluster req.sync)

unfoldable pub drop_table_text : Bool → Text → Text → Text → Bool → Text
unfolding escape_identifier
drop_table_text if_exists database name cluster sync =
    codes "DROP TABLE "
    ++ when if_exists (codes "IF EXISTS ")
    ++ escape_identifier database
    ++ codes "."
    ++ escape_identifier name
    ++ named_clause (codes " ON CLUSTER ") cluster
    ++ when sync (codes " SYNC")

unfoldable pub drop_table_sql : DropTableRequest → Result Refusal Text
unfolding trim validate_simple_object_name is_system_database_name is_unsafe_sql_fragment
    drop_table_text
drop_table_sql req =
    let database = trim req.database in
    let name = trim req.name in
    let cluster = trim req.on_cluster in
    do
      validate_simple_object_name database (codes "database")
      validate_simple_object_name name (codes "table")
      refuse_if (is_system_database_name database) system_database
      refuse_if (invalid_fragment cluster) invalid_cluster
      ok (drop_table_text (or_unset req.if_exists) database name cluster req.sync)

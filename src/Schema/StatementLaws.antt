-- ===== src/Schema/StatementLaws.antt =====
-- Every statement that the handlers of schema changes send (internal/server/handlers/query.go) is one
-- statement.
use mathlib.Core.Path.{◌≡◌, refl}
use mathlib.Core.Logic.{◌≢◌}
use mathlib.Core.Bool.{Bool, false}
use ch_ui.Prelude.Text.{Text, codes, trim}
use ch_ui.Prelude.Result.{ok}
use ch_ui.Schema.Names.{
  backslash, validate_simple_object_name, is_unsafe_sql_fragment, is_system_database_name,
  system_database, invalid_engine, invalid_cluster,
}
use ch_ui.Schema.Scan.{read, is_mark, IsOneStatement}
use ch_ui.Schema.ScanLaws.{IsPiece, ◌⊕◌, NoBackslash, escape_identifier-IsPiece}
use ch_ui.Schema.FragmentLaws.{NoMarks, fragment-IsPiece}
use ch_ui.Schema.Statements.{
  create_database_text, drop_database_text, drop_table_text, or_unset, or_else, invalid_fragment,
}
use ch_ui.Schema.Yields.{Yields, Yields-then, Yields-unless, Yields-ok, All-trim}
use ch_ui.Schema.PieceLaws.{text-IsPiece, when-IsPiece, named_clause-IsPiece}
use ch_ui.Schema.BuildLaws.{PlainRequest, build-IsPiece, or_else-NoMarks}
use ch_ui.Schema.Handlers.{
  Change, create_database, drop_database, create_table, drop_table, statement,
}

trim-NoBackslash : (s : Text) → NoBackslash s → NoBackslash (trim s)
trim-NoBackslash s h = All-trim (λ c. c ≢ backslash) s h

on_cluster-IsPiece : IsPiece (codes " ON CLUSTER ")
unfolding read
on_cluster-IsPiece = text-IsPiece (codes " ON CLUSTER ") b' ' (λ b. refl)

create_database-IsPiece :
    (if_not_exists : Bool) (name cluster engine : Text)
    → NoBackslash name
    → NoBackslash cluster
    → NoMarks engine
    → is_unsafe_sql_fragment engine ≡ false
    → IsPiece (create_database_text if_not_exists name cluster engine)
unfolding create_database_text read
create_database-IsPiece if_not_exists name cluster engine hn hc quotes safe =
    text-IsPiece (codes "CREATE DATABASE ") b' ' (λ b. refl)
    ⊕ when-IsPiece if_not_exists (codes "IF NOT EXISTS ")
        (text-IsPiece (codes "IF NOT EXISTS ") b' ' (λ b. refl))
    ⊕ escape_identifier-IsPiece name hn
    ⊕ named_clause-IsPiece (codes " ON CLUSTER ") cluster on_cluster-IsPiece hc
    ⊕ fragment-IsPiece (codes " ENGINE = ") engine (λ b. refl) safe quotes

drop_database-IsPiece :
    (if_exists : Bool) (name cluster : Text) (sync : Bool)
    → NoBackslash name
    → NoBackslash cluster
    → IsPiece (drop_database_text if_exists name cluster sync)
unfolding drop_database_text read
drop_database-IsPiece if_exists name cluster sync hn hc =
    text-IsPiece (codes "DROP DATABASE ") b' ' (λ b. refl)
    ⊕ when-IsPiece if_exists (codes "IF EXISTS ")
        (text-IsPiece (codes "IF EXISTS ") b' ' (λ b. refl))
    ⊕ escape_identifier-IsPiece name hn
    ⊕ named_clause-IsPiece (codes " ON CLUSTER ") cluster on_cluster-IsPiece hc
    ⊕ when-IsPiece sync (codes " SYNC") (text-IsPiece (codes " SYNC") b'C' (λ b. refl))

drop_table-IsPiece :
    (if_exists : Bool) (database name cluster : Text) (sync : Bool)
    → NoBackslash database
    → NoBackslash name
    → NoBackslash cluster
    → IsPiece (drop_table_text if_exists database name cluster sync)
unfolding drop_table_text read
drop_table-IsPiece if_exists database name cluster sync hd hn hc =
    text-IsPiece (codes "DROP TABLE ") b' ' (λ b. refl)
    ⊕ when-IsPiece if_exists (codes "IF EXISTS ")
        (text-IsPiece (codes "IF EXISTS ") b' ' (λ b. refl))
    ⊕ escape_identifier-IsPiece database hd
    ⊕ text-IsPiece (codes ".") b'.' (λ b. refl)
    ⊕ escape_identifier-IsPiece name hn
    ⊕ named_clause-IsPiece (codes " ON CLUSTER ") cluster on_cluster-IsPiece hc
    ⊕ when-IsPiece sync (codes " SYNC") (text-IsPiece (codes " SYNC") b'C' (λ b. refl))

-- The names of the request hold no backslash, and its engine, types and expressions hold no mark.
abbrev pub PlainChange : Change → Type 0
PlainChange (create_database req) =
    NoBackslash req.name × NoBackslash req.on_cluster × NoMarks req.engine
PlainChange (drop_database req) = NoBackslash req.name × NoBackslash req.on_cluster
PlainChange (create_table req) = PlainRequest req
PlainChange (drop_table req) =
    NoBackslash req.database × NoBackslash req.name × NoBackslash req.on_cluster

atomic-NoMarks : NoMarks (codes "Atomic")
unfolding is_mark
atomic-NoMarks = (refl, (refl, (refl, (refl, (refl, (refl, tt))))))

statement-IsPiece : (change : Change) → PlainChange change → Yields IsPiece (statement change)
unfolding statement
statement-IsPiece (create_database req) (name, cluster, engine) =
    Yields-then IsPiece (validate_simple_object_name (trim req.name) (codes "database")) _ (
      Yields-unless IsPiece (is_system_database_name (trim req.name)) system_database _ (λ user.
        Yields-unless IsPiece (is_unsafe_sql_fragment (or_else (trim req.engine) (codes "Atomic")))
          invalid_engine _
          (λ safe.
            Yields-unless IsPiece (invalid_fragment (trim req.on_cluster)) invalid_cluster _
              (λ valid.
                create_database-IsPiece (or_unset req.if_not_exists) (trim req.name)
                  (trim req.on_cluster) (or_else (trim req.engine) (codes "Atomic"))
                  (trim-NoBackslash req.name name) (trim-NoBackslash req.on_cluster cluster)
                  (or_else-NoMarks (trim req.engine) (codes "Atomic")
                    (All-trim (λ c. is_mark c ≡ false) req.engine engine) atomic-NoMarks)
                  safe))))
statement-IsPiece (drop_database req) (name, cluster) =
    Yields-then IsPiece (validate_simple_object_name (trim req.name) (codes "database")) _ (
      Yields-unless IsPiece (is_system_database_name (trim req.name)) system_database _ (λ user.
        Yields-unless IsPiece (invalid_fragment (trim req.on_cluster)) invalid_cluster _ (λ valid.
          drop_database-IsPiece (or_unset req.if_exists) (trim req.name) (trim req.on_cluster)
            req.sync (trim-NoBackslash req.name name) (trim-NoBackslash req.on_cluster cluster))))
statement-IsPiece (create_table req) p = build-IsPiece req p
statement-IsPiece (drop_table req) (database, name, cluster) =
    Yields-then IsPiece (validate_simple_object_name (trim req.database) (codes "database")) _ (
      Yields-then IsPiece (validate_simple_object_name (trim req.name) (codes "table")) _ (
        Yields-unless IsPiece (is_system_database_name (trim req.database)) system_database _
          (λ user.
            Yields-unless IsPiece (invalid_fragment (trim req.on_cluster)) invalid_cluster _
              (λ valid.
                drop_table-IsPiece (or_unset req.if_exists) (trim req.database) (trim req.name)
                  (trim req.on_cluster) req.sync (trim-NoBackslash req.database database)
                  (trim-NoBackslash req.name name) (trim-NoBackslash req.on_cluster cluster)))))

-- Whatever comments a request holds, the statement that is built for it is one statement: outside of
-- quotes it holds no terminator (`;` or `\G`) and starts no comment (`--`, `/*`, `#` or `#!`) and no
-- heredoc, and its quotes are closed, where a backslash escapes the byte behind it. It is required that
-- the names of the request hold no backslash, and that its engine, types and expressions hold no quote,
-- no `#`, no `$`, no backslash and no byte 226, which the guard of the program lets through.
pub statement-IsOneStatement :
    (change : Change) (sql : Text)
    → PlainChange change
    → statement change ≡ ok sql
    → IsOneStatement sql
statement-IsOneStatement change sql plain_change h =
    let piece =
      Yields-ok IsPiece (statement change) sql (statement-IsPiece change plain_change) h in
    record { last = piece.last 0; reads = piece.reads 0 }

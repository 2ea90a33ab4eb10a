-- ===== src/Schema/Handlers.antt =====
-- The handlers of schema changes: CreateDatabase, DropDatabase, CreateTable and DropTable of
-- internal/server/handlers/query.go. The text of a reply is left out, and so is what the database and
-- the tunnel do with a call: the answers of the role table, the decryption and the tunnel are
-- arguments.
use Prim.Native.Nat.{ℕ}
use mathlib.Core.Bool.{Bool, true, false}
use mathlib.Core.Option.{Option, none, some}
use mathlib.Core.List.{List, [], ◌∷◌, ◌++◌}
use ch_ui.Prelude.Tests.{if◌then◌else◌}
use ch_ui.Prelude.Text.{Text, codes, trim}
use ch_ui.Prelude.Result.{Result, ok, err}
use ch_ui.Middleware.Roles.{SessionInfo}
use ch_ui.Schema.Names.{Refusal}
use ch_ui.Schema.Statements.{
  CreateDatabaseRequest, DropDatabaseRequest, DropTableRequest, create_database_sql,
  drop_database_sql, drop_table_sql, or_else,
}
use ch_ui.Schema.CreateTable.{CreateTableRequest, build_create_table_sql}

-- The decoded body, by the handler that decodes it.
pub data Change : Type 0 where
  create_database : CreateDatabaseRequest → Change
  drop_database : DropDatabaseRequest → Change
  create_table : CreateTableRequest → Change
  drop_table : DropTableRequest → Change

-- What the handlers ask: `IsUserRole`, where `none` is an error; `crypto.Decrypt` with the key of the
-- configuration, where `none` is an error; `Gateway.ExecuteQuery` of a connection, a statement, a user
-- and a password, where `some` is an error.
pub record Server : Type 0 where
  pub is_user_role : Text → Text → Option Bool
  pub decrypt : Text → Option Text
  pub execute_query : Text → Text → Text → Text → Option Text

pub data Effect : Type 0 where
  sent_statement : (connection statement user password : Text) → Effect
  audited : (action user connection details remote_addr : Text) → Effect

-- The status of the reply and what was done, in order.
abbrev pub Outcome : Type 0
Outcome = ℕ × List Effect

unfoldable pub statement : Change → Result Refusal Text
unfolding create_database_sql drop_database_sql build_create_table_sql drop_table_sql
statement (create_database req) = create_database_sql req
statement (drop_database req) = drop_database_sql req
statement (create_table req) = build_create_table_sql req
statement (drop_table req) = drop_table_sql req

-- The database that the statement is about.
abbrev pub target_database : Change → Text
target_database (create_database req) = trim req.name
target_database (drop_database req) = trim req.name
target_database (create_table req) = trim req.database
target_database (drop_table req) = trim req.database

abbrev success_status : Change → ℕ
success_status (create_database req) = 201
success_status (drop_database req) = 200
success_status (create_table req) = 201
success_status (drop_table req) = 200

abbrev pub action : Change → Text
action (create_database req) = codes "schema.database.create"
action (drop_database req) = codes "schema.database.drop"
action (create_table req) = codes "schema.table.create"
action (drop_table req) = codes "schema.table.drop"

-- `%t`
abbrev bool_text : Bool → Text
bool_text b = if b then codes "true" else codes "false"

abbrev pub details : Change → Text
details (create_database req) =
    codes "database="
    ++ trim req.name
    ++ codes " engine="
    ++ or_else (trim req.engine) (codes "Atomic")
    ++ codes " cluster="
    ++ trim req.on_cluster
details (drop_database req) =
    codes "database="
    ++ trim req.name
    ++ codes " cluster="
    ++ trim req.on_cluster
    ++ codes " sync="
    ++ bool_text req.sync
details (create_table req) =
    codes "table="
    ++ trim req.database
    ++ codes "."
    ++ trim req.name
    ++ codes " engine="
    ++ or_else (trim req.engine) (codes "MergeTree")
    ++ codes " cluster="
    ++ trim req.on_cluster
details (drop_table req) =
    codes "table="
    ++ trim req.database
    ++ codes "."
    ++ trim req.name
    ++ codes " cluster="
    ++ trim req.on_cluster
    ++ codes " sync="
    ++ bool_text req.sync

-- `requireSchemaAdmin` for a session, and what stands behind it.
unfoldable pub require_schema_admin : Option Bool → Outcome → Outcome
require_schema_admin none rest = (500, [])
require_schema_admin (some false) rest = (403, [])
require_schema_admin (some true) rest = rest

module _ (server : Server) (remote_addr : Text) where
  -- The statement was sent; the answer is what `ExecuteQuery` returned.
  unfoldable pub after_statement : SessionInfo → Change → Text → Text → Option Text → Outcome
  after_statement info change sql password (some message) =
      (502, sent_statement info.connection_id sql info.clickhouse_user password ∷ [])
  after_statement info change sql password none = (
    success_status change,
    sent_statement info.connection_id sql info.clickhouse_user password
        ∷ audited (action change) info.clickhouse_user info.connection_id (details change)
            remote_addr
        ∷ [],
  )

  unfoldable pub send : SessionInfo → Change → Text → Option Text → Outcome
  unfolding after_statement
  send info change sql none = (500, [])
  send info change sql (some password) =
      after_statement info change sql password
        (server.execute_query info.connection_id sql info.clickhouse_user password)

  unfoldable pub checked : SessionInfo → Change → Result Refusal Text → Outcome
  unfolding send
  checked info change (err refusal) = (400, [])
  checked info change (ok sql) = send info change sql (server.decrypt info.encrypted_password)

  unfoldable pub decoded : SessionInfo → Option Change → Outcome
  unfolding checked statement
  decoded info none = (400, [])
  decoded info (some change) = checked info change (statement change)

  unfoldable pub change_schema : Option SessionInfo → Option Change → Outcome
  unfolding decoded require_schema_admin
  change_schema none body = (401, [])
  change_schema (some info) body =
      require_schema_admin (server.is_user_role info.clickhouse_user (codes "admin"))
        (decoded info body)

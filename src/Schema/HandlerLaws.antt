-- ===== src/Schema/HandlerLaws.antt =====
-- When a handler of schema changes (internal/server/handlers/query.go) sends a statement.
use Prim.Native.Nat.{◌≤◌, ◌<◌}
use mathlib.Core.Path.{◌≡◌, refl}
use mathlib.Core.Logic.{◌⊎◌, inl, inr}
use mathlib.Core.Bool.{Bool, true, false}
use mathlib.Core.Option.{Option, none, some}
use mathlib.Core.List.{[], ◌∷◌}
use native.Mathlib.Omega.{arith}
use ch_ui.Prelude.Text.{Text, codes, trim}
use ch_ui.Prelude.Result.{Result, ok, err, ◌>>◌, refuse_if}
use ch_ui.Middleware.Roles.{SessionInfo}
use ch_ui.Schema.Names.{
  Refusal, validate_simple_object_name, is_system_database_name, system_database,
}
use ch_ui.Schema.Yields.{Yields, Yields-then, Yields-unless, Yields-ok, Yields-always}
use ch_ui.Schema.Handlers.{
  Change, create_database, drop_database, create_table, drop_table, Server, Outcome, statement,
  target_database, sent_statement, audited, action, details, after_statement, checked, decoded,
  require_schema_admin, change_schema,
}

abbrev UserDatabase : Change → Text → Type 0
UserDatabase change sql = is_system_database_name (target_database change) ≡ false

-- The check of the name of a database and what is behind it.
UserDatabase-checked :
    (change : Change) (m : Result Refusal (Unit {0})) (k : Result Refusal Text)
    → Yields
        (UserDatabase change)
        (m >> (refuse_if (is_system_database_name (target_database change)) system_database >> k))
UserDatabase-checked change m k = Yields-then (UserDatabase change) m _ (
    Yields-unless (UserDatabase change) (is_system_database_name (target_database change))
      system_database k (λ h. Yields-always (UserDatabase change) k (λ sql. h)))

statement-UserDatabase : (change : Change) → Yields (UserDatabase change) (statement change)
unfolding statement
statement-UserDatabase (create_database req) =
    UserDatabase-checked (create_database req)
      (validate_simple_object_name (trim req.name) (codes "database")) _
statement-UserDatabase (drop_database req) =
    UserDatabase-checked (drop_database req)
      (validate_simple_object_name (trim req.name) (codes "database")) _
statement-UserDatabase (create_table req) =
    Yields-then (UserDatabase (create_table req))
      (validate_simple_object_name (trim req.database) (codes "database")) _
      (UserDatabase-checked (create_table req)
        (validate_simple_object_name (trim req.name) (codes "table")) _)
statement-UserDatabase (drop_table req) =
    Yields-then (UserDatabase (drop_table req))
      (validate_simple_object_name (trim req.database) (codes "database")) _
      (UserDatabase-checked (drop_table req)
        (validate_simple_object_name (trim req.name) (codes "table")) _)

-- The answer and the effects of a call whose statement was answered: by an error, which is passed on and
-- not noted, or without one, and then the change is noted behind the statement.
abbrev pub IsAnswered : SessionInfo → Change → Text → Text → Text → Outcome → Option Text → Type 0
IsAnswered info change sql password remote_addr (status, effects) (some message) =
    (status ≡ 502)
    × (effects ≡ sent_statement info.connection_id sql info.clickhouse_user password ∷ [])
IsAnswered info change sql password remote_addr (status, effects) none =
    (status < 300)
    × (effects
        ≡ sent_statement info.connection_id sql info.clickhouse_user password
          ∷ audited (action change) info.clickhouse_user info.connection_id (details change)
              remote_addr
          ∷ [])

after_statement-IsAnswered :
    (server : Server) (remote_addr : Text) (info : SessionInfo) (change : Change)
    (sql password : Text) (answer : Option Text)
    → IsAnswered info change sql password remote_addr
        (after_statement server remote_addr info change sql password answer)
        answer
unfolding after_statement
after_statement-IsAnswered server remote_addr info change sql password (some message) = (refl, refl)
after_statement-IsAnswered server remote_addr info (create_database req) sql password none =
    (omega arith, refl)
after_statement-IsAnswered server remote_addr info (drop_database req) sql password none =
    (omega arith, refl)
after_statement-IsAnswered server remote_addr info (create_table req) sql password none =
    (omega arith, refl)
after_statement-IsAnswered server remote_addr info (drop_table req) sql password none =
    (omega arith, refl)

-- A call in which a statement was sent: by an admin, after all checks, and to no system database.
pub record Sent (server : Server) (remote_addr : Text) (session : Option SessionInfo)
    (body : Option Change) (outcome : Outcome) : Type 0 where
  pub info : SessionInfo
  pub change : Change
  pub sql : Text
  pub password : Text
  pub has_session : session ≡ some info
  pub is_admin : server.is_user_role info.clickhouse_user (codes "admin") ≡ some true
  pub has_body : body ≡ some change
  pub passes : statement change ≡ ok sql
  pub user_database : is_system_database_name (target_database change) ≡ false
  pub decrypted : server.decrypt info.encrypted_password ≡ some password
  pub answered :
      IsAnswered info change sql password remote_addr outcome
        (server.execute_query info.connection_id sql info.clickhouse_user password)

-- A call that was refused: nothing was done, and the status is that of an error.
abbrev pub Refused : Outcome → Type 0
Refused (status, effects) = (400 ≤ status) × (effects ≡ [])

module _ (server : Server) (remote_addr : Text) where
  checked-Sent :
      (info : SessionInfo) (change : Change)
      → server.is_user_role info.clickhouse_user (codes "admin") ≡ some true
      → (m : Result Refusal Text) → statement change ≡ m
      → (o : Option Text) → server.decrypt info.encrypted_password ≡ o
      → Refused (checked server remote_addr info change m)
        ⊎ Sent server remote_addr
            (some info)
            (some change)
            (checked server remote_addr info change m)
  unfolding checked
  checked-Sent info change admin (err refusal) e o d = inl (omega arith, refl)
  checked-Sent info change admin (ok sql) e none d = inl (rw d (omega arith, refl))
  checked-Sent info change admin (ok sql) e (some password) d = inr (record {
    info = info;
    change = change;
    sql = sql;
    password = password;
    has_session = refl;
    is_admin = admin;
    has_body = refl;
    passes = e;
    user_database =
        Yields-ok (UserDatabase change) (statement change) sql (statement-UserDatabase change) e;
    decrypted = d;
    answered = rw d (after_statement-IsAnswered server remote_addr info change sql password _);
  })

  admitted :
      (info : SessionInfo) (body : Option Change)
      → server.is_user_role info.clickhouse_user (codes "admin") ≡ some true
      → Refused (decoded server remote_addr info body)
        ⊎ Sent server remote_addr (some info) body (decoded server remote_addr info body)
  unfolding decoded
  admitted info none admin = inl (omega arith, refl)
  admitted info (some change) admin =
      checked-Sent info change admin (statement change) refl
        (server.decrypt info.encrypted_password) refl

  by_role :
      (info : SessionInfo) (body : Option Change) (o : Option Bool)
      → server.is_user_role info.clickhouse_user (codes "admin") ≡ o
      → Refused (require_schema_admin o (decoded server remote_addr info body))
        ⊎ Sent server remote_addr
            (some info)
            body
            (require_schema_admin o (decoded server remote_addr info body))
  unfolding require_schema_admin
  by_role info body none e = inl (omega arith, refl)
  by_role info body (some false) e = inl (omega arith, refl)
  by_role info body (some true) e = admitted info body e

-- Every call of the four handlers is refused, with an error status and without any effect, or it is a
-- call of an admin whose body passes all checks and names no system database, and whose password could
-- be decrypted: then exactly the built statement is sent, under the user of the session; where that
-- fails the status is 502 and nothing is noted, and where it succeeds the change is noted in the audit
-- log.
pub change_schema-Sent :
    (server : Server) (remote_addr : Text) (session : Option SessionInfo) (body : Option Change)
    → Refused (change_schema server remote_addr session body)
      ⊎ Sent server remote_addr session body (change_schema server remote_addr session body)
unfolding change_schema
change_schema-Sent server remote_addr none body = inl (omega arith, refl)
change_schema-Sent server remote_addr (some info) body =
    by_role server remote_addr info body (server.is_user_role info.clickhouse_user (codes "admin"))
      refl

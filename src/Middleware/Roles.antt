-- ===== src/Middleware/Roles.antt =====
-- Sessions and roles: internal/server/middleware/session.go and the gate of Pro features
-- (internal/server/middleware/license.go).
use mathlib.Core.Bool.{Bool, true, false, not, ◌&&◌}
use mathlib.Core.Option.{Option, none, some}
use ch_ui.Prelude.Tests.{if◌then◌else◌}
use ch_ui.Prelude.Text.{Text, codes, same, is_blank}

-- The fields of `database.Session` that are read.
pub record Session : Type 0 where
  pub id : Text
  pub connection_id : Text
  pub clickhouse_user : Text
  pub encrypted_password : Text
  pub user_role : Option Text

pub record SessionInfo : Type 0 where
  pub id : Text
  pub connection_id : Text
  pub clickhouse_user : Text
  pub encrypted_password : Text
  pub user_role : Text

-- What a guard does with a request: it answers with a status, or passes the request on with a session.
pub data Verdict : Type 0 where
  unauthorized payment_required forbidden server_error : Verdict
  passed : Option SessionInfo → Verdict

-- `none` is an error. The role that `GetUserRole` gives is empty where there is none.
pub record Db : Type 0 where
  pub get_session : Text → Option (Option Session)
  pub get_user_role : Text → Option Text
  pub is_user_role : Text → Text → Option Bool

-- The role of the session's row, or a viewer's.
unfoldable pub session_role : Option Text → Text
session_role none = codes "viewer"
session_role (some role) = if is_blank role then codes "viewer" else role

unfoldable pub resolve_role : Option Text → Option Text → Text
unfolding session_role
resolve_role none user_role = codes "viewer"
resolve_role (some override_role) user_role =
    if is_blank override_role then session_role user_role else override_role

unfoldable pub admit : Db → Option (Option Session) → Verdict
unfolding resolve_role
admit db none = server_error
admit db (some none) = unauthorized
admit db (some (some session)) = passed (
    some (record {
      id = session.id;
      connection_id = session.connection_id;
      clickhouse_user = session.clickhouse_user;
      encrypted_password = session.encrypted_password;
      user_role = resolve_role (db.get_user_role session.clickhouse_user) session.user_role;
    }))

-- `Session`, for the value of the cookie, none where there is no cookie.
unfoldable pub session : Db → Option Text → Verdict
unfolding admit
session db none = unauthorized
session db (some token) = if is_blank token then unauthorized else admit db (db.get_session token)

unfoldable pub require_writer : Option SessionInfo → Verdict
require_writer none = forbidden
require_writer (some info) =
    if not (same info.user_role (codes "admin")) && not (same info.user_role (codes "analyst"))
    then forbidden
    else passed (some info)

unfoldable pub admin_verdict : SessionInfo → Option Bool → Verdict
admin_verdict info none = server_error
admin_verdict info (some false) = forbidden
admin_verdict info (some true) = passed (some info)

unfoldable pub require_admin : Db → Option SessionInfo → Verdict
unfolding admin_verdict
require_admin db none = forbidden
require_admin db (some info) =
    admin_verdict info (db.is_user_role info.clickhouse_user (codes "admin"))

-- A chain of guards: the next one sees the session that the one before passes on.
unfoldable pub then_guard : Verdict → (Option SessionInfo → Verdict) → Verdict
then_guard (passed info) next = next info
then_guard other next = other

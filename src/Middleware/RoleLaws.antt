-- ===== src/Middleware/RoleLaws.antt =====
-- Who passes the guard of writers (internal/server/middleware/session.go).
use mathlib.Core.Path.{◌≡◌, refl, sym}
use mathlib.Core.Logic.{◌⊎◌, inl, inr}
use mathlib.Core.Bool.{Bool, true, false, ◌||◌}
use mathlib.Core.Option.{Option, none, some}
use ch_ui.Prelude.Tests.{Bool-cases}
use ch_ui.Prelude.Text.{Text, codes, same, is_blank}
use ch_ui.Middleware.Roles.{
  Session, SessionInfo, unauthorized, forbidden, passed, Db, session_role, resolve_role, admit,
  session, require_writer, then_guard,
}

abbrev pub is_writer : Text → Bool
is_writer role = same role (codes "admin") || same role (codes "analyst")

session_role-writer :
    (u : Option Text) → is_writer (session_role u) ≡ true → u ≡ some (session_role u)
unfolding session_role same
session_role-writer none h = cc
session_role-writer (some role) h = elim (Bool-cases (is_blank role)) [
  | inl blank ↦ (let c : false ≡ true = rw blank at h in cc)
  | inr given ↦ rw given refl
]

resolve_role-writer :
    (o u : Option Text)
    → is_writer (resolve_role o u) ≡ true
    → (r : Text) × (o ≡ some r)
      × ((r ≡ resolve_role o u) ⊎ ((is_blank r ≡ true) × (u ≡ some (resolve_role o u))))
unfolding resolve_role same
resolve_role-writer none u h = cc
resolve_role-writer (some r) u h = elim (Bool-cases (is_blank r)) [
  | inl blank ↦ (r, refl, inr (blank, rw blank (session_role-writer u (rw blank at h))))
  | inr given ↦ (r, refl, inl (rw given refl))
]

some_info : (a b : SessionInfo) → passed (some a) ≡ passed (some b) → a ≡ b
some_info a b h = cc

-- The session that `Session` passes on for a row.
abbrev resolved : Db → Session → SessionInfo
resolved db row = record {
  id = row.id;
  connection_id = row.connection_id;
  clickhouse_user = row.clickhouse_user;
  encrypted_password = row.encrypted_password;
  user_role = resolve_role (db.get_user_role row.clickhouse_user) row.user_role;
}

writer_role :
    (info info' : SessionInfo)
    → require_writer (some info) ≡ passed (some info')
    → (info ≡ info') × (is_writer info.user_role ≡ true)
unfolding require_writer
writer_role info info' h = elim (Bool-cases (same info.user_role (codes "admin"))) [
  | inl admin ↦ (some_info info info' (rw admin at h), rw admin refl)
  | inr other ↦ elim (Bool-cases (same info.user_role (codes "analyst"))) [
    | inl analyst ↦ (some_info info info' (rw (other, analyst) at h), rw (other, analyst) refl)
    | inr none_of_both ↦
        (let c : forbidden ≡ passed (some info') = rw (other, none_of_both) at h in cc)
  ]
]

admit-writer :
    (db : Db) (o : Option (Option Session)) (info : SessionInfo)
    → then_guard (admit db o) require_writer ≡ passed (some info)
    → (row : Session) × (r : Text) × (o ≡ some (some row))
      × (info.clickhouse_user ≡ row.clickhouse_user)
      × (is_writer info.user_role ≡ true)
      × (db.get_user_role row.clickhouse_user ≡ some r)
      × ((r ≡ info.user_role) ⊎ ((is_blank r ≡ true) × (row.user_role ≡ some info.user_role)))
unfolding admit then_guard
admit-writer db none info h = cc
admit-writer db (some none) info h = cc
admit-writer db (some (some row)) info h =
    let (e, writes) = writer_role (resolved db row) info h in
    let (r, found, origin) =
      resolve_role-writer (db.get_user_role row.clickhouse_user) row.user_role writes in
    (row, r, refl, rw (sym e) refl, rw (sym e) writes, found, rw (sym e) origin)

-- The guards `Session` and `RequireWriter` together pass a request on only for a session that the
-- database has under the token of the cookie, when the role could be looked up and is "admin" or
-- "analyst"; that role is the user's explicit role or, where this is empty, the role of the session.
pub session-require_writer :
    (db : Db) (token : Text) (info : SessionInfo)
    → then_guard (session db (some token)) require_writer ≡ passed (some info)
    → (row : Session) × (r : Text) × (db.get_session token ≡ some (some row))
      × (info.clickhouse_user ≡ row.clickhouse_user)
      × (is_writer info.user_role ≡ true)
      × (db.get_user_role row.clickhouse_user ≡ some r)
      × ((r ≡ info.user_role) ⊎ ((is_blank r ≡ true) × (row.user_role ≡ some info.user_role)))
unfolding session then_guard
session-require_writer db token info h = elim (Bool-cases (is_blank token)) [
  | inl blank ↦ (let c : unauthorized ≡ passed (some info) = rw blank at h in cc)
  | inr given ↦ admit-writer db (db.get_session token) info (rw given at h)
]

-- ===== src/Middleware/Examples.antt =====
-- Tests and witnesses for the guards of requests.
use mathlib.Core.Path.{◌≡◌, refl}
use mathlib.Core.Logic.{◌⊎◌}
use mathlib.Core.Bool.{true, false}
use mathlib.Core.Option.{none, some}
use mathlib.Core.List.{[], ◌∷◌}
use native.Mathlib.Omega.{arith}
use ch_ui.Prelude.Text.{Text, codes, same, trim, is_blank}
use ch_ui.Prelude.Maps.{lookup, insert}
use ch_ui.Middleware.IpLimit.{ip_rate_limit, client_ip, allow, count_in, collect_garbage}
use ch_ui.Middleware.Roles.{Session, SessionInfo, passed, Db, session, require_writer, then_guard}
use ch_ui.Middleware.RoleLaws.{is_writer, session-require_writer}
use ch_ui.Middleware.Quota.{answers, quota}
use ch_ui.Middleware.Refinement.{answers-refine-quota}

client_ip_first :
    client_ip (codes " 10.0.0.1 , 10.0.0.2") [] (codes "10.0.0.9:80") none ≡ codes "10.0.0.1"
unfolding client_ip trim
client_ip_first = refl

answers-refine-quota_example :
    answers
      ((1000, codes "a")
        ∷ (1001, codes "b")
        ∷ (1030, codes "a")
        ∷ (1031, codes "a")
        ∷ (1070, codes "b")
        ∷ (1071, codes "a")
        ∷ [])
      (ip_rate_limit 2 60 1000)
    ≡ quota 2 60
        ((1000, codes "a")
          ∷ (1001, codes "b")
          ∷ (1030, codes "a")
          ∷ (1031, codes "a")
          ∷ (1070, codes "b")
          ∷ (1071, codes "a")
          ∷ [])
        (λ ip. none)
answers-refine-quota_example =
    answers-refine-quota 2 60 1000
      ((1000, codes "a")
        ∷ (1001, codes "b")
        ∷ (1030, codes "a")
        ∷ (1031, codes "a")
        ∷ (1070, codes "b")
        ∷ (1071, codes "a")
        ∷ [])
      (omega arith)

-- The third request of the window is refused, and the cleanup drops a window.
limiter_run :
    answers
      ((1000, codes "a")
        ∷ (1001, codes "b")
        ∷ (1030, codes "a")
        ∷ (1031, codes "a")
        ∷ (1070, codes "b")
        ∷ (1071, codes "a")
        ∷ [])
      (ip_rate_limit 2 60 1000)
    ≡ true ∷ true ∷ true ∷ false ∷ true ∷ true ∷ []
unfolding answers allow count_in collect_garbage lookup insert same
limiter_run = refl

abbrev row : Session
row = record {
  id = codes "s1";
  connection_id = codes "c1";
  clickhouse_user = codes "ann";
  encrypted_password = codes "sealed";
  user_role = some (codes "analyst");
}

abbrev db : Db
db = record {
  get_session = λ token. some (some row);
  get_user_role = λ user. some [];
  is_user_role = λ user role. some false;
}

abbrev info : SessionInfo
info = record {
  id = codes "s1";
  connection_id = codes "c1";
  clickhouse_user = codes "ann";
  encrypted_password = codes "sealed";
  user_role = codes "analyst";
}

ann-passed : then_guard (session db (some (codes "t"))) require_writer ≡ passed (some info)
unfolding then_guard session require_writer same
ann-passed = refl

session-require_writer_example :
    (s : Session) × (r : Text) × (db.get_session (codes "t") ≡ some (some s))
    × (info.clickhouse_user ≡ s.clickhouse_user)
    × (is_writer info.user_role ≡ true)
    × (db.get_user_role s.clickhouse_user ≡ some r)
    × ((r ≡ info.user_role) ⊎ ((is_blank r ≡ true) × (s.user_role ≡ some info.user_role)))
session-require_writer_example = session-require_writer db (codes "t") info ann-passed

-- ===== src/Tunnel/Protocol.antt =====
-- The messages of the tunnel: internal/tunnel/protocol.go. A raw JSON text is opaque.
use mathlib.Core.Bool.{Bool, false}
use mathlib.Core.Option.{Option, none, some}
use mathlib.Core.List.{List, []}
use ch_ui.Prelude.Int.{ℤ}
use ch_ui.Prelude.Tests.{if◌then◌else◌}
use ch_ui.Prelude.Text.{Text, is_blank}

-- `kind` is the field `Type`, `payload` the field `Data`. The sequence number is never read.
pub record AgentMessage : Type 0 where
  pub kind : Text
  pub token : Text
  pub takeover : Bool
  pub id : Text
  pub query_id : Text
  pub payload : Text
  pub meta : Text
  pub stats : Text
  pub statistics : Text
  pub error : Text
  pub success : Option Bool
  pub online : Option Bool
  pub version : Text
  pub host_info : Text
  pub total_rows : ℤ

unfoldable pub get_message_id : AgentMessage → Text
get_message_id m = if is_blank m.query_id then m.id else m.query_id

unfoldable pub get_stats : AgentMessage → Text
get_stats m = if is_blank m.stats then m.statistics else m.stats

unfoldable pub online_or_failed : Option Bool → Bool
online_or_failed none = false
online_or_failed (some online) = online

unfoldable pub success_or : Option Bool → Option Bool → Bool
unfolding online_or_failed
success_or none online = online_or_failed online
success_or (some success) online = success

unfoldable pub is_test_success : AgentMessage → Bool
unfolding success_or
is_test_success m = success_or m.success m.online

pub record QueryResult : Type 0 where
  pub payload : Text
  pub meta : Text
  pub stats : Text

pub record TestResult : Type 0 where
  pub success : Bool
  pub error : Text
  pub version : Text

pub record StreamDone : Type 0 where
  pub statistics : Text
  pub total_rows : ℤ

pub record GatewayMessage : Type 0 where
  pub kind : Text
  pub connection_id : Text
  pub connection_name : Text
  pub message : Text
  pub id : Text
  pub query_id : Text
  pub sql : Text
  pub query : Text
  pub user : Text
  pub password : Text
  pub format : Text
  pub settings : List (Text × Text)

-- A message of a kind, with its other fields empty.
abbrev pub bare : Text → GatewayMessage
bare kind = record {
  kind = kind;
  connection_id = [];
  connection_name = [];
  message = [];
  id = [];
  query_id = [];
  sql = [];
  query = [];
  user = [];
  password = [];
  format = [];
  settings = [];
}

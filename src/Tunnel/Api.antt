-- ===== src/Tunnel/Api.antt =====
-- The calls on the gateway: internal/tunnel/api.go. A call that waits is two steps: one sends the request,
-- the other receives from a channel that is ready, or runs into the timeout.
use Prim.Native.Nat.{ℕ}
use mathlib.Core.Bool.{Bool, true, false}
use mathlib.Core.Option.{Option, none, some}
use mathlib.Core.List.{List, [], ◌∷◌, ◌++◌}
use ch_ui.Prelude.Tests.{if◌then◌else◌}
use ch_ui.Prelude.Lists.{length}
use ch_ui.Prelude.Text.{Text, codes, is_blank}
use ch_ui.Prelude.Maps.{lookup, insert}
use ch_ui.Prelude.Result.{Result, ok, err}
use ch_ui.Tunnel.Protocol.{GatewayMessage, QueryResult, TestResult}
use ch_ui.Tunnel.Gateway.{
  Kind, plain, stream, Payload, of_query, of_test, Channels, new_channels, ConnectedTunnel,
  write_message, Gateway, drop_pending,
}

abbrev is_some {ℓ} : {A : Type ℓ} → Option A → Bool
is_some none = false
is_some (some a) = true

unfoldable pub is_tunnel_online : Gateway → Text → Bool
unfolding lookup
is_tunnel_online g connection_id = is_some (lookup connection_id g.tunnels)

abbrev seen : Option ConnectedTunnel → Option ℕ
seen none = none
seen (some t) = some t.last_seen

-- `GetTunnelStatus`: the time of a tunnel that is online.
unfoldable pub get_tunnel_status : Gateway → Text → Option ℕ
unfolding lookup
get_tunnel_status g connection_id = seen (lookup connection_id g.tunnels)

unfoldable pub get_connected_count : Gateway → ℕ
get_connected_count g = length g.tunnels

-- The message of a query, a stream or a test. Queries carry the statement twice, under an old and a new
-- name; a test carries none.
abbrev pub request_message :
    (kind id sql user password format : Text) → List (Text × Text) → GatewayMessage
request_message kind id sql user password format settings = record {
  kind = kind;
  connection_id = [];
  connection_name = [];
  message = [];
  id = id;
  query_id = id;
  sql = sql;
  query = sql;
  user = user;
  password = password;
  format = format;
  settings = settings;
}

-- `t.Pending.Store(requestID, …)` with fresh channels, and the write to the socket.
abbrev pub store_pending : Text → Kind → Text → ConnectedTunnel → Gateway → Gateway
store_pending conn_id kind id t g = record g {
  tunnels = insert conn_id (record t { pending = insert id kind t.pending }) g.tunnels;
  channels = insert id new_channels g.channels;
}

abbrev pub written : ℕ → GatewayMessage → Gateway → Gateway
written ws m g = record g { log = g.log ++ write_message ws m ∷ [] }

-- The start of a call for a new request. When the write fails the request is taken back, and `fails`
-- is the error; where there is none, the call waits.
unfoldable pub begin_found :
    Gateway
    → Text
    → Kind
    → Text
    → GatewayMessage
    → Option Text
    → Option ConnectedTunnel
    → Gateway × Option Text
begin_found g conn_id kind id m fails none = (g, some (codes "tunnel not connected"))
begin_found g conn_id kind id m none (some t) =
    (written t.ws m (store_pending conn_id kind id t g), none)
begin_found g conn_id kind id m (some e) (some t) = (
  drop_pending conn_id id (record t { pending = insert id kind t.pending })
      (store_pending conn_id kind id t g),
  some e,
)

unfoldable pub begin_request :
    Gateway → Text → Kind → Text → GatewayMessage → Option Text → Gateway × Option Text
unfolding begin_found
begin_request g conn_id kind id m fails =
    begin_found g conn_id kind id m fails (lookup conn_id g.tunnels)

-- The first parts of `ExecuteQueryWithSettings`, `ExecuteQueryWithFormat`, `ExecuteStreamQuery` and
-- `TestConnection`, for the identifier that `uuid.NewString` gives.
unfoldable pub execute_query_with_settings :
    Gateway
    → (connection_id id sql user password : Text) → List (Text × Text)
    → Option Text
    → Gateway × Option Text
unfolding begin_request
execute_query_with_settings g connection_id id sql user password settings fails =
    begin_request g connection_id plain id
      (request_message (codes "query") id sql user password [] settings) fails

unfoldable pub execute_query_with_format :
    Gateway
    → (connection_id id sql user password format : Text) → Option Text
    → Gateway × Option Text
unfolding begin_request
execute_query_with_format g connection_id id sql user password format fails =
    begin_request g connection_id plain id
      (request_message (codes "query") id sql user password format []) fails

unfoldable pub execute_stream_query :
    Gateway
    → (connection_id id sql user password : Text) → List (Text × Text)
    → Option Text
    → Gateway × Option Text
unfolding begin_request
execute_stream_query g connection_id id sql user password settings fails =
    begin_request g connection_id stream id
      (request_message (codes "query_stream") id sql user password [] settings) fails

unfoldable pub test_connection :
    Gateway → (connection_id id user password : Text) → Option Text → Gateway × Option Text
unfolding begin_request
test_connection g connection_id id user password fails =
    begin_request g connection_id plain id
      (request_message (codes "test_connection") id [] user password [] []) fails

-- The branches of the `select` of a call.
pub data Choice : Type 0 where
  result_ch error_ch timer : Choice

pub data Answer : Type 0 where
  received : Payload → Answer
  failed : Text → Answer
  timed_out : Answer

abbrev from_result : Option Payload → Option Answer
from_result none = none
from_result (some p) = some (received p)

abbrev from_error : Option Text → Option Answer
from_error none = none
from_error (some e) = some (failed e)

-- What a branch receives, none where it is not ready.
unfoldable pub receive : Channels → Choice → Option Answer
receive c result_ch = from_result c.result
receive c error_ch = from_error c.error
receive c timer = some timed_out

-- `defer t.Pending.Delete(requestID)`. A tunnel that has replaced the one of the call has no request of
-- that identifier.
unfoldable pub forget : Text → Text → Option ConnectedTunnel → Gateway → Gateway
forget conn_id id none g = g
forget conn_id id (some t) g = drop_pending conn_id id t g

-- The deferred deletion of a call, or `CleanupStream`.
unfoldable pub cleanup_stream : Gateway → Text → Text → Gateway
unfolding forget
cleanup_stream g conn_id id = forget conn_id id (lookup conn_id g.tunnels) g

abbrev cancel_message : Text → GatewayMessage
cancel_message id = request_message (codes "cancel_query") id [] [] [] [] []

-- A raw text as `json.Marshal` prints it and `json.Unmarshal` reads it back: an empty one as `null`.
-- `compact` is what `json.Marshal` makes of any other, without white space and with the characters of
-- HTML escaped.
unfoldable pub or_null : (Text → Text) → Text → Text
or_null compact raw = if is_blank raw then codes "null" else compact raw

-- A query's payload as `json.Unmarshal` reads it: a test's has none of its fields.
abbrev pub as_query : (Text → Text) → Payload → QueryResult
as_query compact (of_query r) = record {
  payload = or_null compact r.payload;
  meta = or_null compact r.meta;
  stats = or_null compact r.stats;
}
as_query compact (of_test r) = record { payload = []; meta = []; stats = [] }

abbrev pub as_test : Payload → TestResult
as_test (of_query r) = record { success = false; error = []; version = [] }
as_test (of_test r) = r

-- The second part of `ExecuteQueryWithSettings`, with the socket of the call.
unfoldable pub finish_query :
    (Text → Text) → Gateway → Text → ℕ → Text → Answer → Gateway × Result Text QueryResult
unfolding cleanup_stream
finish_query compact g conn_id ws id (received p) =
    (cleanup_stream g conn_id id, ok (as_query compact p))
finish_query compact g conn_id ws id (failed e) = (cleanup_stream g conn_id id, err e)
finish_query compact g conn_id ws id timed_out =
    (cleanup_stream (written ws (cancel_message id) g) conn_id id, err (codes "query timeout"))

-- The raw result of `ExecuteQueryWithFormat`: the data, or the whole payload where there is none.
pub data Raw : Type 0 where
  data_of : Text → Raw
  whole : Payload → Raw

unfoldable pub raw_result : (Text → Text) → Payload → Raw
raw_result compact p =
    if is_blank (as_query compact p).payload then whole p else data_of (as_query compact p).payload

unfoldable pub finish_format :
    (Text → Text) → Gateway → Text → ℕ → Text → Answer → Gateway × Result Text Raw
unfolding cleanup_stream raw_result
finish_format compact g conn_id ws id (received p) =
    (cleanup_stream g conn_id id, ok (raw_result compact p))
finish_format compact g conn_id ws id (failed e) = (cleanup_stream g conn_id id, err e)
finish_format compact g conn_id ws id timed_out =
    (cleanup_stream (written ws (cancel_message id) g) conn_id id, err (codes "query timeout"))

unfoldable pub finish_test : Gateway → Text → Text → Answer → Gateway × Result Text TestResult
unfolding cleanup_stream
finish_test g conn_id id (received p) = (cleanup_stream g conn_id id, ok (as_test p))
finish_test g conn_id id (failed e) = (cleanup_stream g conn_id id, err e)
finish_test g conn_id id timed_out =
    (cleanup_stream g conn_id id, err (codes "connection test timeout"))

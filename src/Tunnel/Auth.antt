-- ===== src/Tunnel/Auth.antt =====
-- Connecting, disconnecting and the heartbeat: internal/tunnel/gateway.go.
use Prim.Native.Nat.{ℕ, ◌+◌, ◌*◌}
use mathlib.Core.Bool.{Bool, not, ◌&&◌}
use mathlib.Core.Option.{Option, none, some}
use mathlib.Core.List.{List, [], ◌∷◌, ◌++◌}
use ch_ui.Prelude.Tests.{ltb, ◌==◌, if◌then◌else◌}
use ch_ui.Prelude.Text.{Text, codes, same, is_blank}
use ch_ui.Prelude.Maps.{lookup, insert, delete}
use ch_ui.Prelude.Clock.{second, minute}
use ch_ui.Prelude.Result.{Result, ok, err}
use ch_ui.Tunnel.Protocol.{AgentMessage, bare}
use ch_ui.Tunnel.Gateway.{
  Kind, plain, stream, ConnectedTunnel, Action, update_connection_status, create_audit_log,
  write_message, write_close, close_socket, Gateway, Outcome, finished, panicked, blocked,
  channels_of, set_channels, put_error, close_stream, handle_query_result, handle_query_error,
  handle_test_result, handle_host_info, handle_stream_start, handle_stream_chunk, handle_stream_end,
  handle_stream_error,
}

-- One round of the loop over the pending requests.
unfoldable pub reject : Text → Kind → Gateway → Outcome
unfolding channels_of close_stream
reject id plain g =
    finished (set_channels id (put_error (codes "tunnel disconnected") (channels_of g id)) g)
reject id stream g = close_stream g id (put_error (codes "tunnel disconnected")) (channels_of g id)

unfoldable pub then_step : Outcome → (Gateway → Outcome) → Outcome
then_step (finished g) f = f g
then_step panicked f = panicked
then_step blocked f = blocked

unfoldable pub reject_all : List (Text × Kind) → Gateway → Outcome
unfolding reject then_step
reject_all [] g = finished g
reject_all ((id, kind) ∷ rest) g = then_step (reject id kind g) (reject_all rest)

abbrev pub with_log : List Action → Gateway → Gateway
with_log actions g = record g { log = g.log ++ actions }

abbrev pub record_disconnect : Text → Gateway → Gateway
record_disconnect conn_id g =
    with_log
      (update_connection_status conn_id (codes "disconnected")
        ∷ create_audit_log (codes "tunnel.disconnected") conn_id
        ∷ [])
      g

-- The tunnel is taken out of the map and its requests are told.
unfoldable pub disconnect_tunnel : Gateway → Text → ConnectedTunnel → Outcome
unfolding reject_all then_step
disconnect_tunnel g conn_id t =
    then_step (reject_all t.pending (record g { tunnels = delete conn_id g.tunnels }))
      (λ rejected. finished (record_disconnect conn_id rejected))

-- `handleDisconnect` for a socket: a tunnel of a newer socket stays.
unfoldable pub disconnect_found : Gateway → Text → ℕ → Option ConnectedTunnel → Outcome
unfolding disconnect_tunnel
disconnect_found g conn_id ws none = finished g
disconnect_found g conn_id ws (some t) =
    if t.ws == ws then disconnect_tunnel g conn_id t else finished g

unfoldable pub handle_disconnect : Gateway → Text → ℕ → Outcome
unfolding disconnect_found
handle_disconnect g conn_id ws = disconnect_found g conn_id ws (lookup conn_id g.tunnels)

-- A row of the table of connections.
pub record TunnelConnection : Type 0 where
  pub id : Text
  pub name : Text

abbrev pub auth_error : ℕ → Text → Text → Gateway → Gateway
auth_error ws message reason g =
    with_log
      (write_message ws (record (bare (codes "auth_error")) { message = message })
        ∷ write_close ws reason
        ∷ [])
      g

abbrev pub new_tunnel : TunnelConnection → ℕ → ℕ → ConnectedTunnel
new_tunnel tc ws now = record {
  connection_id = tc.id;
  connection_name = tc.name;
  ws = ws;
  last_seen = now;
  pending = [];
}

-- The new tunnel is stored and acknowledged.
unfoldable pub connect : TunnelConnection → ℕ → ℕ → Gateway → Gateway
connect tc ws now g =
    with_log
      (update_connection_status tc.id (codes "connected")
        ∷ write_message ws
            (record (bare (codes "auth_ok")) { connection_id = tc.id; connection_name = tc.name })
        ∷ create_audit_log (codes "tunnel.connected") tc.id
        ∷ [])
      (record g { tunnels = insert tc.id (new_tunnel tc ws now) g.tunnels })

-- `time.Since(t.LastSeen) < 45*time.Second`
unfoldable pub is_healthy : ConnectedTunnel → ℕ → Bool
is_healthy t now = ltb now (t.last_seen + 45 * second)

-- The identifier that `handleAuth` returns is empty where the socket is refused.
unfoldable pub auth_existing :
    Gateway → TunnelConnection → ℕ → Bool → ℕ → Option ConnectedTunnel → Text × Outcome
unfolding connect is_healthy then_step handle_disconnect
auth_existing g tc ws takeover now none = (tc.id, finished (connect tc ws now g))
auth_existing g tc ws takeover now (some t) =
    if is_healthy t now && not takeover
    then (
      [],
      finished (
          auth_error ws (codes "Tunnel token already connected (use --takeover to replace it)")
            (codes "Token already connected") g),
    )
    else (
      tc.id,
      then_step (handle_disconnect (with_log (close_socket t.ws ∷ []) g) tc.id t.ws)
          (λ replaced. finished (connect tc ws now replaced)),
    )

-- `handleAuth`, for the answer of the lookup of the token.
unfoldable pub handle_auth :
    Gateway → ℕ → Bool → ℕ → Result Text (Option TunnelConnection) → Text × Outcome
unfolding auth_existing
handle_auth g ws takeover now (err e) = (
  [],
  finished (
      auth_error ws (codes "Tunnel auth temporarily unavailable. Please retry.")
        (codes "Auth backend busy") g),
)
handle_auth g ws takeover now (ok none) =
    ([], finished (auth_error ws (codes "Invalid tunnel token") (codes "Invalid token") g))
handle_auth g ws takeover now (ok (some tc)) =
    auth_existing g tc ws takeover now (lookup tc.id g.tunnels)

unfoldable pub touch_found : Gateway → Text → ℕ → Option ConnectedTunnel → Gateway
touch_found g conn_id now none = g
touch_found g conn_id now (some t) = record g {
  tunnels = insert conn_id (record t { last_seen = now }) g.tunnels;
}

unfoldable pub touch_tunnel : Gateway → Text → ℕ → Gateway
unfolding touch_found
touch_tunnel g conn_id now =
    if is_blank conn_id then g else touch_found g conn_id now (lookup conn_id g.tunnels)

unfoldable pub handle_pong : Gateway → Text → ℕ → Gateway
unfolding touch_tunnel
handle_pong g conn_id now =
    if is_blank conn_id
    then g
    else with_log (update_connection_status conn_id (codes "connected") ∷ [])
        (touch_tunnel g conn_id now)

-- The switch of `readLoop` for the messages behind the authentication. `info` is what the host
-- information reads as.
unfoldable pub dispatch : Gateway → Text → ℕ → Option Text → AgentMessage → Outcome
unfolding handle_pong
dispatch g conn_id now info m =
    if same m.kind (codes "pong")
    then finished (handle_pong g conn_id now)
    else if same m.kind (codes "query_result")
    then handle_query_result g conn_id m
    else if same m.kind (codes "query_error")
    then handle_query_error g conn_id m
    else if same m.kind (codes "test_result")
    then handle_test_result g conn_id m
    else if same m.kind (codes "host_info")
    then handle_host_info g conn_id m info
    else if same m.kind (codes "query_stream_start")
    then handle_stream_start g conn_id m
    else if same m.kind (codes "query_stream_chunk")
    then handle_stream_chunk g conn_id m
    else if same m.kind (codes "query_stream_end")
    then handle_stream_end g conn_id m
    else if same m.kind (codes "query_stream_error")
    then handle_stream_error g conn_id m
    else finished g

-- One round of `readLoop` on a message that is no authentication.
unfoldable pub read_message : Gateway → Text → ℕ → Option Text → AgentMessage → Outcome
unfolding dispatch touch_tunnel
read_message g conn_id now info m = dispatch (touch_tunnel g conn_id now) conn_id now info m

-- One round of `pingAll`; `fails` says which sockets refuse the ping.
unfoldable pub ping : ℕ → (ℕ → Bool) → Text → ConnectedTunnel → Gateway → Outcome
unfolding handle_disconnect
ping now fails conn_id t g =
    if ltb (t.last_seen + 3 * minute) now
    then handle_disconnect (with_log (close_socket t.ws ∷ []) g) conn_id t.ws
    else if fails t.ws
    then handle_disconnect g conn_id t.ws
    else finished (with_log (write_message t.ws (bare (codes "ping")) ∷ []) g)

unfoldable pub ping_each : ℕ → (ℕ → Bool) → List (Text × ConnectedTunnel) → Gateway → Outcome
unfolding ping then_step
ping_each now fails [] g = finished g
ping_each now fails ((conn_id, t) ∷ rest) g =
    then_step (ping now fails conn_id t g) (ping_each now fails rest)

unfoldable pub ping_all : ℕ → (ℕ → Bool) → Gateway → Outcome
unfolding ping_each
ping_all now fails g = ping_each now fails g.tunnels g

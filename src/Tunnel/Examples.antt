-- ===== src/Tunnel/Examples.antt =====
-- Tests and witnesses for the tunnel gateway.
use mathlib.Core.Path.{◌≡◌, refl}
use mathlib.Core.Logic.{◌↔◌, inl, inr}
use mathlib.Core.Bool.{true, false}
use mathlib.Core.Option.{none, some}
use mathlib.Core.List.{[], ◌∷◌}
use ch_ui.Prelude.Tests.{Bool-cases}
use ch_ui.Prelude.Int.{pos}
use ch_ui.Prelude.Text.{Text, codes, same}
use ch_ui.Prelude.Maps.{lookup, insert}
use ch_ui.Prelude.Result.{ok}
use ch_ui.Tunnel.Protocol.{AgentMessage, get_message_id, bare}
use ch_ui.Tunnel.Gateway.{
  Channels, new_channels, set_channels, blocked, send_chunk, handle_stream_chunk, stream,
  ConnectedTunnel, Gateway, Payload, Outcome, finished, panicked, channels_of, kind_in,
  handle_query_result,
}
use ch_ui.Tunnel.Auth.{
  touch_tunnel, dispatch, read_message, handle_disconnect, TunnelConnection, new_tunnel, connect,
  is_healthy, auth_existing, handle_auth,
}
use ch_ui.Tunnel.Api.{
  begin_found, begin_request, execute_query_with_settings, result_ch, received, receive,
  finish_query,
}
use ch_ui.Tunnel.Views.{WellFormed}
use ch_ui.Tunnel.Disconnecting.{Disconnected, handle_disconnect-Disconnected}
use ch_ui.Tunnel.Takeover.{TakenOver, handle_auth-TakenOver}
use ch_ui.Tunnel.Answers.{returned, query_answered}
use ch_ui.Tunnel.Requests.{IsNew}
use ch_ui.Tunnel.Steps.{
  authenticates, reads, Move, steps, begins, no_tunnels, Reachable, started, stepped, FatalMove,
  reachable-WellFormed, step_panics_iff, disconnects, consumes, stalled,
}

abbrev row : TunnelConnection
row = record { id = codes "c1"; name = codes "site" }

-- The connection is up, and a stream is pending at it.
abbrev online : Gateway
unfolding connect insert
online = connect row 7 100 no_tunnels

abbrev streaming : Gateway
unfolding connect insert begin_request begin_found lookup
streaming =
    (begin_request online (codes "c1") stream (codes "q1") (bare (codes "query_stream")) none).0

online-Reachable : Reachable [] online
unfolding handle_auth auth_existing lookup online
online-Reachable = stepped [] no_tunnels online started (authenticates 7 false 100 (ok (some row)))

online-IsNew : IsNew online (codes "q1")
unfolding online insert lookup kind_in
online-IsNew k = elim (Bool-cases (same (codes "c1") k)) [ inl e ↦ rw e refl | inr e ↦ rw e refl ]

streaming-Reachable : Reachable [] streaming
unfolding streaming
streaming-Reachable =
    stepped [] online streaming online-Reachable
      (begins (codes "c1") stream (codes "q1") (bare (codes "query_stream")) none online-IsNew)

abbrev message : Text → AgentMessage
message kind = record {
  kind = kind;
  token = [];
  takeover = false;
  id = [];
  query_id = codes "q1";
  payload = codes "[1]";
  meta = [];
  stats = [];
  statistics = [];
  error = [];
  success = none;
  online = none;
  version = [];
  host_info = [];
  total_rows = pos 0;
}

reachable-WellFormed_example : WellFormed streaming
reachable-WellFormed_example = reachable-WellFormed [] streaming streaming-Reachable

streaming-WellFormed : WellFormed streaming
streaming-WellFormed = reachable-WellFormed [] streaming streaming-Reachable

-- The agent answers the stream as if it were a query.
abbrev answers_stream : Outcome
answers_stream = read_message streaming (codes "c1") 200 none (message (codes "query_result"))

reads_answer : Move [] streaming answers_stream
reads_answer = steps answers_stream (reads (codes "c1") 200 none (message (codes "query_result")))

step_panics_iff_example :
    (answers_stream ≡ panicked) ↔ FatalMove [] streaming answers_stream reads_answer
step_panics_iff_example =
    step_panics_iff [] streaming answers_stream reads_answer streaming-Reachable

-- The buffer of the stream is full, a chunk of the agent waits, and the socket is disconnected.
abbrev eight : Channels
eight = record new_channels { chunks = [] ∷ [] ∷ [] ∷ [] ∷ [] ∷ [] ∷ [] ∷ [] ∷ [] }

abbrev full : Gateway
unfolding streaming
full = set_channels (codes "q1") eight streaming

abbrev state_of : Gateway → Outcome → Gateway
state_of g (finished h) = h
state_of g panicked = g
state_of g blocked = g

abbrev waiting : Gateway
unfolding full touch_tunnel
waiting = touch_tunnel full (codes "c1") 200

abbrev cut_off : Gateway
unfolding waiting handle_disconnect
cut_off = state_of waiting (handle_disconnect waiting (codes "c1") 7)

cut_off-Reachable : Reachable ((codes "q1", codes "[1]") ∷ []) cut_off
unfolding cut_off waiting full streaming read_message get_message_id channels_of lookup insert same
    dispatch handle_stream_chunk connect online
cut_off-Reachable =
    stepped _ waiting cut_off
      (stalled [] full (codes "c1") 200 none (message (codes "query_stream_chunk"))
        (stepped [] streaming full streaming-Reachable (consumes (codes "q1") eight refl)) refl)
      (disconnects (codes "c1") 7)

-- Then the send that waits panics.
cut_off_panics :
    send_chunk cut_off (codes "q1") (codes "[1]") (channels_of cut_off (codes "q1")) ≡ panicked
unfolding cut_off send_chunk channels_of lookup insert same
cut_off_panics = refl

-- The tunnel with its stream.
abbrev busy : ConnectedTunnel
busy = record (new_tunnel row 7 100) { pending = (codes "q1", stream) ∷ [] }

busy_there : lookup (codes "c1") streaming.tunnels ≡ some busy
unfolding streaming insert lookup same
busy_there = refl

handle_disconnect-Disconnected_example :
    (h : Gateway) × (handle_disconnect streaming (codes "c1") 7 ≡ finished h)
    × Disconnected (codes "c1") busy streaming h
handle_disconnect-Disconnected_example =
    handle_disconnect-Disconnected streaming (codes "c1") busy busy_there streaming-WellFormed

handle_auth-TakenOver_example :
    (h : Gateway) × (handle_auth streaming 8 true 200 (ok (some row)) ≡ (codes "c1", finished h))
    × TakenOver row 8 200 busy h
unfolding is_healthy
handle_auth-TakenOver_example =
    handle_auth-TakenOver streaming 8 true 200 row busy streaming-WellFormed busy_there refl refl

online_there : lookup (codes "c1") online.tunnels ≡ some (new_tunnel row 7 100)
unfolding online insert lookup same
online_there = refl

query_answered_example :
    (h : Gateway) × (handle_query_result
        (execute_query_with_settings online
          (codes "c1")
          (codes "q1")
          (codes "SELECT 1")
          (codes "u")
          []
          []
          none).0
        (codes "c1")
        (message (codes "query_result"))
      ≡ finished h)
    × ((p : Payload) × (receive (channels_of h (codes "q1")) result_ch ≡ some (received p))
        × ((finish_query (λ raw. raw) h (codes "c1") 7 (codes "q1") (received p)).1
            ≡ ok (record {
              payload = returned (λ raw. raw) (codes "[1]");
              meta = returned (λ raw. raw) [];
              stats = returned (λ raw. raw) [];
            })))
    × ((j : Text) → same (codes "q1") j ≡ false → channels_of h j ≡ channels_of online j)
unfolding get_message_id
query_answered_example =
    query_answered (λ raw. raw) online (codes "c1") (codes "q1") (codes "SELECT 1") (codes "u") []
      [] (new_tunnel row 7 100) (message (codes "query_result")) refl refl online_there refl

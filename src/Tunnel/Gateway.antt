-- ===== src/Tunnel/Gateway.antt =====
-- The state of the gateway and the handlers of agent messages: internal/tunnel/gateway.go. A handler is
-- one step. A socket is a number; what a handler writes to sockets and to the database is logged.
use Prim.Native.Nat.{ℕ}
use mathlib.Core.Bool.{Bool, true, false, ◌||◌}
use mathlib.Core.Option.{Option, none, some}
use mathlib.Core.List.{List, [], ◌∷◌, ◌++◌}
use ch_ui.Prelude.Tests.{leb, if◌then◌else◌}
use ch_ui.Prelude.Lists.{length}
use ch_ui.Prelude.Text.{Text, codes, is_blank}
use ch_ui.Prelude.Maps.{lookup, insert, delete}
use ch_ui.Tunnel.Protocol.{
  AgentMessage, get_message_id, get_stats, is_test_success, QueryResult, TestResult, StreamDone,
  GatewayMessage,
}

-- The kinds of requests: `PendingRequest` and `PendingStreamRequest`.
pub data Kind : Type 0 where
  plain stream : Kind

-- What `ResultCh` carries, before it is printed as JSON.
pub data Payload : Type 0 where
  of_query : QueryResult → Payload
  of_test : TestResult → Payload

-- The buffers of the channels of a request: one place each, and eight for chunks. `closed` is the state
-- of `ChunkCh`. A plain request uses the first two.
pub record Channels : Type 0 where
  pub result : Option Payload
  pub error : Option Text
  pub meta : Option Text
  pub chunks : List Text
  pub done : Option StreamDone
  pub closed : Bool

abbrev pub new_channels : Channels
new_channels = record {
  result = none;
  error = none;
  meta = none;
  chunks = [];
  done = none;
  closed = false;
}

pub record ConnectedTunnel : Type 0 where
  pub connection_id : Text
  pub connection_name : Text
  pub ws : ℕ
  pub last_seen : ℕ
  pub pending : List (Text × Kind)

pub data Action : Type 0 where
  update_connection_status : Text → Text → Action
  update_connection_host_info : Text → Text → Action
  create_audit_log : Text → Text → Action
  write_message : ℕ → GatewayMessage → Action
  write_close : ℕ → Text → Action
  close_socket : ℕ → Action

-- `channels` holds the channels of all requests, which the map of pending requests and the requester
-- share, by the request's identifier.
pub record Gateway : Type 0 where
  pub tunnels : List (Text × ConnectedTunnel)
  pub channels : List (Text × Channels)
  pub log : List Action

-- `panicked` ends the program, `blocked` waits for the consumer of a stream.
pub data Outcome : Type 0 where
  finished : Gateway → Outcome
  panicked blocked : Outcome

abbrev or_new : Option Channels → Channels
or_new none = new_channels
or_new (some c) = c

unfoldable pub channels_of : Gateway → Text → Channels
channels_of g id = or_new (lookup id g.channels)

abbrev pub set_channels : Text → Channels → Gateway → Gateway
set_channels id c g = record g { channels = insert id c g.channels }

-- `select { case ch <- v: default: }` on a channel with one place.
unfoldable pub offer {ℓ} : {A : Type ℓ} → Option A → A → Option A
offer none a = some a
offer (some b) a = some b

-- The tunnel of a message, none where the handler returns at once.
unfoldable pub target : Gateway → Text → Text → Option ConnectedTunnel
target g conn_id id = if is_blank conn_id || is_blank id then none else lookup conn_id g.tunnels

-- `t.Pending.LoadAndDelete(id)`, the part that deletes.
abbrev pub drop_pending : Text → Text → ConnectedTunnel → Gateway → Gateway
drop_pending conn_id id t g = record g {
  tunnels = insert conn_id (record t { pending = delete id t.pending }) g.tunnels;
}

-- An answer to a plain request, whose channels it changes by `f`. The request is asserted to be plain:
-- for a stream the assertion panics.
unfoldable pub answer_kind :
    Gateway → Text → Text → (Channels → Channels) → ConnectedTunnel → Option Kind → Outcome
unfolding channels_of
answer_kind g conn_id id f t none = finished g
answer_kind g conn_id id f t (some stream) = panicked
answer_kind g conn_id id f t (some plain) =
    finished (set_channels id (f (channels_of g id)) (drop_pending conn_id id t g))

unfoldable pub answer :
    Gateway → Text → Text → (Channels → Channels) → Option ConnectedTunnel → Outcome
unfolding answer_kind
answer g conn_id id f none = finished g
answer g conn_id id f (some t) = answer_kind g conn_id id f t (lookup id t.pending)

abbrev pub put_result : Payload → Channels → Channels
put_result p c = record c { result = offer c.result p }

abbrev pub put_error : Text → Channels → Channels
put_error e c = record c { error = offer c.error e }

abbrev pub query_payload : AgentMessage → Payload
query_payload m = of_query (record { payload = m.payload; meta = m.meta; stats = get_stats m })

unfoldable pub handle_query_result : Gateway → Text → AgentMessage → Outcome
unfolding answer target
handle_query_result g conn_id m =
    let id = get_message_id m in
    answer g conn_id id (put_result (query_payload m)) (target g conn_id id)

unfoldable pub handle_query_error : Gateway → Text → AgentMessage → Outcome
unfolding answer target
handle_query_error g conn_id m =
    let id = get_message_id m in answer g conn_id id (put_error m.error) (target g conn_id id)

-- What a test's result puts into the channels.
unfoldable pub put_test : AgentMessage → Channels → Channels
put_test m =
    let failure = if is_blank m.error then codes "Connection test failed" else m.error in
    if is_test_success m
    then put_result (of_test (record { success = true; error = []; version = m.version }))
    else put_error failure

unfoldable pub handle_test_result : Gateway → Text → AgentMessage → Outcome
unfolding answer target put_test
handle_test_result g conn_id m =
    let id = get_message_id m in answer g conn_id id (put_test m) (target g conn_id id)

-- `info` is what `json.Unmarshal` reads from the host information, none an error.
unfoldable pub handle_host_info : Gateway → Text → AgentMessage → Option Text → Outcome
handle_host_info g conn_id m none = finished g
handle_host_info g conn_id m (some info) =
    if is_blank conn_id || is_blank m.host_info
    then finished g
    else finished (record g { log = g.log ++ update_connection_host_info conn_id info ∷ [] })

abbrev pub put_meta : Text → Channels → Channels
put_meta m c = record c { meta = offer c.meta m }

unfoldable pub start_kind : Gateway → Text → Text → Option Kind → Outcome
unfolding channels_of
start_kind g id meta (some stream) = finished (set_channels id (put_meta meta (channels_of g id)) g)
start_kind g id meta (some plain) = finished g
start_kind g id meta none = finished g

-- The kind of a pending request, where there is a tunnel.
unfoldable pub kind_in : Text → Option ConnectedTunnel → Option Kind
kind_in id none = none
kind_in id (some t) = lookup id t.pending

unfoldable pub handle_stream_start : Gateway → Text → AgentMessage → Outcome
unfolding start_kind kind_in target
handle_stream_start g conn_id m =
    let id = get_message_id m in start_kind g id m.meta (kind_in id (target g conn_id id))

-- `pending.ChunkCh <- chunk`: waits while the buffer is full, and panics on a closed channel.
unfoldable pub send_chunk : Gateway → Text → Text → Channels → Outcome
send_chunk g id chunk c =
    if c.closed
    then panicked
    else if leb 8 (length c.chunks)
    then blocked
    else finished (set_channels id (record c { chunks = c.chunks ++ chunk ∷ [] }) g)

unfoldable pub chunk_kind : Gateway → Text → Text → Option Kind → Outcome
unfolding send_chunk channels_of
chunk_kind g id chunk (some stream) = send_chunk g id chunk (channels_of g id)
chunk_kind g id chunk (some plain) = finished g
chunk_kind g id chunk none = finished g

unfoldable pub handle_stream_chunk : Gateway → Text → AgentMessage → Outcome
unfolding chunk_kind kind_in target
handle_stream_chunk g conn_id m =
    let id = get_message_id m in chunk_kind g id m.payload (kind_in id (target g conn_id id))

-- `close(pending.ChunkCh)`, which panics if it is closed, and then `f`.
unfoldable pub close_stream : Gateway → Text → (Channels → Channels) → Channels → Outcome
close_stream g id f c =
    if c.closed then panicked else finished (set_channels id (f (record c { closed = true })) g)

-- The end of a stream; a plain request of that identifier is forgotten with no answer.
unfoldable pub end_kind :
    Gateway → Text → Text → (Channels → Channels) → ConnectedTunnel → Option Kind → Outcome
unfolding close_stream channels_of
end_kind g conn_id id f t none = finished g
end_kind g conn_id id f t (some plain) = finished (drop_pending conn_id id t g)
end_kind g conn_id id f t (some stream) =
    close_stream (drop_pending conn_id id t g) id f (channels_of g id)

unfoldable pub end_stream :
    Gateway → Text → Text → (Channels → Channels) → Option ConnectedTunnel → Outcome
unfolding end_kind
end_stream g conn_id id f none = finished g
end_stream g conn_id id f (some t) = end_kind g conn_id id f t (lookup id t.pending)

abbrev pub put_done : AgentMessage → Channels → Channels
put_done m c = record c {
  done = offer c.done (record { statistics = get_stats m; total_rows = m.total_rows });
}

unfoldable pub handle_stream_end : Gateway → Text → AgentMessage → Outcome
unfolding end_stream target
handle_stream_end g conn_id m =
    let id = get_message_id m in end_stream g conn_id id (put_done m) (target g conn_id id)

unfoldable pub handle_stream_error : Gateway → Text → AgentMessage → Outcome
unfolding end_stream target
handle_stream_error g conn_id m =
    let id = get_message_id m in end_stream g conn_id id (put_error m.error) (target g conn_id id)

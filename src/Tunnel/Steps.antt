-- ===== src/Tunnel/Steps.antt =====
-- The gateway as a whole: the steps of internal/tunnel/gateway.go and internal/tunnel/api.go, in any order.
use Prim.Native.Nat.{ℕ}
use mathlib.Core.Path.{◌≡◌, refl, ◌∙◌, subst}
use mathlib.Core.Logic.{◌↔◌}
use mathlib.Core.Bool.{Bool, true}
use mathlib.Core.Option.{Option}
use mathlib.Core.List.{List, [], ◌∷◌, ◌++◌}
use ch_ui.Prelude.Tests.{leb}
use ch_ui.Prelude.Lists.{length}
use ch_ui.Prelude.Text.{Text}
use ch_ui.Prelude.Maps.{lookup}
use ch_ui.Prelude.Result.{Result}
use ch_ui.Tunnel.Protocol.{AgentMessage, get_message_id, GatewayMessage}
use ch_ui.Tunnel.Gateway.{
  Kind, Channels, Gateway, Outcome, finished, panicked, blocked, channels_of, set_channels, kind_in,
  send_chunk,
}
use ch_ui.Tunnel.Auth.{
  TunnelConnection, handle_auth, touch_tunnel, read_message, handle_disconnect, ping_all,
}
use ch_ui.Tunnel.Api.{Answer, received, failed, timed_out, begin_request, finish_query, finish_test}
use ch_ui.Tunnel.Views.{WellFormed}
use ch_ui.Tunnel.Invariant.{set-WellFormed}
use ch_ui.Tunnel.Handlers.{Safe}
use ch_ui.Tunnel.Reading.{Safe-if, touch_tunnel-WellFormed, logged-WellFormed}
use ch_ui.Tunnel.Dispatching.{IsFatal, dispatch-panics, read_message-Safe}
use ch_ui.Tunnel.Disconnecting.{handle_disconnect-Safe}
use ch_ui.Tunnel.Connecting.{handle_auth-Safe, ping_all-Safe}
use ch_ui.Tunnel.Requests.{IsNew, begin_request-WellFormed, cleanup_stream-WellFormed}

-- The steps of the goroutines that share the gateway. The consumer of a request takes from its channels
-- and does not close them.
pub data Step (g : Gateway) : Outcome → Type 0 where
  authenticates :
      (ws : ℕ) (takeover : Bool) (now : ℕ) (found : Result Text (Option TunnelConnection))
      → Step g (handle_auth g ws takeover now found).1
  reads :
      (conn_id : Text) (now : ℕ) (info : Option Text) (m : AgentMessage)
      → Step g (read_message g conn_id now info m)
  disconnects : (conn_id : Text) (ws : ℕ) → Step g (handle_disconnect g conn_id ws)
  pings : (now : ℕ) (fails : ℕ → Bool) → Step g (ping_all now fails g)
  begins :
      (conn_id : Text) (kind : Kind) (id : Text) (m : GatewayMessage) (fails : Option Text)
      → IsNew g id
      → Step g (finished (begin_request g conn_id kind id m fails).0)
  consumes :
      (id : Text) (c : Channels)
      → c.closed ≡ (channels_of g id).closed
      → Step g (finished (set_channels id c g))
  returns :
      (compact : Text → Text) (conn_id : Text) (ws : ℕ) (id : Text) (a : Answer)
      → Step g (finished (finish_query compact g conn_id ws id a).0)
  tests : (conn_id id : Text) (a : Answer) → Step g (finished (finish_test g conn_id id a).0)

abbrev pub no_tunnels : Gateway
no_tunnels = record { tunnels = []; channels = []; log = [] }

-- The gateway, with the sends of chunks that wait for room in a channel: the identifier of the stream and
-- the chunk. A read loop whose send waits has recorded the message in its tunnel; the other goroutines go
-- on, and among them may be a read loop of a newer socket of the connection. A send is over when it has
-- put its chunk into the channel. An identifier is made for one request only, so that the channel of a
-- send that waits is the one under its identifier.
pub data Reachable : List (Text × Text) → Gateway → Type 0 where
  started : Reachable [] no_tunnels
  stepped :
      (sends : List (Text × Text)) (g h : Gateway)
      → Reachable sends g
      → Step g (finished h)
      → Reachable sends h
  stalled :
      (sends : List (Text × Text)) (g : Gateway) (conn_id : Text) (now : ℕ) (info : Option Text)
      (m : AgentMessage)
      → Reachable sends g
      → read_message g conn_id now info m ≡ blocked
      → Reachable ((get_message_id m, m.payload) ∷ sends) (touch_tunnel g conn_id now)
  resumed :
      (before after : List (Text × Text)) (id chunk : Text) (g h : Gateway)
      → Reachable (before ++ (id, chunk) ∷ after) g
      → send_chunk g id chunk (channels_of g id) ≡ finished h
      → Reachable (before ++ after) h

-- What may happen next: a step, or another try of a send that waits.
pub data Move (sends : List (Text × Text)) (g : Gateway) : Outcome → Type 0 where
  steps : (o : Outcome) → Step g o → Move sends g o
  resumes :
      (before after : List (Text × Text)) (id chunk : Text)
      → sends ≡ before ++ (id, chunk) ∷ after
      → Move sends g (send_chunk g id chunk (channels_of g id))

-- Of the steps only the reading of a message is fatal, and only of a fatal one.
abbrev pub FatalStep : (g : Gateway) (o : Outcome) → Step g o → Type 0
FatalStep g o (authenticates ws takeover now found) = ⊥
FatalStep g o (reads conn_id now info m) = IsFatal (touch_tunnel g conn_id now) conn_id m
FatalStep g o (disconnects conn_id ws) = ⊥
FatalStep g o (pings now fails) = ⊥
FatalStep g o (begins conn_id kind id m fails new) = ⊥
FatalStep g o (consumes id c same_closed) = ⊥
FatalStep g o (returns compact conn_id ws id a) = ⊥
FatalStep g o (tests conn_id id a) = ⊥

-- A send that waits is fatal when its channel has been closed.
abbrev pub FatalMove :
    (sends : List (Text × Text)) (g : Gateway) (o : Outcome) → Move sends g o → Type 0
FatalMove sends g o (steps p s) = FatalStep g p s
FatalMove sends g o (resumes before after id chunk there) = (channels_of g id).closed ≡ true

finish_query-WellFormed :
    (compact : Text → Text) (g : Gateway) (conn_id : Text) (ws : ℕ) (id : Text) (a : Answer)
    → WellFormed g
    → WellFormed (finish_query compact g conn_id ws id a).0
unfolding finish_query
finish_query-WellFormed compact g conn_id ws id (received p) w =
    cleanup_stream-WellFormed g conn_id id w
finish_query-WellFormed compact g conn_id ws id (failed e) w =
    cleanup_stream-WellFormed g conn_id id w
finish_query-WellFormed compact g conn_id ws id timed_out w =
    cleanup_stream-WellFormed (record g { log = _ }) conn_id id (logged-WellFormed g _ w)

finish_test-WellFormed :
    (g : Gateway) (conn_id id : Text) (a : Answer)
    → WellFormed g
    → WellFormed (finish_test g conn_id id a).0
unfolding finish_test
finish_test-WellFormed g conn_id id (received p) w = cleanup_stream-WellFormed g conn_id id w
finish_test-WellFormed g conn_id id (failed e) w = cleanup_stream-WellFormed g conn_id id w
finish_test-WellFormed g conn_id id timed_out w = cleanup_stream-WellFormed g conn_id id w

step-Safe : (g : Gateway) (o : Outcome) (s : Step g o) → WellFormed g → Safe (FatalStep g o s) o
step-Safe g o (authenticates ws takeover now found) w = handle_auth-Safe g ws takeover now found w
step-Safe g o (reads conn_id now info m) w = read_message-Safe g conn_id now info m w
step-Safe g o (disconnects conn_id ws) w = handle_disconnect-Safe g conn_id ws w
step-Safe g o (pings now fails) w = ping_all-Safe now fails g w
step-Safe g o (begins conn_id kind id m fails new) w =
    begin_request-WellFormed g conn_id kind id m fails new w
step-Safe g o (consumes id c same_closed) w =
    set-WellFormed g id c (λ k h. same_closed ∙ w.streaming k id h) w
step-Safe g o (returns compact conn_id ws id a) w =
    finish_query-WellFormed compact g conn_id ws id a w
step-Safe g o (tests conn_id id a) w = finish_test-WellFormed g conn_id id a w

no_tunnels-WellFormed : WellFormed no_tunnels
unfolding lookup kind_in
no_tunnels-WellFormed = record {
  alone = λ k l id a b ha hb. cc;
  streaming = λ k id h. cc;
  distinct = λ k t h. cc;
}

send_chunk-Safe :
    (g : Gateway) (id chunk : Text)
    → WellFormed g
    → Safe ((channels_of g id).closed ≡ true) (send_chunk g id chunk (channels_of g id))
unfolding send_chunk
send_chunk-Safe g id chunk w =
    let c = channels_of g id in
    Safe-if (c.closed ≡ true) c.closed _ _ (λ e. e)
      λ e.
        Safe-if (c.closed ≡ true) (leb 8 (length c.chunks)) _ _ (λ f. tt)
          λ f.
            set-WellFormed g id (record c { chunks = c.chunks ++ chunk ∷ [] })
              (λ k h. w.streaming k id h) w

-- In every state that the steps of the gateway reach from the empty one, with any sends waiting, no
-- request is pending at two connections, the chunk channel of every pending stream is open, and the
-- pending requests of a tunnel have distinct identifiers. New requests are assumed to have an identifier
-- that is pending nowhere.
pub reachable-WellFormed :
    (sends : List (Text × Text)) (g : Gateway) → Reachable sends g → WellFormed g
reachable-WellFormed sends g started = no_tunnels-WellFormed
reachable-WellFormed sends g (stepped kept f h r s) =
    step-Safe f (finished g) s (reachable-WellFormed sends f r)
reachable-WellFormed sends g (stalled fewer f conn_id now info m r stop) =
    touch_tunnel-WellFormed f conn_id now (reachable-WellFormed fewer f r)
reachable-WellFormed sends g (resumed before after id chunk f h r sent) =
    subst (λ o. Safe ((channels_of f id).closed ≡ true) o) sent
      (send_chunk-Safe f id chunk (reachable-WellFormed (before ++ (id, chunk) ∷ after) f r))

FatalStep-panics : (g : Gateway) (o : Outcome) (s : Step g o) → FatalStep g o s → o ≡ panicked
unfolding read_message
FatalStep-panics g o (reads conn_id now info m) fatal =
    dispatch-panics (touch_tunnel g conn_id now) conn_id now info m fatal
FatalStep-panics g o (authenticates ws takeover now found) fatal = absurd fatal
FatalStep-panics g o (disconnects conn_id ws) fatal = absurd fatal
FatalStep-panics g o (pings now fails) fatal = absurd fatal
FatalStep-panics g o (begins conn_id kind id m fails new) fatal = absurd fatal
FatalStep-panics g o (consumes id c same_closed) fatal = absurd fatal
FatalStep-panics g o (returns compact conn_id ws id a) fatal = absurd fatal
FatalStep-panics g o (tests conn_id id a) fatal = absurd fatal

send_chunk-panics :
    (g : Gateway) (id chunk : Text) (c : Channels)
    → c.closed ≡ true
    → send_chunk g id chunk c ≡ panicked
unfolding send_chunk
send_chunk-panics g id chunk c h = rw h refl

-- In a reachable state, whatever goes on next panics exactly in two cases: it is the reading of an
-- agent's message, and that is the answer of a query or of a test under the identifier of a stream that
-- is pending at its connection; or it is a send of a chunk that has waited, and its channel is closed.
pub step_panics_iff :
    (sends : List (Text × Text)) (g : Gateway) (o : Outcome) (s : Move sends g o)
    → Reachable sends g
    → (o ≡ panicked) ↔ FatalMove sends g o s
step_panics_iff sends g o (steps p s) r = (
  λ e. subst (λ q. Safe (FatalStep g o s) q) e (step-Safe g o s (reachable-WellFormed sends g r)),
  FatalStep-panics g o s,
)
step_panics_iff sends g o (resumes before after id chunk there) r = (
  λ e.
      subst (λ q. Safe ((channels_of g id).closed ≡ true) q) e
        (send_chunk-Safe g id chunk (reachable-WellFormed sends g r)),
  send_chunk-panics g id chunk (channels_of g id),
)

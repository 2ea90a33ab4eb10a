-- ===== src/Tunnel/Takeover.antt =====
-- A socket that takes a connection over from another (handleAuth of internal/tunnel/gateway.go).
use Prim.Native.Nat.{ℕ}
use mathlib.Core.Path.{◌≡◌, refl, ap, ◌∙◌}
use mathlib.Core.Bool.{Bool, true, false, not, ◌&&◌}
use mathlib.Core.Option.{some}
use mathlib.Core.List.{[], ◌∷◌}
use ch_ui.Prelude.Tests.{◌==◌}
use ch_ui.Prelude.Text.{Text, same_refl}
use ch_ui.Prelude.Maps.{lookup, lookup-insert}
use ch_ui.Prelude.Result.{ok}
use ch_ui.Tunnel.Gateway.{ConnectedTunnel, Gateway, finished, channels_of, close_socket}
use ch_ui.Tunnel.Auth.{
  then_step, with_log, handle_disconnect, TunnelConnection, new_tunnel, connect, is_healthy,
  auth_existing, handle_auth,
}
use ch_ui.Tunnel.Views.{WellFormed}
use ch_ui.Tunnel.Reject.{is_some}
use ch_ui.Tunnel.Reading.{logged-WellFormed}
use ch_ui.Tunnel.Disconnecting.{
  Disconnected, handle_disconnect-Disconnected, handle_disconnect_other,
}

-- The connection is the new socket's, the requests of the old one are told, and the disconnect of the
-- old socket, which comes later, changes nothing.
pub record TakenOver (tc : TunnelConnection) (ws now : ℕ) (t : ConnectedTunnel) (h : Gateway)
    : Type 0 where
  pub tunnel : lookup tc.id h.tunnels ≡ some (new_tunnel tc ws now)
  pub told :
      (j : Text) → is_some (lookup j t.pending) ≡ true → is_some (channels_of h j).error ≡ true
  pub late : handle_disconnect h tc.id t.ws ≡ finished h

connected :
    (g : Gateway) (tc : TunnelConnection) (ws now : ℕ)
    → lookup tc.id (connect tc ws now g).tunnels ≡ some (new_tunnel tc ws now)
unfolding connect
connected g tc ws now =
    rw (lookup-insert tc.id tc.id (new_tunnel tc ws now) g.tunnels, same_refl tc.id) refl

connect-TakenOver :
    (g h : Gateway) (tc : TunnelConnection) (ws now : ℕ) (t : ConnectedTunnel)
    → Disconnected tc.id t g h
    → (ws == t.ws) ≡ false
    → TakenOver tc ws now t (connect tc ws now h)
unfolding connect channels_of
connect-TakenOver g h tc ws now t d other = record {
  tunnel = connected h tc ws now;
  told = d.told;
  late =
      handle_disconnect_other (connect tc ws now h) tc.id t.ws (new_tunnel tc ws now)
        (connected h tc ws now) other;
}

-- In a well-formed state let a valid token connect through a new socket while its connection has a
-- tunnel that is not healthy, or with a takeover. Then the socket is accepted and has the tunnel of the
-- connection, every request that was pending at the old tunnel gets an error, and the later disconnect
-- of the old socket leaves the new tunnel alone.
pub handle_auth-TakenOver :
    (g : Gateway) (ws : ℕ) (takeover : Bool) (now : ℕ) (tc : TunnelConnection) (t : ConnectedTunnel)
    → WellFormed g
    → lookup tc.id g.tunnels ≡ some t
    → (is_healthy t now && not takeover) ≡ false
    → (ws == t.ws) ≡ false
    → (h : Gateway) × (handle_auth g ws takeover now (ok (some tc)) ≡ (tc.id, finished h))
      × TakenOver tc ws now t h
unfolding handle_auth auth_existing then_step
handle_auth-TakenOver g ws takeover now tc t w found replaceable other =
    let closed = with_log (close_socket t.ws ∷ []) g in
    let (h, run, d) =
      handle_disconnect-Disconnected closed tc.id t found (logged-WellFormed g closed.log w) in
    (
      connect tc ws now h,
      ap (λ o. auth_existing g tc ws takeover now o) found
          ∙ rw replaceable (
              ap (λ o. (tc.id, then_step o (λ replaced. finished (connect tc ws now replaced))))
                run),
      connect-TakenOver closed h tc ws now t d other,
    )

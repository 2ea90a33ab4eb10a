-- ===== src/Tunnel/Connecting.antt =====
-- Connecting, the heartbeat and the start of a request (internal/tunnel/gateway.go, internal/tunnel/api.go).
use Prim.Native.Nat.{ℕ, ◌+◌, ◌*◌}
use mathlib.Core.Path.{◌≡◌, sym, ◌∙◌}
use mathlib.Core.Logic.{inl, inr}
use mathlib.Core.Bool.{Bool, true, false, not, ◌&&◌}
use mathlib.Core.Option.{Option, none, some}
use mathlib.Core.List.{List, [], ◌∷◌}
use ch_ui.Prelude.Tests.{ltb, if◌then◌else◌, Bool-cases}
use ch_ui.Prelude.Text.{Text, same}
use ch_ui.Prelude.Maps.{lookup, insert, lookup-insert}
use ch_ui.Prelude.Clock.{minute}
use ch_ui.Prelude.Result.{Result, ok, err}
use ch_ui.Tunnel.Gateway.{
  Kind, stream, ConnectedTunnel, Gateway, finished, channels_of, kind_in, close_socket,
}
use ch_ui.Tunnel.Auth.{
  with_log, handle_disconnect, TunnelConnection, new_tunnel, connect, is_healthy, auth_existing,
  handle_auth, ping, ping_each, ping_all,
}
use ch_ui.Tunnel.Views.{kind_at, WellFormed, kind_in-insert, Distinct}
use ch_ui.Tunnel.Invariant.{some_tunnel}
use ch_ui.Tunnel.Handlers.{Safe}
use ch_ui.Tunnel.Reading.{Safe-if, logged-WellFormed}
use ch_ui.Tunnel.Disconnecting.{Safe-then_step, handle_disconnect-Safe}

none_or_some :
    (b : Bool) (o : Option Kind) (a : Kind) → (if b then none else o) ≡ some a → o ≡ some a
none_or_some true o a h = cc
none_or_some false o a h = h

-- A new tunnel has no pending requests; it may take the place of an old one.
connect-WellFormed :
    (g : Gateway) (tc : TunnelConnection) (ws now : ℕ)
    → WellFormed g
    → WellFormed (connect tc ws now g)
unfolding connect channels_of lookup
connect-WellFormed g tc ws now w = record {
  alone = λ k l id a b ha hb. w.alone k l id a b (old k id a ha) (old l id b hb);
  streaming = λ k id h. w.streaming k id (old k id stream h);
  distinct = apart;
}
  where
    old :
        (k id : Text) (a : Kind)
        → kind_in id (lookup k (insert tc.id (new_tunnel tc ws now) g.tunnels)) ≡ some a
        → kind_at g k id ≡ some a
    old k id a h =
        none_or_some (same tc.id k) (kind_at g k id) a
          (sym (kind_in-insert g.tunnels tc.id k id (new_tunnel tc ws now)) ∙ h)

    apart :
        (k : Text) (u : ConnectedTunnel)
        → lookup k (insert tc.id (new_tunnel tc ws now) g.tunnels) ≡ some u
        → Distinct u.pending
    apart k u h = elim (Bool-cases (same tc.id k)) [
      | inl e ↦
          (let eq : new_tunnel tc ws now ≡ u =
              some_tunnel (new_tunnel tc ws now) u
                (rw (lookup-insert tc.id k (new_tunnel tc ws now) g.tunnels, e) at h) in
            rw (sym eq) tt)
      | inr e ↦ w.distinct k u (rw (lookup-insert tc.id k (new_tunnel tc ws now) g.tunnels, e) at h)
    ]

auth_existing-Safe :
    (g : Gateway) (tc : TunnelConnection) (ws : ℕ) (takeover : Bool) (now : ℕ)
    (o : Option ConnectedTunnel)
    → WellFormed g
    → Safe ⊥ (auth_existing g tc ws takeover now o).1
unfolding auth_existing
auth_existing-Safe g tc ws takeover now none w = connect-WellFormed g tc ws now w
auth_existing-Safe g tc ws takeover now (some t) w =
    elim (Bool-cases (is_healthy t now && not takeover)) [
      | inl e ↦ rw e (logged-WellFormed g _ w)
      | inr e ↦ rw e (
          Safe-then_step (handle_disconnect (with_log (close_socket t.ws ∷ []) g) tc.id t.ws)
            (λ replaced. finished (connect tc ws now replaced))
            (λ h v. connect-WellFormed h tc ws now v)
            (handle_disconnect-Safe (with_log (close_socket t.ws ∷ []) g) tc.id t.ws
              (logged-WellFormed g _ w)))
    ]

pub handle_auth-Safe :
    (g : Gateway) (ws : ℕ) (takeover : Bool) (now : ℕ)
    (found : Result Text (Option TunnelConnection))
    → WellFormed g
    → Safe ⊥ (handle_auth g ws takeover now found).1
unfolding handle_auth
handle_auth-Safe g ws takeover now (err e) w = logged-WellFormed g _ w
handle_auth-Safe g ws takeover now (ok none) w = logged-WellFormed g _ w
handle_auth-Safe g ws takeover now (ok (some tc)) w =
    auth_existing-Safe g tc ws takeover now (lookup tc.id g.tunnels) w

ping-Safe :
    (now : ℕ) (fails : ℕ → Bool) (conn_id : Text) (t : ConnectedTunnel) (g : Gateway)
    → WellFormed g
    → Safe ⊥ (ping now fails conn_id t g)
unfolding ping
ping-Safe now fails conn_id t g w =
    Safe-if ⊥ (ltb (t.last_seen + 3 * minute) now) _ _
      (λ e.
        handle_disconnect-Safe (with_log (close_socket t.ws ∷ []) g) conn_id t.ws
          (logged-WellFormed g _ w))
      (λ e.
        Safe-if ⊥ (fails t.ws) _ _ (λ e. handle_disconnect-Safe g conn_id t.ws w)
          (λ e. logged-WellFormed g _ w))

ping_each-Safe :
    (now : ℕ) (fails : ℕ → Bool) (all : List (Text × ConnectedTunnel)) (g : Gateway)
    → WellFormed g
    → Safe ⊥ (ping_each now fails all g)
unfolding ping_each
ping_each-Safe now fails [] g w = w
ping_each-Safe now fails ((conn_id, t) ∷ rest) g w =
    Safe-then_step (ping now fails conn_id t g) (ping_each now fails rest)
      (ping_each-Safe now fails rest) (ping-Safe now fails conn_id t g w)

pub ping_all-Safe :
    (now : ℕ) (fails : ℕ → Bool) (g : Gateway) → WellFormed g → Safe ⊥ (ping_all now fails g)
unfolding ping_all
ping_all-Safe now fails g w = ping_each-Safe now fails g.tunnels g w

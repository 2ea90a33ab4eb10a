-- ===== src/Tunnel/Invariant.antt =====
-- The invariant of the gateway (internal/tunnel/gateway.go) under the answers of agents.
use mathlib.Core.Path.{◌≡◌, sym, ◌∙◌}
use mathlib.Core.Logic.{inl, inr}
use mathlib.Core.Bool.{Bool, true, false, ◌&&◌}
use mathlib.Core.Option.{Option, none, some}
use ch_ui.Prelude.Tests.{if◌then◌else◌, Bool-cases}
use ch_ui.Prelude.Text.{Text, same, same→eq}
use ch_ui.Prelude.Maps.{lookup, delete, lookup-insert}
use ch_ui.Tunnel.Gateway.{
  Kind, stream, Channels, ConnectedTunnel, Gateway, channels_of, set_channels, drop_pending,
}
use ch_ui.Tunnel.Views.{
  kind_at, Distinct, delete-Distinct, WellFormed, channels_of_set, kind_at-drop,
}

if_some : (b : Bool) (o : Option Kind) (a : Kind) → (if b then none else o) ≡ some a → o ≡ some a
if_some true o a h = cc
if_some false o a h = h

pub some_tunnel : (t u : ConnectedTunnel) → some t ≡ some u → t ≡ u
some_tunnel t u h = cc

-- Taking a request out keeps the invariant.
pub drop-WellFormed :
    (g : Gateway) (conn_id id : Text) (t : ConnectedTunnel)
    → lookup conn_id g.tunnels ≡ some t
    → WellFormed g
    → WellFormed (drop_pending conn_id id t g)
unfolding channels_of
drop-WellFormed g conn_id id t found w = record {
  alone = λ k l j a b ha hb. w.alone k l j a b (kept k j a ha) (kept l j b hb);
  streaming = λ k j h. w.streaming k j (kept k j stream h);
  distinct = apart;
}
  where
    kept :
        (k j : Text) (a : Kind)
        → kind_at (drop_pending conn_id id t g) k j ≡ some a
        → kind_at g k j ≡ some a
    kept k j a h =
        if_some (same conn_id k && same id j) (kind_at g k j) a
          (sym (kind_at-drop g conn_id id k j t found) ∙ h)

    apart :
        (k : Text) (u : ConnectedTunnel)
        → lookup k (drop_pending conn_id id t g).tunnels ≡ some u
        → Distinct u.pending
    apart k u h = elim (Bool-cases (same conn_id k)) [
      | inl e ↦
          (let eq : record t { pending = delete id t.pending } ≡ u = some_tunnel _ u (
              rw (lookup-insert conn_id k (record t { pending = delete id t.pending }) g.tunnels, e)
                at h) in
            rw (sym eq) (delete-Distinct id t.pending (w.distinct conn_id t found)))
      | inr e ↦ w.distinct k u (
          rw (lookup-insert conn_id k (record t { pending = delete id t.pending }) g.tunnels, e) at
            h)
    ]

-- So does a change of channels that leaves the chunks open, where they are needed.
pub set-WellFormed :
    (g : Gateway) (id : Text) (c : Channels)
    → ((k : Text) → kind_at g k id ≡ some stream → c.closed ≡ false)
    → WellFormed g
    → WellFormed (set_channels id c g)
set-WellFormed g id c opened w = record {
  alone = w.alone;
  streaming = still;
  distinct = w.distinct;
}
  where
    still :
        (k j : Text)
        → kind_at g k j ≡ some stream
        → (channels_of (set_channels id c g) j).closed ≡ false
    still k j h = elim (Bool-cases (same id j)) [
      | inl e ↦ rw (channels_of_set g id c j, e) (opened k (rw (same→eq id j e) h))
      | inr e ↦ rw (channels_of_set g id c j, e) (w.streaming k j h)
    ]

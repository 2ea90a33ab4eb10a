-- ===== src/Tunnel/Disconnecting.antt =====
-- Disconnecting (internal/tunnel/gateway.go).
use Prim.Native.Nat.{ℕ}
use mathlib.Core.Path.{◌≡◌, refl, sym, ap, ◌∙◌, subst}
use mathlib.Core.Logic.{inl, inr}
use mathlib.Core.Bool.{true, false}
use mathlib.Core.Option.{Option, none, some}
use mathlib.Core.List.{List, [], ◌∷◌}
use native.Mathlib.Omega.{arith}
use ch_ui.Prelude.Tests.{◌==◌, Bool-cases, Option-cases}
use ch_ui.Prelude.Text.{Text, same, same→eq, same_refl}
use ch_ui.Prelude.Maps.{lookup, delete, lookup-delete}
use ch_ui.Tunnel.Gateway.{
  Kind, plain, stream, ConnectedTunnel, Gateway, Outcome, finished, panicked, blocked, channels_of,
  kind_in,
}
use ch_ui.Tunnel.Auth.{
  then_step, record_disconnect, disconnect_tunnel, disconnect_found, handle_disconnect,
}
use ch_ui.Tunnel.Views.{kind_at, WellFormed, kind_in-delete, Distinct}
use ch_ui.Tunnel.Reject.{is_some, IsOpen, reject_all-Rejected}
use ch_ui.Tunnel.Handlers.{Safe}
use ch_ui.Tunnel.Reading.{logged-WellFormed}

streams-IsOpen :
    (g : Gateway) (m : List (Text × Kind))
    → Distinct m
    → ((id : Text) → lookup id m ≡ some stream → (channels_of g id).closed ≡ false)
    → IsOpen g m
unfolding lookup
streams-IsOpen g [] d h = tt
streams-IsOpen g ((id, kind) ∷ m) (fresh, d) h = with_head kind (h id) (streams-IsOpen g m d later)
  where
    later : (j : Text) → lookup j m ≡ some stream → (channels_of g j).closed ≡ false
    later j e = elim (Bool-cases (same id j)) [
      | inl hit ↦ (let bad : none ≡ some stream = sym (rw (same→eq id j hit) at fresh) ∙ e in cc)
      | inr miss ↦ h j (rw miss e)
    ]

    with_head :
        (k : Kind)
        → (lookup id ((id, k) ∷ m) ≡ some stream → (channels_of g id).closed ≡ false)
        → IsOpen g m
        → IsOpen g ((id, k) ∷ m)
    with_head plain first rest = rest
    with_head stream first rest = (first (rw (same_refl id) refl), rest)

-- The tunnel is gone, its requests are told, and the invariant holds.
pub record Disconnected (conn_id : Text) (t : ConnectedTunnel) (g h : Gateway) : Type 0 where
  pub tunnels : h.tunnels ≡ delete conn_id g.tunnels
  pub told :
      (j : Text) → is_some (lookup j t.pending) ≡ true → is_some (channels_of h j).error ≡ true
  pub others : (j : Text) → lookup j t.pending ≡ none → channels_of h j ≡ channels_of g j
  pub invariant : WellFormed h

kind_lookup :
    (id : Text) (o : Option ConnectedTunnel) (t : ConnectedTunnel)
    → o ≡ some t
    → kind_in id o ≡ lookup id t.pending
unfolding kind_in
kind_lookup id o t e = ap (λ p. kind_in id p) e

module _ (g h : Gateway) (conn_id : Text) (t : ConnectedTunnel)
    (found : lookup conn_id g.tunnels ≡ some t) (w : WellFormed g)
    (tunnels : h.tunnels ≡ delete conn_id g.tunnels)
    (others : (j : Text) → lookup j t.pending ≡ none → channels_of h j ≡ channels_of g j) where
  kept :
      (k id : Text) (a : Kind)
      → kind_at h k id ≡ some a
      → (kind_at g k id ≡ some a) × (same conn_id k ≡ false)
  kept k id a e = elim (Bool-cases (same conn_id k)) [
    | inl hit ↦
        (let bad : none ≡ some a = rw (tunnels, kind_in-delete g.tunnels conn_id k id, hit) at e in
          cc)
    | inr miss ↦ (rw (tunnels, kind_in-delete g.tunnels conn_id k id, miss) at e, miss)
  ]

  not_pending :
      (k id : Text) (a : Kind)
      → kind_at g k id ≡ some a
      → same conn_id k ≡ false
      → lookup id t.pending ≡ none
  not_pending k id a e miss = elim (Option-cases (lookup id t.pending)) [
    | inl none_there ↦ none_there
    | inr (b, there) ↦
        (let bad : true ≡ false =
            sym (
              w.alone conn_id k id b a (kind_lookup id (lookup conn_id g.tunnels) t found ∙ there)
                e)
            ∙ miss in
          cc)
  ]

  removed-WellFormed : WellFormed h
  removed-WellFormed = record {
    alone = λ k l id a b ha hb. w.alone k l id a b (kept k id a ha).0 (kept l id b hb).0;
    streaming = still;
    distinct = apart;
  }
    where
      still : (k id : Text) → kind_at h k id ≡ some stream → (channels_of h id).closed ≡ false
      still k id e =
          let (e', miss) = kept k id stream e in
          rw (others id (not_pending k id stream e' miss)) (w.streaming k id e')

      apart : (k : Text) (u : ConnectedTunnel) → lookup k h.tunnels ≡ some u → Distinct u.pending
      apart k u e = elim (Bool-cases (same conn_id k)) [
        | inl hit ↦
            (let bad : none ≡ some u = rw (tunnels, lookup-delete conn_id k g.tunnels, hit) at e in
              cc)
        | inr miss ↦ w.distinct k u (rw (tunnels, lookup-delete conn_id k g.tunnels, miss) at e)
      ]

disconnect_tunnel-Disconnected :
    (g : Gateway) (conn_id : Text) (t : ConnectedTunnel)
    → lookup conn_id g.tunnels ≡ some t
    → WellFormed g
    → (h : Gateway) × (disconnect_tunnel g conn_id t ≡ finished h) × Disconnected conn_id t g h
unfolding disconnect_tunnel then_step channels_of
disconnect_tunnel-Disconnected g conn_id t found w =
    let without : Gateway = record g { tunnels = delete conn_id g.tunnels } in
    let opened =
      streams-IsOpen without t.pending (w.distinct conn_id t found)
        (λ id e. w.streaming conn_id id (kind_lookup id (lookup conn_id g.tunnels) t found ∙ e)) in
    let (h, run, r) = reject_all-Rejected t.pending without (w.distinct conn_id t found) opened in
    let done = removed-WellFormed g h conn_id t found w r.tunnels r.others in
    (
      record_disconnect conn_id h,
      ap (λ o. then_step o (λ r. finished (record_disconnect conn_id r))) run,
      record {
        tunnels = r.tunnels;
        told = r.told;
        others = r.others;
        invariant = logged-WellFormed h (record_disconnect conn_id h).log done;
      },
    )

same_number : (n : ℕ) → (n == n) ≡ true
same_number n = ground arith

-- A disconnect of a socket that is the tunnel's.
pub handle_disconnect-Disconnected :
    (g : Gateway) (conn_id : Text) (t : ConnectedTunnel)
    → lookup conn_id g.tunnels ≡ some t
    → WellFormed g
    → (h : Gateway) × (handle_disconnect g conn_id t.ws ≡ finished h) × Disconnected conn_id t g h
unfolding handle_disconnect disconnect_found
handle_disconnect-Disconnected g conn_id t found w =
    let (h, run, d) = disconnect_tunnel-Disconnected g conn_id t found w in
    (h, ap (λ o. disconnect_found g conn_id t.ws o) found ∙ rw (same_number t.ws) run, d)

-- A disconnect of another socket changes nothing.
pub handle_disconnect_other :
    (g : Gateway) (conn_id : Text) (ws : ℕ) (t : ConnectedTunnel)
    → lookup conn_id g.tunnels ≡ some t
    → (t.ws == ws) ≡ false
    → handle_disconnect g conn_id ws ≡ finished g
unfolding handle_disconnect disconnect_found
handle_disconnect_other g conn_id ws t found other =
    ap (λ o. disconnect_found g conn_id ws o) found ∙ rw other refl

handle_disconnect_own :
    (g : Gateway) (conn_id : Text) (ws : ℕ) (t : ConnectedTunnel)
    → lookup conn_id g.tunnels ≡ some t
    → (t.ws == ws) ≡ true
    → handle_disconnect g conn_id ws ≡ disconnect_tunnel g conn_id t
unfolding handle_disconnect disconnect_found
handle_disconnect_own g conn_id ws t found own =
    ap (λ o. disconnect_found g conn_id ws o) found ∙ rw own refl

handle_disconnect-none :
    (g : Gateway) (conn_id : Text) (ws : ℕ)
    → lookup conn_id g.tunnels ≡ none
    → handle_disconnect g conn_id ws ≡ finished g
unfolding handle_disconnect disconnect_found
handle_disconnect-none g conn_id ws missing = ap (λ o. disconnect_found g conn_id ws o) missing

pub Safe-path : (o p : Outcome) → o ≡ p → Safe ⊥ p → Safe ⊥ o
Safe-path o p e s = subst (λ q. Safe ⊥ q) (sym e) s

-- A disconnect keeps the invariant, and never panics.
pub handle_disconnect-Safe :
    (g : Gateway) (conn_id : Text) (ws : ℕ) → WellFormed g → Safe ⊥ (handle_disconnect g conn_id ws)
handle_disconnect-Safe g conn_id ws w = elim (Option-cases (lookup conn_id g.tunnels)) [
  | inl e ↦
      Safe-path (handle_disconnect g conn_id ws) (finished g)
        (handle_disconnect-none g conn_id ws e) w
  | inr (t, e) ↦ elim (Bool-cases (t.ws == ws)) [
    | inl own ↦
        (let (h, run, d) = disconnect_tunnel-Disconnected g conn_id t e w in
          Safe-path (handle_disconnect g conn_id ws) (finished h)
            (handle_disconnect_own g conn_id ws t e own ∙ run) d.invariant)
    | inr other ↦
        Safe-path (handle_disconnect g conn_id ws) (finished g)
          (handle_disconnect_other g conn_id ws t e other) w
  ]
]

pub Safe-then_step :
    (o : Outcome) (f : Gateway → Outcome)
    → ((h : Gateway) → WellFormed h → Safe ⊥ (f h))
    → Safe ⊥ o
    → Safe ⊥ (then_step o f)
unfolding then_step
Safe-then_step (finished h) f k s = k h s
Safe-then_step panicked f k s = s
Safe-then_step blocked f k s = tt

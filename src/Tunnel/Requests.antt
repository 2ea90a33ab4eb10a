-- ===== src/Tunnel/Requests.antt =====
-- The start of a request (internal/tunnel/api.go): what it changes of the gateway's state.
use mathlib.Core.Path.{◌≡◌, refl, sym, ◌∙◌}
use mathlib.Core.Logic.{inl, inr}
use mathlib.Core.Bool.{true, false, ◌&&◌}
use mathlib.Core.Option.{Option, none, some}
use ch_ui.Prelude.Tests.{if◌then◌else◌, Bool-cases}
use ch_ui.Prelude.Text.{Text, same, same→eq, same_refl}
use ch_ui.Prelude.Maps.{lookup, insert, lookup-insert}
use ch_ui.Tunnel.Protocol.{GatewayMessage}
use ch_ui.Tunnel.Gateway.{
  Kind, stream, new_channels, ConnectedTunnel, Gateway, channels_of, kind_in,
}
use ch_ui.Tunnel.Api.{store_pending, begin_found, begin_request, forget, cleanup_stream}
use ch_ui.Tunnel.Views.{
  kind_at, WellFormed, kind_in-insert, channels_of_set, Distinct, insert-Distinct,
}
use ch_ui.Tunnel.Invariant.{some_tunnel, drop-WellFormed}
use ch_ui.Tunnel.Handlers.{Found, Found-lookup}
use ch_ui.Tunnel.Reading.{logged-WellFormed}

-- No connection has a pending request of the identifier.
abbrev pub IsNew : Gateway → Text → Type 0
IsNew g id = (k : Text) → kind_at g k id ≡ none

module _ (g : Gateway) (conn_id id : Text) (kind : Kind) (t : ConnectedTunnel)
    (found : lookup conn_id g.tunnels ≡ some t) where
  abbrev holder : ConnectedTunnel
  holder = record t { pending = insert id kind t.pending }

  kind_at-store :
      (k j : Text)
      → kind_at (store_pending conn_id kind id t g) k j
        ≡ (if same conn_id k && same id j then some kind else kind_at g k j)
  unfolding kind_in
  kind_at-store k j = elim (Bool-cases (same conn_id k)) [
    | inl e ↦
        (let found' : lookup k g.tunnels ≡ some t = rw (same→eq conn_id k e) at found in
          rw
            (
              kind_in-insert g.tunnels conn_id k j holder,
              e,
              found',
              lookup-insert id j kind t.pending,
            )
            refl)
    | inr e ↦ rw (kind_in-insert g.tunnels conn_id k j holder, e) refl
  ]

  -- Of another identifier nothing changes, and the new one is pending at its connection only.
  store_other :
      (k j : Text)
      → same id j ≡ false
      → kind_at (store_pending conn_id kind id t g) k j ≡ kind_at g k j
  store_other k j miss = elim (Bool-cases (same conn_id k)) [
    | inl e ↦ rw (kind_at-store k j, e, miss) refl
    | inr e ↦ rw (kind_at-store k j, e) refl
  ]

  store_here :
      (k j : Text) (a : Kind)
      → IsNew g id
      → same id j ≡ true
      → kind_at (store_pending conn_id kind id t g) k j ≡ some a
      → conn_id ≡ k
  store_here k j a new hit h = elim (Bool-cases (same conn_id k)) [
    | inl e ↦ same→eq conn_id k e
    | inr e ↦
        (let h' : kind_at g k j ≡ some a = rw (kind_at-store k j, e) at h in
          let bad : none ≡ some a = sym (new k) ∙ rw (sym (same→eq id j hit)) at h' in cc)
  ]

  store-WellFormed : IsNew g id → WellFormed g → WellFormed (store_pending conn_id kind id t g)
  unfolding channels_of
  store-WellFormed new w = record { alone = one; streaming = still; distinct = apart }
    where
      one :
          (k l j : Text) (a b : Kind)
          → kind_at (store_pending conn_id kind id t g) k j ≡ some a
          → kind_at (store_pending conn_id kind id t g) l j ≡ some b
          → same k l ≡ true
      one k l j a b ha hb = elim (Bool-cases (same id j)) [
        | inl e ↦
            rw (sym (store_here k j a new e ha), sym (store_here l j b new e hb))
              (same_refl conn_id)
        | inr e ↦ w.alone k l j a b (sym (store_other k j e) ∙ ha) (sym (store_other l j e) ∙ hb)
      ]

      still :
          (k j : Text)
          → kind_at (store_pending conn_id kind id t g) k j ≡ some stream
          → (channels_of (store_pending conn_id kind id t g) j).closed ≡ false
      still k j h = elim (Bool-cases (same id j)) [
        | inl e ↦ rw (channels_of_set g id new_channels j, e) refl
        | inr e ↦
            rw (channels_of_set g id new_channels j, e)
              (w.streaming k j (sym (store_other k j e) ∙ h))
      ]

      apart :
          (k : Text) (u : ConnectedTunnel)
          → lookup k (store_pending conn_id kind id t g).tunnels ≡ some u
          → Distinct u.pending
      apart k u h = elim (Bool-cases (same conn_id k)) [
        | inl e ↦
            (let eq : holder ≡ u =
                some_tunnel holder u (rw (lookup-insert conn_id k holder g.tunnels, e) at h) in
              rw (sym eq) (insert-Distinct id kind t.pending (w.distinct conn_id t found)))
        | inr e ↦ w.distinct k u (rw (lookup-insert conn_id k holder g.tunnels, e) at h)
      ]

  begin_found-WellFormed :
      (m : GatewayMessage) (fails : Option Text)
      → IsNew g id
      → WellFormed g
      → WellFormed (begin_found g conn_id kind id m fails (some t)).0
  unfolding begin_found
  begin_found-WellFormed m none new w =
      logged-WellFormed (store_pending conn_id kind id t g) _ (store-WellFormed new w)
  begin_found-WellFormed m (some e) new w =
      drop-WellFormed (store_pending conn_id kind id t g) conn_id id holder
        (rw (lookup-insert conn_id conn_id holder g.tunnels, same_refl conn_id) refl)
        (store-WellFormed new w)

begin_option-WellFormed :
    (g : Gateway) (conn_id : Text) (kind : Kind) (id : Text) (m : GatewayMessage)
    (fails : Option Text) (o : Option ConnectedTunnel)
    → Found g conn_id o
    → IsNew g id
    → WellFormed g
    → WellFormed (begin_found g conn_id kind id m fails o).0
unfolding begin_found
begin_option-WellFormed g conn_id kind id m fails none found new w = w
begin_option-WellFormed g conn_id kind id m fails (some t) found new w =
    begin_found-WellFormed g conn_id id kind t found m fails new w

pub begin_request-WellFormed :
    (g : Gateway) (conn_id : Text) (kind : Kind) (id : Text) (m : GatewayMessage)
    (fails : Option Text)
    → IsNew g id
    → WellFormed g
    → WellFormed (begin_request g conn_id kind id m fails).0
unfolding begin_request
begin_request-WellFormed g conn_id kind id m fails new w =
    begin_option-WellFormed g conn_id kind id m fails (lookup conn_id g.tunnels)
      (Found-lookup g conn_id) new w

forget-WellFormed :
    (g : Gateway) (conn_id id : Text) (o : Option ConnectedTunnel)
    → Found g conn_id o
    → WellFormed g
    → WellFormed (forget conn_id id o g)
unfolding forget
forget-WellFormed g conn_id id none found w = w
forget-WellFormed g conn_id id (some t) found w = drop-WellFormed g conn_id id t found w

pub cleanup_stream-WellFormed :
    (g : Gateway) (conn_id id : Text) → WellFormed g → WellFormed (cleanup_stream g conn_id id)
unfolding cleanup_stream
cleanup_stream-WellFormed g conn_id id w =
    forget-WellFormed g conn_id id (lookup conn_id g.tunnels) (Found-lookup g conn_id) w

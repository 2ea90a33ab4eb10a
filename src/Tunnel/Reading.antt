-- ===== src/Tunnel/Reading.antt =====
-- The messages of agents that a socket reads (internal/tunnel/gateway.go), one handler each.
use Prim.Native.Nat.{ℕ}
use mathlib.Core.Path.{◌≡◌, refl, sym, ap, ◌∙◌}
use mathlib.Core.Logic.{inl, inr}
use mathlib.Core.Bool.{Bool, true, false, ◌||◌}
use mathlib.Core.Option.{Option, none, some}
use mathlib.Core.List.{List}
use ch_ui.Prelude.Tests.{if◌then◌else◌, Bool-cases, or_true}
use ch_ui.Prelude.Text.{Text, codes, same, same→eq, is_blank}
use ch_ui.Prelude.Maps.{lookup, insert, lookup-insert}
use ch_ui.Tunnel.Protocol.{AgentMessage}
use ch_ui.Tunnel.Gateway.{
  Action, ConnectedTunnel, Gateway, Outcome, finished, panicked, blocked, channels_of, kind_in,
  handle_host_info,
}
use ch_ui.Tunnel.Auth.{touch_found, touch_tunnel, handle_pong}
use ch_ui.Tunnel.Views.{kind_at, WellFormed, kind_in-insert, Distinct}
use ch_ui.Tunnel.Invariant.{some_tunnel}
use ch_ui.Tunnel.Handlers.{Safe, Found, Found-lookup}

pub Safe-weaken : (B C : Type 0) (o : Outcome) → (B → C) → Safe B o → Safe C o
Safe-weaken B C (finished h) f s = s
Safe-weaken B C panicked f s = f s
Safe-weaken B C blocked f s = s

pub Safe-if :
    (C : Type 0) (b : Bool) (x y : Outcome)
    → (b ≡ true → Safe C x)
    → (b ≡ false → Safe C y)
    → Safe C (if b then x else y)
Safe-if C true x y f g = f refl
Safe-if C false x y f g = g refl

-- The kinds of messages that answer a plain request.
abbrev pub is_answer : Text → Bool
is_answer kind =
    same kind (codes "query_result")
    || same kind (codes "query_error")
    || same kind (codes "test_result")

pub answer_result : (kind : Text) → same kind (codes "query_result") ≡ true → is_answer kind ≡ true
answer_result kind h = rw h refl

pub answer_error : (kind : Text) → same kind (codes "query_error") ≡ true → is_answer kind ≡ true
answer_error kind h = elim (Bool-cases (same kind (codes "query_result"))) [
  | inl e ↦ rw e refl
  | inr e ↦ rw (e, h) refl
]

pub answer_test : (kind : Text) → same kind (codes "test_result") ≡ true → is_answer kind ≡ true
answer_test kind h =
    rw h (or_true (same kind (codes "query_result") || same kind (codes "query_error")))

-- A tunnel whose pending requests are those of the stored one.
touch_found-WellFormed :
    (g : Gateway) (conn_id : Text) (now : ℕ) (o : Option ConnectedTunnel)
    → Found g conn_id o
    → WellFormed g
    → WellFormed (touch_found g conn_id now o)
unfolding touch_found channels_of kind_in
touch_found-WellFormed g conn_id now none found w = w
touch_found-WellFormed g conn_id now (some t) found w = record {
  alone = λ k l id a b ha hb. w.alone k l id a b (sym (kept k id) ∙ ha) (sym (kept l id) ∙ hb);
  streaming = λ k id h. w.streaming k id (sym (kept k id) ∙ h);
  distinct = apart;
}
  where
    kept :
        (k id : Text)
        → kind_in id (lookup k (insert conn_id (record t { last_seen = now }) g.tunnels))
          ≡ kind_at g k id
    kept k id = elim (Bool-cases (same conn_id k)) [
      | inl e ↦
          rw (kind_in-insert g.tunnels conn_id k id (record t { last_seen = now }), e)
            (sym (ap (λ o. kind_in id o) (rw (same→eq conn_id k e) at found)))
      | inr e ↦ rw (kind_in-insert g.tunnels conn_id k id (record t { last_seen = now }), e) refl
    ]

    apart :
        (k : Text) (u : ConnectedTunnel)
        → lookup k (insert conn_id (record t { last_seen = now }) g.tunnels) ≡ some u
        → Distinct u.pending
    apart k u h = elim (Bool-cases (same conn_id k)) [
      | inl e ↦
          (let eq : record t { last_seen = now } ≡ u =
              some_tunnel (record t { last_seen = now }) u
                (rw (lookup-insert conn_id k (record t { last_seen = now }) g.tunnels, e) at h) in
            rw (sym eq) (w.distinct conn_id t found))
      | inr e ↦
          w.distinct k u
            (rw (lookup-insert conn_id k (record t { last_seen = now }) g.tunnels, e) at h)
    ]

pub touch_tunnel-WellFormed :
    (g : Gateway) (conn_id : Text) (now : ℕ)
    → WellFormed g
    → WellFormed (touch_tunnel g conn_id now)
unfolding touch_tunnel
touch_tunnel-WellFormed g conn_id now w = elim (Bool-cases (is_blank conn_id)) [
  | inl blank ↦ rw blank w
  | inr named ↦
      rw named
        (touch_found-WellFormed g conn_id now (lookup conn_id g.tunnels) (Found-lookup g conn_id) w)
]

-- A longer log changes nothing that the invariant reads.
pub logged-WellFormed :
    (g : Gateway) (log : List Action) → WellFormed g → WellFormed (record g { log = log })
unfolding channels_of
logged-WellFormed g log w = record {
  alone = w.alone;
  streaming = w.streaming;
  distinct = w.distinct;
}

pub handle_pong-WellFormed :
    (g : Gateway) (conn_id : Text) (now : ℕ) → WellFormed g → WellFormed (handle_pong g conn_id now)
unfolding handle_pong
handle_pong-WellFormed g conn_id now w = elim (Bool-cases (is_blank conn_id)) [
  | inl blank ↦ rw blank w
  | inr named ↦ rw named (
      logged-WellFormed (touch_found g conn_id now (lookup conn_id g.tunnels)) _ (
        touch_found-WellFormed g conn_id now (lookup conn_id g.tunnels) (Found-lookup g conn_id) w))
]

pub handle_host_info-Safe :
    (g : Gateway) (conn_id : Text) (m : AgentMessage) (info : Option Text)
    → WellFormed g
    → Safe ⊥ (handle_host_info g conn_id m info)
unfolding handle_host_info
handle_host_info-Safe g conn_id m none w = w
handle_host_info-Safe g conn_id m (some info) w =
    elim (Bool-cases (is_blank conn_id || is_blank m.host_info)) [
      | inl blank ↦ rw blank w
      | inr there ↦ rw there (logged-WellFormed g _ w)
    ]

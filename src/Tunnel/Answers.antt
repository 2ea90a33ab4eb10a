-- ===== src/Tunnel/Answers.antt =====
-- From a call on the gateway to the agent's answer (internal/tunnel/api.go, internal/tunnel/gateway.go).
use mathlib.Core.Path.{◌≡◌, refl, ap, ◌∙◌}
use mathlib.Core.Logic.{inl, inr}
use mathlib.Core.Bool.{false}
use mathlib.Core.Option.{none, some}
use mathlib.Core.List.{List, []}
use ch_ui.Prelude.Tests.{if◌then◌else◌, Bool-cases}
use ch_ui.Prelude.Text.{Text, codes, same, same_refl, is_blank}
use ch_ui.Prelude.Maps.{lookup, insert, lookup-insert}
use ch_ui.Prelude.Result.{ok}
use ch_ui.Tunnel.Protocol.{AgentMessage, get_message_id, get_stats, GatewayMessage}
use ch_ui.Tunnel.Gateway.{
  plain, Payload, new_channels, ConnectedTunnel, Gateway, finished, channels_of, set_channels,
  drop_pending, target, answer_kind, answer, put_result, query_payload, offer, handle_query_result,
}
use ch_ui.Tunnel.Api.{
  store_pending, written, begin_found, begin_request, request_message, execute_query_with_settings,
  result_ch, received, receive, or_null, finish_query,
}
use ch_ui.Tunnel.Views.{channels_of_set}

module _ (conn_id id : Text) (named : is_blank conn_id ≡ false)
    (id_named : is_blank id ≡ false) where
  target_stored :
      (g : Gateway) (u : ConnectedTunnel)
      → lookup conn_id g.tunnels ≡ some u
      → target g conn_id id ≡ some u
  unfolding target
  target_stored g u found = rw (named, id_named) found

  -- A request that is pending at its tunnel is answered.
  answered :
      (g : Gateway) (m : AgentMessage) (u : ConnectedTunnel)
      → get_message_id m ≡ id
      → lookup conn_id g.tunnels ≡ some u
      → lookup id u.pending ≡ some plain
      → handle_query_result g conn_id m
        ≡ finished (
            set_channels id
              (put_result (query_payload m) (channels_of g id))
              (drop_pending conn_id id u g))
  unfolding handle_query_result answer answer_kind
  answered g m u same_id found pending =
      ap (λ i. answer g conn_id i (put_result (query_payload m)) (target g conn_id i)) same_id
      ∙ ap (λ o. answer g conn_id id (put_result (query_payload m)) o) (target_stored g u found)
      ∙ ap (λ o. answer_kind g conn_id id (put_result (query_payload m)) u o) pending

  abbrev called : Gateway → ConnectedTunnel → GatewayMessage → Gateway
  called g t q = written t.ws q (store_pending conn_id plain id t g)

  stored_channels :
      (g : Gateway) (t : ConnectedTunnel) (q : GatewayMessage) (j : Text)
      → channels_of (called g t q) j ≡ (if same id j then new_channels else channels_of g j)
  unfolding channels_of
  stored_channels g t q j = channels_of_set g id new_channels j

  answered_channels :
      (g : Gateway) (t u : ConnectedTunnel) (q : GatewayMessage) (p : Payload) (j : Text)
      → channels_of
          (set_channels id
            (put_result p (channels_of (called g t q) id))
            (drop_pending conn_id id u (called g t q)))
          j
        ≡ (if same id j then put_result p new_channels else channels_of g j)
  unfolding channels_of
  answered_channels g t u q p j = elim (Bool-cases (same id j)) [
    | inl e ↦
        channels_of_set (called g t q) id (put_result p (channels_of (called g t q) id)) j
        ∙ rw e (ap (put_result p) (stored_channels g t q id ∙ rw (same_refl id) refl))
    | inr e ↦
        channels_of_set (called g t q) id (put_result p (channels_of (called g t q) id)) j
        ∙ rw e (stored_channels g t q j ∙ rw e refl)
  ]

  -- The answer to a request that was just stored.
  answer_called :
      (g : Gateway) (t : ConnectedTunnel) (q : GatewayMessage) (m : AgentMessage)
      → get_message_id m ≡ id
      → (h : Gateway) × (handle_query_result (called g t q) conn_id m ≡ finished h)
        × ((j : Text)
            → channels_of h j
              ≡ (if same id j then put_result (query_payload m) new_channels else channels_of g j))
  answer_called g t q m same_id =
      let stored = called g t q in
      let holder : ConnectedTunnel = record t { pending = insert id plain t.pending } in
      let run =
        answered stored m holder same_id
          (rw (lookup-insert conn_id conn_id holder g.tunnels, same_refl conn_id) refl)
          (rw (lookup-insert id id plain t.pending, same_refl id) refl) in
      (_, run, answered_channels g t holder q (query_payload m))

-- A field of the answer as the caller gets it.
abbrev pub returned : (Text → Text) → Text → Text
returned compact raw = if is_blank raw then codes "null" else compact raw

-- At a connection with a tunnel let a query be sent under an identifier, both identifiers not blank,
-- with a write that succeeds, and let the agent answer under it. Then the handler of the answer
-- finishes, and the caller's result channel has a payload from which the call returns the fields of the
-- agent's message: its data, its column descriptions, and its stats or, where these are blank, its
-- statistics, each as `json.Marshal` compacts it, and `null` for a blank one. The channels of every
-- other request are as before.
pub query_answered :
    (compact : Text → Text) (g : Gateway) (conn_id id sql user password : Text)
    (settings : List (Text × Text)) (t : ConnectedTunnel) (m : AgentMessage)
    → is_blank conn_id ≡ false
    → is_blank id ≡ false
    → lookup conn_id g.tunnels ≡ some t
    → get_message_id m ≡ id
    → (h : Gateway) × (handle_query_result
          (execute_query_with_settings g conn_id id sql user password settings none).0
          conn_id
          m
        ≡ finished h)
      × ((p : Payload) × (receive (channels_of h id) result_ch ≡ some (received p))
          × ((finish_query compact h conn_id t.ws id (received p)).1
              ≡ ok (record {
                payload = returned compact m.payload;
                meta = returned compact m.meta;
                stats = returned compact (if is_blank m.stats then m.statistics else m.stats);
              })))
      × ((j : Text) → same id j ≡ false → channels_of h j ≡ channels_of g j)
unfolding execute_query_with_settings begin_request begin_found finish_query receive offer or_null
    get_stats
query_answered compact g conn_id id sql user password settings t m named id_named found same_id =
    let q = request_message (codes "query") id sql user password [] settings in
    let (h, run, channels) = answer_called conn_id id named id_named g t q m same_id in
    (
      h,
      ap (λ o. handle_query_result (begin_found g conn_id plain id q none o).0 conn_id m) found
          ∙ run,
      (query_payload m, rw (channels id, same_refl id) refl, refl),
      λ j miss. channels j ∙ rw miss refl,
    )

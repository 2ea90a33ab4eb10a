-- ===== src/Tunnel/Handlers.antt =====
-- The handlers of messages (internal/tunnel/gateway.go): which keep the invariant, and which panic.
use mathlib.Core.Path.{◌≡◌, refl, sym, ◌∙◌}
use mathlib.Core.Logic.{inl, inr}
use mathlib.Core.Bool.{true, false, ◌||◌}
use mathlib.Core.Option.{Option, none, some}
use mathlib.Core.List.{[], ◌∷◌, ◌++◌}
use ch_ui.Prelude.Tests.{leb, Bool-cases, Option-cases}
use ch_ui.Prelude.Lists.{length}
use ch_ui.Prelude.Text.{Text, same, same_refl, is_blank}
use ch_ui.Prelude.Maps.{lookup}
use ch_ui.Tunnel.Protocol.{AgentMessage, get_message_id, is_test_success}
use ch_ui.Tunnel.Gateway.{
  Kind, plain, stream, Channels, ConnectedTunnel, Gateway, Outcome, finished, panicked, blocked,
  channels_of, drop_pending, kind_in, target, answer_kind, answer, close_stream, end_kind,
  end_stream, start_kind, send_chunk, chunk_kind, put_meta, put_error, put_result, put_test,
  put_done, query_payload, handle_query_result, handle_query_error, handle_test_result,
  handle_stream_start, handle_stream_chunk, handle_stream_end, handle_stream_error,
}
use ch_ui.Tunnel.Views.{kind_at, WellFormed, kind_at-drop}
use ch_ui.Tunnel.Invariant.{drop-WellFormed, set-WellFormed}

-- The outcome keeps the invariant, and is a panic only under the condition `B`.
abbrev pub Safe : Type 0 → Outcome → Type 0
Safe B (finished h) = WellFormed h
Safe B panicked = B
Safe B blocked = Unit

-- The found tunnel is the one of the connection.
abbrev pub Found : Gateway → Text → Option ConnectedTunnel → Type 0
Found g conn_id none = Unit
Found g conn_id (some t) = lookup conn_id g.tunnels ≡ some t

module _ (g : Gateway) (conn_id id : Text) (w : WellFormed g) where
  answer_kind-Safe :
      (f : Channels → Channels) (t : ConnectedTunnel) (o : Option Kind)
      → ((c : Channels) → (f c).closed ≡ c.closed)
      → lookup conn_id g.tunnels ≡ some t
      → Safe (o ≡ some stream) (answer_kind g conn_id id f t o)
  unfolding answer_kind channels_of
  answer_kind-Safe f t none same_closed found = w
  answer_kind-Safe f t (some stream) same_closed found = refl
  answer_kind-Safe f t (some plain) same_closed found =
      let dropped = drop-WellFormed g conn_id id t found w in
      set-WellFormed (drop_pending conn_id id t g) id (f (channels_of g id))
        (λ k h. same_closed (channels_of g id) ∙ dropped.streaming k id h) dropped

  answer-Safe :
      (f : Channels → Channels) (o : Option ConnectedTunnel)
      → ((c : Channels) → (f c).closed ≡ c.closed)
      → Found g conn_id o
      → Safe (kind_in id o ≡ some stream) (answer g conn_id id f o)
  unfolding answer kind_in
  answer-Safe f none same_closed found = w
  answer-Safe f (some t) same_closed found =
      answer_kind-Safe f t (lookup id t.pending) same_closed found

  -- After a stream is taken out, it is pending nowhere.
  gone :
      (t : ConnectedTunnel) (k : Text)
      → lookup conn_id g.tunnels ≡ some t
      → lookup id t.pending ≡ some stream
      → kind_at (drop_pending conn_id id t g) k id ≡ some stream
      → true ≡ false
  unfolding kind_in
  gone t k found pending h = elim (Bool-cases (same conn_id k)) [
    | inl e ↦
        (let bad : none ≡ some stream =
            rw (kind_at-drop g conn_id id k id t found, e, same_refl id) at h in
          cc)
    | inr e ↦
        (let there : kind_at g k id ≡ some stream =
            rw (kind_at-drop g conn_id id k id t found, e) at h in
          let here : kind_at g conn_id id ≡ some stream = rw found pending in
          sym (w.alone conn_id k id stream stream here there) ∙ e)
  ]

  end_kind-Safe :
      (f : Channels → Channels) (t : ConnectedTunnel) (o : Option Kind)
      → lookup conn_id g.tunnels ≡ some t
      → lookup id t.pending ≡ o
      → Safe ⊥ (end_kind g conn_id id f t o)
  unfolding end_kind close_stream kind_in
  end_kind-Safe f t none found pending = w
  end_kind-Safe f t (some plain) found pending = drop-WellFormed g conn_id id t found w
  end_kind-Safe f t (some stream) found pending =
      let opened : (channels_of g id).closed ≡ false = w.streaming conn_id id (rw found pending) in
      rw opened (
        set-WellFormed (drop_pending conn_id id t g) id
          (f (record (channels_of g id) { closed = true }))
          (λ k h. (let bad = gone t k found pending h in cc))
          (drop-WellFormed g conn_id id t found w))

  end_stream-Safe :
      (f : Channels → Channels) (o : Option ConnectedTunnel)
      → Found g conn_id o
      → Safe ⊥ (end_stream g conn_id id f o)
  unfolding end_stream
  end_stream-Safe f none found = w
  end_stream-Safe f (some t) found = end_kind-Safe f t (lookup id t.pending) found refl

  start_kind-Safe : (meta : Text) (o : Option Kind) → Safe ⊥ (start_kind g id meta o)
  unfolding start_kind
  start_kind-Safe meta none = w
  start_kind-Safe meta (some plain) = w
  start_kind-Safe meta (some stream) =
      set-WellFormed g id (put_meta meta (channels_of g id)) (λ k h. w.streaming k id h) w

  chunk_kind-Safe :
      (chunk : Text) (o : Option Kind)
      → (o ≡ some stream → (channels_of g id).closed ≡ false)
      → Safe ⊥ (chunk_kind g id chunk o)
  unfolding chunk_kind send_chunk
  chunk_kind-Safe chunk none opened = w
  chunk_kind-Safe chunk (some plain) opened = w
  chunk_kind-Safe chunk (some stream) opened =
      elim (Bool-cases (leb 8 (length (channels_of g id).chunks))) [
        | inl full ↦ rw (opened refl, full) tt
        | inr room ↦
            rw (opened refl, room)
              (set-WellFormed g id
                (record (channels_of g id) {
                  chunks = (channels_of g id).chunks ++ chunk ∷ [];
                  closed = false;
                })
                (λ k h. refl) w)
      ]

  stream-closed :
      (o : Option ConnectedTunnel)
      → Found g conn_id o
      → kind_in id o ≡ some stream
      → (channels_of g id).closed ≡ false
  unfolding kind_in
  stream-closed none found h = cc
  stream-closed (some t) found h = w.streaming conn_id id (rw found h)

pub Found-lookup : (g : Gateway) (conn_id : Text) → Found g conn_id (lookup conn_id g.tunnels)
Found-lookup g conn_id = elim (Option-cases (lookup conn_id g.tunnels)) [
  | inl e ↦ rw e tt
  | inr (t, e) ↦ rw e e
]

target-Found : (g : Gateway) (conn_id id : Text) → Found g conn_id (target g conn_id id)
unfolding target
target-Found g conn_id id = elim (Bool-cases (is_blank conn_id || is_blank id)) [
  | inl blank ↦ rw blank tt
  | inr there ↦ rw there (Found-lookup g conn_id)
]

put_test-closed : (m : AgentMessage) (c : Channels) → (put_test m c).closed ≡ c.closed
unfolding put_test
put_test-closed m c = elim (Bool-cases (is_test_success m)) [
  | inl e ↦ rw e refl
  | inr e ↦ rw e refl
]

-- The pending request that a message names is a stream.
abbrev pub NamesStream : Gateway → Text → AgentMessage → Type 0
NamesStream g conn_id m =
    kind_in (get_message_id m) (target g conn_id (get_message_id m)) ≡ some stream

answer-panics :
    (g : Gateway) (conn_id id : Text) (f : Channels → Channels) (o : Option ConnectedTunnel)
    → kind_in id o ≡ some stream
    → answer g conn_id id f o ≡ panicked
unfolding answer answer_kind kind_in
answer-panics g conn_id id f none h = cc
answer-panics g conn_id id f (some t) h = rw (h, answer_kind) refl

module _ (g : Gateway) (conn_id : Text) (m : AgentMessage) where
  pub handle_query_result-panics :
      NamesStream g conn_id m → handle_query_result g conn_id m ≡ panicked
  unfolding handle_query_result
  handle_query_result-panics h =
      answer-panics g conn_id (get_message_id m) (put_result (query_payload m))
        (target g conn_id (get_message_id m)) h

  pub handle_query_error-panics :
      NamesStream g conn_id m → handle_query_error g conn_id m ≡ panicked
  unfolding handle_query_error
  handle_query_error-panics h =
      answer-panics g conn_id (get_message_id m) (put_error m.error)
        (target g conn_id (get_message_id m)) h

  pub handle_test_result-panics :
      NamesStream g conn_id m → handle_test_result g conn_id m ≡ panicked
  unfolding handle_test_result
  handle_test_result-panics h =
      answer-panics g conn_id (get_message_id m) (put_test m) (target g conn_id (get_message_id m))
        h

module _ (g : Gateway) (conn_id : Text) (m : AgentMessage) (w : WellFormed g) where
  pub handle_query_result-Safe : Safe (NamesStream g conn_id m) (handle_query_result g conn_id m)
  unfolding handle_query_result
  handle_query_result-Safe =
      let id = get_message_id m in
      answer-Safe g conn_id id w (put_result (query_payload m)) (target g conn_id id) (λ c. refl)
        (target-Found g conn_id id)

  pub handle_query_error-Safe : Safe (NamesStream g conn_id m) (handle_query_error g conn_id m)
  unfolding handle_query_error
  handle_query_error-Safe =
      let id = get_message_id m in
      answer-Safe g conn_id id w (put_error m.error) (target g conn_id id) (λ c. refl)
        (target-Found g conn_id id)

  pub handle_test_result-Safe : Safe (NamesStream g conn_id m) (handle_test_result g conn_id m)
  unfolding handle_test_result
  handle_test_result-Safe =
      let id = get_message_id m in
      answer-Safe g conn_id id w (put_test m) (target g conn_id id) (put_test-closed m)
        (target-Found g conn_id id)

  pub handle_stream_start-Safe : Safe ⊥ (handle_stream_start g conn_id m)
  unfolding handle_stream_start
  handle_stream_start-Safe =
      let id = get_message_id m in
      start_kind-Safe g conn_id id w m.meta (kind_in id (target g conn_id id))

  pub handle_stream_chunk-Safe : Safe ⊥ (handle_stream_chunk g conn_id m)
  unfolding handle_stream_chunk
  handle_stream_chunk-Safe =
      let id = get_message_id m in
      chunk_kind-Safe g conn_id id w m.payload (kind_in id (target g conn_id id))
        (stream-closed g conn_id id w (target g conn_id id) (target-Found g conn_id id))

  pub handle_stream_end-Safe : Safe ⊥ (handle_stream_end g conn_id m)
  unfolding handle_stream_end
  handle_stream_end-Safe =
      let id = get_message_id m in
      end_stream-Safe g conn_id id w (put_done m) (target g conn_id id) (target-Found g conn_id id)

  pub handle_stream_error-Safe : Safe ⊥ (handle_stream_error g conn_id m)
  unfolding handle_stream_error
  handle_stream_error-Safe =
      let id = get_message_id m in
      end_stream-Safe g conn_id id w (put_error m.error) (target g conn_id id)
        (target-Found g conn_id id)

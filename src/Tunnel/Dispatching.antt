-- ===== src/Tunnel/Dispatching.antt =====
-- The dispatch of a message of an agent (internal/tunnel/gateway.go) and when it panics.
use Prim.Native.Nat.{ℕ}
use mathlib.Core.Path.{◌≡◌, sym, ap, ◌∙◌, subst}
use mathlib.Core.Logic.{◌↔◌, inl, inr}
use mathlib.Core.Bool.{true, false}
use mathlib.Core.Option.{Option}
use ch_ui.Prelude.Tests.{Bool-cases}
use ch_ui.Prelude.Text.{Text, codes, same, same→eq}
use ch_ui.Tunnel.Protocol.{AgentMessage}
use ch_ui.Tunnel.Gateway.{
  Gateway, Outcome, panicked, handle_query_result, handle_query_error, handle_test_result,
  handle_host_info, handle_stream_start, handle_stream_chunk, handle_stream_end,
  handle_stream_error,
}
use ch_ui.Tunnel.Auth.{touch_tunnel, dispatch, read_message}
use ch_ui.Tunnel.Views.{WellFormed}
use ch_ui.Tunnel.Handlers.{
  Safe, NamesStream, handle_query_result-Safe, handle_query_error-Safe, handle_test_result-Safe,
  handle_stream_start-Safe, handle_stream_chunk-Safe, handle_stream_end-Safe,
  handle_stream_error-Safe, handle_query_result-panics, handle_query_error-panics,
  handle_test_result-panics,
}
use ch_ui.Tunnel.Reading.{
  Safe-weaken, Safe-if, is_answer, answer_result, answer_error, answer_test,
  touch_tunnel-WellFormed, handle_pong-WellFormed, handle_host_info-Safe,
}

-- A message that would make its handler panic.
abbrev pub IsFatal : Gateway → Text → AgentMessage → Type 0
IsFatal g conn_id m = (is_answer m.kind ≡ true) × NamesStream g conn_id m

dispatch-Safe :
    (g : Gateway) (conn_id : Text) (now : ℕ) (info : Option Text) (m : AgentMessage)
    → WellFormed g
    → Safe (IsFatal g conn_id m) (dispatch g conn_id now info m)
unfolding dispatch
dispatch-Safe g conn_id now info m w =
    let fatal = IsFatal g conn_id m in
    let never = λ (o : Outcome). Safe-weaken ⊥ fatal o (λ e. absurd e) in
    Safe-if fatal (same m.kind (codes "pong")) _ _ (λ e. handle_pong-WellFormed g conn_id now w)
      λ e.
        Safe-if fatal (same m.kind (codes "query_result")) _ _
          (λ e.
            Safe-weaken (NamesStream g conn_id m) fatal (handle_query_result g conn_id m)
              (λ h. (answer_result m.kind e, h)) (handle_query_result-Safe g conn_id m w))
          λ e.
            Safe-if fatal (same m.kind (codes "query_error")) _ _
              (λ e.
                Safe-weaken (NamesStream g conn_id m) fatal (handle_query_error g conn_id m)
                  (λ h. (answer_error m.kind e, h)) (handle_query_error-Safe g conn_id m w))
              λ e.
                Safe-if fatal (same m.kind (codes "test_result")) _ _
                  (λ e.
                    Safe-weaken (NamesStream g conn_id m) fatal (handle_test_result g conn_id m)
                      (λ h. (answer_test m.kind e, h)) (handle_test_result-Safe g conn_id m w))
                  λ e.
                    Safe-if fatal (same m.kind (codes "host_info")) _ _
                      (λ e.
                        never (handle_host_info g conn_id m info)
                          (handle_host_info-Safe g conn_id m info w))
                      λ e.
                        Safe-if fatal (same m.kind (codes "query_stream_start")) _ _
                          (λ e.
                            never (handle_stream_start g conn_id m)
                              (handle_stream_start-Safe g conn_id m w))
                          λ e.
                            Safe-if fatal (same m.kind (codes "query_stream_chunk")) _ _
                              (λ e.
                                never (handle_stream_chunk g conn_id m)
                                  (handle_stream_chunk-Safe g conn_id m w))
                              λ e.
                                Safe-if fatal (same m.kind (codes "query_stream_end")) _ _
                                  (λ e.
                                    never (handle_stream_end g conn_id m)
                                      (handle_stream_end-Safe g conn_id m w))
                                  λ e.
                                    Safe-if fatal (same m.kind (codes "query_stream_error")) _ _
                                      (λ e.
                                        never (handle_stream_error g conn_id m)
                                          (handle_stream_error-Safe g conn_id m w))
                                      (λ e. w)

pong_no_answer : (kind : Text) → same kind (codes "pong") ≡ true → is_answer kind ≡ false
unfolding same
pong_no_answer kind h = ap is_answer (same→eq kind (codes "pong") h)

pub dispatch-panics :
    (g : Gateway) (conn_id : Text) (now : ℕ) (info : Option Text) (m : AgentMessage)
    → IsFatal g conn_id m
    → dispatch g conn_id now info m ≡ panicked
unfolding dispatch
dispatch-panics g conn_id now info m (answers, names) =
    elim (Bool-cases (same m.kind (codes "pong"))) [
      | inl e ↦ (let bad : true ≡ false = sym answers ∙ pong_no_answer m.kind e in cc)
      | inr e0 ↦ elim (Bool-cases (same m.kind (codes "query_result"))) [
        | inl e ↦ rw (e0, e) (handle_query_result-panics g conn_id m names)
        | inr e1 ↦ elim (Bool-cases (same m.kind (codes "query_error"))) [
          | inl e ↦ rw (e0, e1, e) (handle_query_error-panics g conn_id m names)
          | inr e2 ↦
              (let e : same m.kind (codes "test_result") ≡ true = rw (e1, e2) at answers in
                rw (e0, e1, e2, e) (handle_test_result-panics g conn_id m names))
        ]
      ]
    ]

-- In a state that is well formed a message that is no authentication makes the gateway panic exactly if
-- it is the answer of a query or of a test and names a pending stream.
pub dispatch_panics_iff :
    (g : Gateway) (conn_id : Text) (now : ℕ) (info : Option Text) (m : AgentMessage)
    → WellFormed g
    → (dispatch g conn_id now info m ≡ panicked) ↔ IsFatal g conn_id m
dispatch_panics_iff g conn_id now info m w = (
  λ e. subst (λ o. Safe (IsFatal g conn_id m) o) e (dispatch-Safe g conn_id now info m w),
  dispatch-panics g conn_id now info m,
)

-- One round of the read loop.
pub read_message-Safe :
    (g : Gateway) (conn_id : Text) (now : ℕ) (info : Option Text) (m : AgentMessage)
    → WellFormed g
    → Safe (IsFatal (touch_tunnel g conn_id now) conn_id m) (read_message g conn_id now info m)
unfolding read_message
read_message-Safe g conn_id now info m w =
    dispatch-Safe (touch_tunnel g conn_id now) conn_id now info m
      (touch_tunnel-WellFormed g conn_id now w)

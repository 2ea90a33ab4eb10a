-- ===== src/Alerts/DeliveryLaws.antt =====
-- What the delivery of jobs and digests (internal/alerts/dispatcher.go) guarantees.
use Prim.Native.Nat.{ℕ, ◌+◌}
use mathlib.Core.Path.{◌≡◌, refl}
use mathlib.Core.Logic.{inl, inr}
use mathlib.Core.Bool.{false, ◌&&◌}
use mathlib.Core.Option.{Option, none, some}
use mathlib.Core.List.{List, [], ◌∷◌, ◌++◌}
use ch_ui.Prelude.Tests.{ltb, leb, if◌then◌else◌, Bool-cases}
use ch_ui.Prelude.Int.{pos, ◌+ℤ◌}
use ch_ui.Prelude.Text.{Text, codes, is_blank, same, same_refl}
use ch_ui.Prelude.Options.{◌>>=◌, bind_eq_some}
use ch_ui.Prelude.Result.{Result, ok, err}
use ch_ui.Alerts.Delivery.{
  Delivery, Message, Action, mark_sending, mark_failed, mark_retry, mark_sent, send, Environment,
  is_nil, trimmed, coalesce, retry_backoff, escalation_targets, open_config, escalate_opened,
  escalate_channel, try_escalation, give_up, settle, send_opened, process_marked, escalated,
  message_of, prefix, recorded_id, process_one, process_due,
}

-- Reads a log from its start. The state is the delivery in progress: a mark starts one when there is
-- none, a failure, a retry or a success of the same delivery ends it, and a message is sent only
-- within one, to at least one recipient. `none` is a log that does otherwise.
unfoldable pub step : Option Text → Action → Option (Option Text)
step none (mark_sending id) = some (some id)
step none other = none
step (some id) (send m) = if is_nil m.recipients then none else some (some id)
step (some id) (mark_sending id') = none
step (some id) (mark_failed id' e) = if same id id' then some none else none
step (some id) (mark_retry id' t e) = if same id id' then some none else none
step (some id) (mark_sent id' p) = if same id id' then some none else none

unfoldable pub run : List Action → Option Text → Option (Option Text)
unfolding step ◌>>=◌
run [] state = some state
run (a ∷ log) state = step state a >>= (λ next. run log next)

some_eq : (a b : Option Text) → some a ≡ some b → a ≡ b
some_eq a b h = cc

run-append_one :
    (log : List Action) (a : Action) (state mid last : Option Text)
    → run log state ≡ some mid
    → step mid a ≡ some last
    → run (log ++ a ∷ []) state ≡ some last
unfolding run ◌>>=◌
run-append_one [] a state mid last h e = rw (some_eq state mid h, e) refl
run-append_one (b ∷ log) a state mid last h e =
    let (next, es, er) = bind_eq_some (step state b) (λ n. run log n) mid h in
    rw es (run-append_one log a next mid last er e)

-- The log is in the middle of the delivery.
abbrev Within : Delivery → List Action → Type 0
Within d log = run log none ≡ some (some d.id)

-- The log is between deliveries.
abbrev Between : List Action → Type 0
Between log = run log none ≡ some none

failed-Between :
    (d : Delivery) (log : List Action) (e : Text)
    → Within d log
    → Between (log ++ mark_failed d.id e ∷ [])
unfolding step
failed-Between d log e h =
    run-append_one log (mark_failed d.id e) none (some d.id) none h (rw (same_refl d.id) refl)

send-Within :
    (d : Delivery) (log : List Action) (m : Message)
    → is_nil m.recipients ≡ false
    → Within d log
    → Within d (log ++ send m ∷ [])
unfolding step
send-Within d log m some_one h =
    run-append_one log (send m) none (some d.id) (some d.id) h (rw some_one refl)

give_up-Between :
    (d : Delivery) (error : Text) (r : Text × List Action)
    → Within d r.1
    → Between (give_up d error r)
unfolding give_up
give_up-Between d error (note, log) h =
    failed-Between d log (if is_blank note then error else error ++ codes " | " ++ note) h

escalate_opened-Within :
    (env : Environment) (d : Delivery) (channel_type root_err : Text) (log : List Action)
    (r : Result Text Text)
    → is_nil (escalation_targets d) ≡ false
    → Within d log
    → Within d (escalate_opened env d channel_type root_err log r).1
unfolding escalate_opened
escalate_opened-Within env d channel_type root_err log (err e) targets h = h
escalate_opened-Within env d channel_type root_err log (ok config) targets h =
    send-Within d log (escalated d channel_type config root_err) targets h

escalate_channel-Within :
    (env : Environment) (d : Delivery) (root_err : Text) (log : List Action)
    (channel_type encrypted : Option Text)
    → Within d log
    → Within d (escalate_channel env d root_err log channel_type encrypted).1
unfolding escalate_channel
escalate_channel-Within env d root_err log (some channel_type) (some encrypted) h =
    elim (Bool-cases (is_nil (escalation_targets d))) [
      | inl nobody ↦ rw (nobody, escalate_channel) h
      | inr targets ↦
          rw (targets, escalate_channel)
            (escalate_opened-Within env d channel_type root_err log
              (open_config env (prefix d.kind ++ codes "escalation decrypt failed: ")
                (prefix d.kind ++ codes "escalation config parse failed: ") encrypted)
              targets h)
    ]
escalate_channel-Within env d root_err log none encrypted h = h
escalate_channel-Within env d root_err log (some channel_type) none h = h

try_escalation-Within :
    (env : Environment) (d : Delivery) (root_err : Text) (failed_attempt : ℕ) (log : List Action)
    → Within d log
    → Within d (try_escalation env d root_err failed_attempt log).1
unfolding try_escalation
try_escalation-Within env d root_err failed_attempt log h =
    elim (Bool-cases (is_blank (coalesce d.escalation_channel_id []))) [
      | inl no_channel ↦ rw (no_channel, try_escalation) h
      | inr channel ↦
          elim (Bool-cases
            (ltb 0 d.escalation_after_failures && ltb failed_attempt d.escalation_after_failures)) [
              | inl early ↦ rw (channel, early, try_escalation) h
              | inr due ↦
                  rw (channel, due, try_escalation)
                    (escalate_channel-Within env d root_err log d.escalation_channel_type
                      d.escalation_channel_config h)
            ]
    ]

settle-Between :
    (env : Environment) (d : Delivery) (log : List Action) (r : Result Text Text)
    → Within d log
    → Between (settle env d log r)
unfolding settle step
settle-Between env d log (ok provider_id) h =
    run-append_one log (mark_sent d.id (recorded_id d.kind provider_id)) none (some d.id) none h
      (rw (same_refl d.id) refl)
settle-Between env d log (err error) h =
    elim (Bool-cases (leb d.max_attempts (d.attempt_count + 1))) [
      | inl over ↦ rw over (
          give_up-Between d error (try_escalation env d error (d.attempt_count + 1) log)
            (try_escalation-Within env d error (d.attempt_count + 1) log h))
      | inr left ↦ rw left (
          run-append_one log
            (mark_retry d.id (pos (env.now log) +ℤ retry_backoff env.overflow (d.attempt_count + 1))
              error)
            none (some d.id) none h (rw (same_refl d.id) refl))
    ]

send_opened-Between :
    (env : Environment) (d : Delivery) (log : List Action) (r : Result Text Text)
    → is_nil (trimmed d.recipients) ≡ false
    → Within d log
    → Between (send_opened env d log r)
unfolding send_opened
send_opened-Between env d log (err e) recipients h = failed-Between d log e h
send_opened-Between env d log (ok config) recipients h =
    settle-Between env d (log ++ send (message_of d config) ∷ [])
      (env.deliver log (message_of d config)) (send-Within d log (message_of d config) recipients h)

process_marked-Between :
    (env : Environment) (d : Delivery) (log : List Action)
    → Within d log
    → Between (process_marked env d log)
unfolding process_marked
process_marked-Between env d log h = elim (Bool-cases (is_nil (trimmed d.recipients))) [
  | inl nobody ↦
      rw (nobody, process_marked)
        (failed-Between d log (prefix d.kind ++ codes "route has no recipients") h)
  | inr recipients ↦
      rw (recipients, process_marked)
        (send_opened-Between env d log
          (open_config env (codes "decrypt channel config: ") (codes "parse channel config: ")
            d.channel_config)
          recipients h)
]

process_one-Between :
    (env : Environment) (d : Delivery) (log : List Action)
    → Between log
    → Between (process_one env d log)
unfolding process_one step
process_one-Between env d log h = elim (Bool-cases (env.marks_sending log d.id)) [
  | inl marks ↦ rw marks (
      process_marked-Between env d (log ++ mark_sending d.id ∷ [])
        (run-append_one log (mark_sending d.id) none none (some d.id) h refl))
  | inr error ↦ rw error h
]

process_due-Between :
    (env : Environment) (ds : List Delivery) (log : List Action)
    → Between log
    → Between (process_due env ds log)
unfolding process_due
process_due-Between env [] log h = h
process_due-Between env (d ∷ ds) log h =
    process_due-Between env ds (process_one env d log) (process_one-Between env d log h)

-- Whatever the database, the keys and the channels answer, the actions of a tick fall into one run of
-- steps for each delivery that is marked as being sent: it is settled exactly once, as failed, to be
-- retried or sent, before the next one starts, and each of its messages goes to at least one recipient.
pub process_due-run :
    (env : Environment) (ds : List Delivery) → run (process_due env ds []) none ≡ some none
unfolding run
process_due-run env ds = process_due-Between env ds [] refl

-- ===== src/Alerts/Delivery.antt =====
-- The delivery of dispatch jobs and digests: `processDueJobs`, `processDueDigests` and the escalation
-- (internal/alerts/dispatcher.go). The two kinds go through the same steps with different words. The
-- subject and the body of a message, which templates give, are fields of the delivery.
use Prim.Native.Nat.{ℕ, zero, suc, ◌+◌, ◌*◌, ◌^◌}
use mathlib.Core.Bool.{Bool, true, false, ◌&&◌}
use mathlib.Core.Option.{Option, none, some}
use mathlib.Core.List.{List, [], ◌∷◌, ◌++◌}
use ch_ui.Prelude.Tests.{ltb, leb, if◌then◌else◌}
use ch_ui.Prelude.Int.{ℤ, pos, ◌+ℤ◌, ltb_ℤ}
use ch_ui.Prelude.Text.{Text, codes, is_blank, trim}
use ch_ui.Prelude.Clock.{second, minute}
use ch_ui.Prelude.Result.{Result, ok, err}

pub data Kind : Type 0 where
  job digest : Kind

-- The fields of `AlertDispatchJobWithDetails` and of `AlertRouteDigestWithDetails` that are read. The
-- lists of recipients are what `json.Unmarshal` reads from their columns, empty on an error.
pub record Delivery : Type 0 where
  pub kind : Kind
  pub id : Text
  pub attempt_count : ℕ
  pub max_attempts : ℕ
  pub recipients : List Text
  pub channel_type : Text
  pub channel_config : Text
  pub escalation_channel_id : Option Text
  pub escalation_after_failures : ℕ
  pub escalation_channel_name : Option Text
  pub escalation_channel_type : Option Text
  pub escalation_channel_config : Option Text
  pub escalation_recipients : List Text
  pub subject : Text
  pub body : Text

pub record Message : Type 0 where
  pub channel_type : Text
  pub channel_config : Text
  pub recipients : List Text
  pub subject : Text
  pub body : Text

pub data Action : Type 0 where
  mark_sending : Text → Action
  mark_failed : Text → Text → Action
  mark_retry : Text → ℤ → Text → Action
  mark_sent : Text → Text → Action
  send : Message → Action

-- `marks_sending` says whether the first mark succeeds. `decrypt` and `parse` open a channel's
-- configuration. `deliver` is the answer of the channel after the actions so far: the provider's
-- identifier or an error. `overflow` is what a floating-point number that does not fit in 64 bits is
-- converted to, which Go leaves to the implementation.
pub record Environment : Type 0 where
  pub marks_sending : List Action → Text → Bool
  pub decrypt : Text → Result Text Text
  pub parse : Text → Result Text Text
  pub deliver : List Action → Message → Result Text Text
  pub now : List Action → ℕ
  pub overflow : ℤ

unfoldable pub trimmed : List Text → List Text
trimmed [] = []
trimmed (v ∷ vs) = let rest = trimmed vs in if is_blank (trim v) then rest else trim v ∷ rest

abbrev pub is_nil : List Text → Bool
is_nil [] = true
is_nil (x ∷ xs) = false

unfoldable pub coalesce : Option Text → Text → Text
coalesce none fallback = fallback
coalesce (some v) fallback = if is_blank (trim v) then fallback else v

abbrev half_hour : ℕ
half_hour = 30 * minute

-- The duration that is computed for the attempt `suc n`. The product of floating-point numbers is
-- exact; from the attempt 31 on it does not fit in 64 bits, and is converted to `overflow`.
unfoldable pub backoff_product : ℤ → ℕ → ℤ
backoff_product overflow n = if leb 30 n then overflow else pos (2 ^ n * (10 * second))

unfoldable pub retry_backoff : ℤ → ℕ → ℤ
unfolding backoff_product
retry_backoff overflow zero = pos (10 * second)
retry_backoff overflow (suc n) =
    let d = backoff_product overflow n in if ltb_ℤ (pos half_hour) d then pos half_hour else d

-- The identifier of the provider that is stored: digests store none.
abbrev pub recorded_id : Kind → Text → Text
recorded_id job provider_id = provider_id
recorded_id digest provider_id = []

-- The words in which the escalations of jobs and of digests differ.
abbrev pub prefix : Kind → Text
prefix job = []
prefix digest = codes "digest "

abbrev no_recipients : Kind → Text
no_recipients job = codes "escalation skipped: no escalation recipients"
no_recipients digest = codes "digest escalation skipped: no recipients"

-- The recipients of the escalation, or else those of the route.
unfoldable pub escalation_targets : Delivery → List Text
unfolding trimmed
escalation_targets d =
    if is_nil (trimmed d.escalation_recipients)
    then trimmed d.recipients
    else trimmed d.escalation_recipients

-- Opens a configuration: the label of the first step that fails, with its error.
unfoldable pub parsed : Text → Result Text Text → Result Text Text
parsed label (ok config) = ok config
parsed label (err e) = err (label ++ e)

unfoldable pub open_config : Environment → Text → Text → Text → Result Text Text
unfolding parsed
open_config env decrypt_label parse_label encrypted = elim (env.decrypt encrypted) [
  | err e ↦ err (decrypt_label ++ e)
  | ok plain ↦ parsed parse_label (env.parse plain)
]

abbrev pub escalated : Delivery → Text → Text → Text → Message
escalated d channel_type config root_err = record {
  channel_type = channel_type;
  channel_config = config;
  recipients = escalation_targets d;
  subject = codes "[ESCALATED] " ++ d.subject;
  body = d.body ++ codes "\n\nEscalation reason:\n" ++ root_err;
}

unfoldable pub escalation_note : Delivery → Result Text Text → Text
unfolding coalesce
escalation_note d (err e) = prefix d.kind ++ codes "escalation send failed: " ++ e
escalation_note d (ok provider_id) =
    prefix d.kind ++ codes "escalated via " ++ coalesce d.escalation_channel_name (codes "channel")

unfoldable pub escalate_opened :
    Environment → Delivery → Text → Text → List Action → Result Text Text → Text × List Action
unfolding escalation_note
escalate_opened env d channel_type root_err log (err e) = (e, log)
escalate_opened env d channel_type root_err log (ok config) =
    let message = escalated d channel_type config root_err in
    (escalation_note d (env.deliver log message), log ++ send message ∷ [])

unfoldable pub escalate_channel :
    Environment → Delivery → Text → List Action → Option Text → Option Text → Text × List Action
unfolding escalate_opened open_config escalation_targets
escalate_channel env d root_err log (some channel_type) (some encrypted) =
    if is_nil (escalation_targets d)
    then (no_recipients d.kind, log)
    else escalate_opened env d channel_type root_err log (
        open_config env (prefix d.kind ++ codes "escalation decrypt failed: ")
          (prefix d.kind ++ codes "escalation config parse failed: ") encrypted)
escalate_channel env d root_err log channel_type encrypted =
    (prefix d.kind ++ codes "escalation skipped: channel metadata unavailable", log)

-- `tryEscalationForDispatchJob` and `tryEscalationForDigest`: the note, and the log with a send.
unfoldable pub try_escalation : Environment → Delivery → Text → ℕ → List Action → Text × List Action
unfolding escalate_channel coalesce
try_escalation env d root_err failed_attempt log =
    if is_blank (coalesce d.escalation_channel_id [])
    then ([], log)
    else if ltb 0 d.escalation_after_failures && ltb failed_attempt d.escalation_after_failures
    then ([], log)
    else escalate_channel env d root_err log d.escalation_channel_type d.escalation_channel_config

-- The end of a delivery whose last attempt has failed.
unfoldable pub give_up : Delivery → Text → Text × List Action → List Action
give_up d error (note, log) =
    let message = if is_blank note then error else error ++ codes " | " ++ note in
    log ++ mark_failed d.id message ∷ []

-- What follows the answer of the channel.
unfoldable pub settle : Environment → Delivery → List Action → Result Text Text → List Action
unfolding give_up try_escalation retry_backoff
settle env d log (ok provider_id) = log ++ mark_sent d.id (recorded_id d.kind provider_id) ∷ []
settle env d log (err error) =
    let next_attempt = d.attempt_count + 1 in
    if leb d.max_attempts next_attempt
    then give_up d error (try_escalation env d error next_attempt log)
    else log
      ++ mark_retry d.id (pos (env.now log) +ℤ retry_backoff env.overflow next_attempt) error ∷ []

abbrev pub message_of : Delivery → Text → Message
message_of d config = record {
  channel_type = d.channel_type;
  channel_config = config;
  recipients = trimmed d.recipients;
  subject = d.subject;
  body = d.body;
}

unfoldable pub send_opened : Environment → Delivery → List Action → Result Text Text → List Action
unfolding settle
send_opened env d log (err e) = log ++ mark_failed d.id e ∷ []
send_opened env d log (ok config) =
    let message = message_of d config in
    settle env d (log ++ send message ∷ []) (env.deliver log message)

-- One round of the loop, once the mark has been made.
unfoldable pub process_marked : Environment → Delivery → List Action → List Action
unfolding send_opened open_config trimmed
process_marked env d log =
    if is_nil (trimmed d.recipients)
    then log ++ mark_failed d.id (prefix d.kind ++ codes "route has no recipients") ∷ []
    else send_opened env d log (
        open_config env (codes "decrypt channel config: ") (codes "parse channel config: ")
          d.channel_config)

unfoldable pub process_one : Environment → Delivery → List Action → List Action
unfolding process_marked
process_one env d log =
    if env.marks_sending log d.id then process_marked env d (log ++ mark_sending d.id ∷ []) else log

-- `processDueJobs` and `processDueDigests`, for the rows that are due.
unfoldable pub process_due : Environment → List Delivery → List Action → List Action
unfolding process_one
process_due env [] log = log
process_due env (d ∷ ds) log = process_due env ds (process_one env d log)

-- ===== src/Alerts/Examples.antt =====
-- Tests and witnesses for the alert dispatcher.
use Prim.Native.Nat.{◌*◌}
use mathlib.Core.Path.{◌≡◌, refl}
use mathlib.Core.Bool.{true, false}
use mathlib.Core.Option.{none, some}
use mathlib.Core.List.{[], ◌∷◌}
use ch_ui.Prelude.Lists.{All, length}
use ch_ui.Prelude.Int.{negsuc}
use ch_ui.Prelude.Text.{Text, codes, lower, same, trim}
use ch_ui.Prelude.Maps.{lookup}
use ch_ui.Prelude.Clock.{minute}
use ch_ui.Prelude.Result.{ok, err}
use ch_ui.Alerts.Materialize.{
  AlertRule, AlertRoute, AlertEvent, materialize_event_jobs, handle_event, handle_rule,
  rule_matches_event, handle_route, is_digest, is_suppressed,
}
use ch_ui.Alerts.MaterializeLaws.{Justified, marked, materialize_event_jobs-marks}
use ch_ui.Alerts.Delivery.{Delivery, job, Environment, process_due}
use ch_ui.Alerts.DeliveryLaws.{run, process_due-run}

abbrev rule : AlertRule
rule = record {
  id = codes "r1";
  event_type = codes "any";
  severity_min = codes "warn";
  cooldown_seconds = 300;
  max_attempts = 5;
}

abbrev event : Text → AlertEvent
event severity = record {
  id = codes "e1";
  event_type = codes "schedule.failed";
  severity = severity;
  fingerprint = some (codes "f");
}

abbrev route : Text → AlertRoute
route mode = record {
  id = codes "t1";
  channel_id = codes "c1";
  recipients = codes "ann@example.org" ∷ [];
  delivery_mode = mode;
}

abbrev reads : ch_ui.Alerts.Materialize.Environment
reads = record {
  active_routes = λ log id. some (route (codes "immediate") ∷ route (codes "Digest") ∷ []);
  has_recent_dispatch = λ log id fingerprint since. some false;
}

-- A job, a digest and the mark for the first event; the mark alone for the second.
length-materialize :
    length (
      materialize_event_jobs reads
        (some (event (codes "error") ∷ event (codes "info") ∷ []))
        (some (rule ∷ []))
        (1000 * minute))
    ≡ 4
unfolding materialize_event_jobs lower same trim handle_event handle_rule rule_matches_event lookup
    handle_route is_digest is_suppressed
length-materialize = refl

materialize_event_jobs-marks_example :
    All Justified (
      materialize_event_jobs reads
        (some (event (codes "error") ∷ event (codes "info") ∷ []))
        (some (rule ∷ []))
        (1000 * minute))
    × (marked (
          materialize_event_jobs reads
            (some (event (codes "error") ∷ event (codes "info") ∷ []))
            (some (rule ∷ []))
            (1000 * minute))
        ≡ event (codes "error") ∷ event (codes "info") ∷ [])
materialize_event_jobs-marks_example =
    materialize_event_jobs-marks reads (event (codes "error") ∷ event (codes "info") ∷ [])
      (rule ∷ []) (1000 * minute)

abbrev delivery : Delivery
delivery = record {
  kind = job;
  id = codes "j1";
  attempt_count = 4;
  max_attempts = 5;
  recipients = codes " ann@example.org" ∷ [];
  channel_type = codes "smtp";
  channel_config = codes "sealed";
  escalation_channel_id = some (codes "c2");
  escalation_after_failures = 2;
  escalation_channel_name = none;
  escalation_channel_type = some (codes "brevo");
  escalation_channel_config = some (codes "sealed");
  escalation_recipients = [];
  subject = codes "s";
  body = codes "b";
}

abbrev failing : Environment
failing = record {
  marks_sending = λ log id. true;
  decrypt = λ t. ok t;
  parse = λ t. ok t;
  deliver = λ log m. err (codes "down");
  now = λ log. 0;
  overflow = negsuc 0;
}

-- The mark, the message, the escalation's message and the failure.
length-process_due : length (process_due failing (delivery ∷ []) []) ≡ 4
unfolding process_due trim
length-process_due = refl

process_due-run_example : run (process_due failing (delivery ∷ delivery ∷ []) []) none ≡ some none
process_due-run_example = process_due-run failing (delivery ∷ delivery ∷ [])

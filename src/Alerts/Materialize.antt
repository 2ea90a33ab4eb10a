-- ===== src/Alerts/Materialize.antt =====
-- From events to dispatch jobs: `materializeEventJobs` and the matching of rules
-- (internal/alerts/dispatcher.go). The reads of the database answer as an environment after the writes
-- so far, the writes are actions; an error of a write is only logged by the source.
use Prim.Native.Nat.{ℕ, ◌*◌}
use mathlib.Core.Bool.{Bool, true, false, not, ◌&&◌}
use mathlib.Core.Option.{Option, none, some}
use mathlib.Core.List.{List, [], ◌∷◌, ◌++◌}
use ch_ui.Prelude.Tests.{ltb, leb, if◌then◌else◌}
use ch_ui.Prelude.Int.{ℤ, pos, ◌-ℤ◌}
use ch_ui.Prelude.Text.{Text, codes, same, is_blank, lower, trim}
use ch_ui.Prelude.Maps.{lookup, insert}
use ch_ui.Prelude.Clock.{second}

-- The fields of `AlertRule`, `AlertRuleRouteView` and `AlertEvent` that the dispatcher reads. A
-- cooldown that is not positive stands as 0.
pub record AlertRule : Type 0 where
  pub id : Text
  pub event_type : Text
  pub severity_min : Text
  pub cooldown_seconds : ℕ
  pub max_attempts : ℕ

pub record AlertRoute : Type 0 where
  pub id : Text
  pub channel_id : Text
  pub recipients : List Text
  pub delivery_mode : Text

pub record AlertEvent : Type 0 where
  pub id : Text
  pub event_type : Text
  pub severity : Text
  pub fingerprint : Option Text

pub data Action : Type 0 where
  upsert_digest : AlertRule → AlertRoute → AlertEvent → ℕ → Action
  create_job : AlertEvent → AlertRule → AlertRoute → ℕ → Action
  mark_processed : AlertEvent → Action

-- `none` is an error of the read.
pub record Environment : Type 0 where
  pub active_routes : List Action → Text → Option (List AlertRoute)
  pub has_recent_dispatch : List Action → Text → Text → ℤ → Option Bool

unfoldable pub severity_rank : Text → ℕ
severity_rank s =
    let severity = lower (trim s) in
    if same severity (codes "info")
    then 1
    else if same severity (codes "warn")
    then 2
    else if same severity (codes "error")
    then 3
    else if same severity (codes "critical")
    then 4
    else 0

unfoldable pub rule_matches_event : AlertRule → AlertEvent → Bool
unfolding severity_rank
rule_matches_event rule event =
    let event_type = lower (trim event.event_type) in
    let rule_type = lower (trim rule.event_type) in
    if not (same rule_type (codes "*"))
      && not (same rule_type (codes "any"))
      && not (same rule_type event_type)
    then false
    else leb (severity_rank rule.severity_min) (severity_rank event.severity)

unfoldable pub is_digest : AlertRoute → Bool
is_digest route = same (lower (trim route.delivery_mode)) (codes "digest")

abbrev pub has_none : List Text → Bool
has_none [] = true
has_none (r ∷ rs) = false

-- The check for a recent dispatch with the event's fingerprint; an error does not suppress the job.
unfoldable pub is_recent : Option Bool → Bool
is_recent none = false
is_recent (some exists) = exists

unfoldable pub is_suppressed :
    Environment → List Action → AlertRule → AlertRoute → ℕ → Option Text → Bool
unfolding is_recent
is_suppressed env log rule route now none = false
is_suppressed env log rule route now (some fingerprint) =
    not (is_blank (trim fingerprint))
    && ltb 0 rule.cooldown_seconds
    && is_recent (
        env.has_recent_dispatch log route.id fingerprint
          (pos now -ℤ pos (rule.cooldown_seconds * second)))

-- One round of the loop over the routes.
unfoldable pub handle_route :
    Environment → AlertRule → AlertEvent → ℕ → AlertRoute → List Action → List Action
handle_route env rule event now route log =
    if has_none route.recipients
    then log
    else if is_digest route
    then log ++ upsert_digest rule route event now ∷ []
    else if is_suppressed env log rule route now event.fingerprint
    then log
    else log ++ create_job event rule route now ∷ []

unfoldable pub handle_routes :
    Environment → AlertRule → AlertEvent → ℕ → List AlertRoute → List Action → List Action
handle_routes env rule event now [] log = log
handle_routes env rule event now (route ∷ routes) log =
    handle_routes env rule event now routes (handle_route env rule event now route log)

-- The routes of the rules that were listed so far, and the writes.
pub record Tick : Type 0 where
  pub routes_by_rule : List (Text × List AlertRoute)
  pub log : List Action

-- The routes of a rule that matches: those listed before, or listed now.
unfoldable pub with_routes :
    Environment → AlertRule → AlertEvent → ℕ → Tick → Option (List AlertRoute) → Tick
unfolding handle_routes
with_routes env rule event now tick (some routes) = record tick {
  log = handle_routes env rule event now routes tick.log;
}
with_routes env rule event now tick none = elim (env.active_routes tick.log rule.id) [
  | none ↦ tick
  | some routes ↦ record {
    routes_by_rule = insert rule.id routes tick.routes_by_rule;
    log = handle_routes env rule event now routes tick.log;
  }
]

unfoldable pub handle_rule : Environment → AlertEvent → ℕ → AlertRule → Tick → Tick
unfolding with_routes
handle_rule env event now rule tick =
    if rule_matches_event rule event
    then with_routes env rule event now tick (lookup rule.id tick.routes_by_rule)
    else tick

unfoldable pub handle_rules : Environment → AlertEvent → ℕ → List AlertRule → Tick → Tick
handle_rules env event now [] tick = tick
handle_rules env event now (rule ∷ rules) tick =
    handle_rules env event now rules (handle_rule env event now rule tick)

unfoldable pub handle_event : Environment → List AlertRule → ℕ → AlertEvent → Tick → Tick
unfolding handle_rules
handle_event env rules now event tick =
    let done = handle_rules env event now rules tick in
    record done { log = done.log ++ mark_processed event ∷ [] }

unfoldable pub handle_events : Environment → List AlertRule → ℕ → List AlertEvent → Tick → Tick
handle_events env rules now [] tick = tick
handle_events env rules now (event ∷ events) tick =
    handle_events env rules now events (handle_event env rules now event tick)

-- `events` and `rules` are what the first two reads return, `none` an error.
unfoldable pub materialize_event_jobs :
    Environment → Option (List AlertEvent) → Option (List AlertRule) → ℕ → List Action
unfolding handle_events
materialize_event_jobs env none rules now = []
materialize_event_jobs env (some events) none now = []
materialize_event_jobs env (some events) (some rules) now =
    (handle_events env rules now events (record { routes_by_rule = []; log = [] })).log

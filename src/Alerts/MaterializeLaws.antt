-- ===== src/Alerts/MaterializeLaws.antt =====
-- What `materializeEventJobs` (internal/alerts/dispatcher.go) writes.
use Prim.Native.Nat.{ℕ}
use mathlib.Core.Path.{◌≡◌, refl, sym, ap, ◌∙◌}
use mathlib.Core.Logic.{inl, inr}
use mathlib.Core.Bool.{true, false}
use mathlib.Core.Option.{Option, none, some}
use mathlib.Core.List.{List, [], ◌∷◌, ◌++◌, append_assoc, append-nil}
use ch_ui.Prelude.Tests.{Bool-cases, Option-cases}
use ch_ui.Prelude.Lists.{All, All-append}
use ch_ui.Prelude.Maps.{lookup}
use ch_ui.Alerts.Materialize.{
  AlertRule, AlertRoute, AlertEvent, Action, upsert_digest, create_job, mark_processed, Environment,
  Tick, rule_matches_event, is_digest, has_none, is_suppressed, handle_route, handle_routes,
  with_routes, handle_rule, handle_rules, handle_event, handle_events, materialize_event_jobs,
}

-- A digest or a job is written only for a rule that matches the event and a route that has recipients
-- and the fitting mode.
abbrev pub Justified : Action → Type 0
Justified (upsert_digest rule route event now) =
    (rule_matches_event rule event ≡ true)
    × (has_none route.recipients ≡ false)
    × (is_digest route ≡ true)
Justified (create_job event rule route now) =
    (rule_matches_event rule event ≡ true)
    × (has_none route.recipients ≡ false)
    × (is_digest route ≡ false)
Justified (mark_processed event) = Unit

-- The events that are marked, in order.
unfoldable pub marked : List Action → List AlertEvent
marked [] = []
marked (mark_processed event ∷ log) = event ∷ marked log
marked (upsert_digest rule route event now ∷ log) = marked log
marked (create_job event rule route now ∷ log) = marked log

marked-append : (xs ys : List Action) → marked (xs ++ ys) ≡ marked xs ++ marked ys
unfolding marked
marked-append [] ys = refl
marked-append (mark_processed event ∷ xs) ys = ap (λ l. event ∷ l) (marked-append xs ys)
marked-append (upsert_digest rule route event now ∷ xs) ys = marked-append xs ys
marked-append (create_job event rule route now ∷ xs) ys = marked-append xs ys

-- The log stays justified, and marks the same events.
abbrev Kept : List Action → List Action → Type 0
Kept before after = All Justified after × (marked after ≡ marked before)

module _ (env : Environment) where
  handle_route-Kept :
      (rule : AlertRule) (event : AlertEvent) (now : ℕ) (route : AlertRoute) (log : List Action)
      → rule_matches_event rule event ≡ true
      → All Justified log
      → Kept log (handle_route env rule event now route log)
  unfolding handle_route marked
  handle_route-Kept rule event now route log hit good =
      elim (Bool-cases (has_none route.recipients)) [
        | inl nobody ↦ rw nobody (good, refl)
        | inr someone ↦ elim (Bool-cases (is_digest route)) [
          | inl digest ↦
              rw (someone, digest)
                (
                  All-append Justified log (upsert_digest rule route event now ∷ []) good
                      ((hit, someone, digest), tt),
                  marked-append log (upsert_digest rule route event now ∷ [])
                      ∙ append-nil (marked log),
                )
          | inr single ↦
              elim (Bool-cases (is_suppressed env log rule route now event.fingerprint)) [
                | inl recent ↦ rw (someone, single, recent) (good, refl)
                | inr new ↦
                    rw (someone, single, new)
                      (
                        All-append Justified log (create_job event rule route now ∷ []) good
                            ((hit, someone, single), tt),
                        marked-append log (create_job event rule route now ∷ [])
                            ∙ append-nil (marked log),
                      )
              ]
        ]
      ]

  handle_routes-Kept :
      (rule : AlertRule) (event : AlertEvent) (now : ℕ) (routes : List AlertRoute)
      (log : List Action)
      → rule_matches_event rule event ≡ true
      → All Justified log
      → Kept log (handle_routes env rule event now routes log)
  unfolding handle_routes
  handle_routes-Kept rule event now [] log hit good = (good, refl)
  handle_routes-Kept rule event now (route ∷ routes) log hit good =
      let (good', e) = handle_route-Kept rule event now route log hit good in
      let (good'', e') =
        handle_routes-Kept rule event now routes (handle_route env rule event now route log) hit
          good' in
      (good'', e' ∙ e)

  with_routes-Kept :
      (rule : AlertRule) (event : AlertEvent) (now : ℕ) (tick : Tick) (o : Option (List AlertRoute))
      → rule_matches_event rule event ≡ true
      → All Justified tick.log
      → Kept tick.log (with_routes env rule event now tick o).log
  unfolding with_routes
  with_routes-Kept rule event now tick (some routes) hit good =
      handle_routes-Kept rule event now routes tick.log hit good
  with_routes-Kept rule event now tick none hit good =
      elim (Option-cases (env.active_routes tick.log rule.id)) [
        | inl failed ↦ rw (failed, with_routes) (good, refl)
        | inr (routes, listed) ↦
            rw (listed, with_routes) (handle_routes-Kept rule event now routes tick.log hit good)
      ]

  handle_rule-Kept :
      (event : AlertEvent) (now : ℕ) (rule : AlertRule) (tick : Tick)
      → All Justified tick.log
      → Kept tick.log (handle_rule env event now rule tick).log
  unfolding handle_rule
  handle_rule-Kept event now rule tick good = elim (Bool-cases (rule_matches_event rule event)) [
    | inl hit ↦
        rw hit (with_routes-Kept rule event now tick (lookup rule.id tick.routes_by_rule) hit good)
    | inr miss ↦ rw miss (good, refl)
  ]

  handle_rules-Kept :
      (event : AlertEvent) (now : ℕ) (rules : List AlertRule) (tick : Tick)
      → All Justified tick.log
      → Kept tick.log (handle_rules env event now rules tick).log
  unfolding handle_rules
  handle_rules-Kept event now [] tick good = (good, refl)
  handle_rules-Kept event now (rule ∷ rules) tick good =
      let (good', e) = handle_rule-Kept event now rule tick good in
      let (good'', e') =
        handle_rules-Kept event now rules (handle_rule env event now rule tick) good' in
      (good'', e' ∙ e)

  handle_event-marks :
      (rules : List AlertRule) (now : ℕ) (event : AlertEvent) (tick : Tick)
      → All Justified tick.log
      → All Justified (handle_event env rules now event tick).log
        × (marked (handle_event env rules now event tick).log ≡ marked tick.log ++ event ∷ [])
  unfolding handle_event marked
  handle_event-marks rules now event tick good =
      let (good', e) = handle_rules-Kept event now rules tick good in
      let done = (handle_rules env event now rules tick).log in
      (
        All-append Justified done (mark_processed event ∷ []) good' (tt, tt),
        marked-append done (mark_processed event ∷ []) ∙ ap (λ l. l ++ event ∷ []) e,
      )

  handle_events-marks :
      (rules : List AlertRule) (now : ℕ) (events : List AlertEvent) (tick : Tick)
      → All Justified tick.log
      → All Justified (handle_events env rules now events tick).log
        × (marked (handle_events env rules now events tick).log ≡ marked tick.log ++ events)
  unfolding handle_events
  handle_events-marks rules now [] tick good = (good, sym (append-nil (marked tick.log)))
  handle_events-marks rules now (event ∷ events) tick good =
      let (good', e) = handle_event-marks rules now event tick good in
      let (good'', e') =
        handle_events-marks rules now events (handle_event env rules now event tick) good' in
      (good'', e' ∙ ap (λ l. l ++ events) e ∙ append_assoc (marked tick.log) (event ∷ []) events)

-- Where both reads succeed, a tick marks every listed event as processed exactly once and in order,
-- whatever the other reads answer; each job or digest that it writes is for a rule that matches the
-- event and for a route that has recipients and is in the fitting mode.
pub materialize_event_jobs-marks :
    (env : Environment) (events : List AlertEvent) (rules : List AlertRule) (now : ℕ)
    → All Justified (materialize_event_jobs env (some events) (some rules) now)
      × (marked (materialize_event_jobs env (some events) (some rules) now) ≡ events)
unfolding materialize_event_jobs marked
materialize_event_jobs-marks env events rules now =
    handle_events-marks env rules now events (record { routes_by_rule = []; log = [] }) tt

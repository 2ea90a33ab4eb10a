-- ===== src/Governance/Guardrail.antt =====
-- The check before a query runs: internal/governance/guardrails.go. What the store and the alert
-- writer answer is an environment; the rows and events that the check writes are its actions.
use Prim.Native.Nat.{ℕ, ◌+◌}
use mathlib.Core.Bool.{Bool, true, not, ◌&&◌, ◌||◌}
use mathlib.Core.Option.{Option, none, some}
use mathlib.Core.List.{List, [], ◌∷◌, ◌++◌}
use ch_ui.Prelude.Tests.{ltb, if◌then◌else◌}
use ch_ui.Prelude.Lists.{keep, take}
use ch_ui.Prelude.Text.{Text, codes, same, is_blank, lower, trim}
use ch_ui.Prelude.Clock.{Moment, zero_time, at}
use ch_ui.Prelude.Result.{Result, ok, err}
use ch_ui.Governance.Policy.{
  Policy, AccessMatrixEntry, collect_user_roles, has_role, query_touches_object,
  normalize_policy_enforcement_mode, describe_policy_object, quoted,
}
use ch_ui.Governance.Pick.{normalize_guardrail_severity, pick_blocking_policy}
use ch_ui.Governance.Normalize.{normalize_query}

-- The fields of `SyncState` that the check reads.
pub record SyncState : Type 0 where
  pub status : Text
  pub last_synced_at : Option Text

pub data Action : Type 0 where
  create_violation :
      (connection_id policy_id query_log_id user detail severity phase endpoint : Text) → Action
  upsert_incident : (connection_id source_ref policy_name user severity detail : Text) → Action
  create_alert_event :
      (connection_id event_type severity title message : Text)
      → List (Text × Text)
      → (fingerprint source_ref : Text) → Action

-- `none` is an error; for the sync state, `some none` is a row that is missing. `violation_id` is the
-- answer of `CreateViolation`, `parse_time` is `time.Parse(time.RFC3339, …)` and `sum` is SHA-256 in
-- hexadecimal digits. `has_alerts` says that the service has an alert writer.
pub record Environment : Type 0 where
  pub enabled_policies : Option (List Policy)
  pub access_matrix : Option (List AccessMatrixEntry)
  pub sync_state : Option (Option SyncState)
  pub violation_id : Option Text
  pub has_alerts : Bool
  pub now : ℕ
  pub stale_after : ℕ
  pub parse_time : Text → Option Moment
  pub sum : Text → Text

-- The connection, the user, the text and the endpoint of the query in question.
pub record Request : Type 0 where
  pub connection_id : Text
  pub user : Text
  pub query_text : Text
  pub endpoint : Text

pub record GuardrailBlock : Type 0 where
  pub policy_id : Text
  pub policy_name : Text
  pub severity : Text
  pub enforcement_mode : Text
  pub violation_id : Text
  pub detail : Text

pub data GuardrailDecision : Type 0 where
  allowed : GuardrailDecision
  blocked : GuardrailBlock → GuardrailDecision

unfoldable pub hash_normalized : Environment → Text → Text
unfolding take
hash_normalized env normalized = take 32 (env.sum normalized)

-- `s.now().UTC().Sub(lastSyncedAt.UTC()) > s.staleAfter`: the difference from the zero time is the
-- largest duration.
unfoldable pub is_stale : Environment → Moment → Bool
is_stale env zero_time = true
is_stale env (at last_synced_at) = ltb (last_synced_at + env.stale_after) env.now

unfoldable pub stamp_uncertain : Environment → Option Moment → Option Text
unfolding is_stale
stamp_uncertain env none = some (codes "governance access sync timestamp is invalid")
stamp_uncertain env (some t) =
    if is_stale env t then some (codes "governance access sync state is stale") else none

-- From `state.LastSyncedAt` on.
unfoldable pub synced_uncertain : Environment → Option Text → Option Text
unfolding stamp_uncertain
synced_uncertain env none = some (codes "governance access sync has no successful sync timestamp")
synced_uncertain env (some raw) =
    if is_blank (trim raw)
    then some (codes "governance access sync has no successful sync timestamp")
    else stamp_uncertain env (env.parse_time (trim raw))

unfoldable pub state_uncertain : Environment → Option (Option SyncState) → Option Text
unfolding synced_uncertain
state_uncertain env none = some (codes "failed to read governance access sync state")
state_uncertain env (some none) = some (codes "governance access sync state missing")
state_uncertain env (some (some state)) =
    if same (lower (trim state.status)) (codes "error")
    then some (codes "governance access sync state is error")
    else synced_uncertain env state.last_synced_at

-- The reason for which the access state cannot be relied on.
unfoldable pub is_access_state_uncertain : Environment → Option Text
unfolding state_uncertain
is_access_state_uncertain env = state_uncertain env env.sync_state

unfoldable pub emit_uncertain_guardrail_event : Environment → Request → Text → List Action
unfolding hash_normalized normalize_query
emit_uncertain_guardrail_event env request reason =
    let query_hash = hash_normalized env (normalize_query request.query_text) in
    if env.has_alerts
    then create_alert_event request.connection_id (codes "policy.violation") (codes "warn")
        (codes "Guardrail evaluation uncertain")
        (codes "Guardrail pre-execution evaluation could not be trusted; query was allowed")
        ((codes "guardrail_status", codes "uncertain")
          ∷ (codes "reason", reason)
          ∷ (codes "request_endpoint", request.endpoint)
          ∷ (codes "query_hash", query_hash)
          ∷ (codes "ch_user", request.user)
          ∷ [])
        (codes "guardrail:uncertain:user:"
          ++ request.user
          ++ codes ":hash:"
          ++ query_hash
          ++ codes ":endpoint:"
          ++ request.endpoint)
        []
      ∷ []
    else []

-- The conditions of the loop of `evaluate`.
unfoldable pub is_blocking : List Text → Request → List Text → Policy → Bool
unfolding query_touches_object has_role normalize_policy_enforcement_mode
is_blocking user_roles request tables_used policy =
    policy.enabled
    && query_touches_object tables_used request.query_text policy
    && not (has_role user_roles policy.required_role)
    && same (normalize_policy_enforcement_mode policy.enforcement_mode) (codes "block")

unfoldable pub block_detail : Request → Policy → Text
unfolding describe_policy_object quoted
block_detail request selected =
    codes "Query blocked before execution: user "
    ++ quoted request.user
    ++ codes " touched "
    ++ describe_policy_object selected
    ++ codes " without required role "
    ++ quoted selected.required_role

-- The alert event of a block.
unfoldable pub blocked_event : Environment → Request → Policy → Text → List Action
unfolding hash_normalized normalize_query block_detail normalize_guardrail_severity
blocked_event env request selected violation_id =
    let query_hash = hash_normalized env (normalize_query request.query_text) in
    let severity = normalize_guardrail_severity selected.severity in
    if env.has_alerts
    then create_alert_event request.connection_id (codes "policy.violation") severity
        (codes "Policy blocked query: " ++ trim selected.name) (block_detail request selected)
        ((codes "guardrail_status", codes "blocked")
          ∷ (codes "policy_id", selected.id)
          ∷ (codes "policy_name", selected.name)
          ∷ (codes "query_hash", query_hash)
          ∷ (codes "request_endpoint", request.endpoint)
          ∷ (codes "violation_id", violation_id)
          ∷ (codes "violation_severity", severity)
          ∷ (codes "detection_phase", codes "pre_exec_block")
          ∷ (codes "enforcement_mode", codes "block")
          ∷ (codes "blocked_user", request.user)
          ∷ [])
        (codes "policy:"
          ++ selected.id
          ++ codes ":user:"
          ++ request.user
          ++ codes ":hash:"
          ++ query_hash)
        violation_id
      ∷ []
    else []

-- The violation that a block writes, with the incident that follows where it was stored.
unfoldable pub record_violation : Request → Policy → Option Text → Text × List Action
unfolding block_detail normalize_guardrail_severity
record_violation request selected stored =
    let severity = normalize_guardrail_severity selected.severity in
    let detail = block_detail request selected in
    let created =
      create_violation request.connection_id selected.id [] request.user detail severity
        (codes "pre_exec_block") request.endpoint in
    elim stored [
      | none ↦ ([], created ∷ [])
      | some id ↦ (
        id,
        created
            ∷ upsert_incident request.connection_id id selected.name request.user severity detail
            ∷ [],
      )
    ]

-- The end of `evaluate`, for the policy that was picked.
unfoldable pub block : Environment → Request → Option Policy → GuardrailDecision × List Action
unfolding record_violation blocked_event block_detail normalize_guardrail_severity
block env request none = (allowed, [])
block env request (some selected) =
    let (violation_id, recorded) = record_violation request selected env.violation_id in
    (
      blocked (record {
        policy_id = selected.id;
        policy_name = selected.name;
        severity = normalize_guardrail_severity selected.severity;
        enforcement_mode = codes "block";
        violation_id = violation_id;
        detail = block_detail request selected;
      }),
      recorded ++ blocked_event env request selected violation_id,
    )

unfoldable pub decide :
    Environment
    → Request
    → List Text
    → List Policy
    → Option (List AccessMatrixEntry)
    → GuardrailDecision × List Action
unfolding block keep emit_uncertain_guardrail_event
decide env request tables_used policies none =
    (allowed, emit_uncertain_guardrail_event env request (codes "access matrix lookup failed"))
decide env request tables_used policies (some matrix) = block env request (
    pick_blocking_policy
      (keep (is_blocking (collect_user_roles matrix) request tables_used) policies))

unfoldable pub evaluate_certain :
    Environment → Request → List Text → List Policy → Option Text → GuardrailDecision × List Action
unfolding decide emit_uncertain_guardrail_event
evaluate_certain env request tables_used policies (some reason) =
    (allowed, emit_uncertain_guardrail_event env request reason)
evaluate_certain env request tables_used policies none =
    decide env request tables_used policies env.access_matrix

unfoldable pub evaluate_loaded :
    Environment
    → Request
    → List Text
    → Option (List Policy)
    → Result Text (GuardrailDecision × List Action)
unfolding evaluate_certain
evaluate_loaded env request tables_used none = err (codes "load enabled policies")
evaluate_loaded env request tables_used (some []) = ok (allowed, [])
evaluate_loaded env request tables_used (some (p ∷ ps)) =
    ok (evaluate_certain env request tables_used (p ∷ ps) (is_access_state_uncertain env))

unfoldable pub evaluate :
    Environment → Request → List Text → Result Text (GuardrailDecision × List Action)
unfolding evaluate_loaded
evaluate env request tables_used = evaluate_loaded env request tables_used env.enabled_policies

-- `EvaluateTable`, with the query that it makes up.
unfoldable pub evaluate_table :
    Environment
    → (connection_id user database_name table_name endpoint : Text)
    → Result Text (GuardrailDecision × List Action)
unfolding evaluate
evaluate_table env connection_id user database_name table_name endpoint =
    let db = trim database_name in
    let tbl = trim table_name in
    if is_blank db || is_blank tbl
    then ok (allowed, [])
    else evaluate env
        (record {
          connection_id = connection_id;
          user = user;
          query_text = codes "SELECT * FROM `" ++ db ++ codes "`.`" ++ tbl ++ codes "`";
          endpoint = endpoint;
        })
        ((db ++ codes "." ++ tbl) ∷ [])

-- ===== src/Governance/Examples.antt =====
-- Tests and witnesses for the policies and the check before a query.
use mathlib.Core.Path.{◌≡◌, refl}
use mathlib.Core.Logic.{◌↔◌}
use mathlib.Core.Bool.{true, false}
use mathlib.Core.Option.{none, some}
use mathlib.Core.List.{List, [], ◌∷◌}
use ch_ui.Prelude.Lists.{any}
use ch_ui.Prelude.Text.{Text, codes, same, lower, itoa, trim, cut}
use ch_ui.Prelude.Clock.{at, minute, second}
use ch_ui.Prelude.Result.{ok}
use ch_ui.Governance.Policy.{
  Policy, AccessMatrixEntry, QueryLogEntry, evaluate_policies, collect_user_roles, column_mentioned,
  is_ident_char, query_touches_object, has_role, touches_table, deref,
}
use ch_ui.Governance.Normalize.{normalize_query}
use ch_ui.Governance.Pick.{pick_blocking_policy, policy_less, guardrail_severity_priority}
use ch_ui.Governance.Guardrail.{
  Environment, Action, GuardrailDecision, GuardrailBlock, allowed, blocked, is_blocking, evaluate,
  is_access_state_uncertain,
}
use ch_ui.Governance.MentionLaws.{Word, column_mentioned_iff}
use ch_ui.Governance.GuardrailLaws.{Outcome, evaluate-Outcome}
use ch_ui.Governance.EscapeLaws.{request_of, evaluate-evaluate_policies}

normalize_query_1 :
    normalize_query (codes "select  x1, 12.5e 3 from t\nwhere a='o k' and b = 7.")
    ≡ codes "SELECT X1, ?5E ? FROM T WHERE A='?' AND B = ?."
unfolding normalize_query is_ident_char
normalize_query_1 = refl

abbrev policy : Text → Text → Text → Policy
policy id severity mode = record {
  id = id;
  name = codes "Pay";
  object_type = codes "Table";
  object_database = some (codes "hr");
  object_table = some (codes "pay");
  object_column = none;
  required_role = codes "Payroll";
  severity = severity;
  enforcement_mode = mode;
  enabled = true;
}

abbrev low : Policy
low = policy (codes "p1") (codes "info") (codes "block")

abbrev high : Policy
high = policy (codes "p2") (codes "Error ") (codes " Block")

abbrev mild : Policy
mild = policy (codes "p3") (codes "critical") (codes "warn")

abbrev matrix : List AccessMatrixEntry
matrix = record { role_name = some (codes "reader") } ∷ []

abbrev entry : QueryLogEntry
entry = record {
  id = codes "log1";
  user = codes "ann";
  query_text = codes "SELECT amount FROM hr.pay";
  tables_used = codes "hr.pay" ∷ [];
}

abbrev env : List Policy → Environment
env policies = record {
  enabled_policies = some policies;
  access_matrix = some matrix;
  sync_state =
      some (
        some
          (record { status = codes "ok"; last_synced_at = some (codes "1970-01-01T00:01:00Z") }));
  violation_id = some (codes "v1");
  has_alerts = true;
  now = 120000000000;
  stale_after = 600000000000;
  parse_time = λ t. some (at minute);
  sum = λ t. t;
}

column_mentioned_iff_example :
    (column_mentioned (codes "SELECT Amount FROM t") (codes "amount") ≡ true)
    ↔ Word (lower (codes "SELECT Amount FROM t")) (lower (codes "amount"))
column_mentioned_iff_example =
    column_mentioned_iff (codes "SELECT Amount FROM t") (codes "amount") refl

env_certain : (ps : List Policy) → is_access_state_uncertain (env ps) ≡ none
unfolding is_access_state_uncertain same lower trim
env_certain ps = refl

evaluate-Outcome_example :
    (decision : GuardrailDecision) × (actions : List Action) × (evaluate
        (env (low ∷ high ∷ []))
        (request_of (codes "c") entry (codes "/api/query"))
        (codes "hr.pay" ∷ [])
      ≡ ok (decision, actions))
    × Outcome
        (request_of (codes "c") entry (codes "/api/query"))
        (is_blocking
          (collect_user_roles matrix)
          (request_of (codes "c") entry (codes "/api/query"))
          (codes "hr.pay" ∷ []))
        (low ∷ high ∷ [])
        decision
        actions
evaluate-Outcome_example =
    evaluate-Outcome (env (low ∷ high ∷ [])) (request_of (codes "c") entry (codes "/api/query"))
      (codes "hr.pay" ∷ []) (low ∷ high ∷ []) matrix refl (env_certain (low ∷ high ∷ [])) refl

-- The query is blocked for the policy of the higher severity.
block_of_high : GuardrailBlock
block_of_high = record {
  policy_id = codes "p2";
  policy_name = codes "Pay";
  severity = codes "error";
  enforcement_mode = codes "block";
  violation_id = codes "v1";
  detail =
      codes
        "Query blocked before execution: user \"ann\" touched table \"hr\".\"pay\" without required role \"Payroll\"";
}

run_actions : List Policy → List Action
unfolding evaluate
run_actions ps =
    elim (evaluate (env ps) (request_of (codes "c") entry (codes "/api/query"))
      (codes "hr.pay" ∷ [])) [ ok (d, actions) ↦ actions | _ ↦ [] ]

evaluate-high :
    evaluate
      (env (low ∷ high ∷ []))
      (request_of (codes "c") entry (codes "/api/query"))
      (codes "hr.pay" ∷ [])
    ≡ ok (blocked block_of_high, run_actions (low ∷ high ∷ []))
unfolding evaluate is_ident_char is_access_state_uncertain same lower pick_blocking_policy
    is_blocking touches_table collect_user_roles policy_less guardrail_severity_priority
    block_of_high run_actions
evaluate-high = refl

evaluate-mild :
    evaluate
      (env (mild ∷ []))
      (request_of (codes "c") entry (codes "/api/query"))
      (codes "hr.pay" ∷ [])
    ≡ ok (allowed, [])
unfolding evaluate is_access_state_uncertain same lower trim pick_blocking_policy is_blocking
    touches_table collect_user_roles
evaluate-mild = refl

touches_pay : query_touches_object entry.tables_used entry.query_text mild ≡ true
unfolding query_touches_object same lower touches_table deref cut
touches_pay = refl

no_role : has_role (collect_user_roles matrix) mild.required_role ≡ false
unfolding has_role collect_user_roles same lower
no_role = refl

evaluate-evaluate_policies_example :
    any
      (λ v. same v.policy_id (codes "p3"))
      (evaluate_policies (codes "c") entry (mild ∷ []) (some matrix) (some (at second)) itoa)
    ≡ true
unfolding any same
evaluate-evaluate_policies_example =
    evaluate-evaluate_policies (env (mild ∷ [])) (codes "c") (codes "/api/query") entry
      (some (at second)) itoa [] [] mild matrix [] (codes "hr.pay" ∷ []) (refl, tt) refl
      (env_certain (mild ∷ [])) refl evaluate-mild refl touches_pay no_role

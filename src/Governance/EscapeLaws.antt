-- ===== src/Governance/EscapeLaws.antt =====
-- How the check before a query (internal/governance/guardrails.go) works together with the evaluation
-- of the query's row in the log (internal/governance/policy_engine.go).
use Prim.Native.Nat.{ℕ, ◌+◌}
use mathlib.Core.Path.{◌≡◌, refl, sym, ap, ◌∙◌}
use mathlib.Core.Logic.{inl, inr}
use mathlib.Core.Bool.{Bool, true, false, not, ◌&&◌}
use mathlib.Core.Option.{none, some}
use mathlib.Core.List.{List, [], ◌∷◌, ◌++◌}
use native.Mathlib.Omega.{arith}
use ch_ui.Prelude.Tests.{Bool-cases, or_true}
use ch_ui.Prelude.Lists.{any}
use ch_ui.Prelude.Text.{Text, codes, same, same_refl}
use ch_ui.Prelude.Clock.{Stamp}
use ch_ui.Prelude.Result.{Result, ok, err}
use ch_ui.Governance.Policy.{
  Policy, AccessMatrixEntry, QueryLogEntry, PolicyViolation, is_violated, violation_of,
  violations_from, evaluate_policies, collect_user_roles, has_role, query_touches_object,
  normalize_policy_enforcement_mode,
}
use ch_ui.Governance.Guardrail.{
  Environment, Request, Action, GuardrailDecision, allowed, blocked, is_blocking, evaluate,
  is_access_state_uncertain,
}
use ch_ui.Governance.TouchLaws.{Within, touches-Within}
use ch_ui.Governance.GuardrailLaws.{Outcome, evaluate-Outcome}

any-member :
    (q : Policy → Bool) (p : Policy) (before after : List Policy)
    → any q (before ++ p ∷ after) ≡ false
    → q p ≡ false
unfolding any
any-member q p [] after h = ground arith
any-member q p (x ∷ before) after h = any-member q p before after (ground arith)

abbrev reports : Policy → PolicyViolation → Bool
reports p v = same v.policy_id p.id

violated-reported :
    (connection_id : Text) (entry : QueryLogEntry) (now : Stamp) (new_id : ℕ → Text)
    (roles : List Text) (n : ℕ) (p : Policy) (before after : List Policy)
    → is_violated roles entry p ≡ true
    → any (reports p) (violations_from connection_id entry now new_id roles n (before ++ p ∷ after))
      ≡ true
unfolding violations_from violation_of any
violated-reported connection_id entry now new_id roles n p [] after h = rw (h, same_refl p.id) refl
violated-reported connection_id entry now new_id roles n p (x ∷ before) after h =
    elim (Bool-cases (is_violated roles entry x)) [
      | inl hit ↦ rw hit (
          rw (violated-reported connection_id entry now new_id roles (n + 1) p before after h)
            (or_true (same x.id p.id)))
      | inr miss ↦
          rw miss (violated-reported connection_id entry now new_id roles n p before after h)
    ]

warned :
    (a b b' c m : Bool)
    → a ≡ true
    → b ≡ true
    → b' ≡ true
    → c ≡ false
    → (a && b' && not c && m) ≡ false
    → (a && not m && b && not c) ≡ true
warned a b b' c m ha hb hb' hc h = ground arith

-- The query of a row of the query log, before it runs.
abbrev pub request_of : Text → QueryLogEntry → Text → Request
request_of connection_id entry endpoint = record {
  connection_id = connection_id;
  user = entry.user;
  query_text = entry.query_text;
  endpoint = endpoint;
}

allowed_none :
    (request : Request) (q : Policy → Bool) (policies : List Policy) (decision : GuardrailDecision)
    (actions : List Action)
    → decision ≡ allowed
    → Outcome request q policies decision actions
    → any q policies ≡ false
allowed_none request q policies allowed actions e h = h
allowed_none request q policies (blocked b) actions e h = cc

decision_of : Result Text (GuardrailDecision × List Action) → GuardrailDecision
decision_of (err e) = allowed
decision_of (ok (decision, actions)) = decision

-- No enabled policy is passed over between the check of a query and its row of the log, where the check
-- had all tables of the row and both read the same policies and the same access matrix: let the policies,
-- the access state and the matrix be at hand, and let the check let the query through. Then the
-- evaluation of the row reports every enabled policy whose object the row touches and whose role the
-- user does not have. In the program the check takes its tables from the text of the query and the row
-- has those that ClickHouse lists; that all tables of the row are among the first is not shown but required.
pub evaluate-evaluate_policies :
    (env : Environment) (connection_id endpoint : Text) (entry : QueryLogEntry) (now : Stamp)
    (new_id : ℕ → Text) (before after : List Policy) (p : Policy) (matrix : List AccessMatrixEntry)
    (actions : List Action) (checked : List Text)
    → Within checked entry.tables_used
    → env.enabled_policies ≡ some (before ++ p ∷ after)
    → is_access_state_uncertain env ≡ none
    → env.access_matrix ≡ some matrix
    → evaluate env (request_of connection_id entry endpoint) checked ≡ ok (allowed, actions)
    → p.enabled ≡ true
    → query_touches_object entry.tables_used entry.query_text p ≡ true
    → has_role (collect_user_roles matrix) p.required_role ≡ false
    → any
        (λ v. same v.policy_id p.id)
        (evaluate_policies connection_id entry (before ++ p ∷ after) (some matrix) now new_id)
      ≡ true
unfolding evaluate_policies is_blocking is_violated decision_of
evaluate-evaluate_policies env connection_id endpoint entry now new_id before after p matrix actions
      checked within loaded certain readable run enabled touches role =
    let request = request_of connection_id entry endpoint in
    let roles = collect_user_roles matrix in
    let q = is_blocking roles request checked in
    let (decision, acts, e, outcome) =
      evaluate-Outcome env request checked (before ++ p ∷ after) matrix loaded certain readable in
    let passed : any q (before ++ p ∷ after) ≡ false =
      allowed_none request q (before ++ p ∷ after) decision acts (ap decision_of (sym e ∙ run))
        outcome in
    violated-reported connection_id entry now new_id roles 0 p before after (
      warned p.enabled (query_touches_object entry.tables_used entry.query_text p)
        (query_touches_object checked entry.query_text p) (has_role roles p.required_role)
        (same (normalize_policy_enforcement_mode p.enforcement_mode) (codes "block")) enabled
        touches (touches-Within entry.tables_used checked entry.query_text p within touches) role
        (any-member q p before after passed))

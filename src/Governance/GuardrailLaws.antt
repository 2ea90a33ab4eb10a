-- ===== src/Governance/GuardrailLaws.antt =====
-- What the check before a query (internal/governance/guardrails.go) lets through, and how it works
-- together with the evaluation after the query (internal/governance/policy_engine.go).
use mathlib.Core.Path.{◌≡◌, refl, ap}
use mathlib.Core.Logic.{inl, inr}
use mathlib.Core.Bool.{Bool, true, false}
use mathlib.Core.Option.{Option, none, some}
use mathlib.Core.List.{List, [], ◌∷◌}
use native.Mathlib.Omega.{arith}
use ch_ui.Prelude.Tests.{Bool-cases, Option-cases}
use ch_ui.Prelude.Lists.{All, any, keep, All-map}
use ch_ui.Prelude.Text.{Text, codes}
use ch_ui.Prelude.Result.{ok}
use ch_ui.Governance.Policy.{Policy, AccessMatrixEntry, collect_user_roles}
use ch_ui.Governance.Pick.{pick_blocking_policy, normalize_guardrail_severity}
use ch_ui.Governance.Guardrail.{
  Environment, Request, Action, GuardrailBlock, GuardrailDecision, allowed, blocked, is_blocking,
  block, decide, evaluate_certain, evaluate_loaded, evaluate, is_access_state_uncertain,
  create_violation, upsert_incident, blocked_event, block_detail, record_violation,
}
use ch_ui.Governance.PickLaws.{Above, Best, pick_blocking_policy-Best}

keep_nil : (p : Policy → Bool) (xs : List Policy) → keep p xs ≡ [] → any p xs ≡ false
unfolding keep any
keep_nil p [] h = refl
keep_nil p (x ∷ xs) h = ground (arith, keep_nil p xs)

abbrev fst_of : {A : Type 0} {B : Type 0} → A × B → A
fst_of (a, b) = a

-- What is kept passes the test, and shows that something does.
keep-All-any :
    (p : Policy → Bool) (xs : List Policy) → All (λ q. (p q ≡ true) × (any p xs ≡ true)) (keep p xs)
unfolding keep any
keep-All-any p [] = tt
keep-All-any p (x ∷ xs) = elim (Bool-cases (p x)) [
  | inl hit ↦ rw hit (
    (hit, refl),
    All-map (λ q. (p q ≡ true) × (any p xs ≡ true)) (λ q. (p q ≡ true) × (true ≡ true)) (keep p xs)
        (λ q h. (fst_of h, refl)) (keep-All-any p xs),
  )
  | inr miss ↦ rw miss (keep-All-any p xs)
]

-- The block names a policy that blocks, above which no policy that blocks ranks; the first thing that
-- is written is a violation of this policy.
abbrev pub Blame : Request → (Policy → Bool) → List Policy → GuardrailBlock → List Action → Type 0
Blame request p policies b actions =
    (q : Policy) × (rest : List Action) × (p q ≡ true)
    × (b.policy_id ≡ q.id)
    × Above q (keep p policies)
    × (actions
        ≡ create_violation request.connection_id b.policy_id [] request.user b.detail b.severity
            (codes "pre_exec_block") request.endpoint
          ∷ rest)

abbrev pub Outcome :
    Request → (Policy → Bool) → List Policy → GuardrailDecision → List Action → Type 0
Outcome request p policies allowed actions = any p policies ≡ false
Outcome request p policies (blocked b) actions =
    (any p policies ≡ true) × Blame request p policies b actions

block-Outcome :
    (env : Environment) (request : Request) (p : Policy → Bool) (policies : List Policy)
    (o : Option Policy)
    → Best (λ q. (p q ≡ true) × (any p policies ≡ true)) (keep p policies) o
    → (decision : GuardrailDecision) × (actions : List Action) × (block env request o
        ≡ (decision, actions))
      × Outcome request p policies decision actions
unfolding block record_violation
block-Outcome env request p policies none best = (allowed, [], refl, keep_nil p policies best)
block-Outcome env request p policies (some q) ((hit, some_hit), above) =
    elim (Option-cases env.violation_id) [
      | inl failed ↦ (
        _,
        _,
        refl,
        (some_hit, (q, blocked_event env request q [], hit, refl, above, rw failed refl)),
      )
      | inr (id, stored) ↦ (
        _,
        _,
        refl,
        (
          some_hit,
          (
            q,
            upsert_incident request.connection_id id q.name request.user
                  (normalize_guardrail_severity q.severity) (block_detail request q)
                ∷ blocked_event env request q id,
            hit,
            refl,
            above,
            rw stored refl,
          ),
        ),
      )
    ]

decide-Outcome :
    (env : Environment) (request : Request) (tables_used : List Text) (policies : List Policy)
    (matrix : List AccessMatrixEntry)
    → (decision : GuardrailDecision) × (actions : List Action) × (decide env request tables_used
          policies
          (some matrix)
        ≡ (decision, actions))
      × Outcome request
          (is_blocking (collect_user_roles matrix) request tables_used)
          policies
          decision
          actions
unfolding decide
decide-Outcome env request tables_used policies matrix =
    let p = is_blocking (collect_user_roles matrix) request tables_used in
    block-Outcome env request p policies (pick_blocking_policy (keep p policies)) (
      pick_blocking_policy-Best (λ q. (p q ≡ true) × (any p policies ≡ true)) (keep p policies)
        (keep-All-any p policies))

certain-Outcome :
    (env : Environment) (request : Request) (tables_used : List Text) (policies : List Policy)
    (matrix : List AccessMatrixEntry)
    → is_access_state_uncertain env ≡ none
    → env.access_matrix ≡ some matrix
    → (decision : GuardrailDecision) × (actions : List Action) × (evaluate_certain env request
          tables_used policies
          (is_access_state_uncertain env)
        ≡ (decision, actions))
      × Outcome request
          (is_blocking (collect_user_roles matrix) request tables_used)
          policies
          decision
          actions
unfolding evaluate_certain
certain-Outcome env request tables_used policies matrix certain readable =
    let (decision, actions, e, outcome) = decide-Outcome env request tables_used policies matrix in
    (decision, actions, simp (certain, readable, e), outcome)

loaded-Outcome :
    (env : Environment) (request : Request) (tables_used : List Text) (policies : List Policy)
    (matrix : List AccessMatrixEntry)
    → is_access_state_uncertain env ≡ none
    → env.access_matrix ≡ some matrix
    → (found : Option (List Policy)) → found ≡ some policies
    → (decision : GuardrailDecision) × (actions : List Action) × (evaluate_loaded env request
          tables_used found
        ≡ ok (decision, actions))
      × Outcome request
          (is_blocking (collect_user_roles matrix) request tables_used)
          policies
          decision
          actions
unfolding evaluate_loaded any
loaded-Outcome env request tables_used [] matrix certain readable found loaded =
    rw loaded (allowed, [], refl, refl)
loaded-Outcome env request tables_used (p ∷ ps) matrix certain readable found loaded =
    let (decision, actions, e, outcome) =
      certain-Outcome env request tables_used (p ∷ ps) matrix certain readable in
    rw loaded (decision, actions, ap (λ d. ok d) e, outcome)

-- When the policies, the access state and the access matrix are all at hand, `evaluate` blocks a query
-- exactly if some policy blocks it: one that is enabled, is in the mode "block", protects an object
-- that the query touches and asks for a role that the user does not have. The block then names such a
-- policy, none of a higher severity blocks too, and a violation of it is written first.
pub evaluate-Outcome :
    (env : Environment) (request : Request) (tables_used : List Text) (policies : List Policy)
    (matrix : List AccessMatrixEntry)
    → env.enabled_policies ≡ some policies
    → is_access_state_uncertain env ≡ none
    → env.access_matrix ≡ some matrix
    → (decision : GuardrailDecision) × (actions : List Action) × (evaluate env request tables_used
        ≡ ok (decision, actions))
      × Outcome request
          (is_blocking (collect_user_roles matrix) request tables_used)
          policies
          decision
          actions
unfolding evaluate
evaluate-Outcome env request tables_used policies matrix loaded certain readable =
    loaded-Outcome env request tables_used policies matrix certain readable env.enabled_policies
      loaded

certain-blocks :
    (env : Environment) (request : Request) (tables_used : List Text) (ps : List Policy)
    (uncertain : Option Text) (matrix : Option (List AccessMatrixEntry)) (b : GuardrailBlock)
    (actions : List Action)
    → (evaluate_certain env request tables_used ps uncertain ≡ (blocked b, actions))
    → (uncertain ≡ none) × ((m : List AccessMatrixEntry) × (env.access_matrix ≡ some m))
unfolding evaluate_certain decide
certain-blocks env request tables_used ps (some reason) matrix b actions h = cc
certain-blocks env request tables_used ps none matrix b actions h =
    (refl, elim (Option-cases env.access_matrix) [ inl e ↦ cc | inr e ↦ e ])

loaded-blocks :
    (env : Environment) (request : Request) (tables_used : List Text) (found : Option (List Policy))
    (b : GuardrailBlock) (actions : List Action)
    → evaluate_loaded env request tables_used found ≡ ok (blocked b, actions)
    → (is_access_state_uncertain env ≡ none)
      × ((m : List AccessMatrixEntry) × (env.access_matrix ≡ some m))
unfolding evaluate_loaded
loaded-blocks env request tables_used none b actions h = cc
loaded-blocks env request tables_used (some []) b actions h = cc
loaded-blocks env request tables_used (some (p ∷ ps)) b actions h =
    certain-blocks env request tables_used (p ∷ ps) (is_access_state_uncertain env)
      env.access_matrix b actions (cc)

-- A query is blocked only where the access state is certain and the access matrix could be read: in
-- every other case it is let through.
pub evaluate_blocks_certain :
    (env : Environment) (request : Request) (tables_used : List Text) (b : GuardrailBlock)
    (actions : List Action)
    → evaluate env request tables_used ≡ ok (blocked b, actions)
    → (is_access_state_uncertain env ≡ none)
      × ((m : List AccessMatrixEntry) × (env.access_matrix ≡ some m))
unfolding evaluate
evaluate_blocks_certain env request tables_used b actions h =
    loaded-blocks env request tables_used env.enabled_policies b actions h

-- ===== src/Governance/PickLaws.antt =====
-- Which policy `pickBlockingPolicy` (internal/governance/guardrails.go) picks.
use Prim.Native.Nat.{ℕ, ◌≤◌}
use mathlib.Core.Path.{◌≡◌, refl}
use mathlib.Core.Logic.{inl, inr}
use mathlib.Core.Bool.{true, false}
use mathlib.Core.Option.{Option, none, some}
use mathlib.Core.List.{List, [], ◌∷◌}
use native.Mathlib.Omega.{arith}
use ch_ui.Prelude.Tests.{Bool-cases}
use ch_ui.Prelude.Lists.{All, All-map}
use ch_ui.Governance.Policy.{Policy}
use ch_ui.Governance.Pick.{
  guardrail_severity_priority, policy_less, place, slice_stable, first_of, pick_blocking_policy,
}

abbrev priority : Policy → ℕ
priority p = guardrail_severity_priority p.severity

policy_less-priority : (p q : Policy) → policy_less p q ≡ true → priority q ≤ priority p
unfolding policy_less
policy_less-priority p q h = ground arith

policy_less_not : (p q : Policy) → policy_less q p ≡ false → priority q ≤ priority p
unfolding policy_less
policy_less_not p q h = ground arith

-- No policy of the list has a higher priority than `p`.
abbrev pub Above : Policy → List Policy → Type 0
Above p = All (λ q. guardrail_severity_priority q.severity ≤ guardrail_severity_priority p.severity)

-- What the pick is worth: it satisfies what all policies do, and no policy ranks above it.
abbrev pub Best : (Policy → Type 0) → List Policy → Option Policy → Type 0
Best P policies none = policies ≡ []
Best P policies (some q) = P q × Above q policies

module _ (P : Policy → Type 0) where
  place-Best :
      (p : Policy) (ps sorted : List Policy)
      → P p
      → Best P ps (first_of sorted)
      → Best P (p ∷ ps) (first_of (place p sorted))
  unfolding first_of place
  place-Best p ps [] hp e = (hp, (omega arith, rw e tt))
  place-Best p ps (q ∷ qs) hp (hq, above) = elim (Bool-cases (policy_less q p)) [
    | inl less ↦ rw less (hq, (policy_less-priority q p less, above))
    | inr more ↦ rw more (
      hp,
      (
        omega arith,
        All-map (λ r. priority r ≤ priority q) (λ r. priority r ≤ priority p) ps
            (λ r h. omega (arith, h, policy_less_not p q more)) above,
      ),
    )
  ]

  pub pick_blocking_policy-Best :
      (ps : List Policy) → All P ps → Best P ps (pick_blocking_policy ps)
  unfolding pick_blocking_policy slice_stable first_of
  pick_blocking_policy-Best [] _ = refl
  pick_blocking_policy-Best (p ∷ ps) (hp, hps) =
      place-Best p ps (slice_stable ps) hp (pick_blocking_policy-Best ps hps)

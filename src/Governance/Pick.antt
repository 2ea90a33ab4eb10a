-- ===== src/Governance/Pick.antt =====
-- The choice among the policies that block a query: `pickBlockingPolicy` and the order of severities
-- (internal/governance/guardrails.go).
use Prim.Native.Nat.{ℕ}
use mathlib.Core.Bool.{Bool, not}
use mathlib.Core.Option.{Option, none, some}
use mathlib.Core.List.{List, [], ◌∷◌}
use ch_ui.Prelude.Tests.{ltb, ◌==◌, if◌then◌else◌}
use ch_ui.Prelude.Text.{text_less, Text, codes, same, lower, trim}
use ch_ui.Governance.Policy.{Policy}

unfoldable pub normalize_guardrail_severity : Text → Text
normalize_guardrail_severity v =
    let severity = lower (trim v) in
    if same severity (codes "critical")
    then codes "critical"
    else if same severity (codes "error")
    then codes "error"
    else if same severity (codes "info")
    then codes "info"
    else codes "warn"

unfoldable pub guardrail_severity_priority : Text → ℕ
guardrail_severity_priority v =
    let severity = normalize_guardrail_severity v in
    if same severity (codes "critical")
    then 4
    else if same severity (codes "error")
    then 3
    else if same severity (codes "warn")
    then 2
    else if same severity (codes "info")
    then 1
    else 0

-- The order of `pickBlockingPolicy`.
unfoldable pub policy_less : Policy → Policy → Bool
unfolding text_less
policy_less left right =
    let lp = guardrail_severity_priority left.severity in
    let rp = guardrail_severity_priority right.severity in
    let ln = lower (trim left.name) in
    let rn = lower (trim right.name) in
    if not (lp == rp)
    then ltb rp lp
    else if not (same ln rn)
    then text_less ln rn
    else text_less (lower (trim left.id)) (lower (trim right.id))

-- `sort.SliceStable`, as an insertion sort: elements that are not ordered keep their places.
unfoldable pub place : Policy → List Policy → List Policy
place p [] = p ∷ []
place p (q ∷ qs) = let rest = place p qs in if policy_less q p then q ∷ rest else p ∷ q ∷ qs

unfoldable pub slice_stable : List Policy → List Policy
unfolding place
slice_stable [] = []
slice_stable (p ∷ ps) = place p (slice_stable ps)

-- `ordered[0]`, with none where the list is empty.
unfoldable pub first_of : List Policy → Option Policy
first_of [] = none
first_of (p ∷ ps) = some p

unfoldable pub pick_blocking_policy : List Policy → Option Policy
unfolding slice_stable first_of
pick_blocking_policy policies = first_of (slice_stable policies)

-- ===== src/Models/Runner/Propagation.antt =====
-- What a run makes of failures (internal/models/runner.go, `execute`).
use Prim.Native.Nat.{◌+◌, ◌<◌}
use mathlib.Core.Path.{◌≡◌, refl, sym, ap, subst, ◌∙◌}
use mathlib.Core.Logic.{inl, inr}
use mathlib.Core.Bool.{Bool, true, false}
use mathlib.Core.Option.{Option, none, some}
use mathlib.Core.List.{List, [], ◌∷◌}
use native.Mathlib.Omega.{arith}
use ch_ui.Prelude.Tests.{Bool-cases}
use ch_ui.Prelude.Lists.{All, any, length}
use ch_ui.Prelude.Text.{Text, same, same_refl, same→eq}
use ch_ui.Prelude.Maps.{lookup}
use ch_ui.Prelude.Counts.{count}
use ch_ui.Models.Dag.{Lists, slice}
use ch_ui.Models.Dag.Components.{member}
use ch_ui.Models.Dag.Closed.{member-All}
use ch_ui.Models.Runner.{
  Model, or_zero_model, Environment, Progress, settle, build_resolved, run_model, run_models,
}

-- What a round does to the counts and to the set of failures.
data Outcome (id : Text) (skip : Bool) (p q : Progress) : Type 0 where
  did_succeed :
      skip ≡ false
      → q.failed ≡ p.failed
      → q.succeeded ≡ p.succeeded + 1
      → q.failed_count ≡ p.failed_count
      → q.skipped_count ≡ p.skipped_count
      → Outcome id skip p q
  did_fail :
      skip ≡ false
      → q.failed ≡ id ∷ p.failed
      → q.succeeded ≡ p.succeeded
      → q.failed_count ≡ p.failed_count + 1
      → q.skipped_count ≡ p.skipped_count
      → Outcome id skip p q
  did_skip :
      skip ≡ true
      → q.failed ≡ id ∷ p.failed
      → q.succeeded ≡ p.succeeded
      → q.failed_count ≡ p.failed_count
      → q.skipped_count ≡ p.skipped_count + 1
      → Outcome id skip p q

settle-Outcome :
    (env : Environment) (id ddl : Text) (p : Progress) (r : Option Text × List _)
    → Outcome id false p (settle env id ddl p r)
unfolding settle
settle-Outcome env id ddl p (none, actions) = did_succeed refl refl refl refl refl
settle-Outcome env id ddl p (some e, actions) = did_fail refl refl refl refl refl

build_resolved-Outcome :
    (env : Environment) (id : Text) (m : Model) (p : Progress) (r : Text × Option Text)
    → Outcome id false p (build_resolved env id m p r)
unfolding build_resolved
build_resolved-Outcome env id m p (sql, some e) = did_fail refl refl refl refl refl
build_resolved-Outcome env id m p (sql, none) = settle-Outcome env id _ p _

-- The failures are counted, and none is skipped before one has failed.
pub record Accounts (p : Progress) : Type 0 where
  pub failures : length p.failed ≡ p.failed_count + p.skipped_count
  pub first : 0 < p.skipped_count → 0 < p.failed_count

blocked-failed : (failed ds : List Text) → any (λ d. member d failed) ds ≡ true → 0 < length failed
unfolding any member
blocked-failed [] [] h = cc
blocked-failed [] (d ∷ ds) h = blocked-failed [] ds h
blocked-failed (y ∷ failed) ds h = omega arith

any-member :
    (failed ds : List Text) (d : Text)
    → member d ds ≡ true
    → member d failed ≡ true
    → any (λ e. member e failed) ds ≡ true
unfolding any member
any-member failed [] d h k = cc
any-member failed (y ∷ ds) d h k = elim (Bool-cases (same y d)) [
  | inl e ↦ ground (arith, ap (λ t. member t failed) (same→eq y d e))
  | inr e ↦ ground (arith, any-member failed ds d)
]

-- No dependency of a model stands at or behind the model.
abbrev pub IsSorted : Lists → List Text → Type 0
IsSorted deps [] = Unit
IsSorted deps (x ∷ xs) = All (λ d. count d (x ∷ xs) ≡ 0) (slice x deps) × IsSorted deps xs

-- The test of a round.
abbrev blocked : Lists → Text → Progress → Bool
blocked deps id p = any (λ dep. member dep p.failed) (slice id deps)

module _ (env : Environment) (deps : Lists) (id_to_model : List (Text × Model))
    (targets : List (Text × Text)) where
  run_model-Outcome :
      (id : Text) (p : Progress)
      → Outcome id (blocked deps id p) p (run_model env deps id_to_model targets id p)
  unfolding run_model
  run_model-Outcome id p = elim (Bool-cases (blocked deps id p)) [
    | inl e ↦ rw e (did_skip refl refl refl refl refl)
    | inr e ↦ rw e (build_resolved-Outcome env id (or_zero_model (lookup id id_to_model)) p _)
  ]

  -- Every model is counted once.
  pub run_models-total :
      (ids : List Text) (p : Progress)
      → let q = run_models env deps id_to_model targets ids p in
        q.succeeded + q.failed_count + q.skipped_count
        ≡ p.succeeded + p.failed_count + p.skipped_count + length ids
  unfolding run_models
  run_models-total [] p = omega arith
  run_models-total (id ∷ ids) p =
      let q = run_model env deps id_to_model targets id p in
      omega (arith, run_models-total ids q, one (run_model-Outcome id p))
    where
      one :
          {q : Progress}
          → Outcome id (blocked deps id p) p q
          → q.succeeded + q.failed_count + q.skipped_count
            ≡ p.succeeded + p.failed_count + p.skipped_count + 1
      one (did_succeed _ _ a b c) = omega arith
      one (did_fail _ _ a b c) = omega arith
      one (did_skip _ _ a b c) = omega arith

  -- A skipped model has a failed dependency, and some model failed first.
  pub run_models-Accounts :
      (ids : List Text) (p : Progress)
      → Accounts p
      → Accounts (run_models env deps id_to_model targets ids p)
  unfolding run_models
  run_models-Accounts [] p h = h
  run_models-Accounts (id ∷ ids) p h =
      run_models-Accounts ids (run_model env deps id_to_model targets id p)
        (one (run_model-Outcome id p))
    where
      one : {q : Progress} → Outcome id (blocked deps id p) p q → Accounts q
      one (did_succeed _ e a b c) = record {
        failures = ground (arith, ap length e, h.failures);
        first = ground (arith, h.first);
      }
      one (did_fail _ e a b c) = record {
        failures = ground (arith, ap length e, h.failures);
        first = ground (arith, h.first);
      }
      one (did_skip k e a b c) =
          let some_failed = blocked-failed p.failed (slice id deps) k in
          record {
            failures = ground (arith, ap length e, h.failures);
            first = ground (arith, h.first, h.failures);
          }

  -- A failure is never taken back.
  run_models-grows :
      (ids : List Text) (p : Progress) (x : Text)
      → member x p.failed ≡ true
      → member x (run_models env deps id_to_model targets ids p).failed ≡ true
  unfolding run_models
  run_models-grows [] p x h = h
  run_models-grows (id ∷ ids) p x h =
      run_models-grows ids (run_model env deps id_to_model targets id p) x
        (one (run_model-Outcome id p))
    where
      one : {q : Progress} → Outcome id (blocked deps id p) p q → member x q.failed ≡ true
      one (did_succeed _ e a b c) = rw e h
      one (did_fail _ e a b c) = rw e (unfold member in ground arith)
      one (did_skip _ e a b c) = rw e (unfold member in ground arith)

  -- A model that is not run keeps its standing.
  run_models-other :
      (ids : List Text) (p : Progress) (x : Text)
      → count x ids ≡ 0
      → member x (run_models env deps id_to_model targets ids p).failed ≡ member x p.failed
  unfolding run_models
  run_models-other [] p x h = refl
  run_models-other (id ∷ ids) p x h =
      run_models-other ids (run_model env deps id_to_model targets id p) x
        (unfold count in ground arith)
      ∙ one (unfold count in ground arith) (run_model-Outcome id p)
    where
      one :
          {q : Progress}
          → same id x ≡ false
          → Outcome id (blocked deps id p) p q
          → member x q.failed ≡ member x p.failed
      one n (did_succeed _ e a b c) = rw e
      one n (did_fail _ e a b c) = rw e (unfold member in ground arith)
      one n (did_skip _ e a b c) = rw e (unfold member in ground arith)

  run_model-blocked :
      (id : Text) (p : Progress)
      → blocked deps id p ≡ true
      → member id (run_model env deps id_to_model targets id p).failed ≡ true
  run_model-blocked id p h = one (run_model-Outcome id p)
    where
      one : {q : Progress} → Outcome id (blocked deps id p) p q → member id q.failed ≡ true
      one (did_succeed k e a b c) = cc
      one (did_fail _ e a b c) = rw e (unfold member in ground (arith, same_refl id))
      one (did_skip _ e a b c) = rw e (unfold member in ground (arith, same_refl id))

  pub run_models-propagates :
      (ids : List Text) (p : Progress) (x d : Text)
      → IsSorted deps ids
      → 0 < count x ids
      → member d (slice x deps) ≡ true
      → member d (run_models env deps id_to_model targets ids p).failed ≡ true
      → member x (run_models env deps id_to_model targets ids p).failed ≡ true
  unfolding run_models
  run_models-propagates [] p x d s there dep h = absurd (unfold count in omega arith)
  run_models-propagates (id ∷ ids) p x d (first, s) there dep h =
      let q = run_model env deps id_to_model targets id p in
      elim (Bool-cases (same id x)) [
        | inl e ↦
            let e' : id ≡ x = same→eq id x e in
            let dep' : member d (slice id deps) ≡ true = rw e' dep in
            let behind : count d (id ∷ ids) ≡ 0 =
              member-All (λ y. count y (id ∷ ids) ≡ 0) d (slice id deps) first dep' in
            let now : member d p.failed ≡ true = sym (run_models-other (id ∷ ids) p d behind) ∙ h in
            run_models-grows ids q x (
              subst (λ t. member t q.failed ≡ true) e'
                (run_model-blocked id p (any-member p.failed (slice id deps) d dep' now)))
        | inr n ↦ run_models-propagates ids q x d s (unfold count in ground arith) dep h
      ]

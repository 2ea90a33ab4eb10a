-- ===== src/Scheduler/CronLaws.antt =====
-- What `ComputeNextRun` and `parseField` (internal/scheduler/cron.go) return.
use Prim.Native.Nat.{ℕ, zero, suc, ◌+◌, ◌-◌, ◌*◌, ◌/◌, ◌%◌, ◌≤◌, ◌<◌}
use mathlib.Core.Path.{◌≡◌, refl, sym, ap, ◌∙◌}
use mathlib.Core.Logic.{inl, inr}
use mathlib.Core.Bool.{Bool, true, false, ◌&&◌, ◌||◌}
use mathlib.Core.Option.{Option, none, some}
use native.Mathlib.Omega.{arith}
use ch_ui.Prelude.Tests.{ltb, leb, ◌==◌, Bool-cases}
use ch_ui.Prelude.Text.{Text, trim}
use ch_ui.Prelude.Options.{◌>>=◌, bind_eq_some}
use ch_ui.Prelude.Clock.{minute}
use ch_ui.Scheduler.Cron.{
  Schedule, has, steps_from, range_values, matches, first_match, one_year, next_of, parse_cron,
  fields, compute_next_run,
}

-- One more value in front of a range of values that pass a test.
eq_of : (v w : ℕ) → (v == w) ≡ true → v ≡ w
eq_of v w h = ground arith

widen :
    (test : ℕ → Bool) (v count w : ℕ)
    → test v ≡ true
    → ((v == w) || (leb (v + 1) w && ltb w (v + 1 + count) && test w))
      ≡ (leb v w && ltb w (v + suc count) && test w)
widen test v count w h = elim (Bool-cases (v == w)) [
  | inl e ↦ rw (sym (eq_of v w e), h) (ground arith)
  | inr ne ↦ ground arith
]

narrow :
    (test : ℕ → Bool) (v count w : ℕ)
    → test v ≡ false
    → (leb (v + 1) w && ltb w (v + 1 + count) && test w)
      ≡ (leb v w && ltb w (v + suc count) && test w)
narrow test v count w h = elim (Bool-cases (v == w)) [
  | inl e ↦ rw (sym (eq_of v w e), h) (ground arith)
  | inr ne ↦ ground arith
]

has-steps_from :
    (count v start step w : ℕ)
    → has w (steps_from count v start step)
      ≡ (leb v w && ltb w (v + count) && ((w - start) % step) == 0)
unfolding has steps_from
has-steps_from zero v start step w = ground arith
has-steps_from (suc count) v start step w = elim (Bool-cases (((v - start) % step) == 0)) [
  | inl hit ↦
      rw (hit, has-steps_from count (v + 1) start step w)
        (widen (λ x. ((x - start) % step) == 0) v count w hit)
  | inr miss ↦
      rw (miss, has-steps_from count (v + 1) start step w)
        (narrow (λ x. ((x - start) % step) == 0) v count w miss)
]

-- A range with a step has exactly the values between its bounds that are whole steps from the first.
pub has-range_values :
    (first last step w : ℕ)
    → has w (range_values first last step)
      ≡ (leb first w && leb w last && ((w - first) % step) == 0)
unfolding range_values
has-range_values first last step w =
    rw (has-steps_from (last + 1 - first) first first step w) (ground arith)

some_inj : (a b : ℕ) → some a ≡ some b → a ≡ b
some_inj a b h = cc

some_inj_option : (a : Option ℕ) (b : ℕ) → some a ≡ some (some b) → a ≡ some b
some_inj_option a b h = cc

first_match_hit :
    (schedule : Schedule) (count start : ℕ)
    → matches schedule start ≡ true
    → first_match schedule (suc count) start ≡ some start
unfolding first_match
first_match_hit schedule count start h = rw (h, first_match) refl

first_match_miss :
    (schedule : Schedule) (count start : ℕ)
    → matches schedule start ≡ false
    → first_match schedule (suc count) start ≡ first_match schedule count (start + 1)
unfolding first_match
first_match_miss schedule count start h = rw (h, first_match) refl

first_match_sound :
    (schedule : Schedule) (count start next : ℕ)
    → first_match schedule count start ≡ some next
    → (start ≤ next) × (next < start + count) × (matches schedule next ≡ true)
unfolding first_match
first_match_sound schedule zero start next h = cc
first_match_sound schedule (suc count) start next h = elim (Bool-cases (matches schedule start)) [
  | inl hit ↦
      let e = some_inj start next (sym (first_match_hit schedule count start hit) ∙ h) in
      (omega (arith, e), omega (arith, e), rw (sym e) hit)
  | inr miss ↦
      let (lo, hi, m) =
        first_match_sound schedule count (start + 1) next
          (sym (first_match_miss schedule count start miss) ∙ h) in
      (omega (arith, lo), omega (arith, hi), m)
]

-- A minute that matches is not one that does not.
apart :
    (schedule : Schedule) (a b : ℕ)
    → matches schedule a ≡ false
    → matches schedule b ≡ true
    → a ≤ b
    → a + 1 ≤ b
apart schedule a b ha hb le = elim (Bool-cases (a == b)) [
  | inl e ↦ (let path = eq_of a b e in cc)
  | inr ne ↦ ground arith
]

first_match-least :
    (schedule : Schedule) (count start k : ℕ)
    → start ≤ k
    → k < start + count
    → matches schedule k ≡ true
    → (next : ℕ) × (first_match schedule count start ≡ some next) × (next ≤ k)
first_match-least schedule zero start k lo hi hit = absurd (omega (arith, lo, hi))
first_match-least schedule (suc count) start k lo hi hit =
    elim (Bool-cases (matches schedule start)) [
      | inl now ↦ (start, first_match_hit schedule count start now, lo)
      | inr later ↦
          let (next, e, le) =
            first_match-least schedule count (start + 1) k (apart schedule start k later hit lo)
              (omega (arith, hi)) hit in
          (next, first_match_miss schedule count start later ∙ e, le)
    ]

next_of_sound :
    (schedule : Option Schedule) (start next : ℕ)
    → next_of schedule start ≡ some next
    → (s : Schedule) × (schedule ≡ some s)
      × (start ≤ next)
      × (next < start + one_year)
      × (matches s next ≡ true)
unfolding next_of
next_of_sound none start next h = cc
next_of_sound (some s) start next h =
    let (lo, hi, m) = first_match_sound s one_year start next h in (s, refl, lo, hi, m)

-- A run that `ComputeNextRun` returns is a minute of the year behind the current minute, and its
-- minute, hour, day, month and weekday stand in the fields of the expression.
pub compute_next_run-matches :
    (cron : Text) (from next : ℕ)
    → compute_next_run cron from ≡ some (some next)
    → (s : Schedule) × (parse_cron (fields (trim cron)) ≡ some (some s))
      × (from < next * minute)
      × (next ≤ from / minute + one_year)
      × (matches s next ≡ true)
unfolding compute_next_run
compute_next_run-matches cron from next h =
    let (schedule, e, k) =
      bind_eq_some (parse_cron (fields (trim cron))) (λ s. some (next_of s (from / minute + 1)))
        (some next) h in
    let (s, es, lo, hi, m) =
      next_of_sound schedule (from / minute + 1) next
        (some_inj_option (next_of schedule (from / minute + 1)) next k) in
    (s, e ∙ ap (λ o. some o) es, omega (arith, lo), omega (arith, hi), m)

-- A run is returned for every expression that a minute of the year behind the current minute matches,
-- and no such minute comes before it.
pub compute_next_run-first :
    (cron : Text) (from k : ℕ) (s : Schedule)
    → parse_cron (fields (trim cron)) ≡ some (some s)
    → from / minute < k
    → k ≤ from / minute + one_year
    → matches s k ≡ true
    → (next : ℕ) × (compute_next_run cron from ≡ some (some next)) × (next ≤ k)
unfolding compute_next_run next_of ◌>>=◌
compute_next_run-first cron from k s parsed lo hi hit =
    let (next, e, le) =
      first_match-least s one_year (from / minute + 1) k (omega (arith, lo)) (omega (arith, hi))
        hit in
    (next, rw parsed (ap (λ r. some r) e), le)

-- Where the expression can be read, there is an answer.
pub compute_next_run_ends :
    (cron : Text) (from : ℕ) (r : Option Schedule)
    → parse_cron (fields (trim cron)) ≡ some r
    → (next : Option ℕ) × (compute_next_run cron from ≡ some next)
unfolding compute_next_run ◌>>=◌
compute_next_run_ends cron from r parsed = (
  next_of r (from / minute + 1),
  ap (λ o. o >>= (λ s. some (next_of s (from / minute + 1)))) parsed,
)

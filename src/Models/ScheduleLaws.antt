-- ===== src/Models/ScheduleLaws.antt =====
-- What a tick of the scheduler of model runs leaves (internal/models/scheduler.go).
use Prim.Native.Nat.{ℕ, ◌*◌, ◌≤◌, ◌<◌}
use mathlib.Core.Path.{◌≡◌, refl, sym, ap, ◌∙◌}
use mathlib.Core.Option.{Option, none, some}
use mathlib.Core.List.{List, [], ◌∷◌, ◌++◌, append_assoc, append-nil}
use native.Mathlib.Omega.{arith}
use ch_ui.Prelude.Clock.{minute}
use ch_ui.Prelude.Lists.{All, All-append}
use ch_ui.Prelude.Options.{◌>>=◌, bind_eq_some}
use ch_ui.Prelude.Text.{Text, trim}
use ch_ui.Prelude.Result.{ok}
use ch_ui.Scheduler.Cron.{Schedule, fields, parse_cron, compute_next_run}
use ch_ui.Scheduler.CronLaws.{compute_next_run-matches, compute_next_run_ends}
use ch_ui.Models.Runner.{Environment}
use ch_ui.Models.Runner.Lock.{Running, is_running}
use ch_ui.Models.Runner.Runs.{Site, pipeline_body, run_pipeline}
use ch_ui.Models.Runner.RunsLaws.{with_lock-running}
use ch_ui.Models.Schedule.{
  ModelSchedule, Update, Surroundings, Ticking, due_anchor, error_of, run_due, run_schedules,
  tick_models,
}

abbrev pub updated : List Update → List Text
updated [] = []
updated (u ∷ us) = u.schedule_id ∷ updated us

abbrev cons_due : Text → Option Text → List Text → List Text
cons_due id none ids = ids
cons_due id (some anchor) ids = id ∷ ids

-- The schedules that are due and have an anchor.
abbrev pub due_ids : Surroundings → ℕ → List ModelSchedule → List Text
unfolding due_anchor
due_ids env now [] = []
due_ids env now (s ∷ ss) =
    cons_due s.id (due_anchor env.parse_time now s.next_run_at s.anchor_model_id)
      (due_ids env now ss)

-- The next run that an update sets is later than the instant.
abbrev pub IsLater : ℕ → Update → Type 0
IsLater now u = (next : ℕ) → u.next ≡ some next → now < next * minute

updated-append : (us vs : List Update) → updated (us ++ vs) ≡ updated us ++ updated vs
updated-append [] vs = refl
updated-append (u ∷ us) vs = ap (λ l. u.schedule_id ∷ l) (updated-append us vs)

run_pipeline-running :
    (env : Environment) (site : Site) (conn anchor : Text) (running : Running) (j : Text)
    → is_running (run_pipeline env site conn anchor running).0 j ≡ is_running running j
unfolding run_pipeline
run_pipeline-running env site conn anchor running j =
    with_lock-running (pipeline_body env site anchor) running conn j

-- The progress of a tick.
pub record Ticked (now : ℕ) (ids : List Text) (st t : Ticking) : Type 0 where
  pub updates : updated t.updates ≡ updated st.updates ++ ids
  pub locks : (j : Text) → is_running t.running j ≡ is_running st.running j
  pub later : All (IsLater now) st.updates → All (IsLater now) t.updates

some_ticking : (s t : Ticking) → some s ≡ some t → s ≡ t
some_ticking s t h = cc

stay-Ticked : (now : ℕ) (st : Ticking) → Ticked now [] st st
stay-Ticked now st = record {
  updates = sym (append-nil (updated st.updates));
  locks = λ j. refl;
  later = λ h. h;
}

append-Ticked :
    (now : ℕ) (ids jds : List Text) (r s t : Ticking)
    → Ticked now ids r s
    → Ticked now jds s t
    → Ticked now (ids ++ jds) r t
append-Ticked now ids jds r s t a b = record {
  updates = b.updates ∙ ap (λ l. l ++ jds) a.updates ∙ append_assoc (updated r.updates) ids jds;
  locks = λ j. b.locks j ∙ a.locks j;
  later = λ h. b.later (a.later h);
}

module _ (env : Surroundings) (now : ℕ) (clock : (us : List Update) → now ≤ env.clock us) where
  run_due-Ticked :
      (s : ModelSchedule) (st t : Ticking) (due : Option Text)
      → run_due env s st due ≡ some t
      → Ticked now (cons_due s.id due []) st t
  unfolding run_due ◌>>=◌
  run_due-Ticked s st t none h = rw (← some_ticking st t h) (stay-Ticked now st)
  run_due-Ticked s st t (some anchor) h =
      let r =
        run_pipeline (env.gateway st.updates) (env.site st.updates s.connection_id) s.connection_id
          anchor st.running in
      let update : Option ℕ → Update =
        λ next. record { schedule_id = s.id; error = error_of r.1; next = next } in
      let (next, e, k) =
        bind_eq_some (compute_next_run s.cron (env.clock st.updates))
          (λ next. some (record { running = r.0; updates = st.updates ++ update next ∷ [] })) t h in
      rw (← some_ticking (record { running = r.0; updates = st.updates ++ update next ∷ [] }) t k)
        (record {
          updates = updated-append st.updates (update next ∷ []);
          locks =
              run_pipeline-running (env.gateway st.updates) (env.site st.updates s.connection_id)
                s.connection_id anchor st.running;
          later = λ before.
              All-append (IsLater now) st.updates (update next ∷ []) before (after next e, tt);
        })
    where
      after :
          (next : Option ℕ)
          → compute_next_run s.cron (env.clock st.updates) ≡ some next
          → (n : ℕ) → next ≡ some n
          → now < n * minute
      after next e n k =
          let (schedule, parsed, lo, hi, m) =
            compute_next_run-matches s.cron (env.clock st.updates) n (e ∙ ap some k) in
          omega (arith, lo, clock st.updates)

  run_schedules-Ticked :
      (ss : List ModelSchedule) (st t : Ticking)
      → run_schedules env now ss st ≡ some t
      → Ticked now (due_ids env now ss) st t
  unfolding run_schedules
  run_schedules-Ticked [] st t h = rw (← some_ticking st t h) (stay-Ticked now st)
  run_schedules-Ticked (s ∷ ss) st t h =
      let due = due_anchor env.parse_time now s.next_run_at s.anchor_model_id in
      let (r, e, k) = bind_eq_some (run_due env s st due) (λ r. run_schedules env now ss r) t h in
      joined due (
        append-Ticked now (cons_due s.id due []) (due_ids env now ss) st r t
          (run_due-Ticked s st r due e) (run_schedules-Ticked ss r t k))
    where
      joined :
          (due : Option Text)
          → Ticked now (cons_due s.id due [] ++ due_ids env now ss) st t
          → Ticked now (cons_due s.id due (due_ids env now ss)) st t
      joined none h = h
      joined (some anchor) h = h

-- The reading of the cron expression of a schedule ends.
abbrev pub IsRead : ModelSchedule → Type 0
IsRead s = (r : Option Schedule) × (parse_cron (fields (trim s.cron)) ≡ some r)

run_due_ends :
    (env : Surroundings) (s : ModelSchedule) (st : Ticking) (due : Option Text)
    → IsRead s
    → (t : Ticking) × (run_due env s st due ≡ some t)
unfolding run_due ◌>>=◌
run_due_ends env s st none read = (st, refl)
run_due_ends env s st (some anchor) (r, parsed) =
    let run =
      run_pipeline (env.gateway st.updates) (env.site st.updates s.connection_id) s.connection_id
        anchor st.running in
    let after : Option ℕ → Ticking = λ next. record {
      running = run.0;
      updates =
          st.updates ++ record { schedule_id = s.id; error = error_of run.1; next = next } ∷ [];
    } in
    let (next, e) = compute_next_run_ends s.cron (env.clock st.updates) r parsed in
    (after next, ap (λ o. o >>= (λ next. some (after next))) e)

run_schedules_ends :
    (env : Surroundings) (now : ℕ) (ss : List ModelSchedule) (st : Ticking)
    → All IsRead ss
    → (t : Ticking) × (run_schedules env now ss st ≡ some t)
unfolding run_schedules ◌>>=◌
run_schedules_ends env now [] st read = (st, refl)
run_schedules_ends env now (s ∷ ss) st (first, read) =
    let (r, e) =
      run_due_ends env s st (due_anchor env.parse_time now s.next_run_at s.anchor_model_id) first in
    let (t, k) = run_schedules_ends env now ss r read in
    (t, ap (λ o. o >>= (λ next. run_schedules env now ss next)) e ∙ k)

-- A tick over schedules whose cron expressions can be read ends. It updates exactly the schedules that
-- are due and have an anchor, each once and in order; the next run that it sets for one is later than
-- the tick, where the clock does not run backwards; and it gives every lock of the runner back and
-- leaves those of other runs alone.
pub tick_models-Ticked :
    (env : Surroundings) (now : ℕ) (schedules : List ModelSchedule) (running : Running)
    → ((us : List Update) → now ≤ env.clock us)
    → All IsRead schedules
    → (t : Ticking) × (tick_models env now (ok schedules) running ≡ some t)
      × (updated t.updates ≡ due_ids env now schedules)
      × All (IsLater now) t.updates
      × ((j : Text) → is_running t.running j ≡ is_running running j)
unfolding tick_models
tick_models-Ticked env now schedules running clock read =
    let start : Ticking = record { running = running; updates = [] } in
    let (t, e) = run_schedules_ends env now schedules start read in
    let r = run_schedules-Ticked env now clock schedules start t e in
    (t, e, r.updates, r.later tt, r.locks)

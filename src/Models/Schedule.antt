-- ===== src/Models/Schedule.antt =====
-- The scheduler of model runs: `tick` of internal/models/scheduler.go, over the runner and the cron
-- expressions of internal/scheduler/cron.go.
use Prim.Native.Nat.{ℕ}
use mathlib.Core.Bool.{Bool, true, false}
use mathlib.Core.Option.{Option, none, some}
use mathlib.Core.List.{List, [], ◌∷◌, ◌++◌}
use ch_ui.Prelude.Tests.{ltb, if◌then◌else◌}
use ch_ui.Prelude.Options.{◌>>=◌}
use ch_ui.Prelude.Text.{Text}
use ch_ui.Prelude.Result.{Result, ok, err}
use ch_ui.Scheduler.Cron.{compute_next_run}
use ch_ui.Models.Runner.{Progress}
use ch_ui.Models.Runner.Lock.{Running}
use ch_ui.Models.Runner.Runs.{RunError, Site, run_pipeline}

pub record ModelSchedule : Type 0 where
  pub id : Text
  pub connection_id : Text
  pub anchor_model_id : Option Text
  pub cron : Text
  pub next_run_at : Option Text

-- `UpdateModelScheduleStatusByID`: no error is the status of success; `next` is in minutes since 1970.
pub record Update : Type 0 where
  pub schedule_id : Text
  pub error : Option RunError
  pub next : Option ℕ

-- What a tick meets: how times are read (`time.Parse`), the clock, and what the runner meets, each after
-- the updates so far. Times are nanoseconds since 1970.
pub record Surroundings : Type 0 where
  pub parse_time : Text → Option ℕ
  pub clock : List Update → ℕ
  pub gateway : List Update → ch_ui.Models.Runner.Environment
  pub site : List Update → Text → Site

-- The runner's lock and the updates so far.
pub record Ticking : Type 0 where
  pub running : Running
  pub updates : List Update

abbrev not_after : ℕ → Option ℕ → Bool
not_after now none = false
not_after now (some next_run) = if ltb now next_run then false else true

abbrev if_due : Bool → Text → Option Text
if_due true anchor = some anchor
if_due false anchor = none

-- The anchor of a schedule that is due.
unfoldable pub due_anchor : (Text → Option ℕ) → ℕ → Option Text → Option Text → Option Text
due_anchor parse_time now none anchor = none
due_anchor parse_time now (some next_run_at) none = none
due_anchor parse_time now (some next_run_at) (some anchor) =
    if_due (not_after now (parse_time next_run_at)) anchor

abbrev pub error_of : Result RunError (Text × Progress) → Option RunError
error_of (ok r) = none
error_of (err e) = some e

-- The run of one due schedule, and its update. No result stands for a cron expression that is never read
-- to its end.
unfoldable pub run_due : Surroundings → ModelSchedule → Ticking → Option Text → Option Ticking
unfolding run_pipeline compute_next_run
run_due env s st none = some st
run_due env s st (some anchor) =
    let (running, result) =
      run_pipeline (env.gateway st.updates) (env.site st.updates s.connection_id) s.connection_id
        anchor st.running in
    do
      next ← compute_next_run s.cron (env.clock st.updates)
      some (record {
        running = running;
        updates =
            st.updates ++ record { schedule_id = s.id; error = error_of result; next = next } ∷ [];
      })

unfoldable pub run_schedules : Surroundings → ℕ → List ModelSchedule → Ticking → Option Ticking
unfolding run_due due_anchor
run_schedules env now [] st = some st
run_schedules env now (s ∷ ss) st = do
  next ← run_due env s st (due_anchor env.parse_time now s.next_run_at s.anchor_model_id)
  run_schedules env now ss next

unfoldable pub tick_models :
    Surroundings → ℕ → Result Text (List ModelSchedule) → Running → Option Ticking
unfolding run_schedules
tick_models env now (err e) running = some (record { running = running; updates = [] })
tick_models env now (ok schedules) running =
    run_schedules env now schedules (record { running = running; updates = [] })

-- ===== src/Scheduler/Examples.antt =====
-- Tests and witnesses for cron expressions.
use Prim.Native.Nat.{ℕ, ◌+◌, ◌*◌, ◌/◌, ◌≤◌, ◌<◌}
use mathlib.Core.Path.{◌≡◌, refl}
use mathlib.Core.Logic.{◌⊎◌, ◌↔◌}
use mathlib.Core.Bool.{true}
use mathlib.Core.Option.{Option, none, some}
use mathlib.Core.List.{List, [], ◌∷◌, map}
use native.Mathlib.Omega.{arith}
use ch_ui.Prelude.Tests.{if◌then◌else◌}
use ch_ui.Prelude.Text.{Text, codes, trim, same, is_blank}
use ch_ui.Prelude.Options.{◌>>=◌}
use ch_ui.Prelude.Clock.{minute}
use ch_ui.Scheduler.Cron.{
  Schedule, range_values, day_and_month, matches, one_year, parse_cron, parse_field, fields,
  compute_next_run,
}
use ch_ui.Prelude.Counts.{count}
use ch_ui.Prelude.Int.{pos}
use ch_ui.Prelude.Lists.{length, keep}
use ch_ui.Prelude.Result.{ok}
use ch_ui.Scheduler.Runner.{
  Job, Environment, Status, success, Action, run_id_of, run_schedule, Pool, Turn, start, Turns,
  none_yet, one_more, starting, due_jobs, is_due, acquire,
}
use ch_ui.Scheduler.RunnerLaws.{
  Succeeds, statuses, run_statuses, failures, one_if_failed, run_schedule_lem,
}
use ch_ui.Scheduler.TurnLaws.{work, turns_lem}
use ch_ui.Scheduler.CronLaws.{compute_next_run-matches, compute_next_run-first}

-- The 29th of February 1972.
day_and_month_789 : day_and_month 789 ≡ (29, 2)
unfolding day_and_month
day_and_month_789 = refl

-- A range is not cut at the field's bounds.
parse_field_70 : parse_field (codes "58-62/2,5") 0 59 ≡ some (58 ∷ 60 ∷ 62 ∷ 5 ∷ [])
unfolding parse_field same
parse_field_70 = refl

abbrev quarters : Text
quarters = codes "*/15 0 * * 4,5"

compute-quarters : compute_next_run quarters 900000000001 ≡ some (some 30)
unfolding compute_next_run ◌>>=◌ trim same matches
compute-quarters = refl

compute_next_run-matches_example :
    (s : Schedule) × (parse_cron (fields (trim quarters)) ≡ some (some s))
    × (900000000001 < 30 * minute)
    × (30 ≤ 900000000001 / minute + one_year)
    × (matches s 30 ≡ true)
compute_next_run-matches_example =
    compute_next_run-matches quarters 900000000001 30 compute-quarters

abbrev quarter_schedule : Schedule
quarter_schedule = record {
  minutes = 0 ∷ 15 ∷ 30 ∷ 45 ∷ [];
  hours = 0 ∷ [];
  dom = range_values 1 31 1;
  months = range_values 1 12 1;
  dow = 4 ∷ 5 ∷ [];
}

parse-quarters : parse_cron (fields (trim quarters)) ≡ some (some quarter_schedule)
unfolding parse_cron fields trim same ◌>>=◌ range_values
parse-quarters = refl

matches-45 : matches quarter_schedule 45 ≡ true
unfolding matches range_values
matches-45 = refl

compute_next_run-first_example :
    (next : ℕ) × (compute_next_run quarters 900000000001 ≡ some (some next)) × (next ≤ 45)
compute_next_run-first_example =
    compute_next_run-first quarters 900000000001 45 quarter_schedule parse-quarters (omega arith)
      (omega arith) matches-45

abbrev nightly : Job
nightly = record {
  id = codes "j1";
  name = codes "nightly";
  saved_query_id = codes "q1";
  connection_id = none;
  cron = quarters;
  enabled = true;
  timeout_ms = pos 0;
  next_run_at = some (codes "2026-01-01T00:00:00Z");
}

abbrev answering : Environment
answering = record {
  created = ok (codes "r1");
  saved_query =
      λ _. ok (some (record { query = codes "SELECT 1"; connection_id = some (codes "c1") }));
  online = λ _. true;
  sessions = λ _. ok (record { clickhouse_user = codes "u"; decrypted = some (codes "p") } ∷ []);
  execute = λ _ _ _ _. ok (codes "[1]");
  read_rows = λ _. some 1;
  elapsed = 50000;
  finished = 900000000001;
}

run_schedule_lem_example :
    (actions : List Action) × (status : Status) × (run_schedule answering nightly ≡ some actions)
    × (statuses actions ≡ status ∷ [])
    × (run_statuses actions ≡ (if is_blank (run_id_of answering.created) then [] else status ∷ []))
    × (failures actions ≡ one_if_failed status)
    × ((status ≡ success) ↔ Succeeds answering nightly)
run_schedule_lem_example = run_schedule_lem answering nightly (some quarter_schedule) parse-quarters

abbrev due_times : Text → Option ℕ
due_times at = some 5

abbrev weekly : Job
weekly = record nightly { id = codes "j2" }

-- Both schedules are due, and the first has been started.
abbrev one_running : Pool
one_running = record {
  waiting = codes "j2" ∷ [];
  active = codes "j1" ∷ [];
  ended = [];
  done = [];
  sem = 1;
}

one_running_reached : Turns (starting due_times 6 (ok (nightly ∷ weekly ∷ []))) one_running
unfolding starting due_jobs is_due keep acquire
one_running_reached =
    one_more (starting due_times 6 (ok (nightly ∷ weekly ∷ []))) one_running none_yet
      (start (codes "j1") (codes "j2" ∷ []) [] [] [] 0 1 refl)

turns_lem_example :
    (length one_running.active ≤ 3)
    × ((q : Pool) → Turn one_running q → work q < work one_running)
    × (((q : Pool) × Turn one_running q)
        ⊎ ((x : Text)
            → count x one_running.done
              ≡ count x (map (λ j. j.id) (due_jobs due_times 6 (ok (nightly ∷ weekly ∷ []))))))
turns_lem_example =
    turns_lem due_times 6 (ok (nightly ∷ weekly ∷ [])) one_running one_running_reached

-- ===== src/Scheduler/RunnerLaws.antt =====
-- What a scheduled run writes (internal/scheduler/runner.go).
use Prim.Native.Nat.{ℕ, suc}
use mathlib.Core.Path.{◌≡◌, refl, ap}
use mathlib.Core.Logic.{◌↔◌, inl, inr}
use mathlib.Core.Bool.{true, false}
use mathlib.Core.Option.{Option, none, some}
use mathlib.Core.List.{List, [], ◌∷◌}
use ch_ui.Prelude.Tests.{leb, if◌then◌else◌, Bool-cases}
use ch_ui.Prelude.Int.{ℤ}
use ch_ui.Prelude.Options.{◌>>=◌}
use ch_ui.Prelude.Text.{Text, trim, is_blank}
use ch_ui.Prelude.Result.{Result, ok, err}
use ch_ui.Scheduler.Cron.{Schedule, fields, parse_cron}
use ch_ui.Scheduler.CronLaws.{compute_next_run_ends}
use ch_ui.Scheduler.Runner.{
  Job, SavedQuery, Credentials, Environment, Status, success, failure, Action, update_run,
  update_status, create_audit_log, schedule_failed, schedule_slow, Outcome, choose_connection,
  find_credentials, query_timeout, run_with, run_on, run_found, executed, status_of, slow_threshold,
  run_id_of, alerts, run_updates, finish_run, next_run, run_schedule,
}

-- The saved query is there, on a named connection that is online, and the gateway answers it.
pub record Succeeds (env : Environment) (job : Job) : Type 0 where
  pub query : SavedQuery
  pub credentials : Credentials
  pub rows : Text
  pub found : env.saved_query job.saved_query_id ≡ ok (some query)
  pub named : is_blank (choose_connection job.connection_id query.connection_id) ≡ false
  pub online : env.online (choose_connection job.connection_id query.connection_id) ≡ true
  pub login :
      find_credentials
        (choose_connection job.connection_id query.connection_id)
        (env.sessions (choose_connection job.connection_id query.connection_id))
      ≡ ok credentials
  pub answered :
      env.execute
        (choose_connection job.connection_id query.connection_id)
        query.query
        credentials
        (query_timeout job.timeout_ms)
      ≡ ok rows

abbrev pub statuses : List Action → List Status
statuses [] = []
statuses (update_run run_id status rows elapsed e ∷ acts) = statuses acts
statuses (update_status id status e next ∷ acts) = status ∷ statuses acts
statuses (create_audit_log name status elapsed ∷ acts) = statuses acts
statuses (schedule_failed connection fingerprint e run_id ∷ acts) = statuses acts
statuses (schedule_slow connection fingerprint elapsed threshold run_id ∷ acts) = statuses acts

abbrev pub run_statuses : List Action → List Status
run_statuses [] = []
run_statuses (update_run run_id status rows elapsed e ∷ acts) = status ∷ run_statuses acts
run_statuses (update_status id status e next ∷ acts) = run_statuses acts
run_statuses (create_audit_log name status elapsed ∷ acts) = run_statuses acts
run_statuses (schedule_failed connection fingerprint e run_id ∷ acts) = run_statuses acts
run_statuses (schedule_slow connection fingerprint elapsed threshold run_id ∷ acts) =
    run_statuses acts

abbrev pub failures : List Action → ℕ
failures [] = 0
failures (update_run run_id status rows elapsed e ∷ acts) = failures acts
failures (update_status id status e next ∷ acts) = failures acts
failures (create_audit_log name status elapsed ∷ acts) = failures acts
failures (schedule_failed connection fingerprint e run_id ∷ acts) = suc (failures acts)
failures (schedule_slow connection fingerprint elapsed threshold run_id ∷ acts) = failures acts

abbrev pub one_if_failed : Status → ℕ
one_if_failed success = 0
one_if_failed failure = 1

module _ (env : Environment) (job : Job) where
  to_success :
      Succeeds env job
      → status_of (run_found env job (env.saved_query job.saved_query_id)).result ≡ success
  unfolding run_found run_on run_with executed
  to_success s = rw (s.found, s.named, s.online, s.login, s.answered) refl

  run_with_success :
      (connection query : Text) (timeout : ℤ) (login : Result Text Credentials)
      → status_of (run_with env connection query timeout login) ≡ success
      → (c : Credentials) × (rows : Text) × (login ≡ ok c)
        × (env.execute connection query c timeout ≡ ok rows)
  unfolding run_with executed
  run_with_success connection query timeout (err e) h = cc
  run_with_success connection query timeout (ok c) h =
      let (rows, k) = answered_rows (env.execute connection query c timeout) h in (c, rows, refl, k)
    where
      answered_rows :
          (r : Result Text Text)
          → status_of (executed env r) ≡ success
          → (rows : Text) × (r ≡ ok rows)
      answered_rows (err e) h = cc
      answered_rows (ok rows) h = (rows, refl)

  of_success :
      (found : Result Text (Option SavedQuery))
      → env.saved_query job.saved_query_id ≡ found
      → status_of (run_found env job found).result ≡ success
      → Succeeds env job
  unfolding run_found run_on
  of_success (err e) k h = cc
  of_success (ok none) k h = cc
  of_success (ok (some q)) k h =
      let connection = choose_connection job.connection_id q.connection_id in
      let timeout = query_timeout job.timeout_ms in
      let login = find_credentials connection (env.sessions connection) in
      elim (Bool-cases (is_blank connection)) [
        | inl e ↦ (let bad : failure ≡ success = rw e at h in cc)
        | inr named ↦ elim (Bool-cases (env.online connection)) [
          | inr e ↦ (let bad : failure ≡ success = rw (named, e) at h in cc)
          | inl online ↦
              (let (c, rows, logged, answered) =
                  run_with_success connection q.query timeout login (rw (named, online) at h) in
                record {
                  query = q;
                  credentials = c;
                  rows = rows;
                  found = k;
                  named = named;
                  online = online;
                  login = logged;
                  answered = answered;
                })
        ]
      ]

alert-counts :
    (env : Environment) (job : Job) (connection : Text) (r : Result Text ℕ)
    → (statuses (alerts env job connection r) ≡ [])
      × (run_statuses (alerts env job connection r) ≡ [])
      × (failures (alerts env job connection r) ≡ one_if_failed (status_of r))
unfolding alerts
alert-counts env job connection (err e) = (refl, refl, refl)
alert-counts env job connection (ok n) =
    elim (Bool-cases (leb (slow_threshold job.timeout_ms) env.elapsed)) [
      | inl e ↦ rw e (refl, refl, refl)
      | inr e ↦ rw e (refl, refl, refl)
    ]

finish_run-counts :
    (env : Environment) (job : Job) (outcome : Outcome) (upcoming : Option ℕ)
    → let actions = finish_run env job outcome upcoming in
      (statuses actions ≡ status_of outcome.result ∷ [])
      × (run_statuses actions
          ≡ (if is_blank (run_id_of env.created) then [] else status_of outcome.result ∷ []))
      × (failures actions ≡ one_if_failed (status_of outcome.result))
unfolding finish_run run_updates
finish_run-counts env job outcome upcoming =
    let (a, b, c) = alert-counts env job outcome.connection outcome.result in
    elim (Bool-cases (is_blank (run_id_of env.created))) [
      | inl e ↦ rw e (ap (λ l. status_of outcome.result ∷ l) a, b, c)
      | inr e ↦
          rw e
            (ap (λ l. status_of outcome.result ∷ l) a, ap (λ l. status_of outcome.result ∷ l) b, c)
    ]

next_run_ends :
    (env : Environment) (job : Job) (read : Option Schedule)
    → parse_cron (fields (trim job.cron)) ≡ some read
    → (upcoming : Option ℕ) × (next_run env job ≡ some upcoming)
unfolding next_run
next_run_ends env job read parsed =
    let (upcoming, e) = compute_next_run_ends job.cron env.finished read parsed in
    elim (Bool-cases job.enabled) [ inl on ↦ (upcoming, rw on e) | inr off ↦ (none, rw off refl) ]

-- A run of a schedule whose cron expression can be read ends. It sets one status for the schedule, and
-- the same for the record of the run where one was created; it raises one alert of failure if this
-- status is a failure, else none; and it is a success exactly if the saved query is there, its
-- connection is named and online, a password can be decrypted, and the gateway answers the query.
pub run_schedule_lem :
    (env : Environment) (job : Job) (read : Option Schedule)
    → parse_cron (fields (trim job.cron)) ≡ some read
    → (actions : List Action) × (status : Status) × (run_schedule env job ≡ some actions)
      × (statuses actions ≡ status ∷ [])
      × (run_statuses actions ≡ (if is_blank (run_id_of env.created) then [] else status ∷ []))
      × (failures actions ≡ one_if_failed status)
      × ((status ≡ success) ↔ Succeeds env job)
unfolding run_schedule ◌>>=◌
run_schedule_lem env job read parsed =
    let outcome = run_found env job (env.saved_query job.saved_query_id) in
    let (upcoming, e) = next_run_ends env job read parsed in
    let (a, b, c) = finish_run-counts env job outcome upcoming in
    (
      finish_run env job outcome upcoming,
      status_of outcome.result,
      ap (λ o. o >>= (λ upcoming. some (finish_run env job outcome upcoming))) e,
      a,
      b,
      c,
      (λ h. of_success env job (env.saved_query job.saved_query_id) refl h, to_success env job),
    )

-- ===== src/Scheduler/Runner.antt =====
-- The runner of saved queries: internal/scheduler/runner.go. What the database, the gateway and the clock
-- answer is the environment of a run; what the run writes is a list of actions. Times are nanoseconds
-- since 1970, durations of a run are milliseconds.
use Prim.Native.Nat.{ℕ, suc, ◌+◌, ◌-◌, ◌*◌, ◌/◌}
use mathlib.Core.Path.{◌≡◌}
use mathlib.Core.Bool.{Bool, true, false}
use mathlib.Core.Option.{Option, none, some}
use mathlib.Core.List.{List, [], ◌∷◌, ◌++◌, map}
use ch_ui.Prelude.Tests.{ltb, leb, if◌then◌else◌}
use ch_ui.Prelude.Int.{ℤ, pos, negsuc, pos_part, ltb_ℤ, int64}
use ch_ui.Prelude.Lists.{keep}
use ch_ui.Prelude.Options.{◌>>=◌}
use ch_ui.Prelude.Text.{Text, codes, is_blank}
use ch_ui.Prelude.Clock.{second}
use ch_ui.Prelude.Result.{Result, ok, err}
use ch_ui.Scheduler.Cron.{compute_next_run}

pub record Job : Type 0 where
  pub id : Text
  pub name : Text
  pub saved_query_id : Text
  pub connection_id : Option Text
  pub cron : Text
  pub enabled : Bool
  pub timeout_ms : ℤ
  pub next_run_at : Option Text

pub record SavedQuery : Type 0 where
  pub query : Text
  pub connection_id : Option Text

pub record Credentials : Type 0 where
  pub user : Text
  pub password : Text

-- A session, with what the decryption of its password gives.
pub record Login : Type 0 where
  pub clickhouse_user : Text
  pub decrypted : Option Text

-- `execute` answers a query on a connection, with credentials and a timeout; `read_rows` is what
-- `json.Unmarshal` reads as an array. `finished` is the time at which the run ends.
pub record Environment : Type 0 where
  pub created : Result Text Text
  pub saved_query : Text → Result Text (Option SavedQuery)
  pub online : Text → Bool
  pub sessions : Text → Result Text (List Login)
  pub execute : Text → Text → Credentials → ℤ → Result Text Text
  pub read_rows : Text → Option ℕ
  pub elapsed : ℕ
  pub finished : ℕ

pub data Status : Type 0 where
  success failure : Status

pub data Action : Type 0 where
  update_run : Text → Status → ℕ → ℕ → Text → Action
  update_status : Text → Status → Text → Option ℕ → Action
  create_audit_log : Text → Status → ℕ → Action
  schedule_failed : (connection fingerprint error run_id : Text) → Action
  schedule_slow : (connection fingerprint : Text) → ℕ → ℕ → Text → Action

-- What a run sets before its deferred function: the connection, and the rows or the error.
pub record Outcome : Type 0 where
  pub connection : Text
  pub result : Result Text ℕ

abbrev or_blank : Option Text → Text
or_blank none = []
or_blank (some t) = t

-- The connection of the schedule or else of the saved query.
unfoldable pub choose_connection : Option Text → Option Text → Text
choose_connection schedule query =
    if is_blank (or_blank schedule) then or_blank query else or_blank schedule

unfoldable pub first_login : List Login → Option Credentials
first_login [] = none
first_login (s ∷ ss) = elim s.decrypted [
  | none ↦ first_login ss
  | some password ↦ some (record { user = s.clickhouse_user; password = password })
]

abbrev pub no_sessions : Text → Text
no_sessions connection =
    codes "no active sessions with valid credentials for connection " ++ connection

unfoldable pub login_result : Text → Option Credentials → Result Text Credentials
login_result connection none = err (no_sessions connection)
login_result connection (some c) = ok c

unfoldable pub find_credentials : Text → Result Text (List Login) → Result Text Credentials
unfolding login_result first_login
find_credentials connection (err e) = err (codes "failed to load sessions: " ++ e)
find_credentials connection (ok sessions) = login_result connection (first_login sessions)

abbrev pub scale : ℕ → ℤ → ℤ
scale k (pos n) = pos (n * k)
scale k (negsuc n) = negsuc (suc n * k - 1)

-- `time.Duration(schedule.TimeoutMs) * time.Millisecond`, or a minute where this is not positive.
unfoldable pub query_timeout : ℤ → ℤ
unfolding int64
query_timeout timeout_ms =
    let timeout = int64 (scale 1000000 timeout_ms) in
    if ltb_ℤ (pos 0) timeout then timeout else pos (60 * second)

unfoldable pub count_rows : (Text → Option ℕ) → Text → ℕ
count_rows read_rows rows =
    if is_blank rows then 0 else elim (read_rows rows) [ none ↦ 0 | some n ↦ n ]

unfoldable pub executed : Environment → Result Text Text → Result Text ℕ
unfolding count_rows
executed env (err e) = err e
executed env (ok rows) = ok (count_rows env.read_rows rows)

unfoldable pub run_with : Environment → Text → Text → ℤ → Result Text Credentials → Result Text ℕ
unfolding executed
run_with env connection query timeout (err e) = err (codes "no credentials available: " ++ e)
run_with env connection query timeout (ok c) = executed env (env.execute connection query c timeout)

unfoldable pub run_on : Environment → Job → Text → Text → Outcome
unfolding run_with find_credentials query_timeout
run_on env job query connection =
    let ran : Result Text ℕ =
      run_with env connection query (query_timeout job.timeout_ms)
        (find_credentials connection (env.sessions connection)) in
    record {
      connection = connection;
      result =
          if is_blank connection
          then err (codes "no connection ID configured for schedule or saved query")
          else if env.online connection
          then ran
          else err (codes "tunnel not connected");
    }

-- The body of `runSchedule`, for the saved query that was found.
unfoldable pub run_found : Environment → Job → Result Text (Option SavedQuery) → Outcome
unfolding run_on choose_connection
run_found env job (err e) = record {
  connection = [];
  result = err (codes "failed to fetch saved query: " ++ e);
}
run_found env job (ok none) = record {
  connection = [];
  result = err (codes "saved query not found");
}
run_found env job (ok (some q)) =
    run_on env job q.query (choose_connection job.connection_id q.connection_id)

abbrev pub status_of : Result Text ℕ → Status
status_of (ok n) = success
status_of (err e) = failure

abbrev pub error_of : Result Text ℕ → Text
error_of (ok n) = []
error_of (err e) = e

abbrev pub rows_of : Result Text ℕ → ℕ
rows_of (ok n) = n
rows_of (err e) = 0

-- `int(float64(maxInt(schedule.TimeoutMs, 60000)) * 0.8)` and the floor of 5000. The product is exact
-- up to the cut where the timeout has less than 50 bits.
unfoldable pub slow_threshold : ℤ → ℕ
slow_threshold timeout_ms =
    let longer = if ltb 60000 (pos_part timeout_ms) then pos_part timeout_ms else 60000 in
    let threshold = longer * 4 / 5 in if ltb threshold 5000 then 5000 else threshold

abbrev pub run_id_of : Result Text Text → Text
run_id_of (ok run_id) = run_id
run_id_of (err e) = []

abbrev pub fingerprint : Job → Text → Text
fingerprint job suffix = codes "schedule:" ++ job.id ++ suffix

unfoldable pub alerts : Environment → Job → Text → Result Text ℕ → List Action
unfolding slow_threshold
alerts env job connection (err e) =
    schedule_failed connection (fingerprint job (codes ":error")) e (run_id_of env.created) ∷ []
alerts env job connection (ok n) =
    if leb (slow_threshold job.timeout_ms) env.elapsed
    then schedule_slow connection (fingerprint job (codes ":slow")) env.elapsed
        (slow_threshold job.timeout_ms) (run_id_of env.created)
      ∷ []
    else []

unfoldable pub run_updates : Environment → Outcome → List Action
run_updates env outcome =
    let run_id = run_id_of env.created in
    if is_blank run_id
    then []
    else update_run run_id (status_of outcome.result) (rows_of outcome.result) env.elapsed
        (error_of outcome.result)
      ∷ []

-- The deferred function, for the next run.
unfoldable pub finish_run : Environment → Job → Outcome → Option ℕ → List Action
unfolding alerts run_updates
finish_run env job outcome next =
    run_updates env outcome
    ++ update_status job.id (status_of outcome.result) (error_of outcome.result) next
      ∷ create_audit_log job.name (status_of outcome.result) env.elapsed
      ∷ alerts env job outcome.connection outcome.result

unfoldable pub next_run : Environment → Job → Option (Option ℕ)
unfolding compute_next_run
next_run env job = if job.enabled then compute_next_run job.cron env.finished else some none

-- `runSchedule`; no result stands for a cron expression that is never read to its end.
unfoldable pub run_schedule : Environment → Job → Option (List Action)
unfolding run_found finish_run next_run
run_schedule env job = do
  next ← next_run env job
  some (finish_run env job (run_found env job (env.saved_query job.saved_query_id)) next)

abbrev not_after : ℕ → Option ℕ → Bool
not_after now none = false
not_after now (some at) = if ltb now at then false else true

unfoldable pub is_due : (Text → Option ℕ) → ℕ → Job → Bool
is_due parse_time now job = elim job.next_run_at [
  | none ↦ false
  | some at ↦ not_after now (parse_time at)
]

-- The schedules that a tick starts, in the order of their start.
unfoldable pub due_jobs : (Text → Option ℕ) → ℕ → Result Text (List Job) → List Job
unfolding is_due
due_jobs parse_time now (err e) = []
due_jobs parse_time now (ok jobs) = keep (is_due parse_time now) jobs

-- The goroutines of a tick, by the identifiers of their schedules: not yet started, in their run, behind
-- it, and gone. `sem` is the number of values in the channel `sem`.
pub record Pool : Type 0 where
  pub waiting : List Text
  pub active : List Text
  pub ended : List Text
  pub done : List Text
  pub sem : ℕ

abbrev pub max_concurrent : ℕ
max_concurrent = 3

-- `sem <- struct{}{}`, none while the buffer of the channel is full.
unfoldable pub acquire : ℕ → Option ℕ
acquire sem = if ltb sem max_concurrent then some (sem + 1) else none

-- `<-sem`, none while the buffer is empty.
unfoldable pub release : ℕ → Option ℕ
release sem = if ltb 0 sem then some (sem - 1) else none

-- The loop takes a place and starts the next schedule, a run ends, and its goroutine gives the place
-- back and is done.
pub data Turn : Pool → Pool → Type 0 where
  start :
      (id : Text) (waiting active ended done : List Text) (sem taken : ℕ)
      → acquire sem ≡ some taken
      → Turn
          (record {
            waiting = id ∷ waiting;
            active = active;
            ended = ended;
            done = done;
            sem = sem;
          })
          (record {
            waiting = waiting;
            active = active ++ id ∷ [];
            ended = ended;
            done = done;
            sem = taken;
          })
  end_run :
      (id : Text) (waiting before after ended done : List Text) (sem : ℕ)
      → Turn
          (record {
            waiting = waiting;
            active = before ++ id ∷ after;
            ended = ended;
            done = done;
            sem = sem;
          })
          (record {
            waiting = waiting;
            active = before ++ after;
            ended = ended ++ id ∷ [];
            done = done;
            sem = sem;
          })
  give_back :
      (id : Text) (waiting active before after done : List Text) (sem left : ℕ)
      → release sem ≡ some left
      → Turn
          (record {
            waiting = waiting;
            active = active;
            ended = before ++ id ∷ after;
            done = done;
            sem = sem;
          })
          (record {
            waiting = waiting;
            active = active;
            ended = before ++ after;
            done = done ++ id ∷ [];
            sem = left;
          })

pub data Turns (p : Pool) : Pool → Type 0 where
  none_yet : Turns p p
  one_more : (q r : Pool) → Turns p q → Turn q r → Turns p r

-- The tick before its first start: the due schedules of the enabled ones, and a new channel.
unfoldable pub starting : (Text → Option ℕ) → ℕ → Result Text (List Job) → Pool
unfolding due_jobs
starting parse_time now found = record {
  waiting = map (λ j. j.id) (due_jobs parse_time now found);
  active = [];
  ended = [];
  done = [];
  sem = 0;
}

-- ===== src/Lib.antt =====
-- Verification of the server of ch-ui (Go), the web client of ClickHouse. The server keeps its state in
-- a database, sends queries through a tunnel to ClickHouse, and runs background workers. The parts that
-- carry its own logic and are modelled here:
--
-- - RateLimit: the limiter of logins (internal/server/middleware/ratelimit.go) over its table
--   (internal/database/rate_limits.go). Level reads and writes the lockout level behind a limit type,
--   Table has the table's operations, Cleanup
--   its periodic cleanup (internal/database/cleanup.go), Check has CheckAuthRateLimit, RecordAttempt and ResetLimit. Each
--   operation takes the table and the readings of the clock and returns the table.
-- - Models: SQL models that refer to each other by $ref. Dag has BuildDAG and Kahn's loop, Dag.Components
--   has the connected components (internal/models/dag.go); Ref has the search for references and their
--   replacement (internal/models/ref.go); Runner has a run of a graph, Runner.Lock the lock of a connection,
--   Runner.Runs the entry points RunAll, RunPipeline and RunSingle and Runner.Validate the check of all
--   models (internal/models/runner.go); Schedule has the tick over the schedules of model runs
--   (internal/models/scheduler.go), which runs pipelines and reads cron expressions. The runner reads the
--   graph that Dag returns and the text that Ref resolves; the gateway's answers are an environment, its
--   writes are a list of actions.
-- - Governance: Policy has the evaluation of policies on a row of the query log
--   (internal/governance/policy_engine.go), Guardrail the decision before a query runs and Pick the
--   choice among the policies that block it (internal/governance/guardrails.go), Normalize the normal form
--   of a query (internal/governance/harvester_querylog.go). Both evaluations use the same test of what a query
--   touches.
-- - Scheduler: Cron has cron expressions and the next run of a schedule (internal/scheduler/cron.go),
--   Runner the run of a saved query with all that it writes, and the goroutines of a tick as a step
--   relation, with the channel that bounds them (internal/scheduler/runner.go).
-- - Alerts: Materialize makes dispatch jobs and digests from events, Delivery sends them, retries and
--   escalates (internal/alerts/dispatcher.go).
-- - Middleware: the limiter of requests per address (internal/server/middleware/limits.go), what it
--   promises as a quota (Quota) and the roles of sessions (internal/server/middleware/session.go).
-- - Schema: the statements that create and drop databases and tables, with the checks of what enters them
--   and the handlers that send them (internal/server/handlers/query.go, query_upload.go). Scan reads a
--   statement as ClickHouse does, as far as it matters where it ends: terminators, comments, heredocs and
--   quotes.
-- - Explain: the lines of a query plan and the tree that is built from them
--   (internal/server/handlers/query.go).
-- - Incidents: the table of incidents (internal/governance/incidents.go) and the handlers that change it
--   (internal/server/handlers/governance.go).
-- - Tunnel: the gateway to the agents in front of ClickHouse. Protocol has the messages
--   (internal/tunnel/protocol.go), Gateway the state and the handlers of messages, Auth the
--   authentication, disconnection and heartbeat (internal/tunnel/gateway.go), Api the calls of the
--   server (internal/tunnel/api.go). A handler is one step; Steps has the steps that goroutines take on
--   the shared state, in any order. A panic and a wait for a full channel are outcomes; a send of a chunk
--   that waits is kept beside the state and goes on or panics later. One clock reading serves a whole
--   handler. What json.Marshal makes of the raw JSON of an agent is an argument of the calls.
-- - QueryProc: the variables of dashboard queries (internal/queryproc/variables.go). Patterns has the
--   regular expressions and the references in a replacement, Times the time ranges, Variables the
--   interpolation.
-- - License: the validation of a signed license and its grace period (internal/license/license.go), and
--   the tokens of tunnels and sessions (internal/license/tokens.go).
-- - Prelude: shared types and lemmas. Text is a string as its bytes, taken to be ASCII, Moment an
--   instant, ℤ with int64 Go's 64-bit int, Maps a map keyed by strings as an association list.
--
-- A definition has the name of the Go function in this spelling: BuildDAG is build_dag. Go maps are
-- association lists; where the source ranges over a map, the list's order stands for any order of the
-- iteration.
--
-- Fuel: kahn runs on the length of the queue plus the number of positive degrees plus one, since each
-- round takes a model off the queue and each model that is queued later has a degree that drops to 0;
-- search_from on the weight of the unvisited models plus two; first_match on the source's own bound of
-- 525600 rounds; digits on the number plus one; walk of GetUpstreamDeps on the number of models plus one,
-- since each call inside another has visited one more. Scanners for regular expressions go down the text.
--
-- Not modelled: network and file input and output, SQL statements behind the operations of
-- internal/database, the other HTTP handlers, JSON decoding, cryptography, interleavings inside a handler of the
-- gateway other than a send that waits, the search for tables in the text of a query
-- (extractPolicyTablesFromQuery of internal/governance/guardrails.go), lineage, the import of files, pipelines and the assistant. What these
-- give to a modelled part is an argument of it.
pub mod Prelude
pub mod RateLimit
pub mod Models
pub mod Governance
pub mod Scheduler
pub mod Alerts
pub mod Middleware
pub mod Tunnel
pub mod QueryProc
pub mod License
pub mod Schema
pub mod Explain
pub mod Incidents

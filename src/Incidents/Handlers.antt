-- ===== src/Incidents/Handlers.antt =====
-- The handlers that change incidents: CreateIncident, UpdateIncident and CreateIncidentFromViolation of
-- internal/server/handlers/governance.go. A reply is its status.
use Prim.Native.Nat.{ℕ}
use mathlib.Core.Bool.{Bool, ◌||◌, not}
use mathlib.Core.Option.{Option, none, some}
use mathlib.Core.List.{List, [], ◌∷◌, ◌++◌}
use ch_ui.Prelude.Tests.{if◌then◌else◌}
use ch_ui.Prelude.Text.{Text, codes, same, is_blank, lower, trim}
use ch_ui.Incidents.Store.{
  Incident, NewIncident, IncidentUpdate, Violation, Upserted, create_incident, update_incident,
  upsert_incident_from_violation,
}

abbrev pub or_warn : Text → Text
or_warn v =
    if same v (codes "info")
      || same v (codes "warn")
      || same v (codes "error")
      || same v (codes "critical")
    then v
    else codes "warn"

unfoldable pub normalize_incident_severity : Text → Text
unfolding lower trim same
normalize_incident_severity v = or_warn (lower (trim v))

-- The statuses of incidents.
abbrev pub is_status : Text → Bool
is_status v =
    same v (codes "open")
    || same v (codes "triaged")
    || same v (codes "in_progress")
    || same v (codes "resolved")
    || same v (codes "dismissed")

unfoldable pub normalize_incident_status : Text → Text
unfolding lower trim same
normalize_incident_status v = if is_status (lower (trim v)) then lower (trim v) else codes "open"

-- The session of a request, as far as the handlers read it.
pub record Caller : Type 0 where
  pub connection_id : Text
  pub clickhouse_user : Text

pub record CreateBody : Type 0 where
  pub source_type : Text
  pub source_ref : Text
  pub title : Text
  pub severity : Text
  pub status : Text
  pub assignee : Text
  pub details : Text

pub record UpdateBody : Type 0 where
  pub title : Option Text
  pub severity : Option Text
  pub status : Option Text
  pub assignee : Option Text
  pub details : Option Text
  pub resolution_note : Option Text

-- A line of the audit log.
pub record AuditLog : Type 0 where
  pub action : Text
  pub username : Text
  pub connection_id : Text
  pub details : Text

abbrev audit_log : Caller → Text → Text → AuditLog
audit_log caller action details = record {
  action = action;
  username = caller.clickhouse_user;
  connection_id = caller.connection_id;
  details = details;
}

-- The status of the reply, the table and what is written to the audit log.
abbrev pub Reply : Type 0
Reply = ℕ × List Incident × List AuditLog

abbrev pub stored : List Incident → AuditLog → Option (List Incident) → Reply
stored rows line none = (500, rows, [])
stored rows line (some rows') = (201, rows', line ∷ [])

abbrev pub new_incident : Caller → CreateBody → Text → NewIncident
new_incident session body source_type = record {
  connection_id = session.connection_id;
  source_type = source_type;
  source_ref = body.source_ref;
  dedupe_key = [];
  title = trim body.title;
  severity = normalize_incident_severity body.severity;
  status = normalize_incident_status body.status;
  assignee = body.assignee;
  details = body.details;
  created_by = session.clickhouse_user;
}

abbrev pub or_manual : Text → Text
or_manual source_type = if is_blank source_type then codes "manual" else source_type

abbrev pub is_source_type : Text → Bool
is_source_type v =
    same v (codes "manual") || same v (codes "violation") || same v (codes "over_permission")

unfoldable pub create_handler : Text → ℕ → Option Caller → Option CreateBody → List Incident → Reply
unfolding create_incident normalize_incident_severity normalize_incident_status trim lower same
create_handler id now none body rows = (401, rows, [])
create_handler id now (some session) none rows = (400, rows, [])
create_handler id now (some session) (some body) rows =
    let source_type = or_manual (trim (lower body.source_type)) in
    if is_blank (trim body.title)
    then (400, rows, [])
    else if not (is_source_type source_type)
    then (400, rows, [])
    else stored rows (audit_log session (codes "governance.incident.created") id)
        (create_incident id now (new_incident session body source_type) rows)

unfoldable pub get_incident_by_id : Text → List Incident → Option Incident
unfolding same
get_incident_by_id id [] = none
get_incident_by_id id (i ∷ rows) =
    let rest = get_incident_by_id id rows in if same i.id id then some i else rest

abbrev deref_string : Option Text → Text
deref_string none = []
deref_string (some v) = v

abbrev pub trimmed_or : Text → Option Text → Text
trimmed_or old none = old
trimmed_or old (some v) = trim v

abbrev severity_or : Text → Option Text → Text
severity_or old none = old
severity_or old (some v) = normalize_incident_severity v

abbrev pub status_or : Text → Option Text → Text
status_or old none = old
status_or old (some v) = normalize_incident_status v

abbrev pub merged : Incident → UpdateBody → IncidentUpdate
merged existing body = record {
  title = trimmed_or existing.title body.title;
  severity = severity_or existing.severity body.severity;
  status = status_or existing.status body.status;
  assignee = trimmed_or (deref_string existing.assignee) body.assignee;
  details = trimmed_or (deref_string existing.details) body.details;
  resolution_note = trimmed_or (deref_string existing.resolution_note) body.resolution_note;
}

unfoldable pub update_existing :
    ℕ → Caller → Text → Incident → Option UpdateBody → List Incident → Reply
unfolding update_incident same trim
update_existing now session id existing none rows =
    if same existing.connection_id session.connection_id then (400, rows, []) else (404, rows, [])
update_existing now session id existing (some body) rows =
    if not (same existing.connection_id session.connection_id)
    then (404, rows, [])
    else if is_blank (trimmed_or existing.title body.title)
    then (400, rows, [])
    else (
      200,
      update_incident now id (merged existing body) rows,
      audit_log session (codes "governance.incident.updated") id ∷ [],
    )

unfoldable pub update_found :
    ℕ → Caller → Text → Option Incident → Option UpdateBody → List Incident → Reply
unfolding update_existing
update_found now session id none body rows = (404, rows, [])
update_found now session id (some existing) body rows =
    update_existing now session id existing body rows

unfoldable pub update_handler : ℕ → Option Caller → Text → Option UpdateBody → List Incident → Reply
unfolding update_found get_incident_by_id trim
update_handler now none id body rows = (401, rows, [])
update_handler now (some session) id body rows =
    if is_blank (trim id)
    then (400, rows, [])
    else update_found now session (trim id) (get_incident_by_id (trim id) rows) body rows

-- `%t`
abbrev bool_text : Bool → Text
bool_text b = if b then codes "true" else codes "false"

abbrev upserted_details : Text → Text → Bool → Text
upserted_details violation incident is_new =
    codes "violation="
    ++ violation
    ++ codes " incident="
    ++ incident
    ++ codes " created="
    ++ bool_text is_new

abbrev pub upserted_reply : Caller → Text → List Incident → Option Upserted → Reply
upserted_reply session violation rows none = (500, rows, [])
upserted_reply session violation rows (some (incident, is_new, rows')) = (
  201,
  rows',
  audit_log session (codes "governance.incident.from_violation")
        (upserted_details violation incident is_new)
      ∷ [],
)

-- A violation that was read; its severity is normalized before it is reported.
abbrev pub normalized : Violation → Violation
normalized v = record v { severity = normalize_incident_severity v.severity }

unfoldable pub violation_handler :
    Text → ℕ → Option Caller → Text → Option (Option Violation) → List Incident → Reply
unfolding upsert_incident_from_violation normalize_incident_severity trim same
violation_handler id now none violation_id found rows = (401, rows, [])
violation_handler id now (some session) violation_id none rows =
    if is_blank (trim violation_id) then (400, rows, []) else (500, rows, [])
violation_handler id now (some session) violation_id (some none) rows =
    if is_blank (trim violation_id) then (400, rows, []) else (404, rows, [])
violation_handler id now (some session) violation_id (some (some v)) rows =
    if is_blank (trim violation_id)
    then (400, rows, [])
    else if not (same v.connection_id session.connection_id)
    then (404, rows, [])
    else upserted_reply session v.source_ref rows
        (upsert_incident_from_violation id now (normalized v) rows)

-- The requests that change incidents.
pub data Request : Type 0 where
  create : Option CreateBody → Request
  update : (id : Text) → Option UpdateBody → Request
  from_violation : (id : Text) → Option (Option Violation) → Request

-- A request at the time `now`, with an identifier for a new incident.
unfoldable pub serve : Text → ℕ → Option Caller → Request → List Incident → Reply
unfolding create_handler update_handler violation_handler
serve new_id now session (create body) rows = create_handler new_id now session body rows
serve new_id now session (update id body) rows = update_handler now session id body rows
serve new_id now session (from_violation id found) rows =
    violation_handler new_id now session id found rows

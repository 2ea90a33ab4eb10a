-- ===== src/Incidents/Store.antt =====
-- The table of incidents and its operations: internal/governance/incidents.go. Instants are seconds,
-- as the program writes them. A new identifier and the reading of the clock are arguments; `none` is
-- an error of the database, whose constraints are those of the table gov_incidents.
use Prim.Native.Nat.{ℕ, ◌+◌}
use mathlib.Core.Bool.{Bool, true, false, ◌&&◌, ◌||◌}
use mathlib.Core.Option.{Option, none, some}
use mathlib.Core.List.{List, [], ◌∷◌, ◌++◌}
use ch_ui.Prelude.Tests.{ltb, if◌then◌else◌}
use ch_ui.Prelude.Lists.{any}
use ch_ui.Prelude.Text.{Text, codes, same, is_blank, lower, trim}

pub record Incident : Type 0 where
  pub id : Text
  pub connection_id : Text
  pub source_type : Text
  pub source_ref : Option Text
  pub dedupe_key : Option Text
  pub title : Text
  pub severity : Text
  pub status : Text
  pub assignee : Option Text
  pub details : Option Text
  pub resolution_note : Option Text
  pub occurrence_count : ℕ
  pub first_seen_at : ℕ
  pub last_seen_at : ℕ
  pub resolved_at : Option ℕ
  pub created_by : Option Text
  pub created_at : ℕ
  pub updated_at : ℕ

-- The fields of a new incident that its caller gives.
pub record NewIncident : Type 0 where
  pub connection_id : Text
  pub source_type : Text
  pub source_ref : Text
  pub dedupe_key : Text
  pub title : Text
  pub severity : Text
  pub status : Text
  pub assignee : Text
  pub details : Text
  pub created_by : Text

unfoldable pub nullable_value : Text → Option Text
unfolding trim
nullable_value v = if is_blank (trim v) then none else some (trim v)

unfoldable pub has_id : Text → List Incident → Bool
unfolding any same
has_id id rows = any (λ (i : Incident). same i.id id) rows

unfoldable pub new_row : Text → ℕ → Text → NewIncident → Incident
unfolding nullable_value lower trim
new_row id now source_type new = record {
  id = id;
  connection_id = new.connection_id;
  source_type = source_type;
  source_ref = nullable_value new.source_ref;
  dedupe_key = nullable_value new.dedupe_key;
  title = trim new.title;
  severity = lower (trim new.severity);
  status = lower (trim new.status);
  assignee = nullable_value new.assignee;
  details = nullable_value new.details;
  resolution_note = none;
  occurrence_count = 1;
  first_seen_at = now;
  last_seen_at = now;
  resolved_at = none;
  created_by = nullable_value new.created_by;
  created_at = now;
  updated_at = now;
}

-- The insertion, with the source type as a column that may not be null.
unfoldable pub insert_row :
    Text → ℕ → Option Text → NewIncident → List Incident → Option (List Incident)
unfolding has_id new_row
insert_row id now none new rows = none
insert_row id now (some source_type) new rows =
    if has_id id rows then none else some (rows ++ new_row id now source_type new ∷ [])

unfoldable pub create_incident : Text → ℕ → NewIncident → List Incident → Option (List Incident)
unfolding insert_row nullable_value
create_incident id now new rows =
    insert_row id now (nullable_value (lower (trim new.source_type))) new rows

abbrev pub is_closed : Text → Bool
is_closed status = same status (codes "resolved") || same status (codes "dismissed")

-- The fields of an incident that an update gives.
pub record IncidentUpdate : Type 0 where
  pub title : Text
  pub severity : Text
  pub status : Text
  pub assignee : Text
  pub details : Text
  pub resolution_note : Text

abbrev pub with_update : ℕ → IncidentUpdate → Incident → Incident
with_update now u i = record i {
  title = trim u.title;
  severity = lower (trim u.severity);
  status = lower (trim u.status);
  assignee = nullable_value u.assignee;
  details = nullable_value u.details;
  resolution_note = nullable_value u.resolution_note;
  resolved_at = if is_closed u.status then some now else none;
  updated_at = now;
}

unfoldable pub update_incident : ℕ → Text → IncidentUpdate → List Incident → List Incident
unfolding nullable_value lower trim same
update_incident now id u [] = []
update_incident now id u (i ∷ rows) =
    let rest = update_incident now id u rows in
    (if same i.id id then with_update now u i else i) ∷ rest

abbrev is_open : Text → Bool
is_open status =
    same status (codes "open") || same status (codes "triaged") || same status (codes "in_progress")

-- `dedupe_key = ?`, which is false for a null.
unfoldable pub has_key : Option Text → Text → Bool
unfolding same
has_key none key = false
has_key (some k) key = same k key

unfoldable pub is_match : Text → Text → Incident → Bool
unfolding has_key same
is_match connection_id key i =
    same i.connection_id connection_id && has_key i.dedupe_key key && is_open i.status

abbrev pub later_seen : Option Incident → Incident → Option Incident
later_seen none i = some i
later_seen (some j) i = if ltb j.last_seen_at i.last_seen_at then some i else some j

-- The matching incident that was seen last.
unfoldable pub find_match : Text → Text → Option Incident → List Incident → Option Incident
unfolding is_match
find_match connection_id key best [] = best
find_match connection_id key best (i ∷ rows) =
    find_match connection_id key (if is_match connection_id key i then later_seen best i else best)
      rows

abbrev pub or_old : Option Text → Option Text → Option Text
or_old none old = old
or_old (some v) old = some v

abbrev pub seen_again : ℕ → Text → Incident → Incident
seen_again now detail i = record i {
  occurrence_count = i.occurrence_count + 1;
  last_seen_at = now;
  details = or_old (nullable_value detail) i.details;
  updated_at = now;
}

unfoldable pub count_again : ℕ → Text → Text → List Incident → List Incident
unfolding nullable_value same
count_again now id detail [] = []
count_again now id detail (i ∷ rows) =
    let rest = count_again now id detail rows in
    (if same i.id id then seen_again now detail i else i) ∷ rest

pub record Violation : Type 0 where
  pub connection_id : Text
  pub source_ref : Text
  pub policy_name : Text
  pub user : Text
  pub severity : Text
  pub detail : Text

unfoldable pub violation_key : Violation → Text
unfolding lower trim
violation_key v =
    lower (
      trim
        (codes "violation:" ++ (v.policy_name ++ codes ":" ++ v.user ++ codes ":" ++ v.severity)))

unfoldable pub violation_title : Violation → Text
unfolding trim
violation_title v =
    if is_blank (trim v.policy_name)
    then codes "Policy violation (" ++ trim v.user ++ codes ")"
    else codes "Policy violation: " ++ trim v.policy_name ++ codes " (" ++ trim v.user ++ codes ")"

abbrev pub incident_of : Violation → NewIncident
incident_of v = record {
  connection_id = v.connection_id;
  source_type = codes "violation";
  source_ref = v.source_ref;
  dedupe_key = violation_key v;
  title = violation_title v;
  severity = lower (trim v.severity);
  status = codes "open";
  assignee = [];
  details = v.detail;
  created_by = codes "system";
}

-- The identifier of the incident, whether it is new, and the table.
abbrev pub Upserted : Type 0
Upserted = Text × Bool × List Incident

abbrev pub created_upsert : Text → Option (List Incident) → Option Upserted
created_upsert id none = none
created_upsert id (some rows) = some (id, true, rows)

unfoldable pub upsert_found :
    Text → ℕ → Violation → List Incident → Option Incident → Option Upserted
unfolding count_again create_incident violation_key violation_title
upsert_found id now v rows (some i) = some (i.id, false, count_again now i.id v.detail rows)
upsert_found id now v rows none = created_upsert id (create_incident id now (incident_of v) rows)

unfoldable pub upsert_incident_from_violation :
    Text → ℕ → Violation → List Incident → Option Upserted
unfolding upsert_found find_match violation_key
upsert_incident_from_violation id now v rows =
    upsert_found id now v rows (find_match v.connection_id (violation_key v) none rows)

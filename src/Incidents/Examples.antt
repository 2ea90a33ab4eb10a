-- ===== src/Incidents/Examples.antt =====
-- Tests and witnesses for incidents.
use Prim.Native.Nat.{ℕ}
use mathlib.Core.Path.{◌≡◌, refl}
use mathlib.Core.Logic.{inr}
use mathlib.Core.Bool.{Bool, false}
use mathlib.Core.Option.{Option, none, some}
use mathlib.Core.List.{List, [], ◌∷◌, map}
use ch_ui.Prelude.Lists.{All}
use ch_ui.Prelude.Text.{Text, codes, same}
use ch_ui.Incidents.Store.{Incident, Violation, has_id, upsert_incident_from_violation}
use ch_ui.Incidents.CountLaws.{DistinctIds}
use ch_ui.Incidents.ViolationLaws.{Counted, upsert_incident_from_violation-Counted}
use ch_ui.Incidents.Handlers.{Caller, UpdateBody, create, update, serve}
use ch_ui.Incidents.StatusLaws.{Consistent}
use ch_ui.Incidents.ServeLaws.{serve-Consistent}

abbrev exports : Incident
exports = record {
  id = codes "i1";
  connection_id = codes "c1";
  source_type = codes "violation";
  source_ref = none;
  dedupe_key = some (codes "violation:no exports:ann:warn");
  title = codes "Policy violation: No exports (ann)";
  severity = codes "warn";
  status = codes "triaged";
  assignee = none;
  details = none;
  resolution_note = none;
  occurrence_count = 4;
  first_seen_at = 100;
  last_seen_at = 200;
  resolved_at = none;
  created_by = none;
  created_at = 100;
  updated_at = 200;
}

abbrev rows : List Incident
rows = exports ∷ []

abbrev violation : Violation
violation = record {
  connection_id = codes "c1";
  source_ref = codes "v9";
  policy_name = codes "No exports";
  user = codes "ann";
  severity = codes "warn";
  detail = codes "again";
}

rows_distinct : DistinctIds rows
unfolding has_id
rows_distinct = (refl, tt)

i2_fresh : has_id (codes "i2") rows ≡ false
unfolding has_id
i2_fresh = refl

upsert_incident_from_violation-Counted_example :
    (incident : Text) × (is_new : Bool) × (rows' : List Incident) × (upsert_incident_from_violation
        (codes "i2")
        300
        violation
        rows
      ≡ some (incident, is_new, rows'))
    × Counted violation rows is_new rows'
upsert_incident_from_violation-Counted_example =
    upsert_incident_from_violation-Counted (codes "i2") 300 violation rows rows_distinct i2_fresh

abbrev caller : Caller
caller = record { connection_id = codes "c1"; clickhouse_user = codes "ann" }

abbrev note : UpdateBody
note = record {
  title = none;
  severity = none;
  status = some (codes " Resolved ");
  assignee = none;
  details = none;
  resolution_note = some (codes "done");
}

rows-Consistent : All Consistent rows
unfolding same
rows-Consistent = ((refl, inr refl), tt)

serve-Consistent_example :
    All Consistent (serve (codes "i2") 300 (some caller) (update (codes "i1") (some note)) rows).1
serve-Consistent_example =
    serve-Consistent (codes "i2") 300 (some caller) (update (codes "i1") (some note)) rows
      rows-Consistent

abbrev resolutions : List Incident → List (Option ℕ)
resolutions is = map (λ (i : Incident). i.resolved_at) is

-- A later edit of the note moves the time of the resolution.
edit_after_resolution :
    resolutions
      (serve
        (codes "i2")
        900
        (some caller)
        (update (codes "i1") (some (record note { status = none })))
        (serve (codes "i2") 300 (some caller) (update (codes "i1") (some note)) rows).1).1
    ≡ some 900 ∷ []
unfolding serve
edit_after_resolution = refl

-- An incident that is created as resolved has no time of resolution.
created_as_resolved :
    resolutions
      (serve
        (codes "i2")
        300
        (some caller)
        (create (
          some (record {
            source_type = [];
            source_ref = [];
            title = codes "Outage";
            severity = codes "error";
            status = codes "resolved";
            assignee = [];
            details = [];
          })))
        []).1
    ≡ none ∷ []
unfolding serve
created_as_resolved = refl

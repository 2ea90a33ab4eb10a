-- ===== src/Incidents/ServeLaws.antt =====
-- Requests keep incidents consistent: the handlers of internal/server/handlers/governance.go.
use Prim.Native.Nat.{ℕ}
use mathlib.Core.Path.{◌≡◌, refl, subst}
use mathlib.Core.Logic.{inl, inr}
use mathlib.Core.Bool.{true, not}
use mathlib.Core.Option.{Option, none, some}
use mathlib.Core.List.{List, [], ◌∷◌}
use ch_ui.Prelude.Tests.{Bool-cases}
use ch_ui.Prelude.Lists.{All, All-append}
use ch_ui.Prelude.Text.{Text, codes, same, is_blank, lower, trim}
use ch_ui.Incidents.Store.{
  Incident, NewIncident, Violation, new_row, insert_row, create_incident, find_match,
  nullable_value, has_id, created_upsert, upsert_found, upsert_incident_from_violation, incident_of,
  violation_key,
}
use ch_ui.Incidents.Handlers.{
  is_status, Caller, AuditLog, CreateBody, UpdateBody, stored, new_incident, or_manual,
  is_source_type, create_handler, get_incident_by_id, status_or, merged, trimmed_or,
  update_existing, update_found, update_handler, upserted_reply, normalized, violation_handler,
  Request, create, update, from_violation, serve,
}
use ch_ui.Incidents.StatusLaws.{
  Consistent, status_stored, normalize_incident_status-is_status, update_incident-Consistent,
  count_again-Consistent, get_incident_by_id-All, stored-Consistent,
}

new_row-Consistent :
    (id : Text) (now : ℕ) (source_type : Text) (new : NewIncident)
    → is_status new.status ≡ true
    → Consistent (new_row id now source_type new)
unfolding new_row
new_row-Consistent id now source_type new h = (rw (status_stored new.status h) h, inr refl)

insert_row-Consistent :
    (id : Text) (now : ℕ) (source_type : Option Text) (new : NewIncident)
    (rows rows' : List Incident)
    → is_status new.status ≡ true
    → All Consistent rows
    → insert_row id now source_type new rows ≡ some rows'
    → All Consistent rows'
unfolding insert_row
insert_row-Consistent id now none new rows rows' h all e = cc
insert_row-Consistent id now (some source_type) new rows rows' h all e =
    elim (Bool-cases (has_id id rows)) [
      | inl taken ↦ absurd (none_rows rows' (rw taken at e))
      | inr fresh ↦ subst (All Consistent) (some_rows _ rows' (rw fresh at e)) (
          All-append Consistent rows (new_row id now source_type new ∷ []) all
            (new_row-Consistent id now source_type new h, tt))
    ]
  where
    none_rows : (xs : List Incident) → (let o : Option (List Incident) = none in o ≡ some xs) → ⊥
    none_rows xs bad = cc

    some_rows : (xs ys : List Incident) → some xs ≡ some ys → xs ≡ ys
    some_rows xs ys f = cc

create_incident-Consistent :
    (id : Text) (now : ℕ) (new : NewIncident) (rows rows' : List Incident)
    → is_status new.status ≡ true
    → All Consistent rows
    → create_incident id now new rows ≡ some rows'
    → All Consistent rows'
unfolding create_incident
create_incident-Consistent id now new rows rows' h all e =
    insert_row-Consistent id now (nullable_value (lower (trim new.source_type))) new rows rows' h
      all e

create_handler-Consistent :
    (id : Text) (now : ℕ) (session : Option Caller) (body : Option CreateBody)
    (rows : List Incident)
    → All Consistent rows
    → All Consistent (create_handler id now session body rows).1
unfolding create_handler
create_handler-Consistent id now none body rows all = all
create_handler-Consistent id now (some session) none rows all = all
create_handler-Consistent id now (some session) (some body) rows all =
    elim (Bool-cases (is_blank (trim body.title))) [
      | inl e ↦ rw e all
      | inr e ↦
          elim (Bool-cases (not (is_source_type (or_manual (trim (lower body.source_type)))))) [
            | inl f ↦ rw (e, f) all
            | inr f ↦ rw (e, f) (inserted session body _)
          ]
    ]
  where
    inserted :
        (session : Caller) (body : CreateBody) (line : AuditLog)
        → All Consistent
            (stored rows line (
              create_incident id now
                (new_incident session body (or_manual (trim (lower body.source_type))))
                rows)).1
    inserted session body line =
        let new = new_incident session body (or_manual (trim (lower body.source_type))) in
        stored-Consistent rows line (create_incident id now new rows) all (λ rows' g.
          create_incident-Consistent id now new rows rows'
            (normalize_incident_status-is_status body.status) all g)

status_or-is_status :
    (old : Text) (new : Option Text) → is_status old ≡ true → is_status (status_or old new) ≡ true
status_or-is_status old none h = h
status_or-is_status old (some v) h = normalize_incident_status-is_status v

update_existing-Consistent :
    (now : ℕ) (session : Caller) (id : Text) (i : Incident) (body : Option UpdateBody)
    (rows : List Incident)
    → Consistent i
    → All Consistent rows
    → All Consistent (update_existing now session id i body rows).1
unfolding update_existing
update_existing-Consistent now session id i none rows h all =
    elim (Bool-cases (same i.connection_id session.connection_id)) [
      | inl e ↦ rw e all
      | inr e ↦ rw e all
    ]
update_existing-Consistent now session id i (some body) rows (h, _) all =
    elim (Bool-cases (not (same i.connection_id session.connection_id))) [
      | inl e ↦ rw e all
      | inr e ↦ elim (Bool-cases (is_blank (trimmed_or i.title body.title))) [
        | inl f ↦ rw (e, f) all
        | inr f ↦
            rw (e, f)
              (update_incident-Consistent now id (merged i body) rows
                (status_or-is_status i.status body.status h) all)
      ]
    ]

update_found-Consistent :
    (now : ℕ) (session : Caller) (id : Text) (o : Option Incident) (body : Option UpdateBody)
    (rows : List Incident)
    → ((i : Incident) → o ≡ some i → Consistent i)
    → All Consistent rows
    → All Consistent (update_found now session id o body rows).1
unfolding update_found
update_found-Consistent now session id none body rows h all = all
update_found-Consistent now session id (some i) body rows h all =
    update_existing-Consistent now session id i body rows (h i refl) all

update_handler-Consistent :
    (now : ℕ) (session : Option Caller) (id : Text) (body : Option UpdateBody)
    (rows : List Incident)
    → All Consistent rows
    → All Consistent (update_handler now session id body rows).1
unfolding update_handler
update_handler-Consistent now none id body rows all = all
update_handler-Consistent now (some session) id body rows all =
    elim (Bool-cases (is_blank (trim id))) [
      | inl e ↦ rw e all
      | inr e ↦ rw e (
          update_found-Consistent now session (trim id) (get_incident_by_id (trim id) rows) body
            rows (λ i. get_incident_by_id-All (trim id) rows i all) all)
    ]

created_upsert-Consistent :
    (id : Text) (session : Caller) (violation : Text) (rows : List Incident)
    (o : Option (List Incident))
    → All Consistent rows
    → ((rows' : List Incident) → o ≡ some rows' → All Consistent rows')
    → All Consistent (upserted_reply session violation rows (created_upsert id o)).1
created_upsert-Consistent id session violation rows none all h = all
created_upsert-Consistent id session violation rows (some rows') all h = h rows' refl

open_is_status : is_status (codes "open") ≡ true
unfolding same
open_is_status = refl

upsert_found-Consistent :
    (id : Text) (now : ℕ) (session : Caller) (violation : Text) (v : Violation)
    (rows : List Incident) (o : Option Incident)
    → All Consistent rows
    → All Consistent (upserted_reply session violation rows (upsert_found id now v rows o)).1
unfolding upsert_found
upsert_found-Consistent id now session violation v rows (some i) all =
    count_again-Consistent now i.id v.detail rows all
upsert_found-Consistent id now session violation v rows none all =
    created_upsert-Consistent id session violation rows
      (create_incident id now (incident_of v) rows) all
      (λ rows' e. create_incident-Consistent id now (incident_of v) rows rows' open_is_status all e)

violation_handler-Consistent :
    (id : Text) (now : ℕ) (session : Option Caller) (violation_id : Text)
    (found : Option (Option Violation)) (rows : List Incident)
    → All Consistent rows
    → All Consistent (violation_handler id now session violation_id found rows).1
unfolding violation_handler upsert_incident_from_violation
violation_handler-Consistent id now none violation_id found rows all = all
violation_handler-Consistent id now (some session) violation_id none rows all =
    elim (Bool-cases (is_blank (trim violation_id))) [ inl e ↦ rw e all | inr e ↦ rw e all ]
violation_handler-Consistent id now (some session) violation_id (some none) rows all =
    elim (Bool-cases (is_blank (trim violation_id))) [ inl e ↦ rw e all | inr e ↦ rw e all ]
violation_handler-Consistent id now (some session) violation_id (some (some v)) rows all =
    elim (Bool-cases (is_blank (trim violation_id))) [
      | inl e ↦ rw e all
      | inr e ↦ elim (Bool-cases (not (same v.connection_id session.connection_id))) [
        | inl f ↦ rw (e, f) all
        | inr f ↦
            rw (e, f)
              (upsert_found-Consistent id now session v.source_ref (normalized v) rows
                (find_match v.connection_id (violation_key (normalized v)) none rows) all)
      ]
    ]

-- Whatever requests are served, also failing ones, the status of every incident stays one of the
-- five, and only closed incidents have a time of resolution.
pub serve-Consistent :
    (new_id : Text) (now : ℕ) (session : Option Caller) (request : Request) (rows : List Incident)
    → All Consistent rows
    → All Consistent (serve new_id now session request rows).1
unfolding serve
serve-Consistent new_id now session (create body) rows all =
    create_handler-Consistent new_id now session body rows all
serve-Consistent new_id now session (update id body) rows all =
    update_handler-Consistent now session id body rows all
serve-Consistent new_id now session (from_violation id found) rows all =
    violation_handler-Consistent new_id now session id found rows all

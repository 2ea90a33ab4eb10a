-- ===== src/Incidents/StatusLaws.antt =====
-- The statuses of incidents and the times of their resolution: internal/governance/incidents.go and the
-- handlers of internal/server/handlers/governance.go.
use Prim.Native.Nat.{ℕ}
use mathlib.Core.Path.{◌≡◌, refl, subst}
use mathlib.Core.Logic.{◌⊎◌, inl, inr}
use mathlib.Core.Bool.{Bool, true, false, ◌||◌}
use mathlib.Core.Option.{Option, none, some}
use mathlib.Core.List.{List, [], ◌∷◌}
use ch_ui.Prelude.Tests.{Bool-cases}
use ch_ui.Prelude.Lists.{All}
use ch_ui.Prelude.Text.{Text, codes, same, same→eq, lower, trim}
use ch_ui.Incidents.Store.{
  Incident, IncidentUpdate, is_closed, with_update, update_incident, count_again,
}
use ch_ui.Incidents.Handlers.{
  is_status, normalize_incident_status, AuditLog, stored, get_incident_by_id,
}

-- The status is one of the five, and only a closed incident has a time of resolution.
abbrev pub Consistent : Incident → Type 0
Consistent i = (is_status i.status ≡ true) × ((is_closed i.status ≡ true) ⊎ (i.resolved_at ≡ none))

or5 {ℓ} :
    (P : Type ℓ) (a b c d e : Bool)
    → (a || b || c || d || e) ≡ true
    → (a ≡ true → P)
    → (b ≡ true → P)
    → (c ≡ true → P)
    → (d ≡ true → P)
    → (e ≡ true → P)
    → P
or5 P true b c d e h ka kb kc kd ke = ka refl
or5 P false true c d e h ka kb kc kd ke = kb refl
or5 P false false true d e h ka kb kc kd ke = kc refl
or5 P false false false true e h ka kb kc kd ke = kd refl
or5 P false false false false true h ka kb kc kd ke = ke refl
or5 P false false false false false h ka kb kc kd ke = cc

as_stored : (s t : Text) → lower (trim t) ≡ t → same s t ≡ true → lower (trim s) ≡ s
as_stored s t e h = rw (same→eq s t h) e

-- A status is stored as it is.
pub status_stored : (s : Text) → is_status s ≡ true → lower (trim s) ≡ s
unfolding lower trim
status_stored s h =
    or5 (lower (trim s) ≡ s) _ _ _ _ _ h (as_stored s (codes "open") refl)
      (as_stored s (codes "triaged") refl) (as_stored s (codes "in_progress") refl)
      (as_stored s (codes "resolved") refl) (as_stored s (codes "dismissed") refl)

pub normalize_incident_status-is_status :
    (v : Text) → is_status (normalize_incident_status v) ≡ true
unfolding normalize_incident_status same
normalize_incident_status-is_status v = elim (Bool-cases (is_status (lower (trim v)))) [
  | inl e ↦ rw (e, e) refl
  | inr e ↦ rw e refl
]

with_update-Consistent :
    (now : ℕ) (u : IncidentUpdate) (i : Incident)
    → is_status u.status ≡ true
    → Consistent (with_update now u i)
with_update-Consistent now u i h =
    let e = status_stored u.status h in
    (
      rw e h,
      elim (Bool-cases (is_closed u.status)) [ inl c ↦ inl (rw e c) | inr c ↦ inr (rw c refl) ],
    )

pub update_incident-Consistent :
    (now : ℕ) (id : Text) (u : IncidentUpdate) (rows : List Incident)
    → is_status u.status ≡ true
    → All Consistent rows
    → All Consistent (update_incident now id u rows)
unfolding update_incident
update_incident-Consistent now id u [] h all = tt
update_incident-Consistent now id u (i ∷ rows) h (hi, all) = elim (Bool-cases (same i.id id)) [
  | inl e ↦ rw e (with_update-Consistent now u i h, update_incident-Consistent now id u rows h all)
  | inr e ↦ rw e (hi, update_incident-Consistent now id u rows h all)
]

pub count_again-Consistent :
    (now : ℕ) (id detail : Text) (rows : List Incident)
    → All Consistent rows
    → All Consistent (count_again now id detail rows)
unfolding count_again
count_again-Consistent now id detail [] all = tt
count_again-Consistent now id detail (i ∷ rows) (hi, all) = elim (Bool-cases (same i.id id)) [
  | inl e ↦ rw e (hi, count_again-Consistent now id detail rows all)
  | inr e ↦ rw e (hi, count_again-Consistent now id detail rows all)
]

pub get_incident_by_id-All :
    (id : Text) (rows : List Incident) (i : Incident)
    → All Consistent rows
    → get_incident_by_id id rows ≡ some i
    → Consistent i
unfolding get_incident_by_id
get_incident_by_id-All id [] i all e = cc
get_incident_by_id-All id (x ∷ rows) i (hx, all) e = elim (Bool-cases (same x.id id)) [
  | inl hit ↦ subst Consistent (some_eq x i (rw hit at e)) hx
  | inr miss ↦ get_incident_by_id-All id rows i all (rw miss at e)
]
  where
    some_eq : (x y : Incident) → some x ≡ some y → x ≡ y
    some_eq x y h = cc

-- The table of a reply, where a change failed or not.
pub stored-Consistent :
    (rows : List Incident) (line : AuditLog) (o : Option (List Incident))
    → All Consistent rows
    → ((rows' : List Incident) → o ≡ some rows' → All Consistent rows')
    → All Consistent (stored rows line o).1
stored-Consistent rows line none all h = all
stored-Consistent rows line (some rows') all h = h rows' refl

-- ===== src/Incidents/ViolationLaws.antt =====
-- What a reported violation does to the table of incidents: UpsertIncidentFromViolation of
-- internal/governance/incidents.go.
use Prim.Native.Nat.{ℕ, suc, ◌<◌}
use mathlib.Core.Path.{◌≡◌, refl, ap, ◌∙◌}
use mathlib.Core.Logic.{◌⊎◌, ◌≢◌, inl, inr}
use mathlib.Core.Bool.{Bool, true, false, ◌||◌}
use mathlib.Core.Option.{Option, none, some}
use mathlib.Core.List.{List, [], ◌∷◌, ◌++◌}
use native.Mathlib.Omega.{arith}
use ch_ui.Prelude.Tests.{◌==◌, if◌then◌else◌, Bool-cases, Option-cases}
use ch_ui.Prelude.Text.{Text, codes, same, same_refl, lower, trim}
use ch_ui.Incidents.Store.{
  Incident, Violation, has_id, has_key, is_match, find_match, count_again, new_row, insert_row,
  create_incident, nullable_value, violation_key, upsert_found, upsert_incident_from_violation,
  incident_of,
}
use ch_ui.Incidents.Keys.{violation_key-nullable_value}
use ch_ui.Incidents.CountLaws.{
  DistinctIds, open_incidents, occurrences, Matches, find_match-Matches, find_match-none,
  occurrences-count_again,
}
use ch_ui.Incidents.UpsertLaws.{
  Other, is_match-Other, count_again-Other, occurrences-append, open_incidents-append,
  DistinctIds-append,
}

has_id-count_again :
    (now : ℕ) (id detail j : Text) (rows : List Incident)
    → has_id j (count_again now id detail rows) ≡ has_id j rows
unfolding count_again has_id
has_id-count_again now id detail j [] = refl
has_id-count_again now id detail j (x ∷ rows) = elim (Bool-cases (same x.id id)) [
  | inl e ↦ rw e (ap (λ b. same x.id j || b) (has_id-count_again now id detail j rows))
  | inr e ↦ rw e (ap (λ b. same x.id j || b) (has_id-count_again now id detail j rows))
]

DistinctIds-count_again :
    (now : ℕ) (id detail : Text) (rows : List Incident)
    → DistinctIds rows
    → DistinctIds (count_again now id detail rows)
unfolding count_again
DistinctIds-count_again now id detail [] d = tt
DistinctIds-count_again now id detail (i ∷ rows) (new, d) = elim (Bool-cases (same i.id id)) [
  | inl e ↦ rw e (kept, DistinctIds-count_again now id detail rows d)
  | inr e ↦ rw e (kept, DistinctIds-count_again now id detail rows d)
]
  where
    kept : has_id i.id (count_again now id detail rows) ≡ false
    kept = has_id-count_again now id detail i.id rows ∙ new

-- What a violation did to the table: it is counted once more for its key, in a new incident exactly
-- if none was open, and nothing is counted for any other key.
pub record Counted (v : Violation) (rows : List Incident) (is_new : Bool) (rows' : List Incident)
    : Type 0 where
  pub distinct : DistinctIds rows'
  pub once_more :
      occurrences v.connection_id (violation_key v) rows'
      ≡ suc (occurrences v.connection_id (violation_key v) rows)
  pub opened :
      open_incidents v.connection_id (violation_key v) rows'
      ≡ (if is_new then 1 else open_incidents v.connection_id (violation_key v) rows)
  pub is_new_if : is_new ≡ (open_incidents v.connection_id (violation_key v) rows == 0)
  pub others :
      (c k : Text)
      → Other c k v.connection_id (violation_key v)
      → occurrences c k rows' ≡ occurrences c k rows

pos_ne_zero : (n : ℕ) → 0 < n → false ≡ (n == 0)
pos_ne_zero n h = ground arith

found-Counted :
    (now : ℕ) (v : Violation) (rows : List Incident) (id : Text)
    → DistinctIds rows
    → Matches v.connection_id (violation_key v) id rows
    → Counted v rows false (count_again now id v.detail rows)
found-Counted now v rows id d m =
    let key = violation_key v in
    let (more, as_open, some_open) =
      occurrences-count_again v.connection_id key now id v.detail rows d m in
    record {
      distinct = DistinctIds-count_again now id v.detail rows d;
      once_more = more;
      opened = as_open;
      is_new_if = pos_ne_zero (open_incidents v.connection_id key rows) some_open;
      others =
          λ c k other. count_again-Other c k v.connection_id key now id v.detail rows other d m;
    }

abbrev row_of : Text → ℕ → Violation → Incident
row_of id now v = new_row id now (codes "violation") (incident_of v)

row_of-match :
    (id : Text) (now : ℕ) (v : Violation)
    → is_match v.connection_id (violation_key v) (row_of id now v) ≡ true
unfolding is_match new_row has_key
row_of-match id now v =
    rw (violation_key-nullable_value v, same_refl v.connection_id, same_refl (violation_key v)) refl

new-Counted :
    (id : Text) (now : ℕ) (v : Violation) (rows : List Incident)
    → DistinctIds rows
    → has_id id rows ≡ false
    → open_incidents v.connection_id (violation_key v) rows ≡ 0
    → occurrences v.connection_id (violation_key v) rows ≡ 0
    → Counted v rows true (rows ++ row_of id now v ∷ [])
unfolding new_row
new-Counted id now v rows d fresh none_open none_seen =
    let key = violation_key v in
    let row = row_of id now v in
    let hit = row_of-match id now v in
    record {
      distinct = DistinctIds-append rows row d fresh;
      once_more = occurrences-append v.connection_id key rows (row ∷ []) ∙ rw hit (omega arith);
      opened =
          open_incidents-append v.connection_id key rows (row ∷ [])
          ∙ rw hit (omega (arith, none_open));
      is_new_if = rw none_open refl;
      others = λ c k other.
          occurrences-append c k rows (row ∷ [])
          ∙ rw (is_match-Other c k v.connection_id key row hit other) (omega arith);
    }

created_lem :
    (id : Text) (now : ℕ) (v : Violation) (rows : List Incident)
    → has_id id rows ≡ false
    → create_incident id now (incident_of v) rows ≡ some (rows ++ row_of id now v ∷ [])
unfolding create_incident insert_row nullable_value lower trim
created_lem id now v rows fresh = rw fresh refl

none-some : (i : Incident) → (let unset : Option Incident = none in unset ≢ some i)
none-some i e = cc

-- Where identifiers are a primary key and the new one is fresh, a reported violation is recorded: the
-- open incidents of its connection and key count one occurrence more in all, a new incident is
-- made exactly if none was open, and what is counted for other connections and keys is unchanged.
pub upsert_incident_from_violation-Counted :
    (id : Text) (now : ℕ) (v : Violation) (rows : List Incident)
    → DistinctIds rows
    → has_id id rows ≡ false
    → (incident : Text) × (is_new : Bool) × (rows' : List Incident)
      × (upsert_incident_from_violation id now v rows ≡ some (incident, is_new, rows'))
      × Counted v rows is_new rows'
unfolding upsert_incident_from_violation upsert_found
upsert_incident_from_violation-Counted id now v rows d fresh =
    elim (Option-cases (find_match v.connection_id (violation_key v) none rows)) [
      | inl e ↦
          let (_, none_open, none_seen) =
            find_match-none v.connection_id (violation_key v) none rows e in
          (
            id,
            true,
            rows ++ row_of id now v ∷ [],
            rw (e, created_lem id now v rows fresh) refl,
            new-Counted id now v rows d fresh none_open none_seen,
          )
      | inr (i, e) ↦ (
        i.id,
        false,
        count_again now i.id v.detail rows,
        rw e refl,
        found-Counted now v rows i.id d
            (matched i (find_match-Matches v.connection_id (violation_key v) none rows i e)),
      )
    ]
  where
    matched :
        (i : Incident)
        → (let unset : Option Incident = none in unset ≡ some i)
          ⊎ Matches v.connection_id (violation_key v) i.id rows
        → Matches v.connection_id (violation_key v) i.id rows
    matched i (inl bad) = absurd (none-some i bad)
    matched i (inr m) = m

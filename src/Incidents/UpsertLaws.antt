-- ===== src/Incidents/UpsertLaws.antt =====
-- Rows that count for another key, and rows that are added (UpsertIncidentFromViolation of
-- internal/governance/incidents.go).
use Prim.Native.Nat.{ℕ, ◌+◌}
use mathlib.Core.Path.{◌≡◌, refl, sym, ◌∙◌}
use mathlib.Core.Logic.{inl, inr}
use mathlib.Core.Bool.{Bool, true, false, ◌&&◌, ◌||◌}
use mathlib.Core.Option.{Option, none, some}
use mathlib.Core.List.{List, [], ◌∷◌, ◌++◌}
use native.Mathlib.Omega.{arith}
use ch_ui.Prelude.Tests.{Bool-cases}
use ch_ui.Prelude.Text.{Text, same, same_iff, same_refl, same_sym, same→eq}
use ch_ui.Incidents.Store.{Incident, has_id, has_key, is_match, count_again}
use ch_ui.Incidents.CountLaws.{
  DistinctIds, open_incidents, occurrences, Matches, count_again-absent, is_match-seen_again,
  Matches-has_id,
}

-- Another connection or another key.
abbrev pub Other : Text → Text → Text → Text → Type 0
Other c k connection_id key = (same connection_id c && same key k) ≡ false

exclusive :
    (c k connection_id key ic : Text) (d : Option Text) (o : Bool)
    → (same ic connection_id && has_key d key && o) ≡ true
    → Other c k connection_id key
    → (same ic c && has_key d k && o) ≡ false
unfolding has_key
exclusive c k connection_id key ic none o h other = ground arith
exclusive c k connection_id key ic (some j) o h other =
    ground (arith, same_iff ic connection_id, same_iff j key)

pub is_match-Other :
    (c k connection_id key : Text) (i : Incident)
    → is_match connection_id key i ≡ true
    → Other c k connection_id key
    → is_match c k i ≡ false
unfolding is_match
is_match-Other c k connection_id key i h other =
    exclusive c k connection_id key i.connection_id i.dedupe_key _ h other

-- What is counted for another key stays as it is.
pub count_again-Other :
    (c k connection_id key : Text) (now : ℕ) (id detail : Text) (rows : List Incident)
    → Other c k connection_id key
    → DistinctIds rows
    → Matches connection_id key id rows
    → occurrences c k (count_again now id detail rows) ≡ occurrences c k rows
unfolding count_again
count_again-Other c k connection_id key now id detail [] other d m = absurd m
count_again-Other c k connection_id key now id detail (i ∷ rows) other (new, d) (inl (e, hit)) =
    let same_id : same i.id id ≡ true = rw e (same_refl id) in
    let unseen = count_again-absent now id detail rows (rw e at new) in
    let miss = is_match-Other c k connection_id key i hit other in
    rw (same_id, unseen, is_match-seen_again c k detail now i, miss) refl
count_again-Other c k connection_id key now id detail (i ∷ rows) other (new, d) (inr m) =
    elim (Bool-cases (same i.id id)) [
      | inl e ↦
          let found : has_id i.id rows ≡ true =
            rw (same→eq i.id id e) (Matches-has_id connection_id key id rows m) in
          (let bad : false ≡ true = sym new ∙ found in cc)
      | inr e ↦
          let rest = count_again-Other c k connection_id key now id detail rows other d m in
          rw e (omega (arith, rest))
    ]

pub occurrences-append :
    (c k : Text) (xs ys : List Incident)
    → occurrences c k (xs ++ ys) ≡ occurrences c k xs + occurrences c k ys
occurrences-append c k [] ys = omega arith
occurrences-append c k (x ∷ xs) ys = omega (arith, occurrences-append c k xs ys)

pub open_incidents-append :
    (c k : Text) (xs ys : List Incident)
    → open_incidents c k (xs ++ ys) ≡ open_incidents c k xs + open_incidents c k ys
open_incidents-append c k [] ys = omega arith
open_incidents-append c k (x ∷ xs) ys = omega (arith, open_incidents-append c k xs ys)

has_id-append :
    (id : Text) (xs : List Incident) (y : Incident)
    → has_id id xs ≡ false
    → same y.id id ≡ false
    → has_id id (xs ++ y ∷ []) ≡ false
unfolding has_id
has_id-append id [] y h n = ground arith
has_id-append id (x ∷ xs) y h n = ground (arith, has_id-append id xs y)

pub DistinctIds-append :
    (rows : List Incident) (y : Incident)
    → DistinctIds rows
    → has_id y.id rows ≡ false
    → DistinctIds (rows ++ y ∷ [])
unfolding has_id
DistinctIds-append [] y d h = (refl, tt)
DistinctIds-append (x ∷ rows) y (new, d) h = (
  has_id-append x.id rows y new (same_sym y.id x.id ∙ (or_false_parts h).0),
  DistinctIds-append rows y d (or_false_parts h).1,
)
  where
    or_false_parts :
        (same x.id y.id || has_id y.id rows) ≡ false
        → (same x.id y.id ≡ false) × (has_id y.id rows ≡ false)
    or_false_parts e = ground arith

-- ===== src/Incidents/CountLaws.antt =====
-- How often a violation is counted: UpsertIncidentFromViolation of internal/governance/incidents.go.
use Prim.Native.Nat.{ℕ, suc, ◌+◌, ◌<◌}
use mathlib.Core.Path.{◌≡◌, refl, sym, ap, ◌∙◌}
use mathlib.Core.Logic.{◌⊎◌, ◌≢◌, inl, inr}
use mathlib.Core.Bool.{true, false}
use mathlib.Core.Option.{Option, none, some}
use mathlib.Core.List.{List, [], ◌∷◌}
use native.Mathlib.Omega.{arith}
use ch_ui.Prelude.Tests.{ltb, if◌then◌else◌, Bool-cases, or_true}
use ch_ui.Prelude.Text.{Text, same, same→eq, same_refl}
use ch_ui.Incidents.Store.{
  Incident, has_id, is_match, find_match, count_again, later_seen, seen_again,
}

-- Identifiers are a primary key.
abbrev pub DistinctIds : List Incident → Type 0
DistinctIds [] = Unit
DistinctIds (i ∷ rows) = (has_id i.id rows ≡ false) × DistinctIds rows

-- The open incidents of a connection with a key, and how often they were seen.
abbrev pub open_incidents : Text → Text → List Incident → ℕ
open_incidents connection_id key [] = 0
open_incidents connection_id key (i ∷ rows) =
    (if is_match connection_id key i then 1 else 0) + open_incidents connection_id key rows

abbrev pub occurrences : Text → Text → List Incident → ℕ
occurrences connection_id key [] = 0
occurrences connection_id key (i ∷ rows) =
    (if is_match connection_id key i then i.occurrence_count else 0)
    + occurrences connection_id key rows

-- Some matching row has the identifier.
abbrev pub Matches : Text → Text → Text → List Incident → Type 0
Matches connection_id key id [] = ⊥
Matches connection_id key id (i ∷ rows) =
    ((i.id ≡ id) × (is_match connection_id key i ≡ true)) ⊎ Matches connection_id key id rows

pub count_again-absent :
    (now : ℕ) (id detail : Text) (rows : List Incident)
    → has_id id rows ≡ false
    → count_again now id detail rows ≡ rows
unfolding count_again has_id
count_again-absent now id detail [] h = refl
count_again-absent now id detail (i ∷ rows) h = elim (Bool-cases (same i.id id)) [
  | inl e ↦ (let bad : true ≡ false = rw e at h in cc)
  | inr e ↦ rw e (ap (λ l. i ∷ l) (count_again-absent now id detail rows (rw e at h)))
]

-- Counting again leaves open what is open.
pub is_match-seen_again :
    (c k detail : Text) (now : ℕ) (i : Incident)
    → is_match c k (seen_again now detail i) ≡ is_match c k i
unfolding is_match
is_match-seen_again c k detail now i = refl

module _ (connection_id key : Text) where
  pub Matches-has_id :
      (id : Text) (rows : List Incident) → Matches connection_id key id rows → has_id id rows ≡ true
  unfolding has_id
  Matches-has_id id [] m = absurd m
  Matches-has_id id (i ∷ rows) (inl (e, hit)) = rw (e, same_refl id) refl
  Matches-has_id id (i ∷ rows) (inr m) = rw (Matches-has_id id rows m) (or_true (same i.id id))

  pub occurrences-count_again :
      (now : ℕ) (id detail : Text) (rows : List Incident)
      → DistinctIds rows
      → Matches connection_id key id rows
      → (occurrences connection_id key (count_again now id detail rows)
          ≡ suc (occurrences connection_id key rows))
        × (open_incidents connection_id key (count_again now id detail rows)
            ≡ open_incidents connection_id key rows)
        × (0 < open_incidents connection_id key rows)
  unfolding count_again
  occurrences-count_again now id detail [] d m = absurd m
  occurrences-count_again now id detail (i ∷ rows) (new, d) (inl (e, hit)) =
      let same_id : same i.id id ≡ true = rw e (same_refl id) in
      let unseen = count_again-absent now id detail rows (rw e at new) in
      rw (same_id, unseen, is_match-seen_again connection_id key detail now i, hit)
        (omega arith, refl, omega arith)
  occurrences-count_again now id detail (i ∷ rows) (new, d) (inr m) =
      elim (Bool-cases (same i.id id)) [
        | inl e ↦
            let found : has_id i.id rows ≡ true =
              rw (same→eq i.id id e) (Matches-has_id id rows m) in
            (let bad : false ≡ true = sym new ∙ found in cc)
        | inr e ↦
            let (more, as_open, some_open) = occurrences-count_again now id detail rows d m in
            rw e (omega (arith, more), omega (arith, as_open), omega (arith, some_open))
      ]

  later_seen_cases :
      (best : Option Incident) (x i : Incident)
      → later_seen best x ≡ some i
      → (best ≡ some i) ⊎ (x ≡ i)
  later_seen_cases none x i e = inr (cc)
  later_seen_cases (some j) x i e = elim (Bool-cases (ltb j.last_seen_at x.last_seen_at)) [
    | inl newer ↦ (let e' : some x ≡ some i = rw newer at e in inr (cc))
    | inr older ↦ inl (rw older at e)
  ]

  later_seen-ne-none : (best : Option Incident) (x : Incident) → later_seen best x ≢ none
  later_seen-ne-none none x e = cc
  later_seen-ne-none (some j) x e = ground arith

  -- A row that is found was found before or matches.
  pub find_match-Matches :
      (best : Option Incident) (rows : List Incident) (i : Incident)
      → find_match connection_id key best rows ≡ some i
      → (best ≡ some i) ⊎ Matches connection_id key i.id rows
  unfolding find_match
  find_match-Matches best [] i e = inl e
  find_match-Matches best (x ∷ rows) i e = elim (Bool-cases (is_match connection_id key x)) [
    | inl hit ↦ from_later hit (find_match-Matches (later_seen best x) rows i (rw hit at e))
    | inr miss ↦ from_best (find_match-Matches best rows i (rw miss at e))
  ]
    where
      from_best :
          (best ≡ some i) ⊎ Matches connection_id key i.id rows
          → (best ≡ some i) ⊎ Matches connection_id key i.id (x ∷ rows)
      from_best (inl f) = inl f
      from_best (inr m) = inr (inr m)

      from_x :
          is_match connection_id key x ≡ true
          → (best ≡ some i) ⊎ (x ≡ i)
          → (best ≡ some i) ⊎ Matches connection_id key i.id (x ∷ rows)
      from_x hit (inl f) = inl f
      from_x hit (inr f) = inr (inl (ap (λ (j : Incident). j.id) f, hit))

      from_later :
          is_match connection_id key x ≡ true
          → (later_seen best x ≡ some i) ⊎ Matches connection_id key i.id rows
          → (best ≡ some i) ⊎ Matches connection_id key i.id (x ∷ rows)
      from_later hit (inl f) = from_x hit (later_seen_cases best x i f)
      from_later hit (inr m) = inr (inr m)

  -- Where none is found, none matches.
  pub find_match-none :
      (best : Option Incident) (rows : List Incident)
      → find_match connection_id key best rows ≡ none
      → (best ≡ none)
        × (open_incidents connection_id key rows ≡ 0)
        × (occurrences connection_id key rows ≡ 0)
  unfolding find_match
  find_match-none best [] e = (e, refl, refl)
  find_match-none best (x ∷ rows) e = elim (Bool-cases (is_match connection_id key x)) [
    | inl hit ↦
        let (bad, _, _) = find_match-none (later_seen best x) rows (rw hit at e) in
        absurd (later_seen-ne-none best x bad)
    | inr miss ↦
        let (unset, none_open, none_seen) = find_match-none best rows (rw miss at e) in
        rw miss (unset, omega (arith, none_open), omega (arith, none_seen))
  ]

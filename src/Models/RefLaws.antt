-- ===== src/Models/RefLaws.antt =====
-- What `ExtractRefs` and `ResolveRefs` of internal/models/ref.go agree on.
use Prim.Native.Nat.{ℕ, zero, suc, ◌≤◌}
use mathlib.Core.Path.{◌≡◌, refl, ap, subst}
use mathlib.Core.Logic.{◌↔◌, ◌≢◌, inl, inr}
use mathlib.Core.Bool.{true}
use mathlib.Core.Option.{Option, none, some}
use mathlib.Core.List.{List, [], ◌∷◌}
use native.Mathlib.Omega.{arith}
use ch_ui.Prelude.Tests.{if◌then◌else◌, Bool-cases, Option-cases}
use ch_ui.Prelude.Lists.{All, length}
use ch_ui.Prelude.Text.{Text, codes, same, same→eq}
use ch_ui.Prelude.Maps.{lookup}
use ch_ui.Prelude.Counts.{count}
use ch_ui.Models.Dag.Components.{member}
use ch_ui.Models.Dag.Closed.{member-All}
use ch_ui.Models.Ref.{
  Piece, plain, ref, validate_model_name, close_ref, name_ref, take_name, skip_blank, match_ref,
  strip_prefix, strip_sql_comments, ref_body, pieces, body_pieces, distinct_refs, extract_refs,
  resolve_ref, resolve_pieces, resolve_refs,
}

-- The names of all references, with repetitions.
names : List Piece → List Text
names [] = []
names (plain c ∷ ps) = names ps
names (ref name match ∷ ps) = name ∷ names ps

distinct-names :
    (P : Text → Type 0) (ps : List Piece) (seen : List Text)
    → All P seen
    → All P (distinct_refs ps seen) ↔ All P (names ps)
unfolding distinct_refs names
distinct-names P [] seen h = (λ _. tt, λ _. tt)
distinct-names P (plain c ∷ ps) seen h = distinct-names P ps seen h
distinct-names P (ref name match ∷ ps) seen h = elim (Bool-cases (member name seen)) [
  | inl old ↦ rw old (
      let (to, from) = distinct-names P ps seen h in
      (λ d. (member-All P name seen h old, to d), λ (p, n). from n))
  | inr new ↦ rw new (
    λ (p, d). (p, (distinct-names P ps (name ∷ seen) (p, h)).0 d),
    λ (p, n). (p, (distinct-names P ps (name ∷ seen) (p, h)).1 n),
  )
]

-- A name with a target.
abbrev pub HasTarget : List (Text × Text) → Text → Type 0
HasTarget targets name = lookup name targets ≢ none

resolve_ref-none :
    (name match : Text) (r : Text × Option Text) → (resolve_ref name match none r).1 ≢ none
unfolding resolve_ref
resolve_ref-none name match (text, none) h = cc
resolve_ref-none name match (text, some e) h = cc

resolve-names :
    (targets : List (Text × Text)) (ps : List Piece)
    → ((resolve_pieces targets ps).1 ≡ none) ↔ All (HasTarget targets) (names ps)
unfolding resolve_pieces names
resolve-names targets [] = (λ _. tt, λ _. refl)
resolve-names targets (plain c ∷ ps) = resolve-names targets ps
resolve-names targets (ref name match ∷ ps) =
    let (to, from) = resolve-names targets ps in
    elim (Option-cases (lookup name targets)) [
      | inl e ↦ (
        λ h. absurd (resolve_ref-none name match (resolve_pieces targets ps) (rw e at h)),
        λ (p, h). absurd (p e),
      )
      | inr (db, e) ↦ (λ h. (λ k. has_no e k, to (rw e at h)), λ (p, h). rw e (from h))
    ]
  where
    has_no : {o : Option Text} {db : Text} → o ≡ some db → o ≡ none → ⊥
    has_no e k = cc

-- `ResolveRefs` succeeds exactly if every name that `ExtractRefs` finds has a target.
pub resolve_refs-extract_refs :
    (sql : Text) (targets : List (Text × Text))
    → ((resolve_refs sql targets).1 ≡ none) ↔ All (HasTarget targets) (extract_refs sql)
unfolding resolve_refs extract_refs
resolve_refs-extract_refs sql targets =
    let (a, b) = resolve-names targets (body_pieces sql) in
    let (c, d) = distinct-names (HasTarget targets) (body_pieces sql) [] tt in
    (λ e. d (a e), λ h. b (c h))

count-distinct_refs :
    (x : Text) (ps : List Piece) (seen : List Text)
    → count x (distinct_refs ps seen) ≤ (if member x seen then 0 else 1)
unfolding distinct_refs count member
count-distinct_refs x [] seen = omega arith
count-distinct_refs x (plain c ∷ ps) seen = count-distinct_refs x ps seen
count-distinct_refs x (ref name match ∷ ps) seen = elim (Bool-cases (same name x)) [
  | inl e ↦
      let e' : member name seen ≡ member x seen = ap (λ t. member t seen) (same→eq name x e) in
      ground (arith, count-distinct_refs x ps seen, count-distinct_refs x ps (name ∷ seen))
  | inr e ↦ ground (arith, count-distinct_refs x ps seen, count-distinct_refs x ps (name ∷ seen))
]

-- No name is found twice.
extract_refs_once : (x : Text) (sql : Text) → count x (extract_refs sql) ≤ 1
unfolding extract_refs member
extract_refs_once x sql = count-distinct_refs x (body_pieces sql) []

close_ref-name : (n s : Text) {name rest : Text} → close_ref n s ≡ some (name, rest) → n ≡ name
unfolding close_ref
close_ref-name n [] h = cc
close_ref-name n (c ∷ s) h = ground arith

name_ref-valid :
    (p : Text × Text) {name rest : Text}
    → name_ref p ≡ some (name, rest)
    → validate_model_name name ≡ true
unfolding name_ref
name_ref-valid (n, s) {name = name} h = elim (Bool-cases (validate_model_name n)) [
  | inl good ↦
      subst (λ t. validate_model_name t ≡ true) (close_ref-name n (skip_blank s) (rw good at h))
        good
  | inr bad ↦ let h' = rw bad at h in cc
]

ref_body-valid :
    (o : Option Text) {name rest : Text}
    → ref_body o ≡ some (name, rest)
    → validate_model_name name ≡ true
ref_body-valid none h = cc
ref_body-valid (some s) h = name_ref-valid (take_name (skip_blank s)) h

match_ref-valid :
    (s : Text) {name rest : Text}
    → match_ref s ≡ some (name, rest)
    → validate_model_name name ≡ true
unfolding match_ref
match_ref-valid s h = ref_body-valid (strip_prefix (codes "$ref(") s) h

pieces-valid :
    (fuel : ℕ) (s : Text) → All (λ n. validate_model_name n ≡ true) (names (pieces fuel s))
unfolding pieces names
pieces-valid zero s = tt
pieces-valid (suc fuel) [] = tt
pieces-valid (suc fuel) (c ∷ s) = elim (Option-cases (match_ref (c ∷ s))) [
  | inl e ↦ rw (e, names, All) (pieces-valid fuel s)
  | inr ((name, rest), e) ↦ rw (e, names, All) (match_ref-valid (c ∷ s) e, pieces-valid fuel rest)
]

-- Every name that `ExtractRefs` returns is a valid model name, and no name is returned twice.
pub extract_refs-names :
    (sql : Text)
    → All (λ n. validate_model_name n ≡ true) (extract_refs sql)
      × ((x : Text) → count x (extract_refs sql) ≤ 1)
unfolding extract_refs body_pieces
extract_refs-names sql =
    let body = strip_sql_comments sql in
    (
      (distinct-names (λ n. validate_model_name n ≡ true) (pieces (length body) body) [] tt).1
          (pieces-valid (length body) body),
      λ x. extract_refs_once x sql,
    )

-- ===== src/Governance/TouchLaws.antt =====
-- What a query touches (internal/governance/policy_engine.go) among more tables.
use mathlib.Core.Path.{◌≡◌, refl}
use mathlib.Core.Logic.{inl, inr}
use mathlib.Core.Bool.{Bool, true, false, not, ◌&&◌}
use mathlib.Core.List.{List, [], ◌∷◌}
use native.Mathlib.Omega.{arith}
use ch_ui.Prelude.Tests.{Bool-cases}
use ch_ui.Prelude.Lists.{All, any}
use ch_ui.Prelude.Text.{Text, same, same→eq, is_blank, lower, cut}
use ch_ui.Governance.Policy.{
  Policy, deref, in_database, is_table, touches_database, touches_table, query_touches_object,
}

any-same :
    (f : Text → Bool) (t : Text) (ys : List Text)
    → any (same t) ys ≡ true
    → f t ≡ true
    → any f ys ≡ true
unfolding any
any-same f t [] h k = cc
any-same f t (y ∷ ys) h k = elim (Bool-cases (same t y)) [
  | inl e ↦ (let here : f y ≡ true = rw (same→eq t y e) at k in rw here refl)
  | inr e ↦ (let there = any-same f t ys (rw e at h) k in ground (arith, there))
]

-- Every text of a list is in another list.
abbrev pub Within : List Text → List Text → Type 0
Within ys = All (λ t. any (same t) ys ≡ true)

any-Within :
    (f : Text → Bool) (xs ys : List Text) → Within ys xs → any f xs ≡ true → any f ys ≡ true
unfolding any
any-Within f [] ys h k = cc
any-Within f (x ∷ xs) ys (here, h) k = elim (Bool-cases (f x)) [
  | inl e ↦ any-same f x ys here e
  | inr e ↦ any-Within f xs ys h (rw e at k)
]

and_map : (a b c : Bool) → (b ≡ true → c ≡ true) → (a && b) ≡ true → (a && c) ≡ true
and_map true b c f h = f h
and_map false b c f h = h

touches_database-Within :
    (used checked : List Text) (database : Text)
    → Within checked used
    → touches_database used database ≡ true
    → touches_database checked database ≡ true
unfolding touches_database
touches_database-Within used checked database h =
    and_map (not (is_blank database)) _ _
      (any-Within (λ t. in_database (lower database) (cut b'.' t)) used checked h)

touches_table-Within :
    (used checked : List Text) (database table : Text)
    → Within checked used
    → touches_table used database table ≡ true
    → touches_table checked database table ≡ true
unfolding touches_table
touches_table-Within used checked database table h =
    and_map (not (is_blank table)) _ _
      (any-Within (λ t. is_table (lower database) (lower table) (cut b'.' t)) used checked h)

-- What a query touches among some tables it touches among more.
pub touches-Within :
    (used checked : List Text) (query : Text) (p : Policy)
    → Within checked used
    → query_touches_object used query p ≡ true
    → query_touches_object checked query p ≡ true
unfolding query_touches_object
touches-Within used checked query p h k =
    let database = touches_database-Within used checked (deref p.object_database) h in
    let table =
      touches_table-Within used checked (deref p.object_database) (deref p.object_table) h in
    ground (arith, k, database, table)

-- ===== src/RateLimit/CheckLaws.antt =====
-- What holds of the limiter's operations over the table.
use Prim.Native.Nat.{ℕ, suc, ◌+◌, ◌-◌, ◌%◌, ◌≤◌, ◌<◌}
use mathlib.Core.Path.{◌≡◌, refl, ◌∙◌}
use mathlib.Core.Bool.{true}
use mathlib.Core.Option.{Option, none, some}
use mathlib.Core.List.{List, [], ◌∷◌}
use native.Mathlib.Omega.{arith}
use ch_ui.Prelude.Tests.{ltb}
use ch_ui.Prelude.Lists.{length}
use ch_ui.Prelude.Int.{ℤ, pos, int64-pos, int_bound, ltb_ℤ, ◌+ℤ◌}
use ch_ui.Prelude.Text.{Text}
use ch_ui.Prelude.Maps.{lookup, lookup-insert_self}
use ch_ui.Prelude.Clock.{Moment, Stamp, at, second, stamp}
use ch_ui.RateLimit.Level.{format_limit_type_with_lock_level}
use ch_ui.RateLimit.LevelLaws.{IsPlain, parse-format}
use ch_ui.RateLimit.Table.{
  RateLimitEntry, Db, fetched, get_rate_limit, created, stamp_option, upsert_rate_limit,
}
use ch_ui.RateLimit.Check.{Clock, check_auth_rate_limit, record_attempt}

-- A table whose statements succeed.
pub record Works (db : Db) : Type 0 where
  pub reads : db.reads_ok ≡ true
  pub writes : db.writes_ok ≡ true

-- The row that an upsert leaves, but for the two columns that the limiter does not read.
pub record Stores (db : Db) (identifier limit_type : Text) (attempts : ℤ) (first : Stamp)
    (lock : Option Stamp) : Type 0 where
  pub row : RateLimitEntry
  pub found : get_rate_limit db identifier ≡ fetched (some row)
  pub type_is : row.limit_type ≡ limit_type
  pub attempts_are : row.attempts ≡ attempts
  pub first_is : row.first_attempt_at ≡ first
  pub lock_is : row.locked_until ≡ lock

pub upsert-Works :
    (db : Db) (identifier limit_type : Text) (attempts : ℤ) (first : Moment) (lock : Option Moment)
    (now : Moment)
    → Works db
    → Works (upsert_rate_limit db identifier limit_type attempts first lock now)
unfolding upsert_rate_limit
upsert-Works db identifier limit_type attempts first lock now w = ground arith

pub upsert-Stores :
    (db : Db) (identifier limit_type : Text) (attempts : ℤ) (first : Moment) (lock : Option Moment)
    (now : Moment)
    → Works db
    → Stores
        (upsert_rate_limit db identifier limit_type attempts first lock now)
        identifier
        limit_type
        attempts
        (stamp first)
        (stamp_option lock)
unfolding upsert_rate_limit get_rate_limit
upsert-Stores db identifier limit_type attempts first lock now w = record {
  row = record {
    limit_type = limit_type;
    attempts = attempts;
    first_attempt_at = stamp first;
    locked_until = stamp_option lock;
    created_at = created (lookup identifier db.rows) (stamp now);
    updated_at = stamp now;
  };
  found = rw (w.reads, w.writes, lookup-insert_self identifier _ db.rows);
  type_is = refl;
  attempts_are = refl;
  first_is = refl;
  lock_is = refl;
}

-- A check of a row with no lock, inside its window, allows an attempt below the limit.
check_open :
    (db : Db) (identifier limit_type fallback : Text) (attempts max : ℤ) (first window : ℕ)
    (clock : Clock)
    → Stores db identifier limit_type attempts (some (at first)) none
    → clock.now ≤ first + window
    → (check_auth_rate_limit db identifier fallback max window clock).1.allowed ≡ ltb_ℤ attempts max
unfolding check_auth_rate_limit
check_open db identifier limit_type fallback attempts max first window clock h inside = ground arith

-- One more failed attempt on a row that has no lock. The level in its type is kept.
record_eq :
    (db : Db) (identifier base fallback : Text) (k n now written : ℕ) (first : Moment)
    → IsPlain base
    → k < int_bound
    → n + 1 < int_bound
    → Stores db identifier
        (format_limit_type_with_lock_level base (pos k))
        (pos n)
        (some first)
        none
    → record_attempt db identifier fallback now written
      ≡ upsert_rate_limit db identifier
          (format_limit_type_with_lock_level base (pos k))
          (pos (n + 1))
          first
          none
          (at written)
unfolding record_attempt ◌+ℤ◌
record_eq db identifier base fallback k n now written first p small fits h =
    ground (arith, parse-format base fallback k p small, int64-pos (n + 1) fits)

-- Failed attempts at the given instants, one after the other.
abbrev pub record_all : Db → Text → Text → List ℕ → Db
record_all db identifier limit_type [] = db
record_all db identifier limit_type (t ∷ ts) =
    record_all (record_attempt db identifier limit_type t t) identifier limit_type ts

record_all_lem :
    (db : Db) (identifier base fallback : Text) (k n first : ℕ) (ts : List ℕ)
    → Works db
    → IsPlain base
    → k < int_bound
    → n + length ts < int_bound
    → stamp (at first) ≡ some (at first)
    → Stores db identifier
        (format_limit_type_with_lock_level base (pos k))
        (pos n)
        (some (at first))
        none
    → Stores
        (record_all db identifier fallback ts)
        identifier
        (format_limit_type_with_lock_level base (pos k))
        (pos (n + length ts))
        (some (at first))
        none
record_all_lem db identifier base fallback k n first [] w p small fits whole h =
    let e : n + 0 ≡ n = omega arith in rw e h
record_all_lem db identifier base fallback k n first (t ∷ ts) w p small fits whole h =
    let e : n + suc (length ts) ≡ n + 1 + length ts = omega arith in
    let typed = format_limit_type_with_lock_level base (pos k) in
    rw (e, record_eq db identifier base fallback k n t t (at first) p small (omega arith) h)
      (record_all_lem (upsert_rate_limit db identifier typed (pos (n + 1)) (at first) none (at t))
        identifier base fallback k (n + 1) first ts
        (upsert-Works db identifier typed (pos (n + 1)) (at first) none (at t) w) p small
        (omega arith) whole
        (rw whole at (upsert-Stores db identifier typed (pos (n + 1)) (at first) none (at t) w)))

whole_second : (t : ℕ) → stamp (at (t - t % second)) ≡ some (at (t - t % second))
unfolding stamp
whole_second t = ground arith

record_fresh :
    (db : Db) (identifier limit_type : Text) (t : ℕ)
    → get_rate_limit db identifier ≡ fetched none
    → record_attempt db identifier limit_type t t
      ≡ upsert_rate_limit db identifier limit_type (pos 1) (at t) none (at t)
unfolding record_attempt
record_fresh db identifier limit_type t h = rw h

-- From an identifier with no row, after failed attempts at `t` and at the instants `ts`, a check
-- inside the window that starts at the second of `t` allows another attempt exactly if fewer than
-- `max` have failed. The limit type is plain and the table's statements succeed.
pub check-record_all :
    (db : Db) (identifier limit_type : Text) (t : ℕ) (ts : List ℕ) (max window : ℕ) (clock : Clock)
    → Works db
    → IsPlain limit_type
    → 1 + length ts < int_bound
    → get_rate_limit db identifier ≡ fetched none
    → clock.now ≤ t - t % second + window
    → (check_auth_rate_limit
        (record_all db identifier limit_type (t ∷ ts))
        identifier
        limit_type
        (pos max)
        window
        clock).1.allowed
      ≡ ltb (1 + length ts) max
unfolding format_limit_type_with_lock_level stamp
check-record_all db identifier limit_type t ts max window clock w p fits fresh inside =
    rw (record_fresh db identifier limit_type t fresh) (
      check_open _ identifier limit_type limit_type (pos (1 + length ts)) (pos max) (t - t % second)
        window clock
        (record_all_lem _ identifier limit_type limit_type 0 1 (t - t % second) ts
          (upsert-Works db identifier limit_type (pos 1) (at t) none (at t) w) p (omega arith) fits
          (whole_second t) (upsert-Stores db identifier limit_type (pos 1) (at t) none (at t) w))
        inside
      ∙ ground arith)

-- ===== src/Prelude/Clock.antt =====
-- Instants of Go's `time.Time` in nanoseconds of the Unix epoch, and the text columns that hold them.
-- A column is modelled by what `time.Parse(time.RFC3339, …)` reads from it: the program writes such
-- columns by `Format(time.RFC3339)`, which drops the part of a second, and only ever parses them.
use Prim.Native.Nat.{ℕ, ◌-◌, ◌%◌}
use mathlib.Core.Bool.{Bool, true, false}
use mathlib.Core.Option.{Option, some}
use ch_ui.Prelude.Tests.{ltb}

-- `zero_time` is Go's zero value, the first of January of year 1. No other instant before 1970 is
-- written by the program.
pub data Moment : Type 0 where
  zero_time : Moment
  at : ℕ → Moment

-- `none` is a text that does not parse.
abbrev pub Stamp : Type 0
Stamp = Option Moment

abbrev pub second : ℕ
second = 1000000000

abbrev pub minute : ℕ
minute = 60000000000

-- `t.UTC().Format(time.RFC3339)`
unfoldable pub stamp : Moment → Stamp
stamp zero_time = some zero_time
stamp (at n) = some (at (n - n % second))

-- `t.Before(u)`
abbrev pub before : Moment → Moment → Bool
before zero_time zero_time = false
before zero_time (at u) = true
before (at t) zero_time = false
before (at t) (at u) = ltb t u

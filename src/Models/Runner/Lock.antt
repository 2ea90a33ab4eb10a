-- ===== src/Models/Runner/Lock.antt =====
-- The lock of a connection: `acquireLock`, `releaseLock` and the runs that hold it
-- (internal/models/runner.go).
use Prim.Native.Nat.{ℕ, ◌+◌, ◌-◌, ◌≤◌, ◌<◌}
use mathlib.Core.Path.{◌≡◌, refl}
use mathlib.Core.Logic.{◌↔◌}
use mathlib.Core.Bool.{Bool, true, false}
use mathlib.Core.Option.{Option, none, some}
use mathlib.Core.List.{List, []}
use native.Mathlib.Omega.{arith}
use ch_ui.Prelude.Tests.{if◌then◌else◌}
use ch_ui.Prelude.Text.{Text, same, same_iff}
use ch_ui.Prelude.Maps.{lookup, insert, delete, lookup-insert, lookup-delete}

-- `running`, a `map[string]bool`.
abbrev pub Running : Type 0
Running = List (Text × Bool)

abbrev or_false : Option Bool → Bool
or_false none = false
or_false (some b) = b

unfoldable pub is_running : Running → Text → Bool
is_running running id = or_false (lookup id running)

-- `acquireLock`; `none` is the error.
unfoldable pub acquire_lock : Running → Text → Option Running
unfolding is_running
acquire_lock running id = if is_running running id then none else some (insert id true running)

-- `releaseLock`
unfoldable pub release_lock : Running → Text → Running
release_lock running id = delete id running

-- Runs in progress, by connection and in any number of goroutines. Each method takes the lock first
-- and gives it back when it returns.
pub record Runs : Type 0 where
  pub running : Running
  pub active : Text → ℕ

abbrev pub change : (Text → ℕ) → Text → (ℕ → ℕ) → Text → ℕ
change active id f j = if same id j then f (active j) else active j

pub data Step : Runs → Runs → Type 0 where
  begin :
      (s : Runs) (id : Text) (running' : Running)
      → acquire_lock s.running id ≡ some running'
      → Step s (record { running = running'; active = change s.active id (λ n. n + 1) })
  refuse : (s : Runs) (id : Text) → acquire_lock s.running id ≡ none → Step s s
  complete :
      (s : Runs) (id : Text)
      → 0 < s.active id
      → Step s
          (record { running = release_lock s.running id; active = change s.active id (λ n. n - 1) })

pub data Reach (s : Runs) : Runs → Type 0 where
  here : Reach s s
  next : {t u : Runs} → Reach s t → Step t u → Reach s u

abbrev pub idle : Runs
idle = record { running = []; active = λ _. 0 }

-- The map says which connections have a run, and none has two.
abbrev IsExclusive : Runs → Type 0
IsExclusive s = (id : Text) → s.active id ≡ (if is_running s.running id then 1 else 0)

running-insert :
    (m : Running) (id j : Text)
    → is_running (insert id true m) j ≡ (if same id j then true else is_running m j)
unfolding is_running
running-insert m id j = ground (arith, lookup-insert id j true m)

running-delete :
    (m : Running) (id j : Text)
    → is_running (delete id m) j ≡ (if same id j then false else is_running m j)
unfolding is_running
running-delete m id j = ground (arith, lookup-delete id j m)

acquired :
    (m m' : Running) (id : Text)
    → acquire_lock m id ≡ some m'
    → (is_running m id ≡ false) × (m' ≡ insert id true m)
unfolding acquire_lock
acquired m m' id h = ground arith

Step-IsExclusive : {s t : Runs} → Step s t → IsExclusive s → IsExclusive t
unfolding release_lock
Step-IsExclusive (begin s id running' e) h j =
    let (free, e') = acquired s.running running' id e in
    rw (e', running-insert s.running id j) (ground (arith, h j, h id, same_iff id j))
Step-IsExclusive (refuse s id e) h j = h j
Step-IsExclusive (complete s id e) h j =
    rw (running-delete s.running id j) (ground (arith, h j, h id, same_iff id j))

-- Mutual exclusion: however calls of the runner interleave, each connection has at most one run in
-- progress, and the map of running connections says exactly which have one.
pub Reach-one_run :
    {s : Runs} (id : Text)
    → Reach idle s
    → (s.active id ≤ 1) × ((is_running s.running id ≡ true) ↔ (0 < s.active id))
Reach-one_run {s} id r = let h = go r id in ground arith
  where
    go : {t : Runs} → Reach idle t → IsExclusive t
    go here = λ j. unfold is_running lookup in refl
    go (next r st) = Step-IsExclusive st (go r)

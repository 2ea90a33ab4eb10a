-- ===== src/Scheduler/TurnLaws.antt =====
-- How the runs of a tick share the semaphore (internal/scheduler/runner.go).
use Prim.Native.Nat.{ℕ, ◌+◌, ◌-◌, ◌*◌, ◌≤◌, ◌<◌}
use mathlib.Core.Path.{◌≡◌}
use mathlib.Core.Logic.{◌⊎◌, inl, inr}
use mathlib.Core.Option.{Option, some}
use mathlib.Core.List.{List, [], ◌∷◌, ◌++◌, map}
use native.Mathlib.Omega.{arith}
use ch_ui.Prelude.Lists.{length, length-append}
use ch_ui.Prelude.Text.{Text}
use ch_ui.Prelude.Counts.{count, count-append}
use ch_ui.Prelude.Result.{Result}
use ch_ui.Scheduler.Runner.{
  Job, due_jobs, Pool, acquire, release, Turn, start, end_run, give_back, Turns, none_yet, one_more,
  starting,
}

-- The channel has a value for every goroutine that is started and has not given its place back, and
-- never more than three; each schedule is at one stage.
record Shared (ids : List Text) (p : Pool) : Type 0 where
  held : p.sem ≡ length p.active + length p.ended
  places : p.sem ≤ 3
  each :
      (x : Text)
      → count x p.waiting + count x p.active + count x p.ended + count x p.done ≡ count x ids

acquire_room : (sem taken : ℕ) → acquire sem ≡ some taken → (taken ≡ sem + 1) × (sem < 3)
unfolding acquire
acquire_room sem taken h = ground (arith, h)

release_room : (sem left : ℕ) → release sem ≡ some left → sem ≡ left + 1
unfolding release
release_room sem left h = ground (arith, h)

acquire_free : (sem : ℕ) → sem < 3 → acquire sem ≡ some (sem + 1)
unfolding acquire
acquire_free sem h = ground (arith, h)

release_held : (sem : ℕ) → 0 < sem → release sem ≡ some (sem - 1)
unfolding release
release_held sem h = ground (arith, h)

count-cons : (x y : Text) (l : List Text) → count x (y ∷ l) ≡ count x (y ∷ []) + count x l
count-cons x y l = count-append x (y ∷ []) l

-- One of a list moves to the end of another: the counts, and the lengths.
count_moved :
    (x id : Text) (before after done : List Text)
    → count x (before ++ after) + count x (done ++ id ∷ [])
      ≡ count x (before ++ id ∷ after) + count x done
count_moved x id before after done = omega (
  arith,
  count-append x before after,
  count-append x before (id ∷ after),
  count-cons x id after,
  count-append x done (id ∷ []),
)

length_moved :
    (id : Text) (before after done : List Text)
    → (length (before ++ id ∷ after) ≡ length (before ++ after) + 1)
      × (length (done ++ id ∷ []) ≡ length done + 1)
length_moved id before after done = (
  omega (arith, length-append before after, length-append before (id ∷ after)),
  omega (arith, length-append done (id ∷ [])),
)

Turn-Shared : (ids : List Text) (p q : Pool) → Turn p q → Shared ids p → Shared ids q
Turn-Shared ids p q (start id waiting active ended done sem taken room) s =
    let (more, free) = acquire_room sem taken room in
    record {
      held = omega (arith, more, s.held, length-append active (id ∷ []));
      places = omega (arith, more, free);
      each = λ x. omega (arith, s.each x, count-append x active (id ∷ []), count-cons x id waiting);
    }
Turn-Shared ids p q (end_run id waiting before after ended done sem) s =
    let (fewer, more) = length_moved id before after ended in
    record {
      held = omega (arith, s.held, fewer, more);
      places = s.places;
      each = λ x. omega (arith, s.each x, count_moved x id before after ended);
    }
Turn-Shared ids p q (give_back id waiting active before after done sem left room) s =
    let fewer = (length_moved id before after done).0 in
    let less = release_room sem left room in
    record {
      held = omega (arith, s.held, fewer, less);
      places = omega (arith, s.places, less);
      each = λ x. omega (arith, s.each x, count_moved x id before after done);
    }

-- What the turns of a tick have still to do: a schedule that waits has three turns before it.
abbrev pub work : Pool → ℕ
work p = 3 * length p.waiting + 2 * length p.active + length p.ended

Turn-work : (p q : Pool) → Turn p q → work q < work p
Turn-work p q (start id waiting active ended done sem taken room) =
    omega (arith, length-append active (id ∷ []))
Turn-work p q (end_run id waiting before after ended done sem) =
    let (fewer, more) = length_moved id before after ended in omega (arith, fewer, more)
Turn-work p q (give_back id waiting active before after done sem left room) =
    let fewer = (length_moved id before after done).0 in omega (arith, fewer)

Turns-Shared :
    (parse_time : Text → Option ℕ) (now : ℕ) (found : Result Text (List Job)) (p : Pool)
    → Turns (starting parse_time now found) p
    → Shared (map (λ j. j.id) (due_jobs parse_time now found)) p
unfolding count starting
Turns-Shared parse_time now found p none_yet = record {
  held = omega arith;
  places = omega arith;
  each = λ x. omega arith;
}
Turns-Shared parse_time now found p (one_more q r t s) =
    Turn-Shared (map (λ j. j.id) (due_jobs parse_time now found)) q p s
      (Turns-Shared parse_time now found q t)

-- A run ends, a place is given back, or a schedule starts, as long as one is left.
some-Turn :
    (ids waiting active ended done : List Text) (sem : ℕ)
    → let p : Pool = record {
      waiting = waiting;
      active = active;
      ended = ended;
      done = done;
      sem = sem;
    } in
      Shared ids p → ((q : Pool) × Turn p q) ⊎ ((x : Text) → count x done ≡ count x ids)
unfolding count
some-Turn ids waiting (id ∷ active) ended done sem s =
    inl (_, end_run id waiting [] active ended done sem)
some-Turn ids waiting [] (id ∷ ended) done sem s = inl (
  _,
  give_back id waiting [] [] ended done sem (sem - 1) (release_held sem (omega (arith, s.held))),
)
some-Turn ids (id ∷ waiting) [] [] done sem s =
    inl (_, start id waiting [] [] done sem (sem + 1) (acquire_free sem (omega (arith, s.held))))
some-Turn ids [] [] [] done sem s = inr λ x. omega (arith, s.each x)

-- However the runs of a tick take their turns, which take and give back the places of a channel: at most
-- three run at once; every turn leaves less to do; and there is another turn, or every schedule that was
-- due has been run exactly once.
pub turns_lem :
    (parse_time : Text → Option ℕ) (now : ℕ) (found : Result Text (List Job)) (p : Pool)
    → Turns (starting parse_time now found) p
    → (length p.active ≤ 3)
      × ((q : Pool) → Turn p q → work q < work p)
      × (((q : Pool) × Turn p q)
          ⊎ ((x : Text)
              → count x p.done ≡ count x (map (λ j. j.id) (due_jobs parse_time now found))))
turns_lem parse_time now found p t =
    let s = Turns-Shared parse_time now found p t in
    (
      omega (arith, s.held, s.places),
      Turn-work p,
      some-Turn (map (λ j. j.id) (due_jobs parse_time now found)) p.waiting p.active p.ended p.done
          p.sem s,
    )

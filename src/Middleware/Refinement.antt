-- ===== src/Middleware/Refinement.antt =====
-- The limiter with its cleanup (internal/server/middleware/limits.go) gives the answers of the quota
-- that forgets nothing.
use Prim.Native.Nat.{ℕ, ◌+◌, ◌≤◌, ◌<◌}
use mathlib.Core.Path.{◌≡◌, refl, ap, ◌∙◌}
use mathlib.Core.Logic.{inl, inr}
use mathlib.Core.Bool.{Bool, true, false}
use mathlib.Core.Option.{Option, none, some}
use mathlib.Core.List.{[], ◌∷◌}
use native.Mathlib.Omega.{arith}
use ch_ui.Prelude.Tests.{ltb, leb, Bool-cases, ltb→lt, lt→ltb}
use ch_ui.Prelude.Lists.{length}
use ch_ui.Prelude.Text.{Text, same, same→eq}
use ch_ui.Prelude.Maps.{lookup, insert, lookup-insert}
use ch_ui.Middleware.IpLimit.{
  WindowCount, IpRateLimiter, collect_garbage, count_in, allow, ip_rate_limit,
}
use ch_ui.Middleware.EntryLaws.{
  Distinct, insert-Distinct, drop_expired-Distinct, kept, lookup-drop_expired,
}
use ch_ui.Middleware.Quota.{Window, Requests, InOrder, answers, opens, admit_request, enter, quota}

leb-ltb : (l limit c p : ℕ) → leb l c ≡ true → l ≡ limit → c ≡ p → ltb p limit ≡ false
leb-ltb l limit c p h e f = ground arith

not_leb-ltb : (l limit c p : ℕ) → leb l c ≡ false → l ≡ limit → c ≡ p → ltb p limit ≡ true
not_leb-ltb l limit c p h e f = ground arith

module _ (window : ℕ) where
  -- A window and the entry that stands for it at a time; no entry stands for a window that is over.
  abbrev Stands : ℕ → Option WindowCount → Option Window → Type 0
  Stands now none none = Unit
  Stands now none (some w) = w.opened + window < now
  Stands now (some wc) none = ⊥
  Stands now (some wc) (some w) = (wc.reset ≡ w.opened + window) × (wc.count ≡ length w.passed)

  Stands-later :
      (t now : ℕ) (o : Option WindowCount) (a : Option Window)
      → t ≤ now
      → Stands t o a
      → Stands now o a
  Stands-later t now none none le h = tt
  Stands-later t now none (some w) le h = omega arith
  Stands-later t now (some wc) none le h = h
  Stands-later t now (some wc) (some w) le h = h

  Stands-none :
      (now : ℕ) (wc : WindowCount) (a : Option Window)
      → Stands now (some wc) a
      → wc.reset < now
      → Stands now none a
  Stands-none now wc none h e = absurd h
  Stands-none now wc (some w) h e = omega arith

module _ (window : ℕ) where
  kept-Stands :
      (now : ℕ) (o : Option WindowCount) (a : Option Window)
      → Stands window now o a
      → Stands window now (kept now o) a
  kept-Stands now none a h = h
  kept-Stands now (some wc) a h = elim (Bool-cases (ltb wc.reset now)) [
    | inl over ↦ rw over (Stands-none window now wc a h (ltb→lt wc.reset now over))
    | inr open_yet ↦ rw open_yet h
  ]

module _ (limit window : ℕ) where
  -- The limiter behaves as the windows `f` do from the time `now` on.
  record Simulates (now : ℕ) (rl : IpRateLimiter) (f : Text → Option Window) : Type 0 where
    distinct : Distinct rl.counts
    limits : rl.limit ≡ limit
    lasts : rl.window ≡ window
    stands : (k : Text) → Stands window now (lookup k rl.counts) (f k)

  collect_garbage-Simulates :
      (t now : ℕ) (rl : IpRateLimiter) (f : Text → Option Window)
      → t ≤ now
      → Simulates t rl f
      → Simulates now (collect_garbage now rl) f
  unfolding collect_garbage
  collect_garbage-Simulates t now rl f le s = elim (Bool-cases (ltb (rl.last_gc + rl.window) now)) [
    | inl due ↦ rw due (record {
      distinct = drop_expired-Distinct now rl.counts s.distinct;
      limits = s.limits;
      lasts = s.lasts;
      stands = λ k. rw (lookup-drop_expired now k rl.counts s.distinct) (
          kept-Stands window now (lookup k rl.counts) (f k)
            (Stands-later window t now (lookup k rl.counts) (f k) le (s.stands k)));
    })
    | inr early ↦ rw early (record {
      distinct = s.distinct;
      limits = s.limits;
      lasts = s.lasts;
      stands = λ k. Stands-later window t now (lookup k rl.counts) (f k) le (s.stands k);
    })
  ]

  insert-Simulates :
      (now : ℕ) (ip : Text) (wc : WindowCount) (w : Window) (rl : IpRateLimiter)
      (f : Text → Option Window)
      → Simulates now rl f
      → Stands window now (some wc) (some w)
      → Simulates now (record rl { counts = insert ip wc rl.counts }) (enter ip w f)
  insert-Simulates now ip wc w rl f s h = record {
    distinct = insert-Distinct ip wc rl.counts s.distinct;
    limits = s.limits;
    lasts = s.lasts;
    stands = λ k.
        rw (lookup-insert ip k wc rl.counts)
          (elim (Bool-cases (same ip k)) [ inl e ↦ rw e h | inr e ↦ rw e (s.stands k) ]);
  }

  keep-Simulates :
      (now : ℕ) (ip : Text) (w : Window) (rl : IpRateLimiter) (f : Text → Option Window)
      → Simulates now rl f
      → f ip ≡ some w
      → Simulates now rl (enter ip w f)
  keep-Simulates now ip w rl f s h = record {
    distinct = s.distinct;
    limits = s.limits;
    lasts = s.lasts;
    stands = λ k. elim (Bool-cases (same ip k)) [
      | inl e ↦ rw (e, ← h, same→eq ip k e) (s.stands k)
      | inr e ↦ rw e (s.stands k)
    ];
  }

  Stepped : ℕ → Text → (Text → Option Window) → Bool × IpRateLimiter → Bool × Window → Type 0
  Stepped now ip f (b, rl) (b', w) = (b ≡ b') × Simulates now rl (enter ip w f)

  open_window-Stepped :
      (now : ℕ) (ip : Text) (rl : IpRateLimiter) (f : Text → Option Window)
      → Simulates now rl f
      → Stepped now ip f (count_in now ip rl none) (true, opens now)
  unfolding count_in Stepped
  open_window-Stepped now ip rl f s = (
    refl,
    insert-Simulates now ip (record { count = 1; reset = now + rl.window }) (opens now) rl f s
        (ap (λ n. now + n) s.lasts, refl),
  )

  count_in-Stepped :
      (now : ℕ) (ip : Text) (rl : IpRateLimiter) (f : Text → Option Window) (o : Option WindowCount)
      (a : Option Window)
      → f ip ≡ a
      → Simulates now rl f
      → Stands window now o a
      → Stepped now ip f (count_in now ip rl o) (admit_request limit window now a)
  unfolding count_in Stepped admit_request
  count_in-Stepped now ip rl f none none e s h = open_window-Stepped now ip rl f s
  count_in-Stepped now ip rl f none (some w) e s h =
      rw (lt→ltb (w.opened + window) now h) (open_window-Stepped now ip rl f s)
  count_in-Stepped now ip rl f (some wc) none e s h = absurd h
  count_in-Stepped now ip rl f (some wc) (some w) e s (reset, count) =
      elim (Bool-cases (ltb wc.reset now)) [
        | inl over ↦ rw (over, rw reset at over) (open_window-Stepped now ip rl f s)
        | inr open_yet ↦ elim (Bool-cases (leb rl.limit wc.count)) [
          | inl full ↦
              rw (open_yet, rw reset at open_yet, full, leb-ltb _ _ _ _ full s.limits count)
                (refl, keep-Simulates now ip w rl f s e)
          | inr room ↦
              rw (open_yet, rw reset at open_yet, room, not_leb-ltb _ _ _ _ room s.limits count)
                (
                  refl,
                  insert-Simulates now ip (record wc { count = wc.count + 1 })
                      (record w { passed = now ∷ w.passed }) rl f s (reset, omega (arith, count)),
                )
        ]
      ]

  allow-Stepped :
      (t now : ℕ) (ip : Text) (rl : IpRateLimiter) (f : Text → Option Window)
      → t ≤ now
      → Simulates t rl f
      → Stepped now ip f (allow now ip rl) (admit_request limit window now (f ip))
  unfolding allow
  allow-Stepped t now ip rl f le s =
      let s' = collect_garbage-Simulates t now rl f le s in
      let cleaned = collect_garbage now rl in
      count_in-Stepped now ip cleaned f (lookup ip cleaned.counts) (f ip) refl s' (s'.stands ip)

  answers-quota :
      (rs : Requests) (t : ℕ) (rl : IpRateLimiter) (f : Text → Option Window)
      → InOrder t rs
      → Simulates t rl f
      → answers rs rl ≡ quota limit window rs f
  unfolding answers quota Stepped
  answers-quota [] t rl f h s = refl
  answers-quota ((now, ip) ∷ rs) t rl f (le, h) s =
      let (same_answer, s') = allow-Stepped t now ip rl f le s in
      let w = (admit_request limit window now (f ip)).1 in
      ap (λ b. b ∷ answers rs (allow now ip rl).1) same_answer
      ∙ ap (λ l. (admit_request limit window now (f ip)).0 ∷ l)
          (answers-quota rs now (allow now ip rl).1 (enter ip w f) h s')

-- From its start on the limiter answers any requests, at any addresses and at times that do not run
-- backwards, as the quota does: a request passes exactly if its address has no window that is still
-- open or fewer than the limit have passed in that window. The cleanup and the sharing of one map
-- change no answer.
pub answers-refine-quota :
    (limit window start : ℕ) (rs : Requests)
    → InOrder start rs
    → answers rs (ip_rate_limit limit window start) ≡ quota limit window rs (λ ip. none)
unfolding lookup
answers-refine-quota limit window start rs h =
    answers-quota limit window rs start (ip_rate_limit limit window start) (λ ip. none) h
      (record { distinct = tt; limits = refl; lasts = refl; stands = λ k. tt })

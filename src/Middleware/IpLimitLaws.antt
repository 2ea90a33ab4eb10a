-- ===== src/Middleware/IpLimitLaws.antt =====
-- One request at the limiter (internal/server/middleware/limits.go).
use Prim.Native.Nat.{ℕ, ◌+◌, ◌≤◌, ◌<◌}
use mathlib.Core.Path.{◌≡◌, refl, ap, ◌∙◌}
use mathlib.Core.Logic.{inl, inr}
use mathlib.Core.Bool.{true, false}
use mathlib.Core.Option.{none, some}
use mathlib.Core.List.{List, [], ◌∷◌}
use native.Mathlib.Omega.{arith}
use ch_ui.Prelude.Tests.{ltb, leb, Bool-cases}
use ch_ui.Prelude.Text.{Text, same}
use ch_ui.Prelude.Maps.{lookup, insert, lookup-insert_self}
use ch_ui.Middleware.IpLimit.{
  WindowCount, IpRateLimiter, drop_expired, collect_garbage, count_in, allow,
}

some_eq : (w wc : WindowCount) → some w ≡ some wc → w ≡ wc
some_eq w wc h = cc

ltb_not : (a b : ℕ) → b ≤ a → ltb a b ≡ false
ltb_not a b h = ground arith

leb_not : (a b : ℕ) → b < a → leb a b ≡ false
leb_not a b h = ground arith

le_leb : (a b : ℕ) → a ≤ b → leb a b ≡ true
le_leb a b h = ground arith

reset_le : (now : ℕ) (w wc : WindowCount) → w ≡ wc → now ≤ wc.reset → now ≤ w.reset
reset_le now w wc e le = rw e le

lookup-drop_expired :
    (now : ℕ) (ip : Text) (wc : WindowCount) (m : List (Text × WindowCount))
    → lookup ip m ≡ some wc
    → now ≤ wc.reset
    → lookup ip (drop_expired now m) ≡ some wc
unfolding lookup drop_expired
lookup-drop_expired now ip wc [] h le = h
lookup-drop_expired now ip wc ((k, w) ∷ m) h le = elim (Bool-cases (same k ip)) [
  | inl same_key ↦
      let e : w ≡ wc = some_eq w wc (rw same_key at h) in
      rw (ltb_not w.reset now (reset_le now w wc e le), same_key) (ap (λ v. some v) e)
  | inr other ↦ elim (Bool-cases (ltb w.reset now)) [
    | inl expired ↦ rw expired (lookup-drop_expired now ip wc m (rw other at h) le)
    | inr kept ↦ rw (kept, other) (lookup-drop_expired now ip wc m (rw other at h) le)
  ]
]

-- The window of an address while the cleanup runs.
lookup-collect_garbage :
    (now : ℕ) (ip : Text) (wc : WindowCount) (rl : IpRateLimiter)
    → lookup ip rl.counts ≡ some wc
    → now ≤ wc.reset
    → lookup ip (collect_garbage now rl).counts ≡ some wc
unfolding collect_garbage
lookup-collect_garbage now ip wc rl h le = elim (Bool-cases (ltb (rl.last_gc + rl.window) now)) [
  | inl due ↦ rw due (lookup-drop_expired now ip wc rl.counts h le)
  | inr early ↦ rw early h
]

pub collect_garbage-limit :
    (now : ℕ) (rl : IpRateLimiter) → (collect_garbage now rl).limit ≡ rl.limit
unfolding collect_garbage
collect_garbage-limit now rl = elim (Bool-cases (ltb (rl.last_gc + rl.window) now)) [
  | inl due ↦ rw due refl
  | inr early ↦ rw early refl
]

pub collect_garbage-window :
    (now : ℕ) (rl : IpRateLimiter) → (collect_garbage now rl).window ≡ rl.window
unfolding collect_garbage
collect_garbage-window now rl = elim (Bool-cases (ltb (rl.last_gc + rl.window) now)) [
  | inl due ↦ rw due refl
  | inr early ↦ rw early refl
]

-- A request that the window has room for.
count_in-room :
    (now : ℕ) (ip : Text) (rl : IpRateLimiter) (wc : WindowCount)
    → now ≤ wc.reset
    → wc.count < rl.limit
    → count_in now ip rl (some wc)
      ≡ (true, record rl { counts = insert ip (record wc { count = wc.count + 1 }) rl.counts })
unfolding count_in
count_in-room now ip rl wc le room =
    rw (ltb_not wc.reset now le, leb_not rl.limit wc.count room) refl

count_in-full :
    (now : ℕ) (ip : Text) (rl : IpRateLimiter) (wc : WindowCount)
    → now ≤ wc.reset
    → rl.limit ≤ wc.count
    → count_in now ip rl (some wc) ≡ (false, rl)
unfolding count_in
count_in-full now ip rl wc le full =
    rw (ltb_not wc.reset now le, le_leb rl.limit wc.count full) refl

pub allow_room :
    (now : ℕ) (ip : Text) (rl : IpRateLimiter) (wc : WindowCount)
    → lookup ip rl.counts ≡ some wc
    → now ≤ wc.reset
    → wc.count < rl.limit
    → (rl' : IpRateLimiter) × (allow now ip rl ≡ (true, rl'))
      × (lookup ip rl'.counts ≡ some (record wc { count = wc.count + 1 }))
      × (rl'.limit ≡ rl.limit)
unfolding allow
allow_room now ip rl wc h le room =
    let cleaned = collect_garbage now rl in
    let found = lookup-collect_garbage now ip wc rl h le in
    let limit = collect_garbage-limit now rl in
    (
      record cleaned { counts = insert ip (record wc { count = wc.count + 1 }) cleaned.counts },
      ap (λ o. count_in now ip cleaned o) found
          ∙ count_in-room now ip cleaned wc le (omega (arith, room, limit)),
      lookup-insert_self ip (record wc { count = wc.count + 1 }) cleaned.counts,
      limit,
    )

pub allow_full :
    (now : ℕ) (ip : Text) (rl : IpRateLimiter) (wc : WindowCount)
    → lookup ip rl.counts ≡ some wc
    → now ≤ wc.reset
    → rl.limit ≤ wc.count
    → (rl' : IpRateLimiter) × (allow now ip rl ≡ (false, rl'))
      × (lookup ip rl'.counts ≡ some wc)
      × (rl'.limit ≡ rl.limit)
unfolding allow
allow_full now ip rl wc h le full =
    let cleaned = collect_garbage now rl in
    let found = lookup-collect_garbage now ip wc rl h le in
    let limit = collect_garbage-limit now rl in
    (
      cleaned,
      ap (λ o. count_in now ip cleaned o) found
          ∙ count_in-full now ip cleaned wc le (omega (arith, full, limit)),
      found,
      limit,
    )

pub lookup-drop_none :
    (now : ℕ) (ip : Text) (m : List (Text × WindowCount))
    → lookup ip m ≡ none
    → lookup ip (drop_expired now m) ≡ none
unfolding lookup drop_expired
lookup-drop_none now ip [] h = refl
lookup-drop_none now ip ((k, w) ∷ m) h = ground (arith, lookup-drop_none now ip m)

lookup-collect_none :
    (now : ℕ) (ip : Text) (rl : IpRateLimiter)
    → lookup ip rl.counts ≡ none
    → lookup ip (collect_garbage now rl).counts ≡ none
unfolding collect_garbage
lookup-collect_none now ip rl h = elim (Bool-cases (ltb (rl.last_gc + rl.window) now)) [
  | inl due ↦ rw due (lookup-drop_none now ip rl.counts h)
  | inr early ↦ rw early h
]

pub allow_first :
    (now : ℕ) (ip : Text) (rl : IpRateLimiter)
    → lookup ip rl.counts ≡ none
    → (rl' : IpRateLimiter) × (allow now ip rl ≡ (true, rl'))
      × (lookup ip rl'.counts ≡ some (record { count = 1; reset = now + rl.window }))
      × (rl'.limit ≡ rl.limit)
unfolding allow count_in
allow_first now ip rl h =
    let cleaned = collect_garbage now rl in
    let window = collect_garbage-window now rl in
    (
      record cleaned {
        counts = insert ip (record { count = 1; reset = now + cleaned.window }) cleaned.counts;
      },
      ap (λ o. count_in now ip cleaned o) (lookup-collect_none now ip rl h),
      lookup-insert_self ip (record { count = 1; reset = now + cleaned.window }) cleaned.counts
          ∙ ap (λ w. some (record { count = 1; reset = now + w })) window,
      collect_garbage-limit now rl,
    )

-- ===== src/Timer/Sleep/Full.antt =====
-- A sleep lasts its whole time, on a timer whose thread is interleaved with everything else.
use async.Prelude.{
  ℕ, ◌+◌, ◌^◌, ◌≤◌, ◌<◌, ◌≡◌, refl, ap, inl, inr, false, none, some, List, [], ◌∷◌, ◌++◌, arith,
  ◌==◌, Bool-cases, Option-cases, length, length-append, Each,
}
use async.Cancel.{States, empty_token, is_cancelled}
use async.Scheduler.{Handle}
use async.Timer.{Entry, Timer, schedule, after}
use async.Timer.Order.{count_id}
use async.Timer.Loop.{System, Event, schedules, takes, checks, fires, start, step, steps}
use async.Timer.Loop.Invariant.{
  held, count_fired, total, step-Keeps, steps-Accounted, start-Accounted, accounted_once,
}
use async.Timer.Loop.Deadlines.{OnTime, never_early}
use async.Timer.Loop.Posted.{jobs, fn_q-jobs}
use async.Timer.Loop.Drops.{IsCancelled, drops-IsCancelled}
use async.Timer.Loop.Entries.{EachFired, Entries, Adds, step-Entries}
use async.Timer.Sleep.{Awaitable, await_suspend}

module _ {J : Type 0} where
  -- An entry with the number `i` is `e0`.
  abbrev pub Same : ℕ → Entry J → Entry J → Type 0
  Same i e0 e = e.id ≡ i → e ≡ e0

  count_id-Same :
      (i : ℕ) (e0 : Entry J) (xs : List (Entry J)) → count_id i xs ≡ 0 → Each (Same i e0) xs
  count_id-Same i e0 [] z = tt
  count_id-Same i e0 (x ∷ xs) z =
      (λ same. absurd (ground arith), count_id-Same i e0 xs (ground arith))

  count_fired-Same :
      (i : ℕ) (e0 : Entry J) (xs : List (Entry J × ℕ))
      → count_fired i xs ≡ 0
      → EachFired (Same i e0) xs
  count_fired-Same i e0 [] z = tt
  count_fired-Same i e0 ((x, at) ∷ xs) z =
      (λ same. absurd (ground arith), count_fired-Same i e0 xs (ground arith))

  total-Same : (i : ℕ) (e0 : Entry J) (s : System J) → total i s ≡ 0 → Entries (Same i e0) s
  total-Same i e0 s z = (
    count_id-Same i e0 s.timer.q (omega arith),
    count_id-Same i e0 (held s.pc) (omega arith),
    count_fired-Same i e0 s.fired (omega arith),
    count_id-Same i e0 s.dropped (omega arith),
  )

  step-seq :
      (e : Event J) (s t : System J)
      → s.timer.seq + 1 < 2 ^ 64
      → step e s ≡ some t
      → (s.timer.seq ≤ t.timer.seq) × (t.timer.seq ≤ s.timer.seq + 1)
  unfolding step schedule
  step-seq (schedules tp none ct) s t lt p = ground arith
  step-seq (schedules tp (some j) ct) s t lt p = ground arith
  step-seq takes s t lt p = omega (arith, (step-Keeps 0 takes s t refl p).0)
  step-seq checks s t lt p = omega (arith, (step-Keeps 0 checks s t refl p).0)
  step-seq fires s t lt p = omega (arith, (step-Keeps 0 fires s t refl p).0)
  step-seq _ s t lt p = ground arith

  steps-seq :
      (es : List (Event J)) (s t : System J)
      → s.timer.seq + length es < 2 ^ 64
      → steps es s ≡ some t
      → t.timer.seq ≤ s.timer.seq + length es
  unfolding steps
  steps-seq [] s t lt p = ground arith
  steps-seq (e ∷ es) s t lt p = elim (Option-cases (step e s)) [
    | inl q ↦ cc (rw (q, steps) at p)
    | inr (u, q) ↦
        let (_, less) = step-seq e s u (omega arith) q in
        omega (arith, steps-seq es u t (omega arith) (rw (q, steps) at p))
  ]

  step-Same :
      (i : ℕ) (e0 : Entry J) (e : Event J) (s t : System J)
      → s.timer.seq + 1 < 2 ^ 64
      → i ≤ s.timer.seq
      → step e s ≡ some t
      → Entries (Same i e0) s
      → Entries (Same i e0) t
  step-Same i e0 e s t lt le p h = step-Entries (Same i e0) e s t p (adds e) h
    where
      adds : (e : Event J) → Adds (Same i e0) e s
      adds (schedules tp none ct) = tt
      adds (schedules tp (some j) ct) = λ same. absurd (omega arith)
      adds _ = tt

  steps-Same :
      (i : ℕ) (e0 : Entry J) (es : List (Event J)) (s t : System J)
      → s.timer.seq + length es < 2 ^ 64
      → i ≤ s.timer.seq
      → steps es s ≡ some t
      → Entries (Same i e0) s
      → Entries (Same i e0) t × (i ≤ t.timer.seq)
  unfolding steps
  steps-Same i e0 [] s t lt le p h = ground (arith, h)
  steps-Same i e0 (e ∷ es) s t lt le p h = elim (Option-cases (step e s)) [
    | inl q ↦ cc (rw (q, steps) at p)
    | inr (u, q) ↦
        let (more, less) = step-seq e s u (omega arith) q in
        steps-Same i e0 es u t (omega arith) (omega arith) (rw (q, steps) at p)
          (step-Same i e0 e s u (omega arith) le q h)
  ]

  steps-cons :
      (e : Event J) (es : List (Event J)) (s u t : System J)
      → step e s ≡ some u
      → steps es u ≡ some t
      → steps (e ∷ es) s ≡ some t
  unfolding steps
  steps-cons e es s u t p q = rw (p, steps) q

  steps-append :
      (es es' : List (Event J)) (r s t : System J)
      → steps es r ≡ some s
      → steps es' s ≡ some t
      → steps (es ++ es') r ≡ some t
  unfolding steps
  steps-append [] es' r s t p q = ground arith
  steps-append (e ∷ es) es' r s t p q = elim (Option-cases (step e r)) [
    | inl n ↦ cc (rw (n, steps) at p)
    | inr (u, y) ↦ rw (y, steps) (steps-append es es' u s t (rw (y, steps) at p) q)
  ]

  -- No entry with the number `i` was dropped, if such an entry cannot be cancelled.
  dropped-Same :
      (i : ℕ) (e0 : Entry J) (flags : States) (xs : List (Entry J))
      → is_cancelled flags e0.ct ≡ false
      → Each (Same i e0) xs
      → Each (IsCancelled flags) xs
      → count_id i xs ≡ 0
  dropped-Same i e0 flags [] live h c = refl
  dropped-Same i e0 flags (x ∷ xs) live h c = elim (Bool-cases (x.id == i)) [
    | inl same ↦ cc (h.0 (ground arith), c.0)
    | inr other ↦ ground (arith, dropped-Same i e0 flags xs live h.1 c.1)
  ]

  -- The job with the number `i` was posted at its deadline or later, and is the one of `e0`.
  abbrev pub PostedAfter : ℕ → Entry J → List (Entry J × ℕ) → Type 0
  PostedAfter i e0 [] = Unit {0}
  PostedAfter i e0 ((e, at) ∷ xs) = (e.id ≡ i → (e ≡ e0) × (e0.when ≤ at)) × PostedAfter i e0 xs

  fired-PostedAfter :
      (i : ℕ) (e0 : Entry J) (xs : List (Entry J × ℕ))
      → EachFired (Same i e0) xs
      → OnTime xs
      → PostedAfter i e0 xs
  fired-PostedAfter i e0 [] h o = tt
  fired-PostedAfter i e0 ((e, at) ∷ xs) h o =
      (λ same. (h.0 same, rw (← h.0 same) o.0), fired-PostedAfter i e0 xs h.1 o.1)

-- A suspension without overflow schedules the job at the end of the sleep, with no token.
await_suspend-schedule :
    (now : ℕ) (h : Handle) (w : Awaitable) (t u : Timer Handle)
    → await_suspend now h w t ≡ some u
    → schedule (now + w.d) (some h) empty_token t ≡ u
unfolding await_suspend after
await_suspend-schedule now h w t u p = ground (arith, p)

-- A coroutine `h` that suspends in `sleep_for`, on a timer that runs, when the clock and the duration
-- add up to a `std::int64_t`, under any interleaving of fewer than 2 ^ 64 events before and after: as
-- long as the timer is not stopped, the entry with the coroutine's job is accounted for once, as
-- queued, held or fired, and is not dropped. It is fired at a time at which the whole duration has
-- passed, or later, and the scheduler's queue of callables holds the jobs of the fired entries and
-- no others. A cancellation of the sleep's token, at whatever moment, changes nothing of this.
pub sleep_lasts :
    (now : ℕ) (flags : States) (es es' : List (Event Handle)) (s t : System Handle) (w : Awaitable)
    (h : Handle) (u : Timer Handle)
    → length es + length es' + 1 < 2 ^ 64
    → steps es (start now flags) ≡ some s
    → s.timer.stop ≡ false
    → await_suspend s.now h w s.timer ≡ some u
    → steps es' (record s { timer = u }) ≡ some t
    → t.timer.stop ≡ false
    → let e0 : Entry Handle = record {
      when = s.now + w.d;
      id = s.timer.seq + 1;
      ct = empty_token;
      job = h;
    } in
      (total e0.id t ≡ 1)
      × (count_id e0.id t.dropped ≡ 0)
      × PostedAfter e0.id e0 t.fired
      × (t.sched.fn_q ≡ jobs t.fired)
unfolding await_suspend step schedule steps is_cancelled
sleep_lasts now flags es es' s t w h u lt p on made q on' =
    let i = s.timer.seq + 1 in
    let e0 : Entry Handle = record { when = s.now + w.d; id = i; ct = empty_token; job = h } in
    let sleeps : Event Handle = schedules (s.now + w.d) (some h) empty_token in
    let s' : System Handle = record s { timer = u } in
    let few = steps-seq es (start now flags) s (omega arith) p in
    let new : step sleeps s ≡ some s' =
      ap (λ u. some (record s { timer = u })) (await_suspend-schedule s.now h w s.timer u made) in
    let whole =
      steps-append es (sleeps ∷ es') (start now flags) s t p (steps-cons sleeps es' s s' t new q) in
    let account =
      steps-Accounted i es (start now flags) s (omega arith) p (start-Accounted i now flags) in
    let before = total-Same i e0 s (account.unused (omega arith)) in
    let after' = step-Entries (Same i e0) sleeps s s' new (λ same. ground arith) before in
    let more : i ≤ u.seq = ground (arith, await_suspend-schedule s.now h w s.timer u made) in
    let less : u.seq ≤ i = (step-seq sleeps s s' (ground arith) new).1 in
    let (last, le) = steps-Same i e0 es' s' t (ground arith) more q after' in
    (
      accounted_once i now flags (es ++ sleeps ∷ es') t
          (omega (arith, length-append es (sleeps ∷ es'))) whole on' (omega arith) le,
      dropped-Same i e0 t.flags t.dropped refl last.3
          (drops-IsCancelled now flags (es ++ sleeps ∷ es') t whole),
      fired-PostedAfter i e0 t.fired last.2 (never_early now flags (es ++ sleeps ∷ es') t whole),
      fn_q-jobs now flags (es ++ sleeps ∷ es') t whole,
    )

-- ===== src/Timer/Loop/Ordered.antt =====
-- The queue stays in order, and its first entry is the one that is taken.
use async.Prelude.{
  ℕ, ◌+◌, ◌^◌, ◌<◌, ◌≡◌, refl, ◌⊎◌, inl, inr, true, none, some, List, [], ◌∷◌, arith, Bool-cases,
  Option-cases, length,
}
use async.Cancel.{States}
use async.Timer.{Entry, schedule, stop}
use async.Timer.Order.{AllBefore, IsSorted, count_id, insert-IsSorted}
use async.Timer.Loop.{
  Pc, at_lock, holding, checking, exited, System, Event, schedules, takes, checks, start, take_from,
  check_from, take_at, check_at, step, steps,
}
use async.Timer.Loop.Invariant.{Accounted, step-Accounted, start-Accounted}

module _ {J : Type 0} where
  -- The queue is in order, in every state where each number is accounted for once.
  check_from-IsSorted :
      (next : Entry J) (q : List (Entry J)) (s : System J)
      → s.timer.q ≡ q
      → count_id next.id q ≡ 0
      → IsSorted q
      → IsSorted (check_from next q s).timer.q
  check_from-IsSorted next [] s e c h = ground arith
  check_from-IsSorted next (x ∷ rest) s e c h =
      ground (arith, insert-IsSorted next rest (ground arith) h.1)

  take_from-IsSorted :
      (q : List (Entry J)) (s t : System J)
      → s.timer.q ≡ q
      → take_from q s ≡ some t
      → IsSorted q
      → IsSorted t.timer.q
  take_from-IsSorted [] s t e p h = ground arith
  take_from-IsSorted (x ∷ rest) s t e p h = ground arith

  take_at-IsSorted :
      (pc : Pc J) (s t : System J) → take_at pc s ≡ some t → IsSorted s.timer.q → IsSorted t.timer.q
  take_at-IsSorted at_lock s t p h = take_from-IsSorted s.timer.q s t refl p h
  take_at-IsSorted _ s t p h = cc

  check_at-IsSorted :
      (pc : Pc J) (s t : System J)
      → s.pc ≡ pc
      → check_at pc s ≡ some t
      → ((i : ℕ) → Accounted i s)
      → IsSorted s.timer.q
      → IsSorted t.timer.q
  check_at-IsSorted (checking next) s t at p a h =
      let alone : count_id next.id s.timer.q ≡ 0 = ground (arith, (a next.id).at_most) in
      ground (arith, check_from-IsSorted next s.timer.q s refl alone h)
  check_at-IsSorted _ s t at p a h = cc

  step-IsSorted :
      (e : Event J) (s t : System J)
      → s.timer.seq + 1 < 2 ^ 64
      → step e s ≡ some t
      → ((i : ℕ) → Accounted i s)
      → IsSorted s.timer.q
      → IsSorted t.timer.q
  unfolding step schedule stop
  step-IsSorted (schedules tp none ct) s t lt p a h = ground arith
  step-IsSorted (schedules tp (some j) ct) s t lt p a h =
      let e : Entry J = record { when = tp; id = s.timer.seq + 1; ct = ct; job = j } in
      ground (arith, (a (s.timer.seq + 1)).unused, insert-IsSorted e s.timer.q)
  step-IsSorted takes s t lt p a h = take_at-IsSorted s.pc s t p h
  step-IsSorted checks s t lt p a h = check_at-IsSorted s.pc s t refl p a h
  step-IsSorted _ s t lt p a h = ground arith

  steps-IsSorted :
      (es : List (Event J)) (s t : System J)
      → s.timer.seq + length es < 2 ^ 64
      → steps es s ≡ some t
      → ((i : ℕ) → Accounted i s)
      → IsSorted s.timer.q
      → IsSorted t.timer.q
  unfolding steps
  steps-IsSorted [] s t lt p a h = ground (arith, h)
  steps-IsSorted (e ∷ es) s t lt p a h = elim (Option-cases (step e s)) [
    | inl q ↦ cc (rw (q, steps) at p)
    | inr (u, q) ↦
        let (_, le) = step-Accounted 0 e s u (omega arith) q (a 0) in
        steps-IsSorted es u t (omega arith) (rw (q, steps) at p)
          (λ i. (step-Accounted i e s u (omega arith) q (a i)).0)
          (step-IsSorted e s u (omega arith) q a h)
  ]

  abbrev pub TakesFirst : System J → System J → Type 0
  TakesFirst s t =
      ((s.timer.stop ≡ true) × (t.pc ≡ exited))
      ⊎ ((e : Entry J) × (t.pc ≡ holding e) × (s.timer.q ≡ e ∷ t.timer.q) × AllBefore e t.timer.q)

  take_from-first :
      (q : List (Entry J)) (s t : System J)
      → s.timer.q ≡ q
      → IsSorted q
      → take_from q s ≡ some t
      → TakesFirst s t
  take_from-first [] s t e h p = inl (ground arith, ground arith)
  take_from-first (x ∷ rest) s t e h p = elim (Bool-cases s.timer.stop) [
    | inl stopped ↦ inl (stopped, ground arith)
    | inr on ↦ inr (x, ground arith, ground arith, ground (arith, h.0))
  ]

  take_at-first :
      (pc : Pc J) (s t : System J) → IsSorted s.timer.q → take_at pc s ≡ some t → TakesFirst s t
  take_at-first at_lock s t h p = take_from-first s.timer.q s t refl h p
  take_at-first _ s t h p = cc

  -- Under every interleaving of fewer than 2 ^ 64 events with the timer's thread, from a new timer
  -- on: when the thread takes an entry out of the queue, then it is before every entry that stays,
  -- by deadline and, for equal deadlines, by the order of scheduling; it leaves only when stopped.
  pub takes_earliest :
      (now : ℕ) (flags : States) (es : List (Event J)) (s t : System J)
      → length es < 2 ^ 64
      → steps es (start now flags) ≡ some s
      → step takes s ≡ some t
      → TakesFirst s t
  unfolding step
  takes_earliest now flags es s t lt p q =
      take_at-first s.pc s t
        (steps-IsSorted es (start now flags) s (omega arith) p (λ i. start-Accounted i now flags)
          tt)
        q

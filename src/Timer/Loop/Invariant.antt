-- ===== src/Timer/Loop/Invariant.antt =====
-- Every scheduled entry is accounted for once, and the queue stays in order.
use async.Prelude.{
  ℕ, ◌+◌, ◌^◌, ◌≤◌, ◌<◌, ◌≡◌, refl, ◌⊎◌, inl, inr, Bool, true, false, Option, none, some, List, [],
  ◌∷◌, ◌++◌, arith, ◌==◌, if◌then◌else◌, Bool-cases, Option-cases, length,
}
use async.Cancel.{States, CancelToken}
use async.Timer.{Entry, schedule, stop}
use async.Timer.Order.{count_id, count_id-insert}
use async.Timer.Loop.{
  Pc, at_lock, holding, checking, sleeping, due, System, Event, schedules, takes, checks, fires,
  start, take_from, check_from, take_at, check_at, fire_at, step, steps,
}

module _ {J : Type 0} where
  -- The entry that the worker has taken out of the queue.
  abbrev pub held : Pc J → List (Entry J)
  held (holding e) = e ∷ []
  held (checking e) = e ∷ []
  held (sleeping e) = e ∷ []
  held (due e) = e ∷ []
  held _ = []

  abbrev pub count_fired : ℕ → List (Entry J × ℕ) → ℕ
  count_fired i [] = 0
  count_fired i ((x, at) ∷ xs) = (if x.id == i then 1 else 0) + count_fired i xs

  -- How often entry `i` is queued, held, fired or dropped.
  abbrev pub total : ℕ → System J → ℕ
  total i s =
      count_id i s.timer.q + count_id i (held s.pc) + count_fired i s.fired + count_id i s.dropped

  count_fired-append :
      (i : ℕ) (xs : List (Entry J × ℕ)) (e : Entry J) (at : ℕ)
      → count_fired i (xs ++ (e, at) ∷ []) ≡ count_fired i xs + (if e.id == i then 1 else 0)
  count_fired-append i [] e at = omega arith
  count_fired-append i ((x, a) ∷ xs) e at = omega (arith, count_fired-append i xs e at)

  count_id-append :
      (i : ℕ) (xs : List (Entry J)) (e : Entry J)
      → count_id i (xs ++ e ∷ []) ≡ count_id i xs + (if e.id == i then 1 else 0)
  count_id-append i [] e = omega arith
  count_id-append i (x ∷ xs) e = omega (arith, count_id-append i xs e)

  -- The numbers given out so far are 1 to `seq`; while the timer runs each is accounted for once.
  pub record Accounted (i : ℕ) (s : System J) : Type 0 where
    pub unused : s.timer.seq < i → total i s ≡ 0
    pub zeroth : i ≡ 0 → total i s ≡ 0
    pub once : s.timer.stop ≡ false → 0 < i → i ≤ s.timer.seq → total i s ≡ 1
    pub at_most : total i s ≤ 1

  -- An event that schedules nothing keeps the account if it takes nothing away, or stops the timer.
  Accounted-le :
      (i : ℕ) (s t : System J)
      → t.timer.seq ≡ s.timer.seq
      → total i t ≤ total i s
      → (t.timer.stop ≡ true) ⊎ ((total i t ≡ total i s) × (t.timer.stop ≡ s.timer.stop))
      → Accounted i s
      → Accounted i t
  Accounted-le i s t e le cases a = record {
    unused = ground (arith, a.unused);
    zeroth = ground (arith, a.zeroth);
    once = ground (arith, a.once);
    at_most = ground (arith, a.at_most);
  }

  -- The new entry has the next number, which does not wrap.
  schedule-Accounted :
      (i tp : ℕ) (j : Option J) (ct : CancelToken) (s t : System J)
      → s.timer.seq + 1 < 2 ^ 64
      → step (schedules tp j ct) s ≡ some t
      → Accounted i s
      → Accounted i t × (t.timer.seq ≤ s.timer.seq + 1)
  unfolding step schedule
  schedule-Accounted i tp none ct s t lt p a = (ground (arith, a), ground arith)
  schedule-Accounted i tp (some j) ct s t lt p a = elim (Bool-cases s.timer.stop) [
    | inl stopped ↦ (ground (arith, a), ground arith)
    | inr on ↦
        let e : Entry J = record { when = tp; id = s.timer.seq + 1; ct = ct; job = j } in
        let more = count_id-insert i e s.timer.q in
        (
          record {
            unused = ground (arith, more, a.unused);
            zeroth = ground (arith, more, a.zeroth);
            once = ground (arith, more, a.once, a.unused);
            at_most = ground (arith, more, a.unused, a.at_most);
          },
          ground arith,
        )
  ]

  -- What every other event does to the account.
  abbrev pub Keeps : ℕ → System J → System J → Type 0
  Keeps i s t =
      (t.timer.seq ≡ s.timer.seq)
      × (total i t ≤ total i s)
      × ((t.timer.stop ≡ true) ⊎ ((total i t ≡ total i s) × (t.timer.stop ≡ s.timer.stop)))

  check_from-Keeps :
      (i : ℕ) (next : Entry J) (q : List (Entry J)) (s : System J)
      → s.pc ≡ checking next
      → s.timer.q ≡ q
      → Keeps i s (check_from next q s)
  check_from-Keeps i next [] s at e = ground arith
  check_from-Keeps i next (x ∷ rest) s at e = ground (arith, count_id-insert i next rest)

  take_from-Keeps :
      (i : ℕ) (q : List (Entry J)) (s t : System J)
      → s.pc ≡ at_lock
      → s.timer.q ≡ q
      → take_from q s ≡ some t
      → Keeps i s t
  take_from-Keeps i [] s t at e p = ground arith
  take_from-Keeps i (x ∷ rest) s t at e p = ground arith

  check_at-Keeps :
      (i : ℕ) (pc : Pc J) (s t : System J) → s.pc ≡ pc → check_at pc s ≡ some t → Keeps i s t
  check_at-Keeps i (checking next) s t at p = ground (arith, check_from-Keeps i next s.timer.q s at)
  check_at-Keeps i _ s t at p = cc

  fire_at-Keeps :
      (i : ℕ) (pc : Pc J) (s t : System J) → s.pc ≡ pc → fire_at pc s ≡ some t → Keeps i s t
  fire_at-Keeps i (due x) s t at p =
      ground (arith, count_fired-append i s.fired x s.now, count_id-append i s.dropped x)
  fire_at-Keeps i _ s t at p = cc

  take_at-Keeps :
      (i : ℕ) (pc : Pc J) (s t : System J) → s.pc ≡ pc → take_at pc s ≡ some t → Keeps i s t
  take_at-Keeps i at_lock s t at p = take_from-Keeps i s.timer.q s t at refl p
  take_at-Keeps i _ s t at p = cc

  abbrev pub is_schedule : Event J → Bool
  is_schedule (schedules tp j ct) = true
  is_schedule _ = false

  pub step-Keeps :
      (i : ℕ) (e : Event J) (s t : System J)
      → is_schedule e ≡ false
      → step e s ≡ some t
      → Keeps i s t
  unfolding step stop
  step-Keeps i (schedules tp j ct) s t n p = cc
  step-Keeps i takes s t n p = take_at-Keeps i s.pc s t refl p
  step-Keeps i checks s t n p = check_at-Keeps i s.pc s t refl p
  step-Keeps i fires s t n p = fire_at-Keeps i s.pc s t refl p
  step-Keeps i _ s t n p = ground arith

  pub step-Accounted :
      (i : ℕ) (e : Event J) (s t : System J)
      → s.timer.seq + 1 < 2 ^ 64
      → step e s ≡ some t
      → Accounted i s
      → Accounted i t × (t.timer.seq ≤ s.timer.seq + 1)
  step-Accounted i e s t lt p a = elim (Bool-cases (is_schedule e)) [
    | inl yes' ↦ by_schedule e yes' p
    | inr no' ↦
        let (same, le, cases) = step-Keeps i e s t no' p in
        (Accounted-le i s t same le cases a, omega arith)
  ]
    where
      by_schedule :
          (e : Event J)
          → is_schedule e ≡ true
          → step e s ≡ some t
          → Accounted i t × (t.timer.seq ≤ s.timer.seq + 1)
      by_schedule (schedules tp j ct) h p = schedule-Accounted i tp j ct s t lt p a
      by_schedule _ h p = cc

  pub steps-Accounted :
      (i : ℕ) (es : List (Event J)) (s t : System J)
      → s.timer.seq + length es < 2 ^ 64
      → steps es s ≡ some t
      → Accounted i s
      → Accounted i t
  unfolding steps
  steps-Accounted i [] s t lt p a = ground (arith, a)
  steps-Accounted i (e ∷ es) s t lt p a = elim (Option-cases (step e s)) [
    | inl q ↦ cc (rw (q, steps) at p)
    | inr (u, q) ↦
        let (a', le) = step-Accounted i e s u (omega arith) q a in
        steps-Accounted i es u t (omega arith) (rw (q, steps) at p) a'
  ]

  pub start-Accounted : (i now : ℕ) (flags : States) → Accounted i (start now flags)
  start-Accounted i now flags = record {
    unused = ground arith;
    zeroth = ground arith;
    once = ground arith;
    at_most = ground arith;
  }

  -- While the timer is not stopped, every number that it has given out is accounted for once.
  pub accounted_once :
      (i now : ℕ) (flags : States) (es : List (Event J)) (t : System J)
      → length es < 2 ^ 64
      → steps es (start now flags) ≡ some t
      → t.timer.stop ≡ false
      → 0 < i
      → i ≤ t.timer.seq
      → total i t ≡ 1
  accounted_once i now flags es t lt p on pos le =
      (steps-Accounted i es (start now flags) t (omega arith) p (start-Accounted i now flags)).once
        on pos le

  -- Under every such interleaving, stops included, no entry is posted twice, nor posted while it is
  -- still queued, held or dropped.
  pub fired_at_most_once :
      (i now : ℕ) (flags : States) (es : List (Event J)) (t : System J)
      → length es < 2 ^ 64
      → steps es (start now flags) ≡ some t
      → total i t ≤ 1
  fired_at_most_once i now flags es t lt p =
      (steps-Accounted i es (start now flags) t (omega arith) p
        (start-Accounted i now flags)).at_most

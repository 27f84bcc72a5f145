-- ===== src/Timer/Loop/Shutdown.antt =====
-- src/core/timer.cpp, the destructor of the timer: `stop`, and then the end of the worker thread.
use async.Prelude.{
  ℕ, zero, suc, ◌+◌, ◌≤◌, ◌≡◌, refl, ap, ◌∙◌, ◌⊎◌, inl, inr, Bool, true, false, not, Option, none,
  some, List, [], ◌∷◌, arith, if◌then◌else◌, Option-cases, length, is_some, length-append,
}
use async.Timer.{Entry, schedule, stop}
use async.Timer.Loop.{
  Pc, at_lock, holding, checking, sleeping, due, exited, System, Event, schedules, stops, takes,
  reads, checks, wakes, fires, take_from, take_at, read_at, check_at, wake_at, fire_at, step, steps,
}

-- What the destructor does with the thread: nothing, as it is not joinable, `detach`, or `join`.
pub data Release : Type 0 where
  leaves : Release
  detaches : Release
  joins : Release

module _ {J : Type 0} where
  -- `join` returns when the thread has.
  abbrev pub join : Pc J → Option Release
  join exited = some joins
  join _ = none

  -- The destructor after `stop`; the arguments say whether the thread is joinable, whether it is the
  -- one that destroys the timer, and whether `join` throws.
  unfoldable pub release : Bool → Bool → Bool → Pc J → Option Release
  release joinable is_self throws pc =
      if not joinable
      then some leaves
      else (if is_self then some detaches else (if throws then some detaches else join pc))

  abbrev pub by_worker : Event J → Bool
  by_worker takes = true
  by_worker reads = true
  by_worker checks = true
  by_worker wakes = true
  by_worker fires = true
  by_worker _ = false

  -- How many of the events are steps of the worker thread.
  abbrev pub worker_steps : List (Event J) → ℕ
  worker_steps [] = 0
  worker_steps (e ∷ es) = (if by_worker e then 1 else 0) + worker_steps es

  -- The worker's steps in a stopped timer are at most as many.
  abbrev rank : Pc J → ℕ
  rank at_lock = 1
  rank (holding e) = 3
  rank (checking e) = 1
  rank (sleeping e) = 1
  rank (due e) = 2
  rank exited = 0

  -- The jobs that a stopped timer may still post.
  abbrev unposted : Pc J → ℕ
  unposted (holding e) = 1
  unposted (due e) = 1
  unposted _ = 0

  abbrev Winds : Bool → System J → System J → Type 0
  Winds w s t =
      ((if w then 1 else 0) + rank t.pc ≤ rank s.pc)
      × (length t.fired + unposted t.pc ≤ length s.fired + unposted s.pc)
      × (t.timer.stop ≡ true)

  take_at-Winds :
      (pc : Pc J) (q : List (Entry J)) (s t : System J)
      → s.pc ≡ pc
      → s.timer.q ≡ q
      → take_at pc s ≡ some t
      → s.timer.stop ≡ true
      → Winds true s t
  take_at-Winds at_lock [] s t at e p stopped = ground (arith, e, p, stopped)
  take_at-Winds at_lock (x ∷ rest) s t at e p stopped = ground (arith, e, p, stopped)
  take_at-Winds _ q s t at e p stopped = cc

  fire_at-Winds :
      (pc : Pc J) (s t : System J)
      → s.pc ≡ pc
      → fire_at pc s ≡ some t
      → s.timer.stop ≡ true
      → Winds true s t
  fire_at-Winds (due next) s t at p stopped =
      ground (arith, length-append s.fired ((next, s.now) ∷ []))
  fire_at-Winds _ s t at p stopped = cc

  read_at-Winds :
      (pc : Pc J) (s t : System J)
      → s.pc ≡ pc
      → read_at pc s ≡ some t
      → s.timer.stop ≡ true
      → Winds true s t
  read_at-Winds (holding next) s t at p stopped = ground arith
  read_at-Winds _ s t at p stopped = cc

  check_at-Winds :
      (pc : Pc J) (s t : System J)
      → s.pc ≡ pc
      → check_at pc s ≡ some t
      → s.timer.stop ≡ true
      → Winds true s t
  check_at-Winds (checking next) s t at p stopped = ground arith
  check_at-Winds _ s t at p stopped = cc

  wake_at-Winds :
      (pc : Pc J) (s t : System J)
      → s.pc ≡ pc
      → wake_at pc s ≡ some t
      → s.timer.stop ≡ true
      → Winds true s t
  wake_at-Winds (sleeping next) s t at p stopped = ground arith
  wake_at-Winds _ s t at p stopped = cc

  step-Winds :
      (e : Event J) (s t : System J)
      → step e s ≡ some t
      → s.timer.stop ≡ true
      → Winds (by_worker e) s t
  unfolding step schedule stop
  step-Winds takes s t p stopped = take_at-Winds s.pc s.timer.q s t refl refl p stopped
  step-Winds reads s t p stopped = read_at-Winds s.pc s t refl p stopped
  step-Winds checks s t p stopped = check_at-Winds s.pc s t refl p stopped
  step-Winds wakes s t p stopped = wake_at-Winds s.pc s t refl p stopped
  step-Winds fires s t p stopped = fire_at-Winds s.pc s t refl p stopped
  step-Winds (schedules tp none ct) s t p stopped = ground arith
  step-Winds (schedules tp (some j) ct) s t p stopped = ground arith
  step-Winds _ s t p stopped = ground arith

  steps-Winds :
      (es : List (Event J)) (s t : System J)
      → steps es s ≡ some t
      → s.timer.stop ≡ true
      → (worker_steps es + rank t.pc ≤ rank s.pc)
        × (length t.fired + unposted t.pc ≤ length s.fired + unposted s.pc)
        × (t.timer.stop ≡ true)
  unfolding steps
  steps-Winds [] s t p stopped = ground arith
  steps-Winds (e ∷ es) s t p stopped = elim (Option-cases (step e s)) [
    | inl q ↦ cc (rw (q, steps) at p)
    | inr (u, q) ↦
        let (n, f, stopped') = step-Winds e s u q stopped in
        let (n', f', stopped'') = steps-Winds es u t (rw (q, steps) at p) stopped' in
        (omega (arith, n, n'), omega (arith, f, f'), stopped'')
  ]

  take_from-stopped :
      (q : List (Entry J)) (s : System J)
      → s.timer.stop ≡ true
      → take_from q s ≡ some (record s { pc = exited })
  take_from-stopped [] s stopped = ground arith
  take_from-stopped (x ∷ rest) s stopped = ground arith

  -- A thread that has not returned can take a step in a stopped timer.
  goes_on :
      (pc : Pc J) (s : System J)
      → s.pc ≡ pc
      → s.timer.stop ≡ true
      → (pc ≡ exited)
        ⊎ ((e : Event J) × (t : System J) × (by_worker e ≡ true) × (step e s ≡ some t))
  unfolding step
  goes_on at_lock s at stopped =
      inr (takes, _, refl, ap (λ pc. take_at pc s) at ∙ take_from-stopped s.timer.q s stopped)
  goes_on (holding next) s at stopped = inr (reads, _, refl, ap (λ pc. read_at pc s) at)
  goes_on (checking next) s at stopped = inr (checks, _, refl, ap (λ pc. check_at pc s) at)
  goes_on (sleeping next) s at stopped =
      inr (wakes, record s { pc = exited }, refl, ap (λ pc. wake_at pc s) at ∙ ground arith)
  goes_on (due next) s at stopped = inr (fires, _, refl, ap (λ pc. fire_at pc s) at)
  goes_on exited s at stopped = inl refl

  bounds : (pc : Pc J) → (rank pc ≤ 3) × (unposted pc ≤ 1)
  bounds pc = ground arith

  -- After the `stop` of the destructor, whatever the other threads do, the worker thread takes at
  -- most three more steps, and posts at most one more job. Either the destructor gets through, as
  -- the thread has returned or is not joined, or the thread can take its next step.
  pub destructor_returns :
      (es : List (Event J)) (s t : System J) (joinable is_self throws : Bool)
      → steps (stops ∷ es) s ≡ some t
      → (worker_steps es ≤ 3)
        × (length t.fired ≤ length s.fired + 1)
        × ((is_some (release joinable is_self throws t.pc) ≡ true)
            ⊎ ((e : Event J) × (u : System J) × (by_worker e ≡ true) × (step e t ≡ some u)))
  unfolding step steps stop release
  destructor_returns es s t joinable is_self throws p =
      let stopping = record s { timer = stop s.timer } in
      let (n, f, stopped) = steps-Winds es stopping t p refl in
      let (r, u) = bounds s.pc in
      (
        omega (arith, n, r),
        omega (arith, f, u),
        elim (goes_on t.pc t refl stopped) [ inl e ↦ inl (rw e (ground arith)) | inr h ↦ inr h ],
      )

  abbrev Exits : System J → Type 0
  Exits s = (es : List (Event J)) × (t : System J) × (steps es s ≡ some t) × (t.pc ≡ exited)

  Exits-step : (e : Event J) (s u : System J) → step e s ≡ some u → Exits u → Exits s
  unfolding steps
  Exits-step e s u q (es, t, run, done) = (e ∷ es, t, ground (arith, q, run), done)

  exits : (fuel : ℕ) (s : System J) → rank s.pc ≤ fuel → s.timer.stop ≡ true → Exits s
  unfolding steps
  exits zero s le stopped = elim (goes_on s.pc s refl stopped) [
    | inl e ↦ ([], s, refl, e)
    | inr (e, u, w, q) ↦
        let (less, _, _) = step-Winds e s u q stopped in absurd (ground (arith, w, less))
  ]
  exits (suc fuel) s le stopped = elim (goes_on s.pc s refl stopped) [
    | inl e ↦ ([], s, refl, e)
    | inr (e, u, w, q) ↦
        let (less, _, stopped') = step-Winds e s u q stopped in
        Exits-step e s u q (exits fuel u (ground (arith, w, less)) stopped')
  ]

  -- The thread of a stopped timer can return.
  pub can_exit :
      (s : System J)
      → s.timer.stop ≡ true
      → (es : List (Event J)) × (t : System J) × (steps es s ≡ some t) × (t.pc ≡ exited)
  can_exit s stopped = exits (rank s.pc) s (omega arith) stopped

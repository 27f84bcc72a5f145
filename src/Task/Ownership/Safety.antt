-- ===== src/Task/Ownership/Safety.antt =====
-- No frame has two owners, and none is destroyed or touched after its destruction.
use async.Prelude.{
  ℕ, ◌≡◌, refl, inl, inr, true, Option, none, some, List, [], ◌∷◌, ◌++◌, arith, ◌==◌, Bool-cases,
  Option-cases, set,
}
use async.Completion.{Completion}
use async.Scheduler.{Handle, empty, post_handle}
use async.Task.{find_frame, put_frame, destroy, destroy_frame, finish, start}
use async.Task.Ownership.{
  Tasks, Action, calls, moves, assigns, drops, releases, starts, ends, get_task, destroy_at,
  take_over, start_at, end_at, step, steps,
}
use async.Task.Ownership.Owners.{
  owners, owners-set, owners-append, IsLive, OwnedIn, OwnedIn-fewer, OwnedIn-set, calls-OwnedIn,
  ended-IsLive,
}

module _ {E V F : Type 0} where
  abbrev pub IsSafe : Tasks E V F → Type 0
  IsSafe s = (p : ℕ) → OwnedIn s.heap s.tasks p

  -- The frame of a task that is not empty.
  owned-IsLive :
      (s : Tasks E V F) (i : ℕ) (h : Handle)
      → IsSafe s
      → get_task s.tasks i ≡ some h
      → IsLive s.heap h × (owners h (set s.tasks i none) ≡ 0)
  owned-IsLive s i h safe e = elim (safe h) [
    | inl zero' ↦ absurd (ground (arith, owners-set h s.tasks i none))
    | inr (one, live) ↦ (live, ground (arith, owners-set h s.tasks i none))
  ]

  -- Emptying a task keeps the rest.
  emptied : (s : Tasks E V F) (i p : ℕ) → IsSafe s → OwnedIn s.heap (set s.tasks i none) p
  emptied s i p safe =
      OwnedIn-fewer s.heap s.tasks (set s.tasks i none) p (safe p)
        (omega (arith, owners-set p s.tasks i none))

  -- A step that succeeds and keeps the account.
  abbrev pub Succeeds : Option (Tasks E V F) → Type 0
  Succeeds r = (t : Tasks E V F) × (r ≡ some t) × IsSafe t

  destroy_at-IsSafe :
      (i : ℕ) (s : Tasks E V F)
      → IsSafe s
      → (t : Tasks E V F) × (destroy_at i s ≡ some t) × IsSafe t × (t.tasks ≡ set s.tasks i none)
  unfolding destroy destroy_frame
  destroy_at-IsSafe i s safe = elim (Option-cases (get_task s.tasks i)) [
    | inl e ↦ (record s { tasks = set s.tasks i none }, ground arith, λ p. emptied s i p safe, refl)
    | inr (h, e) ↦
        let ((f, found, _), gone) = owned-IsLive s i h safe e in
        (
          record s { heap = set s.heap h none; tasks = set s.tasks i none },
          ground arith,
          λ p. OwnedIn-set s.heap (set s.tasks i none) h p none (emptied s i p safe) gone,
          refl,
        )
  ]

  start_at-IsSafe : (i : ℕ) (s : Tasks E V F) → IsSafe s → Succeeds (start_at i s)
  unfolding start
  start_at-IsSafe i s safe = elim (Option-cases (get_task s.tasks i)) [
    | inl e ↦ (record s { tasks = set s.tasks i none }, ground arith, λ p. emptied s i p safe)
    | inr (h, e) ↦
        let ((f, found, _), gone) = owned-IsLive s i h safe e in
        let m = put_frame s.heap h (record f { detached = true }) in
        (
          record s { heap = m; tasks = set s.tasks i none; sched = post_handle (some h) s.sched },
          ground arith,
          λ p.
              OwnedIn-set s.heap (set s.tasks i none) h p (some (record f { detached = true }))
                (emptied s i p safe) gone,
        )
  ]

  take_over-IsSafe : (i j : ℕ) (s : Tasks E V F) → IsSafe s → IsSafe (take_over i j s)
  take_over-IsSafe i j s safe p =
      let emptied_j = set s.tasks j none in
      OwnedIn-fewer s.heap s.tasks (set emptied_j i (get_task s.tasks j)) p (safe p)
        (omega (arith, owners-set p s.tasks j none, owners-set p emptied_j i (get_task s.tasks j)))

  end_at-OwnedIn :
      (h : Handle) (o : Completion E V) (s : Tasks E V F) (p : ℕ)
      → OwnedIn s.heap s.tasks p
      → OwnedIn (end_at h o s).heap (end_at h o s).tasks p
  unfolding finish
  end_at-OwnedIn h o s p safe = elim (Option-cases (find_frame s.heap h)) [
    | inl e ↦ ground (arith, safe)
    | inr (f, e) ↦ elim safe [
      | inl z ↦ inl (ground arith)
      | inr (one, (g, found, own)) ↦
          let (g', found', own') = ended-IsLive s.heap h p f g o e found own in
          inr (ground arith, (g', ground arith, own'))
    ]
  ]

  step-Succeeds : (a : Action E V) (s : Tasks E V F) → IsSafe s → Succeeds (step a s)
  unfolding step
  step-Succeeds calls s safe = (_, refl, λ p. calls-OwnedIn s.heap s.tasks p (safe p))
  step-Succeeds (moves i) s safe = (
    _,
    refl,
    λ p. OwnedIn-fewer s.heap s.tasks (set s.tasks i none ++ get_task s.tasks i ∷ []) p (safe p) (
        omega (
          arith,
          owners-set p s.tasks i none,
          owners-append p (set s.tasks i none) (get_task s.tasks i),
        )),
  )
  step-Succeeds (assigns i j) s safe = elim (Bool-cases (i == j)) [
    | inl same ↦ (s, ground arith, safe)
    | inr other ↦
        let (t, e, safe', emptied_i) = destroy_at-IsSafe i s safe in
        (take_over i j t, ground arith, take_over-IsSafe i j t safe')
  ]
  step-Succeeds (drops i) s safe =
      let (t, e, safe', _) = destroy_at-IsSafe i s safe in (t, e, safe')
  step-Succeeds (releases i) s safe = (_, refl, λ p. emptied s i p safe)
  step-Succeeds (starts i) s safe = start_at-IsSafe i s safe
  step-Succeeds (ends h o) s safe = (_, refl, λ p. end_at-OwnedIn h o s p (safe p))

  steps-Succeeds : (as' : List (Action E V)) (s : Tasks E V F) → IsSafe s → Succeeds (steps as' s)
  unfolding steps
  steps-Succeeds [] s safe = (s, refl, safe)
  steps-Succeeds (a ∷ as') s safe =
      let (t, e, safe') = step-Succeeds a s safe in rw (e, steps) (steps-Succeeds as' t safe')

  abbrev pub no_tasks : Tasks E V F
  no_tasks = record { heap = []; tasks = []; sched = empty }

  -- Whatever a program does with its tasks, by calls of coroutines, moves, assignments also to
  -- itself, destructions, releases and starts, and in whatever order the coroutines end: no frame is
  -- destroyed twice and no destroyed frame is touched, no frame has two owners, and each frame that
  -- a task owns exists and is not detached.
  pub tasks_safe :
      (actions : List (Action E V))
      → (t : Tasks E V F) × (steps actions no_tasks ≡ some t) × ((p : ℕ) → OwnedIn t.heap t.tasks p)
  tasks_safe actions = steps-Succeeds actions no_tasks (λ p. inl refl)

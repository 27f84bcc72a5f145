-- ===== src/IoContext/Lifecycle.antt =====
-- The services before and after the shutdown.
use async.Prelude.{
  ℕ, ◌+◌, ◌≡◌, refl, ◌∙◌, inl, inr, Bool, true, false, Option, none, some, List, [], ◌∷◌, ◌++◌,
  append-nil, append_assoc, arith, Option-cases,
}
use async.Scheduler.{Scheduler, stop, post, post_handle}
use async.IoContext.{
  Service, cpu_pool, timers, signals, net, IoContext, is_shut_down, service, slot, set_slot, get,
  tear_down, shutdown, Call, gets, shuts_down, posts, posts_handle, stops, step, steps,
}

abbrev one : Service → Option ℕ → List Service
one s none = []
one s (some p) = s ∷ []

module _ {F : Type 0} where
  -- The services that exist, in the order in which a shutdown resets them.
  abbrev pub alive : IoContext F → List Service
  alive c =
      one net c.net_ptr
      ++ (one signals c.signals_ptr ++ (one timers c.timer_ptr ++ one cpu_pool c.cpu_pool_ptr))

  tear_down-destroyed :
      (s : Service) (c : IoContext F)
      → ((tear_down s c).destroyed ≡ c.destroyed ++ one s (slot s c))
        × ((tear_down s c).sched ≡ c.sched)
        × ((tear_down s c).shutdown_done ≡ c.shutdown_done)
  tear_down-destroyed cpu_pool c = ground (arith, append-nil c.destroyed)
  tear_down-destroyed timers c = ground (arith, append-nil c.destroyed)
  tear_down-destroyed signals c = ground (arith, append-nil c.destroyed)
  tear_down-destroyed net c = ground (arith, append-nil c.destroyed)

  -- Every service is gone.
  abbrev pub IsClear : IoContext F → Type 0
  IsClear c =
      (c.net_ptr ≡ none) × (c.signals_ptr ≡ none) × (c.timer_ptr ≡ none) × (c.cpu_pool_ptr ≡ none)

  shutdown-IsClear :
      (c : IoContext F)
      → c.shutdown_done ≡ false
      → IsClear (shutdown c)
        × ((shutdown c).shutdown_done ≡ true)
        × ((shutdown c).sched.stop_requested ≡ true)
  unfolding shutdown stop
  shutdown-IsClear c e = ground arith

  -- The shutdown, a service at a time.
  shutdown-destroyed :
      (c : IoContext F)
      → c.shutdown_done ≡ false
      → (shutdown c).destroyed
        ≡ (((c.destroyed ++ one net c.net_ptr) ++ one signals c.signals_ptr)
            ++ one timers c.timer_ptr)
          ++ one cpu_pool c.cpu_pool_ptr
  unfolding shutdown
  shutdown-destroyed c e =
      let c0 : IoContext F = record c { shutdown_done = true; sched = stop c.sched } in
      let c1 = tear_down net c0 in
      let c2 = tear_down signals c1 in
      let c3 = tear_down timers c2 in
      ground (
        arith,
        tear_down-destroyed net c0,
        tear_down-destroyed signals c1,
        tear_down-destroyed timers c2,
        tear_down-destroyed cpu_pool c3,
      )

  -- The first shutdown tears down the services that exist, the network first, then the signals, the
  -- timer and the thread pool, each once, and asks the scheduler to stop.
  pub shutdown_order :
      (c : IoContext F)
      → c.shutdown_done ≡ false
      → ((shutdown c).destroyed ≡ c.destroyed ++ alive c)
        × IsClear (shutdown c)
        × ((shutdown c).sched.stop_requested ≡ true)
  shutdown_order c e =
      let (clear, _, stopped) = shutdown-IsClear c e in
      (shutdown-destroyed c e ∙ simp append_assoc, clear, stopped)

  -- A context that was shut down has no services left.
  abbrev pub IsClosed : IoContext F → Type 0
  IsClosed c = (c.shutdown_done ≡ true) × IsClear c

  step-IsClosed :
      (x : Call F) (c : IoContext F)
      → IsClosed c
      → IsClosed (step x c) × ((step x c).destroyed ≡ c.destroyed) × ((step x c).next ≡ c.next)
  unfolding step get shutdown
  step-IsClosed (gets s) c h = ground arith
  step-IsClosed shuts_down c h = ground arith
  step-IsClosed (posts f) c h = ground arith
  step-IsClosed (posts_handle p) c h = ground arith
  step-IsClosed stops c h = ground arith

  steps-IsClosed :
      (xs : List (Call F)) (c : IoContext F)
      → IsClosed c
      → IsClosed (steps xs c)
        × ((steps xs c).destroyed ≡ c.destroyed)
        × ((steps xs c).next ≡ c.next)
  unfolding steps
  steps-IsClosed [] c h = (h, refl, refl)
  steps-IsClosed (x ∷ xs) c h =
      let (h', d, n) = step-IsClosed x c h in
      let (h'', d', n') = steps-IsClosed xs (step x c) h' in (h'', d' ∙ d, n' ∙ n)

  -- A shutdown is final: after it, and any further calls, another shutdown among them, every access
  -- to a service throws, no service is made, and none is torn down again.
  pub shutdown_final :
      (c : IoContext F) (xs : List (Call F)) (s : Service)
      → c.shutdown_done ≡ false
      → let t = steps xs (shutdown c) in
        ((get s t).0 ≡ is_shut_down)
        × IsClear t
        × (t.destroyed ≡ (shutdown c).destroyed)
        × (t.next ≡ (shutdown c).next)
  unfolding get
  shutdown_final c xs s e =
      let (clear, done, _) = shutdown-IsClear c e in
      let (closed, d, n) = steps-IsClosed xs (shutdown c) (done, clear) in
      (ground (arith, closed.0), closed.1, d, n)

  abbrev pub no_shutdown : List (Call F) → Bool
  no_shutdown [] = true
  no_shutdown (shuts_down ∷ xs) = false
  no_shutdown (x ∷ xs) = no_shutdown xs

  by_sched :
      (s : Service) (c : IoContext F) (q : Scheduler F) (p : ℕ)
      → slot s c ≡ some p
      → (slot s (record c { sched = q }) ≡ some p) × (c.shutdown_done ≡ c.shutdown_done)
  by_sched cpu_pool c q p e = (e, refl)
  by_sched timers c q p e = (e, refl)
  by_sched signals c q p e = (e, refl)
  by_sched net c q p e = (e, refl)

  -- A call that is no shutdown leaves an existing service in place.
  step-keeps :
      (x : Call F) (c : IoContext F) (s : Service) (p : ℕ)
      → no_shutdown (x ∷ []) ≡ true
      → slot s c ≡ some p
      → (slot s (step x c) ≡ some p) × ((step x c).shutdown_done ≡ c.shutdown_done)
  unfolding step get
  step-keeps (gets cpu_pool) c s p n e = ground arith
  step-keeps shuts_down c s p n e = cc
  step-keeps (gets _) c s p n e = ground arith
  step-keeps (posts f) c s p n e = by_sched s c (post f c.sched) p e
  step-keeps (posts_handle h) c s p n e = by_sched s c (post_handle h c.sched) p e
  step-keeps stops c s p n e = by_sched s c (stop c.sched) p e

  no_shutdown-cons :
      (x : Call F) (xs : List (Call F))
      → no_shutdown (x ∷ xs) ≡ true
      → (no_shutdown (x ∷ []) ≡ true) × (no_shutdown xs ≡ true)
  no_shutdown-cons shuts_down xs n = cc
  no_shutdown-cons _ xs n = (refl, n)

  steps-keeps :
      (xs : List (Call F)) (c : IoContext F) (s : Service) (p : ℕ)
      → no_shutdown xs ≡ true
      → slot s c ≡ some p
      → (slot s (steps xs c) ≡ some p) × ((steps xs c).shutdown_done ≡ c.shutdown_done)
  unfolding steps
  steps-keeps [] c s p n e = (e, refl)
  steps-keeps (x ∷ xs) c s p n e =
      let (n', n'') = no_shutdown-cons x xs n in
      let (e', d) = step-keeps x c s p n' e in
      let (e'', d') = steps-keeps xs (step x c) s p n'' e' in (e'', d' ∙ d)

  slot-set_slot :
      (s : Service) (c : IoContext F) (p : Option ℕ) (n : ℕ)
      → (slot s (record (set_slot s p c) { next = n }) ≡ p)
        × ((set_slot s p c).shutdown_done ≡ c.shutdown_done)
  slot-set_slot cpu_pool c p n = (refl, refl)
  slot-set_slot timers c p n = (refl, refl)
  slot-set_slot signals c p n = (refl, refl)
  slot-set_slot net c p n = (refl, refl)

  get-slot :
      (s : Service) (c : IoContext F)
      → c.shutdown_done ≡ false
      → (p : ℕ) × ((get s c).0 ≡ service p)
        × (slot s (get s c).1 ≡ some p)
        × ((get s c).1.shutdown_done ≡ false)
  unfolding get
  get-slot s c e = elim (Option-cases (slot s c)) [
    | inr (p, old) ↦ (p, ground arith, ground arith, ground arith)
    | inl new ↦
        let (made, same) = slot-set_slot s c (some c.next) (c.next + 1) in
        (c.next, ground arith, ground (arith, made), ground (arith, same))
  ]

  -- A service is made once: in a context that is not shut down, two accesses to the same service give
  -- the same object, whatever other calls but a shutdown come between them.
  pub get_same :
      (s : Service) (c : IoContext F) (xs : List (Call F))
      → c.shutdown_done ≡ false
      → no_shutdown xs ≡ true
      → (p : ℕ) × ((get s c).0 ≡ service p) × ((get s (steps xs (get s c).1)).0 ≡ service p)
  unfolding get
  get_same s c xs e n =
      let (p, got, kept, on) = get-slot s c e in
      let (still, same) = steps-keeps xs (get s c).1 s p n kept in (p, got, ground arith)

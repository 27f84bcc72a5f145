-- ===== src/IoContext/Teardown/PoolStuck.antt =====
-- A worker of the thread pool that waits for the lifecycle mutex.
use async.Prelude.{
  ℕ, zero, suc, ◌≡◌, refl, sym, ap, ◌∙◌, ◌≢◌, inl, inr, Bool, true, false, Option, none, some, List,
  [], ◌∷◌, arith, ℕ_discrete, if◌then◌else◌, Option-cases, get_elem?, is_some, get_elem?-set_other,
}
use async.ThreadPool.{
  ThreadPool, Pc, working, at_lock, exited, begin_shutdown, joinable_all, is_exited, submit,
  enqueue, stop, worker_take, take_from,
}
use async.ThreadPool.Fifo.{step-takes}
use async.ThreadPool as Pool
use async.IoContext.{
  Service, cpu_pool, timers, signals, net, Call, gets, shuts_down, posts, posts_handle, stops, step,
}
use async.IoContext.Teardown.{
  Phase, idle, stopping, joining, Runtime, Event, calls, stops_service, joins_service, of_pool,
  of_timer, of_signals, of_net, asks_net, answers, is_idle, next, join_of, stop_at, join_phase,
  call, blocked, pool_step, net_step, advance,
}

-- The thread pool has not been destroyed yet.
abbrev pub has_pool : List Service → Bool
has_pool [] = false
has_pool (cpu_pool ∷ vs) = true
has_pool (v ∷ vs) = has_pool vs

abbrev pub pool_ahead : Phase → Bool
pool_ahead idle = false
pool_ahead (stopping v rest) = has_pool (v ∷ rest)
pool_ahead (joining v rest) = has_pool (v ∷ rest)

next-has_pool : (vs : List Service) → pool_ahead (next vs) ≡ has_pool vs
next-has_pool [] = refl
next-has_pool (v ∷ vs) = refl

pub ahead-busy : (p : Phase) → pool_ahead p ≡ true → is_idle p ≡ false
ahead-busy idle h = cc
ahead-busy (stopping v rest) h = refl
ahead-busy (joining v rest) h = refl

-- Worker `i` is in the callable, and the shutdown holds the mutex and has the pool ahead of it.
abbrev pub IsStuck : {F : Type 0} → ℕ → F → Runtime F → Type 0
IsStuck i f s =
    (pool_ahead s.phase ≡ true)
    × (is_some s.c.cpu_pool_ptr ≡ true)
    × (get_elem? s.pool.threads i ≡ some (working f))

module _ {F : Type 0} (asks : F → Bool) (i : ℕ) (f : F) (waits : asks f ≡ true) where
  working-not_joinable :
      (ps : List (Pc F)) (j k : ℕ)
      → get_elem? ps j ≡ some (working f)
      → joinable_all none k ps ≡ false
  unfolding joinable_all
  working-not_joinable [] j k e = cc
  working-not_joinable (p ∷ ps) zero k e = ground arith
  working-not_joinable (p ∷ ps) (suc j) k e = ground (arith, working-not_joinable ps j (suc k) e)

  take_from-working :
      (q : List F) (j : ℕ) (p : ThreadPool F)
      → i ≢ j
      → get_elem? p.threads i ≡ some (working f)
      → get_elem? (take_from q j p).threads i ≡ some (working f)
  take_from-working [] j p ne e =
      ground (arith, get_elem?-set_other p.threads j i exited (λ h. ne (sym h)))
  take_from-working (g ∷ q) j p ne e =
      get_elem?-set_other p.threads j i (working g) (λ h. ne (sym h)) ∙ e

  finish_at-working :
      (o : Option (Pc F)) (j : ℕ) (s : Runtime F) (p : ThreadPool F)
      → i ≢ j
      → get_elem? s.pool.threads i ≡ some (working f)
      → (if blocked asks o s.phase then none else Pool.finish_at o j s.pool) ≡ some p
      → get_elem? p.threads i ≡ some (working f)
  finish_at-working o j s p ne e h =
      ground (arith, get_elem?-set_other s.pool.threads j i at_lock (λ x. ne (sym x)))

  pool_step-working :
      (e : Pool.Event F) (s : Runtime F) (p : ThreadPool F)
      → IsStuck i f s
      → pool_step asks e s ≡ some p
      → get_elem? p.threads i ≡ some (working f)
  unfolding Pool.step submit enqueue stop worker_take
  pool_step-working (Pool.submits none) s p v h = ground arith
  pool_step-working (Pool.submits (some g)) s p v h = ground arith
  pool_step-working Pool.stops s p v h = ground arith
  pool_step-working Pool.shuts_down s p v h = cc
  pool_step-working (Pool.joins self) s p v h = cc
  pool_step-working (Pool.takes j) s p v h =
      let (at, e, _) = step-takes j s.pool p h in
      rw e
        (take_from-working s.pool.q j s.pool (λ same. cc (ap (get_elem? s.pool.threads) same)) v.2)
  pool_step-working (Pool.finishes j) s p v h = elim (ℕ_discrete i j) [
    | yes same ↦ ground (arith, waits, ahead-busy s.phase, ap (get_elem? s.pool.threads) same)
    | no other ↦ finish_at-working (get_elem? s.pool.threads j) j s p other v.2 h
  ]

  stop_at-IsStuck :
      (ph : Phase) (s t : Runtime F)
      → s.phase ≡ ph
      → stop_at ph s ≡ some t
      → IsStuck i f s
      → IsStuck i f t
  unfolding begin_shutdown
  stop_at-IsStuck idle s t at p v = cc
  stop_at-IsStuck (joining w rest) s t at p v = cc
  stop_at-IsStuck (stopping cpu_pool rest) s t at p v = ground arith
  stop_at-IsStuck (stopping timers rest) s t at p v = ground (arith, next-has_pool rest)
  stop_at-IsStuck (stopping signals rest) s t at p v = ground (arith, next-has_pool rest)
  stop_at-IsStuck (stopping net rest) s t at p v = ground (arith, next-has_pool rest)

  join_pool-waits :
      (s : Runtime F) → get_elem? s.pool.threads i ≡ some (working f) → join_of cpu_pool s ≡ none
  unfolding Pool.step
  join_pool-waits s e = ground (arith, working-not_joinable s.pool.threads i 0 e)

  join_phase-IsStuck :
      (ph : Phase) (s t : Runtime F)
      → s.phase ≡ ph
      → join_phase ph s ≡ some t
      → IsStuck i f s
      → IsStuck i f t
  join_phase-IsStuck idle s t at p v = cc
  join_phase-IsStuck (stopping w rest) s t at p v = cc
  join_phase-IsStuck (joining cpu_pool rest) s t at p v = ground (arith, join_pool-waits s v.2)
  join_phase-IsStuck (joining timers rest) s t at p v = ground (arith, next-has_pool rest)
  join_phase-IsStuck (joining signals rest) s t at p v = ground (arith, next-has_pool rest)
  join_phase-IsStuck (joining net rest) s t at p v = ground (arith, next-has_pool rest)

  call-IsStuck : (x : Call F) (s t : Runtime F) → call x s ≡ some t → IsStuck i f s → IsStuck i f t
  unfolding step
  call-IsStuck (gets w) s t p v = ground (arith, ahead-busy s.phase)
  call-IsStuck shuts_down s t p v = ground (arith, ahead-busy s.phase)
  call-IsStuck (posts g) s t p v = ground arith
  call-IsStuck (posts_handle h) s t p v = ground arith
  call-IsStuck stops s t p v = ground arith

  pub advance-IsStuck :
      (e : Event F) (s t : Runtime F) → advance asks e s ≡ some t → IsStuck i f s → IsStuck i f t
  unfolding advance
  advance-IsStuck (calls x) s t p v = call-IsStuck x s t p v
  advance-IsStuck stops_service s t p v = stop_at-IsStuck s.phase s t refl p v
  advance-IsStuck joins_service s t p v = join_phase-IsStuck s.phase s t refl p v
  advance-IsStuck (of_pool e) s t p v = elim (Option-cases (pool_step asks e s)) [
    | inl q ↦ ground (arith, q)
    | inr (u, q) ↦ ground (arith, q, pool_step-working e s u v q)
  ]
  advance-IsStuck (of_timer e) s t p v = ground arith
  advance-IsStuck (of_signals e) s t p v = ground arith
  advance-IsStuck (of_net e) s t p v = elim (Option-cases (net_step asks e s)) [
    | inl q ↦ ground (arith, q)
    | inr (u, q) ↦ ground (arith, q)
  ]
  advance-IsStuck asks_net s t p v = ground arith
  advance-IsStuck answers s t p v = ground arith

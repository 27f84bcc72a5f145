-- ===== src/ThreadPool/Tests.antt =====
-- Two workers, two callables and a shutdown.
use async.Prelude.{
  ℕ, Bool, ◌==◌, ◌≤◌, ◌+◌, ◌≡◌, refl, true, false, none, some, List, [], ◌∷◌, ◌++◌, length,
}
use async.ThreadPool.{
  at_lock, working, exited, ThreadPool, Event, submits, stops, shuts_down, takes, finishes,
  new_pool, joinable_all, step, steps,
}
use async.ThreadPool.Fifo.{accepted, workers_fifo}
use async.ThreadPool.Bounds.{tally, running, ended, pool_bounds}
use async.ThreadPool.Shutdown.{all_exited, shutdown_complete}

abbrev half : List (Event ℕ)
half = submits (some 4) ∷ submits (some 5) ∷ takes 1 ∷ submits none ∷ stops ∷ submits (some 6) ∷ []

abbrev halfway : ThreadPool ℕ
halfway = record {
  q = 5 ∷ [];
  stop = true;
  shutdown_done = false;
  threads = at_lock ∷ working 4 ∷ [];
  workers = 2;
  started = 4 ∷ [];
}

workers_fifo_example : accepted half ≡ 4 ∷ 5 ∷ []
unfolding step steps new_pool
workers_fifo_example = workers_fifo 2 half halfway refl

-- Callable 4 runs, and the other one is queued.
abbrev is_four : ℕ → Bool
is_four f = f == 4

pool_bounds_example :
    (length (running halfway.threads) ≤ 2)
    × (tally is_four (accepted half)
        ≡ tally is_four halfway.q
          + tally is_four (running halfway.threads)
          + tally is_four (ended half (new_pool 2)))
unfolding step steps new_pool
pool_bounds_example = pool_bounds is_four 2 half halfway refl

abbrev rest : List (Event ℕ)
rest = takes 0 ∷ finishes 1 ∷ takes 1 ∷ finishes 0 ∷ takes 0 ∷ []

abbrev finished : ThreadPool ℕ
finished = record {
  q = [];
  stop = true;
  shutdown_done = false;
  threads = exited ∷ exited ∷ [];
  workers = 2;
  started = 4 ∷ 5 ∷ [];
}

abbrev closing : ThreadPool ℕ
closing = record finished { shutdown_done = true }

abbrev closed : ThreadPool ℕ
closed = record closing { workers = 0 }

shutdown_complete_example :
    (all_exited closed.threads ≡ true)
    × (closed.q ≡ [])
    × (closed.started ≡ 4 ∷ 5 ∷ [])
    × (closed.workers ≡ 0)
unfolding step steps new_pool joinable_all
shutdown_complete_example =
    shutdown_complete 2 (half ++ rest ++ shuts_down ∷ []) closing closed refl refl

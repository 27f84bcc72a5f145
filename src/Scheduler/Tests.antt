-- ===== src/Scheduler/Tests.antt =====
-- The scheduler at concrete queues.
use async.Prelude.{
  ℕ, Bool, ◌==◌, ◌⊎◌, ◌+◌, ◌≡◌, refl, true, false, none, some, List, [], ◌∷◌, ◌++◌, arith,
}
use async.Scheduler.{Scheduler, Item, handle, callable, threw, empty, run, loop, awake, take}
use async.Scheduler.Drain.{IsBounded, Drained, Threw, handles_weight, run-Drained}
use async.Scheduler.Interleaving.{
  at_lock, doing, System, Event, posts, posts_handle, enters, takes, finishes, step, steps,
}
use async.Scheduler.Interleaving.Fifo.{posted_handles, posted_fns, resumed, called, run_fifo}

abbrev loaded : Scheduler ℕ
loaded = record {
  handle_q = 1 ∷ 2 ∷ [];
  fn_q = some 7 ∷ none ∷ [];
  stop_requested = true;
  running = false;
}

-- A callable resumes handle 5 once, and handle 2 throws; nothing else posts.
abbrev wake_five : Item ℕ → Scheduler ℕ → Scheduler ℕ × Bool
wake_five (callable (some f)) s = (record s { handle_q = s.handle_q ++ 5 ∷ [] }, false)
wake_five (handle h) s = (s, h == 2)
wake_five _ s = (s, false)

abbrev one_each : Item ℕ → ℕ
one_each (callable (some f)) = 1
one_each _ = 0

handles_weight-append :
    (hs : List ℕ) → handles_weight one_each (hs ++ 5 ∷ []) ≡ handles_weight one_each hs + 1
handles_weight-append [] = refl
handles_weight-append (h ∷ hs) = omega (arith, handles_weight-append hs)

wake_five-IsBounded : IsBounded one_each wake_five
wake_five-IsBounded (handle h) s = (refl, refl, omega arith)
wake_five-IsBounded (callable (some f)) s =
    (refl, refl, omega (arith, handles_weight-append s.handle_q))
wake_five-IsBounded _ s = (refl, refl, omega arith)

run-Drained_example : Drained (run wake_five 6 loaded) ⊎ Threw wake_five (run wake_five 6 loaded)
run-Drained_example = run-Drained one_each wake_five wake_five-IsBounded 6 loaded refl (omega arith)

-- The exception of handle 2 leaves the callables in their queue.
run_throws :
    run wake_five 6 loaded
    ≡ threw (record loaded { handle_q = []; running = true }) (handle 1 ∷ handle 2 ∷ [])
unfolding run loop awake take
run_throws = refl

-- A callable is posted before a handle, and the handle is taken first.
abbrev history : List (Event ℕ)
history =
    posts (some 7)
    ∷ posts_handle (some 1)
    ∷ posts_handle none
    ∷ enters
    ∷ takes
    ∷ finishes
    ∷ posts none
    ∷ []

abbrev reached : System ℕ
reached = record {
  sched = record {
    handle_q = [];
    fn_q = some 7 ∷ none ∷ [];
    stop_requested = false;
    running = true;
  };
  pc = at_lock;
  done = handle 1 ∷ [];
}

run_fifo_example :
    (posted_handles history ≡ resumed reached.done ++ reached.sched.handle_q)
    × (posted_fns history ≡ called reached.done ++ reached.sched.fn_q)
unfolding step steps
run_fifo_example = run_fifo history reached refl

abbrev serving : System ℕ
serving = record {
  sched = record { handle_q = []; fn_q = none ∷ []; stop_requested = false; running = true };
  pc = doing (callable (some 7));
  done = handle 1 ∷ callable (some 7) ∷ [];
}

abbrev idle : System ℕ
idle = record { sched = empty; pc = at_lock; done = [] }

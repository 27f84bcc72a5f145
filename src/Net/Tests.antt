-- ===== src/Net/Tests.antt =====
-- A read that fails, on a scheduler that is not stopped.
use async.Prelude.{ℕ, ◌≡◌, refl, ◌⊎◌, true, false, none, some, [], ◌∷◌, if◌then◌else◌}
use async.Completion.{throws, system_error}
use async.Cancel.{States, CancelToken, request, acts, is_cancelled, cancelled_ec}
use async.Scheduler.{empty}
use async.Net.Service as Service
use async.Net.Service.{Service as NetService, stops, run_ends, joins, destruction, service_stops}
use async.Net.Await.{
  Resumption, Operation, completes, resume_on_ctx, new_awaitable, operate, await_resume, ended,
  operation_outcome,
}

abbrev flags : States
flags = false ∷ []

abbrev live : CancelToken
live = record { st = some 0 }

abbrev idle : Resumption ℕ
idle = record { sched = empty; inline = [] }

abbrev read : Operation ℕ ℕ
read = completes cancelled_ec 0

operation_outcome_example :
    let (w, r') = operate flags true (some 5) read (new_awaitable live) idle in
    (r' ≡ resume_on_ctx true (some 5) idle)
    × (await_resume (acts flags (request (record { st = some 0 }) ∷ [])) w ≡ (
        if is_cancelled (acts flags (request (record { st = some 0 }) ∷ [])) live
        then throws (system_error cancelled_ec)
        else ended read))
operation_outcome_example =
    operation_outcome flags (request (record { st = some 0 }) ∷ []) true (some 5) read live idle

-- The thread has been stopped, and has not been joined.
abbrev halted : NetService
halted = record {
  guard = false;
  stopped = true;
  ioc_stopped = true;
  running = false;
  joinable = true;
}

service_stops_example :
    (halted.stopped ≡ false
      → (halted.running ≡ true)
        × ((halted.joinable ≡ false) ⊎ (Service.step (joins false) halted ≡ none)))
    × ((t : NetService) × (Service.steps (destruction halted) halted ≡ some t)
        × (t.running ≡ false)
        × (t.joinable ≡ false))
unfolding Service.step Service.steps
service_stops_example = service_stops (stops ∷ run_ends false ∷ []) halted refl refl

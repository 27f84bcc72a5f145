-- ===== src/Timer/Sleep.antt =====
-- src/core/timer.cpp, the awaitable of `sleep_for`: the job that it schedules posts the coroutine,
-- so a job is the handle of the coroutine. A duration is not negative.
pub mod Full
mod Tests
use async.Prelude.{
  ℕ, zero, suc, ◌+◌, ◌-◌, ◌*◌, ◌%◌, ◌^◌, ◌≤◌, ◌<◌, ◌≡◌, refl, sym, ap, ◌∙◌, ◌≢◌, ◌↔◌, ◌⊎◌, inl, inr,
  Bool, true, false, ◌&&◌, ◌||◌, not, Option, none, some, List, [], ◌∷◌, ◌++◌, map, append-nil,
  append_assoc, arith, dec_lt, ℕ_discrete, ltb, leb, ◌==◌, if◌then◌else◌, ltb→lt, lt→ltb, leb→le,
  ==_iff, tests, Bool-cases, Option-cases, length, get_elem?, set, replicate, is_empty, is_some,
  length-append, length-set, get_elem?-some, Each, Each-append,
}
use async.Completion.{Completion, returns, throws, system_error}
use async.Cancel.{States, CancelToken, empty_token, is_cancelled, cancelled_ec}
use async.Scheduler.{Scheduler, Handle, post_handle}
use async.Timer.{Timer, after}

pub record Awaitable : Type 0 where
  pub d : ℕ
  pub ct : CancelToken

unfoldable pub await_ready : States → Awaitable → Bool
unfolding is_cancelled
await_ready flags w = w.d == 0 || is_cancelled flags w.ct

-- At the clock's value `now`; `after` gets no token. `none` is undefined behaviour, as in `after`.
unfoldable pub await_suspend : ℕ → Handle → Awaitable → Timer Handle → Option (Timer Handle)
unfolding after
await_suspend now h w t = after now w.d (some h) empty_token t

-- The callable, when the scheduler runs it.
unfoldable pub run_job : Handle → Scheduler Handle → Scheduler Handle
unfolding post_handle
run_job h s = post_handle (some h) s

unfoldable pub await_resume : {E : Type 0} → States → Awaitable → Completion E (Unit {0})
unfolding is_cancelled cancelled_ec
await_resume flags w =
    if is_cancelled flags w.ct then throws (system_error cancelled_ec) else returns tt

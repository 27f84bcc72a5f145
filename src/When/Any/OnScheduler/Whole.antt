-- ===== src/When/Any/OnScheduler/Whole.antt =====
-- `when_any` from the suspension of the awaiting coroutine to its resumption.
use async.Prelude.{
  ℕ, zero, suc, ◌+◌, ◌<◌, ◌≡◌, replicate, Each, refl, sym, ap, ◌∙◌, true, false, none, some, List,
  [], ◌∷◌, ◌++◌, arith, length, get_elem?, get_elem?-some,
}
use async.Completion.{Completion, returns, throws, undefined}
use async.Scheduler.{Scheduler, Handle, take, empty, post_handle}
use async.When.All.Slots.{first_thrown, values, Ends}
use async.When.All.OnScheduler.{index_of, delayed, IsDistinct}
use async.When.All.OnScheduler.Start.{post_all-queues, index_of-get}
use async.When.Any.{
  WhenAnyState, when_any_runner, run_any, await_suspend, await_resume, when_any_end,
}
use async.When.Any.Race.{when_any_undefined, when_any_all_returned}
use async.When.Any.OnScheduler.{Run, race, start, prompt}
use async.When.Any.OnScheduler.Prompt.{mem-prompt, length-prompt, prompt-below, prompt-covers}
use async.When.Any.OnScheduler.Round.{
  with_sched, run_any-with_sched, race-handle, take-handle, Ready, after, round,
}

module _ {E V F : Type 0} where
  -- The first end posts the awaiting coroutine.
  first-with_sched :
      (i : ℕ) (o : Completion E V) (p : Scheduler F) (st : WhenAnyState E V F)
      → st.done ≡ false
      → st.has_sched ≡ true
      → (when_any_runner i o (with_sched p st)
          ≡ with_sched (post_handle st.cont p) (when_any_runner i o st))
        × ((when_any_runner i o st).done ≡ true)
  unfolding when_any_runner
  first-with_sched i (returns v) p st d k = ground arith
  first-with_sched i (throws x) p st d k = ground arith
  first-with_sched i undefined p st d k = ground arith

delayed-get :
    (ds : List ℕ) (j d : ℕ) → get_elem? ds j ≡ some d → get_elem? (delayed ds) j ≡ some (some d)
delayed-get [] j d e = cc
delayed-get (x ∷ ds) zero d e = ground arith
delayed-get (x ∷ ds) (suc j) d e = delayed-get ds j d e

module _ {E V F : Type 0} (os : List (Completion E V)) (r : Handle) (rs : List Handle) (c : Handle)
    (ds : List ℕ) (apart : index_of c (r ∷ rs) ≡ none) where
  abbrev begun : Run E V F
  begun = start (r ∷ rs) c (zero ∷ ds)

  -- The state after the first task has ended with `o`.
  abbrev won_by : Completion E V → Run E V F
  won_by o = after os (r ∷ rs) c apart 0 r 0 o begun

  begun-queue : (begun.st.sched.handle_q ≡ r ∷ rs) × (begun.st.sched.fn_q ≡ [])
  unfolding start await_suspend
  begun-queue = post_all-queues {F = F} (r ∷ rs) empty

  won_by-state :
      (o : Completion E V)
      → ((won_by o).st
          ≡ with_sched
              (won_by o).st.sched
              (when_any_runner 0 o (await_suspend empty (some c) (r ∷ rs))))
        × ((won_by o).st.done ≡ true)
        × ((won_by o).st.sched.handle_q ≡ rs ++ c ∷ [])
  unfolding start await_suspend post_handle
  won_by-state o =
      let st = await_suspend {E = E} {V = V} {F = F} empty (some c) (r ∷ rs) in
      let (w, d) = first-with_sched 0 o (take begun.st.sched).1 st refl refl in
      let q = take-handle os (r ∷ rs) c apart begun.st.sched r rs begun-queue.0 in
      (
        w
            ∙ ap (λ p. with_sched p (when_any_runner 0 o st))
                (sym (ap (λ (s : WhenAnyState E V F). s.sched) w)),
        ap (λ (s : WhenAnyState E V F). s.done) w ∙ d,
        ap (λ (s : WhenAnyState E V F). s.sched.handle_q) w ∙ ap (λ t. t.1.handle_q ++ c ∷ []) q,
      )

  won_by-Ready :
      (o : Completion E V)
      → IsDistinct (r ∷ rs)
      → length (r ∷ rs) ≡ length os
      → Ready os (r ∷ rs) c apart 1 rs ds [] (won_by o)
  unfolding start
  won_by-Ready o distinct sized = record {
    queue = (won_by-state o).2;
    won = (won_by-state o).1;
    places = λ j h e. index_of-get (r ∷ rs) (suc j) h distinct e ∙ ap some (omega arith);
    waiting = λ j d e.
        let place : 1 + j ≡ suc j = omega arith in
        ap (get_elem? (none ∷ delayed ds)) place ∙ delayed-get ds j d e;
    inside = λ j lt. omega (arith, sized);
  }

  -- The coroutine goes on after the tasks that end in the first round.
  race-goes_on :
      (fuel : ℕ)
      → length (r ∷ rs) < fuel
      → length (r ∷ rs) ≡ length os
      → length ds ≡ length rs
      → IsDistinct (r ∷ rs)
      → (y : Run E V F) × (race os (r ∷ rs) fuel begun ≡ some y)
        × (y.order ≡ prompt 0 (zero ∷ ds))
        × (y.st
            ≡ with_sched y.st.sched
                (run_any os (prompt 0 (zero ∷ ds)) (await_suspend empty (some c) (r ∷ rs))))
  unfolding run_any start
  race-goes_on zero lt sized wide distinct = elim lt [ ]
  race-goes_on (suc fuel) lt sized wide distinct =
      let (o, e) = get_elem?-some os 0 (omega (arith, sized)) in
      let st = await_suspend {E = E} {V = V} {F = F} empty (some c) (r ∷ rs) in
      let (w, d, _) = won_by-state o in
      let q = take-handle os (r ∷ rs) c apart begun.st.sched r rs begun-queue.0 in
      let next : race os (r ∷ rs) (suc fuel) begun ≡ race os (r ∷ rs) fuel (won_by o) =
        race-handle os (r ∷ rs) c apart fuel begun r 0 _ q (index_of-get (r ∷ rs) 0 r distinct refl)
        ∙ ap (race os (r ∷ rs) fuel) (ground (arith, e)) in
      let (y, run, (ord, out)) =
        round os (r ∷ rs) c apart fuel rs ds 1 [] (won_by o) (omega arith) (omega arith)
          (won_by-Ready o distinct sized) in
      let ended = prompt 1 ds in
      let whole : run_any os (0 ∷ ended) st ≡ run_any os ended (when_any_runner 0 o st) =
        ground (arith, e) in
      let done : (when_any_runner 0 o st).done ≡ true =
        sym (ap (λ (s : WhenAnyState E V F). s.done) w) ∙ d in
      (
        y,
        next ∙ run,
        ord,
        out
            ∙ ap (λ s. with_sched y.st.sched (run_any os ended s)) w
            ∙ ap (with_sched y.st.sched)
                (run_any-with_sched os ended (won_by o).st.sched (when_any_runner 0 o st) done)
            ∙ ap (with_sched y.st.sched) (sym whole),
      )

length-replicate : (n : ℕ) → length (replicate n zero) ≡ n
length-replicate zero = refl
length-replicate (suc n) = ap suc (length-replicate n)

get_elem?-inside :
    {A : Type 0} (xs : List A) (i : ℕ) (x : A) → get_elem? xs i ≡ some x → i < length xs
get_elem?-inside [] i x e = cc
get_elem?-inside (y ∷ xs) zero x e = omega arith
get_elem?-inside (y ∷ xs) (suc i) x e = omega (arith, get_elem?-inside xs i x e)

when_any_end-with_sched :
    {E V F : Type 0} (p : Scheduler F) (st : WhenAnyState E V F)
    → when_any_end (with_sched p st) ≡ when_any_end st
unfolding when_any_end await_resume
when_any_end-with_sched p st = refl

-- A race on a scheduler that serves nothing else: the first task ends without suspending, so that it
-- wins, each other one first awaits `schedule` any number of times, and task `j`
-- does so at least once. Given fuel for more than a pass of each runner, the awaiting
-- coroutine goes on, when exactly the tasks that do not suspend have ended; and if none of these
-- threw, the end of `when_any` has undefined behaviour.
pub when_any_on_scheduler :
    {E V : Type 0} (F : Type 0) (os : List (Completion E V)) (r : Handle) (rs : List Handle)
    (c : Handle) (ds : List ℕ) (fuel j k : ℕ)
    → length (r ∷ rs) ≡ length os
    → length ds ≡ length rs
    → IsDistinct (r ∷ rs)
    → index_of c (r ∷ rs) ≡ none
    → length (r ∷ rs) < fuel
    → get_elem? (zero ∷ ds) j ≡ some (suc k)
    → first_thrown os (prompt 0 (zero ∷ ds)) ≡ none
    → (y : Run E V F) × (race os (r ∷ rs) fuel (start (r ∷ rs) c (zero ∷ ds)) ≡ some y)
      × (y.order ≡ prompt 0 (zero ∷ ds))
      × (when_any_end y.st ≡ undefined)
when_any_on_scheduler F os r rs c ds fuel j k sized wide distinct apart enough suspends e =
    let (y, run, ord, out) =
      race-goes_on {F = F} os r rs c ds apart fuel enough sized wide distinct in
    let inside = get_elem?-inside (zero ∷ ds) j (suc k) suspends in
    let slot = mem-prompt (zero ∷ ds) 0 j k j suspends (omega arith) in
    (
      y,
      run,
      ord,
      ap when_any_end out
          ∙ when_any_end-with_sched y.st.sched _
          ∙ when_any_undefined os (prompt 0 (zero ∷ ds)) empty (some c) (r ∷ rs) j sized
              (omega (arith, inside)) slot e,
    )

-- A race on a scheduler that serves nothing else, in which each task ends by a value without
-- suspending: given fuel for more than a pass of each runner, the awaiting coroutine goes on, and
-- `when_any` returns the index of the first task and the values of all, in the order of the
-- arguments.
pub when_any_unsuspended :
    {E V : Type 0} (F : Type 0) (os : List (Completion E V)) (r : Handle) (rs : List Handle)
    (c : Handle) (fuel : ℕ)
    → length (r ∷ rs) ≡ length os
    → Each Ends os
    → IsDistinct (r ∷ rs)
    → index_of c (r ∷ rs) ≡ none
    → length (r ∷ rs) < fuel
    → first_thrown os (prompt 0 (zero ∷ replicate (length rs) zero)) ≡ none
    → (y : Run E V F) × (race os
          (r ∷ rs)
          fuel
          (start (r ∷ rs) c (zero ∷ replicate (length rs) zero))
        ≡ some y)
      × (when_any_end y.st ≡ returns (0, values os))
when_any_unsuspended F os r rs c fuel sized ends distinct apart enough e =
    let ds = replicate (length rs) zero in
    let (y, run, ord, out) =
      race-goes_on {F = F} os r rs c ds apart fuel enough sized (length-replicate (length rs))
        distinct in
    (
      y,
      run,
      ap when_any_end out
          ∙ when_any_end-with_sched y.st.sched _
          ∙ when_any_all_returned os 0 (prompt 1 ds) empty (some c) (r ∷ rs) sized ends
              (record {
                long = length-prompt (suc (length rs)) 0 ∙ sized;
                below = prompt-below (suc (length rs)) 0 (length os) (omega (arith, sized));
                covers = λ j lt.
                    prompt-covers (suc (length rs)) 0 j (omega arith) (omega (arith, sized));
              })
              e,
    )

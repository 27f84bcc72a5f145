-- ===== src/Task/Void/Agrees.antt =====
-- That the specialisations for `void` do what the templates do.
use async.Prelude.{
  zero, suc, ◌≡◌, ◌≢◌, refl, ap, inl, inr, Bool, true, false, Option, none, some, List, [], ◌∷◌,
  arith, set, Option-cases,
}
use async.Completion.{Completion, returns, throws, undefined}
use async.Scheduler.{Scheduler, Handle, post_handle}
use async.Task.{
  Frame, Task, find_frame, destroy_frame, await_suspend, result_of, store_end, final_suspend,
  finish, destroy, start,
}
use async.Task.Void.{
  VoidFrame, find_void, await_suspend_void, result_void, store_end_void, final_suspend_void,
  finish_void, destroy_void, start_void, forget, forget_cell, forget_heap,
}

module _ {E : Type 0} where
  set-forget :
      (m : List (Option (Frame E (Unit {0})))) (h : Handle) (f : Option (Frame E (Unit {0})))
      → set (forget_heap m) h (forget_cell f) ≡ forget_heap (set m h f)
  set-forget [] h f = refl
  set-forget (x ∷ m) zero f = refl
  set-forget (x ∷ m) (suc h) f = ap (◌∷◌ (forget_cell x)) (set-forget m h f)

  find-forget :
      (m : List (Option (Frame E (Unit {0})))) (h : Handle)
      → find_void (forget_heap m) h ≡ forget_cell (find_frame m h)
  find-forget [] h = refl
  find-forget (x ∷ m) zero = refl
  find-forget (x ∷ m) (suc h) = find-forget m h

  store_end-forget :
      (o : Completion E (Unit {0})) (f : Frame E (Unit {0}))
      → store_end_void o (forget f) ≡ forget (store_end o f)
  store_end-forget (returns v) f = refl
  store_end-forget (throws x) f = refl
  store_end-forget undefined f = refl

  -- A result of the template, with its heap as the specialisation has it.
  abbrev pub through :
      {A : Type 0}
      → Option (A × List (Option (Frame E (Unit {0}))))
      → Option (A × List (Option (VoidFrame E)))
  through none = none
  through (some r) = some (r.0, forget_heap r.1)

  final-forget :
      (h : Handle) (f : Frame E (Unit {0})) (m : List (Option (Frame E (Unit {0}))))
      → some (final_suspend_void h (forget f) (forget_heap m))
        ≡ through (some (final_suspend h f m))
  final-forget h f m = by_continuation f.continuation f.detached
    where
      by_continuation :
          (c : Option Handle) (d : Bool)
          → some (
              final_suspend_void h
                (forget (record f { continuation = c; detached = d }))
                (forget_heap m))
            ≡ through (some (final_suspend h (record f { continuation = c; detached = d }) m))
      by_continuation (some c) d = refl
      by_continuation none true = ap (λ x. some (none, x)) (set-forget m h none)
      by_continuation none false = refl

  finish-forget :
      (h : Handle) (o : Completion E (Unit {0})) (m : List (Option (Frame E (Unit {0}))))
      → finish_void h o (forget_heap m) ≡ through (finish h o m)
  unfolding finish_void finish
  finish-forget h o m = elim (Option-cases (find_frame m h)) [
    | inl e ↦ rw (find-forget m h, finish_void) (rw (e, finish) refl)
    | inr (f, e) ↦
        let g = store_end o f in
        rw (find-forget m h, finish_void)
          (rw (e, finish)
            (rw (store_end-forget o f)
              (rw (set-forget m h (some g)) (final-forget h g (set m h (some g))))))
  ]

  await-forget :
      (m : List (Option (Frame E (Unit {0})))) (t : Task) (awaiting : Option Handle)
      → await_suspend_void (forget_heap m) t awaiting ≡ through (await_suspend m t awaiting)
  unfolding await_suspend_void await_suspend
  await-forget m none awaiting = refl
  await-forget m (some h) awaiting = elim (Option-cases (find_frame m h)) [
    | inl e ↦ rw (find-forget m h, await_suspend_void) (rw (e, await_suspend) refl)
    | inr (f, e) ↦
        rw (find-forget m h, await_suspend_void)
          (rw (e, await_suspend)
            (ap (λ x. some (h, x)) (set-forget m h (some (record f { continuation = awaiting })))))
  ]

  abbrev pub forget_found :
      Option (List (Option (Frame E (Unit {0})))) → Option (List (Option (VoidFrame E)))
  forget_found none = none
  forget_found (some m) = some (forget_heap m)

  destroy-forget :
      (m : List (Option (Frame E (Unit {0})))) (t : Task)
      → destroy_void (forget_heap m) t ≡ forget_found (destroy m t)
  unfolding destroy_void destroy destroy_frame
  destroy-forget m none = refl
  destroy-forget m (some h) = elim (Option-cases (find_frame m h)) [
    | inl e ↦ rw (find-forget m h, destroy_void) (rw (e, destroy, destroy_frame) refl)
    | inr (f, e) ↦
        rw (find-forget m h, destroy_void)
          (rw (e, destroy, destroy_frame) (ap some (set-forget m h none)))
  ]

  abbrev pub started :
      {F : Type 0}
      → Option (List (Option (Frame E (Unit {0}))) × Scheduler F)
      → Option (List (Option (VoidFrame E)) × Scheduler F)
  started none = none
  started (some r) = some (forget_heap r.0, r.1)

  start-forget :
      {F : Type 0} (m : List (Option (Frame E (Unit {0})))) (t : Task) (s : Scheduler F)
      → start_void (forget_heap m) t s ≡ started (start m t s)
  unfolding start_void start
  start-forget m none s = refl
  start-forget m (some h) s = elim (Option-cases (find_frame m h)) [
    | inl e ↦ rw (find-forget m h, start_void) (rw (e, start) refl)
    | inr (f, e) ↦
        rw (find-forget m h, start_void)
          (rw (e, start)
            (ap (λ x. some (x, post_handle (some h) s))
              (set-forget m h (some (record f { detached = true })))))
  ]

  -- A task of the template at `Unit` that has ended holds an exception or the value.
  result-forget :
      (f : Frame E (Unit {0})) (o : Completion E (Unit {0}))
      → f.exception ≡ none
      → o ≢ undefined
      → result_void (some (forget (store_end o f))) ≡ result_of (some (store_end o f))
  result-forget f (returns tt) clean ended = ground (arith, clean)
  result-forget f (throws x) clean ended = refl
  result-forget f undefined clean ended = absurd (ended refl)

  -- `task<void>` is `task<T>` for a `T` with one value: a coroutine that ends, a task that is awaited, destroyed
  -- or started does to the frames what the template does, up to the value, and resumes and posts the same
  -- coroutines. What the await of a coroutine gives that ended without a value or an exception stored before
  -- is the same, too.
  pub void_agrees :
      {F : Type 0} (m : List (Option (Frame E (Unit {0})))) (h : Handle) (t : Task)
      (awaiting : Option Handle) (s : Scheduler F) (o : Completion E (Unit {0}))
      (f : Frame E (Unit {0}))
      → f.exception ≡ none
      → o ≢ undefined
      → (finish_void h o (forget_heap m) ≡ through (finish h o m))
        × (await_suspend_void (forget_heap m) t awaiting ≡ through (await_suspend m t awaiting))
        × (destroy_void (forget_heap m) t ≡ forget_found (destroy m t))
        × (start_void (forget_heap m) t s ≡ started (start m t s))
        × (result_void (some (forget (store_end o f))) ≡ result_of (some (store_end o f)))
  void_agrees m h t awaiting s o f clean ended = (
    finish-forget h o m,
    await-forget m t awaiting,
    destroy-forget m t,
    start-forget m t s,
    result-forget f o clean ended,
  )

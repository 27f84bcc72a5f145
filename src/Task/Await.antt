-- ===== src/Task/Await.antt =====
-- Awaiting a task, and running it detached.
use async.Prelude.{
  ℕ, zero, suc, ◌≡◌, refl, ap, ◌≢◌, true, false, Option, none, some, List, [], ◌∷◌, arith,
  get_elem?, set, get_elem?-set_self,
}
use async.Completion.{Completion, returns, throws, undefined}
use async.Scheduler.{Scheduler, Handle, post_handle}
use async.Task.{
  Frame, find_frame, put_frame, destroy_frame, await_ready, await_suspend, await_resume, result_of,
  store_end, finish, destroy, start,
}

module _ {A : Type 0} where
  set-set : (xs : List A) (h : ℕ) (x y : A) → set (set xs h x) h y ≡ set xs h y
  set-set [] h x y = refl
  set-set (z ∷ xs) zero x y = refl
  set-set (z ∷ xs) (suc h) x y = ap (◌∷◌ z) (set-set xs h x y)

module _ {E V : Type 0} where
  find_frame-elem :
      (m : List (Option (Frame E V))) (h : Handle) (f : Frame E V)
      → find_frame m h ≡ some f
      → get_elem? m h ≡ some (some f)
  find_frame-elem m h f e = ground arith

  store_end-result :
      (f : Frame E V) (o : Completion E V)
      → f.exception ≡ none
      → o ≢ undefined
      → (result_of (some (store_end o f)) ≡ o) × ((store_end o f).finished ≡ true)
  store_end-result f (returns v) clean ended = ground arith
  store_end-result f (throws x) clean ended = ground arith
  store_end-result f undefined clean ended = absurd (ended refl)

  pub store_end-continuation :
      (f : Frame E V) (o : Completion E V)
      → ((store_end o f).continuation ≡ f.continuation) × ((store_end o f).detached ≡ f.detached)
  store_end-continuation f (returns v) = (refl, refl)
  store_end-continuation f (throws x) = (refl, refl)
  store_end-continuation f undefined = (refl, refl)

  -- Awaiting a task that has not run: the awaiting coroutine suspends and the task's one is resumed;
  -- when that ends, by a value or an exception, control goes back to the awaiting coroutine, which
  -- then gets that value or exception. The frame is still there, and the task counts as ready;
  -- destroying it then leaves all other frames as they were.
  pub await_outcome :
      (m : List (Option (Frame E V))) (h a : Handle) (f : Frame E V) (o : Completion E V)
      → find_frame m h ≡ some f
      → f.finished ≡ false
      → f.exception ≡ none
      → o ≢ undefined
      → (m' m'' : List (Option (Frame E V))) × (await_ready m (some h) ≡ some false)
        × (await_suspend m (some h) (some a) ≡ some (h, m'))
        × (finish h o m' ≡ some (some a, m''))
        × (await_resume m'' (some h) ≡ o)
        × (await_ready m'' (some h) ≡ some true)
        × (destroy m'' (some h) ≡ some (set m h none))
  unfolding await_ready await_suspend finish await_resume destroy destroy_frame
  await_outcome m h a f o e fresh clean ended =
      let f' : Frame E V = record f { continuation = some a } in
      let m' = put_frame m h f' in
      let m'' = put_frame m' h (store_end o f') in
      let there = get_elem?-set_self m h (some f) (some f') (find_frame-elem m h f e) in
      let here = get_elem?-set_self m' h (some f') (some (store_end o f')) there in
      let (last, done) = store_end-result f' o clean ended in
      (
        m',
        m'',
        ground arith,
        ground arith,
        ground (arith, there, store_end-continuation f' o),
        ground (arith, here, last),
        ground (arith, here, done),
        ground (arith, here, set-set m' h (some (store_end o f')) none, set-set m h (some f') none),
      )

  -- A task that is started and nobody awaits: its frame is posted to the scheduler once, and when the
  -- coroutine ends, by a value or an exception, no coroutine is resumed and the frame is destroyed;
  -- every other frame is as it was before the start.
  pub detached_frees :
      {F : Type 0} (m : List (Option (Frame E V))) (h : Handle) (f : Frame E V) (o : Completion E V)
      (s : Scheduler F)
      → find_frame m h ≡ some f
      → f.continuation ≡ none
      → (m' : List (Option (Frame E V))) × (start m (some h) s ≡ some (m', post_handle (some h) s))
        × (finish h o m' ≡ some (none, set m h none))
  unfolding start finish
  detached_frees m h f o s e alone =
      let f' : Frame E V = record f { detached = true } in
      let m' = put_frame m h f' in
      let there = get_elem?-set_self m h (some f) (some f') (find_frame-elem m h f e) in
      (
        m',
        ground arith,
        ground (
          arith,
          there,
          store_end-continuation f' o,
          set-set m h (some f') (some (store_end o f')),
          set-set m h (some f') none,
          set-set (set m h (some f')) h (some (store_end o f')) none,
        ),
      )

  -- A task that is neither started nor awaited keeps its frame when the coroutine ends, so that its
  -- destructor destroys it then, and a second destruction of the same frame would be a fault.
  pub owned_frame_stays :
      (m : List (Option (Frame E V))) (h : Handle) (f : Frame E V) (o : Completion E V)
      → find_frame m h ≡ some f
      → f.continuation ≡ none
      → f.detached ≡ false
      → (m' : List (Option (Frame E V))) × (finish h o m ≡ some (none, m'))
        × (destroy m' (some h) ≡ some (set m h none))
        × (destroy (set m h none) (some h) ≡ none)
  unfolding finish destroy destroy_frame
  owned_frame_stays m h f o e alone owned =
      let m' = put_frame m h (store_end o f) in
      let there =
        get_elem?-set_self m h (some f) (some (store_end o f)) (find_frame-elem m h f e) in
      let gone = get_elem?-set_self m h (some f) none (find_frame-elem m h f e) in
      (
        m',
        ground (arith, store_end-continuation f o),
        ground (arith, there, set-set m h (some (store_end o f)) none),
        ground (arith, gone),
      )

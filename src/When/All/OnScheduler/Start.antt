-- ===== src/When/All/OnScheduler/Start.antt =====
-- The queue when the awaiting coroutine has suspended.
use async.Prelude.{
  ℕ, zero, suc, ◌<◌, ◌≡◌, refl, sym, ap, ◌∙◌, ◌≢◌, none, some, List, [], ◌∷◌, ◌++◌, append-nil,
  append_assoc, arith, ==_iff, length, get_elem?, Each, count,
}
use async.Completion.{Completion}
use async.Scheduler.{Scheduler, Handle, post_handle, empty}
use async.When.All.{run_all, post_all, await_suspend}
use async.When.All.OnScheduler.{index_of, delayed, start, IsDistinct}
use async.When.All.OnScheduler.Passes.{handles, waiting, Inv}

shift : List ℕ → List ℕ
shift [] = []
shift (i ∷ is) = suc i ∷ shift is

pub range : ℕ → List ℕ
range zero = []
range (suc n) = 0 ∷ shift (range n)

length-shift : (is : List ℕ) → length (shift is) ≡ length is
unfolding shift
length-shift [] = refl
length-shift (i ∷ is) = omega (arith, length-shift is)

pub length-range : (n : ℕ) → length (range n) ≡ n
unfolding range
length-range zero = refl
length-range (suc n) = omega (arith, length-range n, length-shift (range n))

count-shift :
    (j : ℕ) (is : List ℕ) → (count 0 (shift is) ≡ 0) × (count (suc j) (shift is) ≡ count j is)
unfolding shift
count-shift j [] = (refl, refl)
count-shift j (i ∷ is) = ground (arith, count-shift j is)

count-range : (n j : ℕ) → j < n → count j (range n) ≡ 1
unfolding range
count-range zero j lt = elim lt [ ]
count-range (suc n) zero lt = omega (arith, (count-shift 0 (range n)).0)
count-range (suc n) (suc j) lt =
    ground (arith, (count-shift j (range n)).1, count-range n j (omega arith))

shift-below :
    (n : ℕ) (is : List ℕ) → Each (λ (j : ℕ). j < n) is → Each (λ (j : ℕ). j < suc n) (shift is)
unfolding shift
shift-below n [] b = tt
shift-below n (i ∷ is) b = (omega (arith, b.0), shift-below n is b.1)

range-below : (n : ℕ) → Each (λ (j : ℕ). j < n) (range n)
unfolding range
range-below zero = tt
range-below (suc n) = (omega arith, shift-below n (range n) (range-below n))

handles-shift :
    (r : Handle) (rs : List Handle) (is : List ℕ) → handles (r ∷ rs) (shift is) ≡ handles rs is
unfolding shift
handles-shift r rs [] = refl
handles-shift r rs (i ∷ is) = ground (arith, handles-shift r rs is)

handles-range : (rs : List Handle) → handles rs (range (length rs)) ≡ rs
unfolding range
handles-range [] = refl
handles-range (r ∷ rs) = ap (◌∷◌ r) (handles-shift r rs (range (length rs)) ∙ handles-range rs)

pub post_all-queues :
    {F : Type 0} (hs : List Handle) (s : Scheduler F)
    → ((post_all hs s).handle_q ≡ s.handle_q ++ hs) × ((post_all hs s).fn_q ≡ s.fn_q)
unfolding post_handle
post_all-queues [] s = (sym (append-nil s.handle_q), refl)
post_all-queues (h ∷ hs) s =
    ground (arith, post_all-queues hs (post_handle (some h) s), append_assoc s.handle_q (h ∷ []) hs)

delayed-waiting : (ds : List ℕ) (j : ℕ) → j < length ds → waiting (get_elem? (delayed ds) j) ≡ 1
delayed-waiting [] j lt = elim lt [ ]
delayed-waiting (d ∷ ds) zero lt = refl
delayed-waiting (d ∷ ds) (suc j) lt = delayed-waiting ds j (omega arith)

delayed-ne_none : (ds : List ℕ) (j : ℕ) → get_elem? (delayed ds) j ≢ some none
delayed-ne_none [] j e = cc
delayed-ne_none (d ∷ ds) zero e = cc
delayed-ne_none (d ∷ ds) (suc j) e = delayed-ne_none ds j e

pub length-delayed : (ds : List ℕ) → length (delayed ds) ≡ length ds
length-delayed [] = refl
length-delayed (d ∷ ds) = omega (arith, length-delayed ds)

pub index_of-get :
    (rs : List Handle) (i : ℕ) (r : Handle)
    → IsDistinct rs
    → get_elem? rs i ≡ some r
    → index_of r rs ≡ some i
index_of-get [] i r d e = cc
index_of-get (h ∷ rs) zero r d e = ground arith
index_of-get (h ∷ rs) (suc i) r d e = ground (arith, index_of-get rs i r d.1 e, d.0, ==_iff h r)

module _ {E V F : Type 0} (os : List (Completion E V)) (runners : List Handle) (c : Handle) where
  start-Inv :
      (delays : List ℕ)
      → length runners ≡ length os
      → length delays ≡ length os
      → Inv {F = F} os runners c (range (length os)) (start runners c delays)
  unfolding start await_suspend run_all
  start-Inv delays sized wide =
      let queues = post_all-queues {F = F} runners empty in
      record {
        queue = queues.0 ∙ rw (← sized) (sym (handles-range runners));
        fns = queues.1;
        state = refl;
        once = λ j lt. count-range (length os) j lt ∙ sym (delayed-waiting delays j (omega arith));
        inside = range-below (length os);
        below = tt;
        long = omega (arith, length-range (length os));
        covers = λ j lt done. absurd (delayed-ne_none delays j done);
        unresumed = refl;
      }

  -- A pack that is not empty has a task at the head of the queue.
  pub start-live :
      (delays : List ℕ)
      → length runners ≡ length os
      → length delays ≡ length os
      → 0 < length os
      → (i : ℕ) × (live : List ℕ) × Inv {F = F} os runners c (i ∷ live) (start runners c delays)
  start-live delays sized wide pos =
      by_list (range (length os)) (length-range (length os)) (start-Inv delays sized wide)
    where
      by_list :
          (live : List ℕ)
          → length live ≡ length os
          → Inv {F = F} os runners c live (start runners c delays)
          → (i : ℕ) × (rest : List ℕ) × Inv {F = F} os runners c (i ∷ rest) (start runners c delays)
      by_list [] e v = absurd (omega arith)
      by_list (i ∷ rest) e v = (i, rest, v)

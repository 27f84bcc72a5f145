-- ===== src/Task/Ownership/Owners.antt =====
-- How many tasks own a frame, and what the steps do to one account of frames and tasks.
use async.Prelude.{
  ℕ, zero, suc, ◌+◌, ◌≤◌, ◌≡◌, refl, sym, ap, ◌∙◌, ◌≢◌, ◌⊎◌, inl, inr, false, Option, none, some,
  List, [], ◌∷◌, ◌++◌, arith, ℕ_discrete, ◌==◌, if◌then◌else◌, length, set,
}
use async.Completion.{Completion}
use async.Task.{Frame, Task, new_frame, find_frame, put_frame, final_suspend, store_end}
use async.Task.Ownership.{get_task}
use async.Task.Await.{store_end-continuation}

abbrev pub owns : ℕ → Task → ℕ
owns p none = 0
owns p (some h) = if h == p then 1 else 0

-- How many tasks own frame `p`.
abbrev pub owners : ℕ → List Task → ℕ
owners p [] = 0
owners p (t ∷ ts) = owns p t + owners p ts

pub owners-set :
    (p : ℕ) (ts : List Task) (i : ℕ) (t : Task)
    → owners p (set ts i t) + owns p (get_task ts i) ≤ owners p ts + owns p t
owners-set p [] i t = omega arith
owners-set p (x ∷ ts) zero t = omega arith
owners-set p (x ∷ ts) (suc i) t = omega (arith, owners-set p ts i t)

pub owners-append :
    (p : ℕ) (ts : List Task) (t : Task) → owners p (ts ++ t ∷ []) ≡ owners p ts + owns p t
owners-append p [] t = omega arith
owners-append p (x ∷ ts) t = omega (arith, owners-append p ts t)

get_task-set :
    (ts : List Task) (i j : ℕ) (t : Task) → i ≢ j → get_task (set ts i t) j ≡ get_task ts j
get_task-set [] i j t h = refl
get_task-set (x ∷ ts) zero zero t h = absurd (h refl)
get_task-set (x ∷ ts) zero (suc j) t h = refl
get_task-set (x ∷ ts) (suc i) zero t h = refl
get_task-set (x ∷ ts) (suc i) (suc j) t h = get_task-set ts i j t (omega arith)

module _ {E V : Type 0} where
  -- Frame `p` exists and is not detached.
  abbrev pub IsLive : List (Option (Frame E V)) → ℕ → Type 0
  IsLive m p = (f : Frame E V) × (find_frame m p ≡ some f) × (f.detached ≡ false)

  find_frame-set :
      (m : List (Option (Frame E V))) (h p : ℕ) (x : Option (Frame E V))
      → h ≢ p
      → find_frame (set m h x) p ≡ find_frame m p
  find_frame-set [] h p x ne = refl
  find_frame-set (y ∷ m) zero zero x ne = absurd (ne refl)
  find_frame-set (y ∷ m) zero (suc p) x ne = refl
  find_frame-set (y ∷ m) (suc h) zero x ne = refl
  find_frame-set (y ∷ m) (suc h) (suc p) x ne = find_frame-set m h p x (omega arith)

  find_frame-append :
      (m : List (Option (Frame E V))) (p : ℕ) (f g : Frame E V)
      → find_frame m p ≡ some f
      → find_frame (m ++ some g ∷ []) p ≡ some f
  find_frame-append [] p f g e = cc
  find_frame-append (x ∷ m) zero f g e = e
  find_frame-append (x ∷ m) (suc p) f g e = find_frame-append m p f g e

  find_frame-end :
      (m : List (Option (Frame E V))) (g : Frame E V)
      → find_frame (m ++ some g ∷ []) (length m) ≡ some g
  find_frame-end [] g = refl
  find_frame-end (x ∷ m) g = find_frame-end m g

  find_frame_ge : (m : List (Option (Frame E V))) (p : ℕ) → length m ≤ p → find_frame m p ≡ none
  find_frame_ge [] p h = refl
  find_frame_ge (x ∷ m) zero h = absurd (omega arith)
  find_frame_ge (x ∷ m) (suc p) h = find_frame_ge m p (omega arith)

  find_frame-set_self :
      (m : List (Option (Frame E V))) (h : ℕ) (f g : Frame E V)
      → find_frame m h ≡ some f
      → find_frame (set m h (some g)) h ≡ some g
  find_frame-set_self [] h f g e = cc
  find_frame-set_self (x ∷ m) zero f g e = refl
  find_frame-set_self (x ∷ m) (suc h) f g e = find_frame-set_self m h f g e

  -- A frame has one owner at most, and an owned frame exists and is not detached.
  abbrev pub OwnedIn : List (Option (Frame E V)) → List Task → ℕ → Type 0
  OwnedIn m ts p = (owners p ts ≡ 0) ⊎ ((owners p ts ≡ 1) × IsLive m p)

  pub OwnedIn-fewer :
      (m : List (Option (Frame E V))) (ts ts' : List Task) (p : ℕ)
      → OwnedIn m ts p
      → owners p ts' ≤ owners p ts
      → OwnedIn m ts' p
  OwnedIn-fewer m ts ts' p (inl z) le = inl (omega arith)
  OwnedIn-fewer m ts ts' p (inr (one, live)) le = elim (ℕ_discrete (owners p ts') 0) [
    | yes z ↦ inl z
    | no nz ↦ inr (omega arith, live)
  ]

  pub OwnedIn-set :
      (m : List (Option (Frame E V))) (ts : List Task) (h p : ℕ) (x : Option (Frame E V))
      → OwnedIn m ts p
      → owners h ts ≡ 0
      → OwnedIn (set m h x) ts p
  OwnedIn-set m ts h p x (inl z) e = inl z
  OwnedIn-set m ts h p x (inr (one, (f, found, own))) e =
      inr (one, (f, find_frame-set m h p x (λ same. absurd (ground arith)) ∙ found, own))

  pub calls-OwnedIn :
      (m : List (Option (Frame E V))) (ts : List Task) (p : ℕ)
      → OwnedIn m ts p
      → OwnedIn (m ++ some new_frame ∷ []) (ts ++ some (length m) ∷ []) p
  calls-OwnedIn m ts p (inl z) = elim (ℕ_discrete (length m) p) [
    | yes same ↦ inr (
      ground (arith, owners-append p ts (some (length m))),
      (
        new_frame,
        ap (find_frame (m ++ some new_frame ∷ [])) (sym same) ∙ find_frame-end m new_frame,
        refl,
      ),
    )
    | no other ↦ inl (ground (arith, owners-append p ts (some (length m))))
  ]
  calls-OwnedIn m ts p (inr (one, (f, found, own))) =
      let inside : length m ≢ p = λ e. cc (find_frame_ge m p (omega arith)) in
      inr (
        ground (arith, inside, owners-append p ts (some (length m))),
        (f, find_frame-append m p f new_frame found, own),
      )

  -- The end of a coroutine destroys a detached frame only.
  pub ended-IsLive :
      (m : List (Option (Frame E V))) (h p : ℕ) (f g : Frame E V) (o : Completion E V)
      → find_frame m h ≡ some f
      → find_frame m p ≡ some g
      → g.detached ≡ false
      → IsLive (final_suspend h (store_end o f) (put_frame m h (store_end o f))).1 p
  ended-IsLive m h p f g o at found own = elim (ℕ_discrete h p) [
    | yes same ↦
        let kept = find_frame-set_self m h f (store_end o f) at in
        let (next, mark) = store_end-continuation f o in
        (store_end o f, ground (arith, kept, next, mark), ground (arith, mark))
    | no other ↦
        let m' = put_frame m h (store_end o f) in
        let apart = find_frame-set m h p (some (store_end o f)) other in
        let apart' = find_frame-set m' h p none other in (g, ground (arith, apart, apart'), own)
  ]

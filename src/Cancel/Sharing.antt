-- ===== src/Cancel/Sharing.antt =====
-- What a token observes of the sources.
use async.Prelude.{
  ℕ, zero, suc, ◌≤◌, ◌<◌, ◌≡◌, refl, Bool, true, false, ◌||◌, Option, none, some, List, [], ◌∷◌,
  ◌++◌, arith, dec_lt, ◌==◌, length, length-append, length-set,
}
use async.Cancel.{
  States, load, store, store_ptr, load_ptr, CancelToken, CancelSource, is_cancelled, request_cancel,
  new_source, token, can_cancel, source_is_cancelled, Action, create, request, act, acts,
}

load-store : (m : States) (p q : ℕ) → q < length m → load (store m p) q ≡ (load m q || p == q)
unfolding load store
load-store [] p q h = elim h [ ]
load-store (b ∷ m) zero zero h = ground arith
load-store (b ∷ m) zero (suc q) h = ground arith
load-store (b ∷ m) (suc p) zero h = ground arith
load-store (b ∷ m) (suc p) (suc q) h = ground (arith, load-store m p q)

load-append : (m : States) (q : ℕ) → load (m ++ false ∷ []) q ≡ load m q
unfolding load
load-append [] zero = refl
load-append [] (suc q) = refl
load-append (b ∷ m) zero = refl
load-append (b ∷ m) (suc q) = load-append m q

-- Whether an action is a request through a source of the state at `q`.
abbrev pub asks : ℕ → Action → Bool
asks q create = false
asks q (request s) = elim s.st [ none ↦ false | some p ↦ p == q ]

abbrev pub asked : ℕ → List Action → Bool
asked q [] = false
asked q (a ∷ rest) = asks q a || asked q rest

load-act :
    (m : States) (a : Action) (q : ℕ) → q < length m → load (act m a) q ≡ (load m q || asks q a)
unfolding act
load-act m create q h = ground (arith, load-append m q)
load-act m (request s) q h =
    elim s.st
      as (λ o. load (store_ptr m o) q ≡ (load m q || elim o [ none ↦ false | some p ↦ p == q ])) [
        | none ↦ ground arith
        | some p ↦ load-store m p q h
      ]

length-act : (m : States) (a : Action) → length m ≤ length (act m a)
unfolding act store
length-act m create = omega (arith, length-append m (false ∷ []))
length-act m (request s) = elim s.st as (λ o. length m ≤ length (store_ptr m o)) [
  | none ↦ omega arith
  | some p ↦ omega (arith, length-set m p true)
]

load-acts :
    (m : States) (actions : List Action) (q : ℕ)
    → q < length m
    → load (acts m actions) q ≡ (load m q || asked q actions)
unfolding acts
load-acts m [] q h = ground arith
load-acts m (a ∷ rest) q h =
    ground (arith, load-acts (act m a) rest q, load-act m a q h, length-act m a)

load-end : (m : States) → load (m ++ false ∷ []) (length m) ≡ false
unfolding load
load-end [] = refl
load-end (b ∷ m) = load-end m

-- A token of a new source, and the source itself, are cancelled after any actions on the heap if
-- and only if one of these was a request through a source of the same state: other sources do not
-- reach it, and nothing takes a request back. Such a token can be cancelled.
pub token_observes_source :
    (m : States) (actions : List Action)
    → let (s, m') = new_source m in
      (is_cancelled (acts m' actions) (token s) ≡ asked (length m) actions)
      × (source_is_cancelled (acts m' actions) s ≡ asked (length m) actions)
      × (can_cancel (token s) ≡ true)
unfolding is_cancelled token new_source source_is_cancelled can_cancel
token_observes_source m actions = (observed, observed, refl)
  where
    inside : length m < length (m ++ false ∷ [])
    inside = omega (arith, length-append m (false ∷ []))

    observed : load (acts (m ++ false ∷ []) actions) (length m) ≡ asked (length m) actions
    observed = ground (arith, load-acts (m ++ false ∷ []) actions (length m) inside, load-end m)

load_ge : (m : States) (q : ℕ) → length m ≤ q → load m q ≡ false
unfolding load
load_ge [] q h = refl
load_ge (b ∷ m) zero h = absurd (omega arith)
load_ge (b ∷ m) (suc q) h = load_ge m q (omega arith)

-- A request is never withdrawn: a token that is cancelled stays so, whatever happens to the flags.
pub cancelled_stays :
    (m : States) (actions : List Action) (t : CancelToken)
    → is_cancelled m t ≡ true
    → is_cancelled (acts m actions) t ≡ true
unfolding is_cancelled
cancelled_stays m actions t c = by_pointer t.st c
  where
    by_pointer : (p : Option ℕ) → load_ptr m p ≡ true → load_ptr (acts m actions) p ≡ true
    by_pointer none c = c
    by_pointer (some q) c = elim (dec_lt q (length m)) [
      | yes inside ↦ ground (arith, load-acts m actions q inside)
      | no outside ↦ cc (load_ge m q (omega arith))
    ]

pub request_cancel-stays :
    (m : States) (s : CancelSource) (t : CancelToken)
    → is_cancelled m t ≡ true
    → is_cancelled (request_cancel m s) t ≡ true
unfolding acts act
request_cancel-stays m s t c = cancelled_stays m (request s ∷ []) t c

-- ===== src/When/All/Slots.antt =====
-- The slots and the kept exception of `when_all`, after the tasks of an order have ended.
use async.Prelude.{
  ℕ, zero, suc, ◌<◌, ◌≡◌, refl, inl, inr, Bool, true, false, ◌||◌, Option, none, some, List, [],
  ◌∷◌, arith, ◌==◌, if◌then◌else◌, Option-cases, length, get_elem?, set, Each,
}
use mathlib.Core.Option
use async.Completion.{Completion, returns, throws, undefined, Exception}
use async.When.All.{WhenAllState, when_all_runner, run_all}

abbrev pub mem : ℕ → List ℕ → Bool
mem i [] = false
mem i (j ∷ js) = j == i || mem i js

-- An order of `n` tasks: `n` indices below `n`, among which every one occurs (and so once).
pub record IsOrder (n : ℕ) (order : List ℕ) : Type 0 where
  pub long : length order ≡ n
  pub below : Each (λ i. i < n) order
  pub covers : (i : ℕ) → i < n → mem i order ≡ true

abbrev pub or_else : {X : Type 0} → Option X → Option X → Option X
or_else (some x) r = some x
or_else none r = r

module _ {E V : Type 0} where
  -- The exception of the first task in the order that ends by one.
  abbrev pub thrown_by : Option (Completion E V) → Option (Exception E)
  thrown_by (some (throws x)) = some x
  thrown_by _ = none

  abbrev pub first_thrown : List (Completion E V) → List ℕ → Option (Exception E)
  first_thrown os [] = none
  first_thrown os (i ∷ order) = or_else (thrown_by (get_elem? os i)) (first_thrown os order)

  abbrev pub value_of : Completion E V → Option V
  value_of (returns v) = some v
  value_of _ = none

  -- The values of the tasks in the order of the arguments.
  abbrev pub values : List (Completion E V) → List V
  values [] = []
  values (returns v ∷ os) = v ∷ values os
  values (o ∷ os) = values os

  -- Each task ends by a value or an exception.
  abbrev pub Ends : Completion E V → Type 0
  Ends undefined = ⊥
  Ends _ = Unit {0}

  -- The slot of task `j` after the tasks of `order` have ended.
  abbrev pub slot_after : List (Completion E V) → List ℕ → ℕ → Option (Option V) → Option (Option V)
  slot_after os order j old =
      if mem j order
      then elim (get_elem? os j) [
        | none ↦ old
        | some o ↦ elim o [ returns v ↦ Option.map (λ _. some v) old | _ ↦ old ]
      ]
      else old

module _ {V : Type 0} where
  pub get_elem?-set :
      (xs : List (Option V)) (i j : ℕ) (v : Option V)
      → get_elem? (set xs i v) j
        ≡ (if i == j then Option.map (λ _. v) (get_elem? xs j) else get_elem? xs j)
  get_elem?-set [] i j v = ground arith
  get_elem?-set (x ∷ xs) zero zero v = refl
  get_elem?-set (x ∷ xs) zero (suc j) v = ground arith
  get_elem?-set (x ∷ xs) (suc i) zero v = ground arith
  get_elem?-set (x ∷ xs) (suc i) (suc j) v = ground (arith, get_elem?-set xs i j v)

module _ {E V F : Type 0} where
  pub run_all-slot :
      (os : List (Completion E V)) (order : List ℕ) (st : WhenAllState E V F) (j : ℕ)
      → get_elem? (run_all os order st).results j ≡ slot_after os order j (get_elem? st.results j)
  unfolding run_all when_all_runner
  run_all-slot os [] st j = refl
  run_all-slot os (i ∷ order) st j = elim (Option-cases (get_elem? os i)) [
    | inl e ↦ rw (e, run_all) (ground (arith, run_all-slot os order st j))
    | inr (returns v, e) ↦
        rw (e, run_all)
          (ground (
            arith,
            run_all-slot os order (when_all_runner i (returns v) st) j,
            get_elem?-set st.results i j (some v),
          ))
    | inr (throws x, e) ↦
        rw (e, run_all) (ground (arith, run_all-slot os order (when_all_runner i (throws x) st) j))
    | inr (undefined, e) ↦
        rw (e, run_all) (ground (arith, run_all-slot os order (when_all_runner i undefined st) j))
  ]

  pub run_all-first_ex :
      (os : List (Completion E V)) (order : List ℕ) (st : WhenAllState E V F)
      → (run_all os order st).first_ex ≡ or_else st.first_ex (first_thrown os order)
  unfolding run_all when_all_runner
  run_all-first_ex os [] st = ground arith
  run_all-first_ex os (i ∷ order) st = elim (Option-cases (get_elem? os i)) [
    | inl e ↦ rw (e, run_all) (ground (arith, run_all-first_ex os order st))
    | inr (o, e) ↦
        rw (e, run_all) (ground (arith, run_all-first_ex os order (when_all_runner i o st)))
  ]

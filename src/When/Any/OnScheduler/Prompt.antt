-- ===== src/When/Any/OnScheduler/Prompt.antt =====
-- Which tasks end in the first round of a `when_any`.
use async.Prelude.{
  ℕ, zero, suc, ◌+◌, ◌<◌, ◌≤◌, ◌≡◌, replicate, Each, dec_lt, refl, true, false, some, List, [], ◌∷◌,
  arith, ==_iff, length, get_elem?,
}
use async.When.All.Slots.{mem}
use async.When.Any.OnScheduler.{prompt}

mem-before : (ds : List ℕ) (i m : ℕ) → m < i → mem m (prompt i ds) ≡ false
mem-before [] i m lt = refl
mem-before (zero ∷ ds) i m lt = ground (arith, mem-before ds (suc i) m (omega arith), ==_iff i m)
mem-before (suc k ∷ ds) i m lt = mem-before ds (suc i) m (omega arith)

-- A task that suspends is not among those that end in the first round.
pub mem-prompt :
    (ds : List ℕ) (i j k m : ℕ)
    → get_elem? ds j ≡ some (suc k)
    → m ≡ i + j
    → mem m (prompt i ds) ≡ false
mem-prompt [] i j k m e p = cc
mem-prompt (zero ∷ ds) i zero k m e p = cc
mem-prompt (suc d ∷ ds) i zero k m e p = mem-before ds (suc i) m (omega arith)
mem-prompt (zero ∷ ds) i (suc j) k m e p =
    ground (arith, mem-prompt ds (suc i) j k m e (omega arith), ==_iff i m)
mem-prompt (suc d ∷ ds) i (suc j) k m e p = mem-prompt ds (suc i) j k m e (omega arith)

pub length-prompt : (n i : ℕ) → length (prompt i (replicate n zero)) ≡ n
length-prompt zero i = refl
length-prompt (suc n) i = omega (arith, length-prompt n (suc i))

pub prompt-below : (n i m : ℕ) → i + n ≡ m → Each (λ (j : ℕ). j < m) (prompt i (replicate n zero))
prompt-below zero i m e = tt
prompt-below (suc n) i m e = (omega arith, prompt-below n (suc i) m (omega arith))

pub prompt-covers : (n i j : ℕ) → i ≤ j → j < i + n → mem j (prompt i (replicate n zero)) ≡ true
prompt-covers zero i j le lt = absurd (omega arith)
prompt-covers (suc n) i j le lt = elim (dec_lt i j) [
  | yes less ↦ ground (arith, prompt-covers n (suc i) j (omega arith) (omega arith))
  | no same ↦ let e : i ≡ j = omega arith in ground (arith, e, ==_iff i j)
]

-- ===== src/Timer/Order.antt =====
-- The order of the timer's queue.
use async.Prelude.{
  ℕ, ◌+◌, ◌<◌, ◌≡◌, refl, ◌⊎◌, inl, inr, List, [], ◌∷◌, arith, ◌==◌, if◌then◌else◌, Bool-cases,
}
use async.Timer.{Entry, cmp, insert}

module _ {J : Type 0} where
  -- `a` is before `b`: by deadline, then by number.
  abbrev pub Before : Entry J → Entry J → Type 0
  Before a b = (a.when < b.when) ⊎ ((a.when ≡ b.when) × (a.id < b.id))

  abbrev pub AllBefore : Entry J → List (Entry J) → Type 0
  AllBefore a [] = Unit {0}
  AllBefore a (x ∷ xs) = Before a x × AllBefore a xs

  abbrev pub IsSorted : List (Entry J) → Type 0
  IsSorted [] = Unit {0}
  IsSorted (x ∷ xs) = AllBefore x xs × IsSorted xs

  -- How often the number `i` occurs.
  abbrev pub count_id : ℕ → List (Entry J) → ℕ
  count_id i [] = 0
  count_id i (x ∷ xs) = (if x.id == i then 1 else 0) + count_id i xs

  pub count_id-insert :
      (i : ℕ) (e : Entry J) (xs : List (Entry J))
      → count_id i (insert e xs) ≡ (if e.id == i then 1 else 0) + count_id i xs
  unfolding insert
  count_id-insert i e [] = refl
  count_id-insert i e (x ∷ xs) = ground (arith, count_id-insert i e xs)

  AllBefore-trans :
      (a b : Entry J) (xs : List (Entry J)) → Before a b → AllBefore b xs → AllBefore a xs
  AllBefore-trans a b [] h k = tt
  AllBefore-trans a b (x ∷ xs) h k = (ground (arith, h, k.0), AllBefore-trans a b xs h k.1)

  AllBefore-insert :
      (a e : Entry J) (xs : List (Entry J))
      → Before a e
      → AllBefore a xs
      → AllBefore a (insert e xs)
  unfolding insert
  AllBefore-insert a e [] h k = (h, tt)
  AllBefore-insert a e (x ∷ xs) h k = ground (arith, AllBefore-insert a e xs h k.1)

  -- If the number of the new entry occurs in no entry of the queue, this stays in strict order.
  pub insert-IsSorted :
      (e : Entry J) (xs : List (Entry J))
      → count_id e.id xs ≡ 0
      → IsSorted xs
      → IsSorted (insert e xs)
  unfolding insert cmp
  insert-IsSorted e [] n h = (tt, tt)
  insert-IsSorted e (x ∷ xs) n h = elim (Bool-cases (cmp e x)) [
    | inl lower ↦
        let before : Before e x = ground arith in
        rw lower ((before, AllBefore-trans e x xs before h.0), h)
    | inr higher ↦
        let before : Before x e = ground arith in
        rw higher (AllBefore-insert x e xs before h.0, insert-IsSorted e xs (ground arith) h.1)
  ]

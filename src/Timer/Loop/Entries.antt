-- ===== src/Timer/Loop/Entries.antt =====
-- Where entries go: what holds of every entry when it is scheduled holds of it wherever it is later.
use async.Prelude.{
  ℕ, ◌+◌, ◌%◌, ◌^◌, ◌≡◌, refl, inl, inr, none, some, List, [], ◌∷◌, ◌++◌, arith, Bool-cases, Each,
  Each-append,
}
use async.Cancel.{is_cancelled}
use async.Timer.{Entry, insert, schedule, stop}
use async.Timer.Loop.{
  Pc, at_lock, checking, due, System, Event, schedules, takes, checks, fires, take_from, check_from,
  take_at, check_at, fire_at, step,
}
use async.Timer.Loop.Invariant.{held}

module _ {J : Type 0} (P : Entry J → Type 0) where
  abbrev pub EachFired : List (Entry J × ℕ) → Type 0
  EachFired [] = Unit {0}
  EachFired ((e, at) ∷ xs) = P e × EachFired xs

  EachFired-append :
      (xs : List (Entry J × ℕ)) (e : Entry J) (at : ℕ)
      → EachFired xs
      → P e
      → EachFired (xs ++ (e, at) ∷ [])
  EachFired-append [] e at h p = (p, tt)
  EachFired-append ((x, a) ∷ xs) e at h p = (h.0, EachFired-append xs e at h.1 p)

  Each-insert : (e : Entry J) (xs : List (Entry J)) → P e → Each P xs → Each P (insert e xs)
  unfolding insert
  Each-insert e [] p h = (p, tt)
  Each-insert e (x ∷ xs) p h = ground (arith, p, h, Each-insert e xs p h.1)

  -- Every entry that is queued, held, fired or dropped.
  abbrev pub Entries : System J → Type 0
  Entries s = Each P s.timer.q × Each P (held s.pc) × EachFired s.fired × Each P s.dropped

  -- What an event adds.
  abbrev pub Adds : Event J → System J → Type 0
  Adds (schedules tp (some j) ct) s =
      P (record { when = tp; id = (s.timer.seq + 1) % 2 ^ 64; ct = ct; job = j })
  Adds _ s = Unit {0}

  take_at-Entries :
      (pc : Pc J) (s t : System J) → s.pc ≡ pc → take_at pc s ≡ some t → Entries s → Entries t
  take_at-Entries at_lock s t at p h = by_queue s.timer.q refl p
    where
      by_queue : (q : List (Entry J)) → s.timer.q ≡ q → take_from q s ≡ some t → Entries t
      by_queue [] e p = ground (arith, h)
      by_queue (x ∷ rest) e p = ground (arith, h)
  take_at-Entries _ s t at p h = cc

  check_from-Entries :
      (next : Entry J) (q : List (Entry J)) (s : System J)
      → s.pc ≡ checking next
      → s.timer.q ≡ q
      → Entries s
      → Entries (check_from next q s)
  check_from-Entries next [] s at e h = ground (arith, h)
  check_from-Entries next (x ∷ rest) s at e h = ground (arith, h, Each-insert next rest)

  check_at-Entries :
      (pc : Pc J) (s t : System J) → s.pc ≡ pc → check_at pc s ≡ some t → Entries s → Entries t
  check_at-Entries (checking next) s t at p h =
      ground (arith, h, check_from-Entries next s.timer.q s at refl h)
  check_at-Entries _ s t at p h = cc

  fire_at-Entries :
      (pc : Pc J) (s t : System J) → s.pc ≡ pc → fire_at pc s ≡ some t → Entries s → Entries t
  fire_at-Entries (due next) s t at p h = elim (Bool-cases (is_cancelled s.flags next.ct)) [
    | inl c ↦ ground (arith, h, Each-append P s.dropped (next ∷ []) h.3)
    | inr live ↦ ground (arith, h, EachFired-append s.fired next s.now h.2)
  ]
  fire_at-Entries _ s t at p h = cc

  pub step-Entries :
      (e : Event J) (s t : System J) → step e s ≡ some t → Adds e s → Entries s → Entries t
  unfolding step schedule stop
  step-Entries (schedules tp none ct) s t p a h = ground (arith, h)
  step-Entries (schedules tp (some j) ct) s t p a h =
      let new : Entry J = record { when = tp; id = (s.timer.seq + 1) % 2 ^ 64; ct = ct; job = j } in
      ground (arith, h, Each-insert new s.timer.q a)
  step-Entries takes s t p a h = take_at-Entries s.pc s t refl p h
  step-Entries checks s t p a h = check_at-Entries s.pc s t refl p h
  step-Entries fires s t p a h = fire_at-Entries s.pc s t refl p h
  step-Entries _ s t p a h = ground (arith, h)

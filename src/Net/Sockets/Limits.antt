-- ===== src/Net/Sockets/Limits.antt =====
-- Whether an operation on the network succeeds, and how a cancelled one ends.
use async.Prelude.{
  ◌≡◌, refl, inl, inr, Bool, true, false, not, ◌&&◌, List, arith, if◌then◌else◌, Bool-cases,
}
use async.Completion.{Completion, returns, throws, system_error}
use async.Cancel.{States, CancelToken, Action, acts, is_cancelled}
use async.Cancel.Sharing.{cancelled_stays}
use async.Net.Sockets.Outcome.{unless_cancelled}

abbrev pub succeeds : {E A : Type 0} → Completion E A → Bool
succeeds (returns a) = true
succeeds _ = false

abbrev pub is_system_error : {E A : Type 0} → Completion E A → Bool
is_system_error (throws (system_error ec)) = true
is_system_error _ = false

-- A close that tests first whether the socket is open closes it, and does nothing the second time.
pub guarded_close :
    {K : Type 0} (is_open : K → Bool) (shut : K → K)
    → ((s : K) → is_open (shut s) ≡ false)
    → (s : K)
    → let close = λ (s : K). if not (is_open s) then s else shut s in
      (is_open (close s) ≡ false) × (close (close s) ≡ close s)
guarded_close is_open shut shuts s = elim (Bool-cases (is_open s)) [
  | inl o ↦ rw o (shuts s, rw (shuts s) refl)
  | inr o ↦ rw o (o, rw o refl)
]

module _ {E T : Type 0} where
  -- What is cancelled before it starts ends with the cancellation.
  pub cancelled-throws :
      (m : States) (actions : List Action) (ct : CancelToken) (o : Completion E T)
      → unless_cancelled m ct (unless_cancelled (acts m actions) ct o)
        ≡ unless_cancelled (acts m actions) ct o
  cancelled-throws m actions ct o = elim (Bool-cases (is_cancelled m ct)) [
    | inl c ↦ rw (c, cancelled_stays m actions ct c) refl
    | inr live ↦ rw live refl
  ]

  pub cancelled-is_system_error :
      (m : States) (actions : List Action) (ct : CancelToken) (o : Completion E T)
      → is_cancelled m ct && not (is_system_error (unless_cancelled (acts m actions) ct o)) ≡ false
  cancelled-is_system_error m actions ct o = elim (Bool-cases (is_cancelled m ct)) [
    | inl c ↦ rw (c, cancelled_stays m actions ct c) refl
    | inr live ↦ rw live refl
  ]

  -- What is cancelled before it starts does not succeed.
  pub cancelled-fails :
      (m : States) (actions : List Action) (ct : CancelToken) (o : Completion E T)
      → is_cancelled m ct && succeeds (unless_cancelled (acts m actions) ct o) ≡ false
  cancelled-fails m actions ct o = elim (Bool-cases (is_cancelled m ct)) [
    | inl c ↦ rw (cancelled_stays m actions ct c) (ground arith)
    | inr live ↦ rw live refl
  ]

-- ===== src/Net/Sockets/Outcome.antt =====
-- What the operations on the network end with.
use async.Prelude.{
  ◌≡◌, ℕ, refl, sym, ap, ◌∙◌, inl, inr, Bool, Option, List, [], ◌∷◌, ◌++◌, map, append-nil,
  append_assoc, if◌then◌else◌, Bool-cases,
}
use async.Error.{ErrorCode, is_error}
use async.Completion.{Completion, returns, throws, undefined, system_error, ◌>>=◌}
use async.Cancel.{States, CancelToken, Action, acts, is_cancelled, cancelled_ec}
use async.Scheduler.{Handle}
use async.Net.Await.{Resumption, Operation, ended, operation_outcome}
use async.Net.Sockets.{
  Moments, co_asio_value, async_connect, async_send_to, async_recv_from, push_all, async_resolve,
}

-- The flags change by `actions` while the operation is pending.
abbrev pub during : States → List Action → Moments
during m actions = record { before = m; later = acts m actions }

-- The end of an operation, if the token is not cancelled by then.
abbrev pub unless_cancelled :
    {E T : Type 0} → States → CancelToken → Completion E T → Completion E T
unless_cancelled m ct o = if is_cancelled m ct then throws (system_error cancelled_ec) else o

push_all-map :
    {P A : Type 0} (address : P → A) (es : List P) (out : List A)
    → push_all address es out ≡ out ++ map address es
push_all-map address [] out = sym (append-nil out)
push_all-map address (e ∷ es) out =
    push_all-map address es (out ++ address e ∷ [])
    ∙ append_assoc out (address e ∷ []) (map address es)

pub unless_cancelled->>= :
    {E A B : Type 0} (m : States) (ct : CancelToken) (o : Completion E A) (f : A → Completion E B)
    → (unless_cancelled m ct o >>= f) ≡ unless_cancelled m ct (o >>= f)
unless_cancelled->>= m ct o f = elim (Bool-cases (is_cancelled m ct)) [
  | inl c ↦ rw c refl
  | inr live ↦ rw live refl
]

pub >>=-same :
    {E A B : Type 0} (o : Completion E A) (f g : A → Completion E B)
    → ((a : A) → f a ≡ g a)
    → (o >>= f) ≡ (o >>= g)
>>=-same (returns a) f g h = h a
>>=-same (throws x) f g h = refl
>>=-same undefined f g h = refl

module _ {E F : Type 0} (has_ctx : Bool) (h : Option Handle) (r : Resumption F) where
  pub co_asio_value_lem :
      {T : Type 0} (m : States) (actions : List Action) (ct : CancelToken) (op : Operation E T)
      → co_asio_value has_ctx h r (during m actions) ct op
        ≡ unless_cancelled (acts m actions) ct (ended op)
  unfolding co_asio_value
  co_asio_value_lem m actions ct op = (operation_outcome m actions has_ctx h op ct r).1

  -- A connect whose token is cancelled by the end of the resolution throws the cancellation; else a
  -- resolution that fails gives its error; else the connection is tried with its results, and gives
  -- the cancellation, its error or success. The token may be cancelled at any moment between.
  pub connect_outcome :
      {R : Type 0} (m : States) (first second : List Action) (ct : CancelToken)
      (resolve : Operation E R) (connect : R → Operation E (Unit {0}))
      → async_connect has_ctx h r (during m first) (during (acts m first) second) ct resolve connect
        ≡ unless_cancelled (acts m first) ct (
            ended resolve >>= λ results.
            unless_cancelled (acts (acts m first) second) ct (ended (connect results)))
  unfolding async_connect
  connect_outcome {R} m first second ct resolve connect =
      let ends = co_asio_value_lem m first ct resolve in
      let tries = λ (results : R). co_asio_value_lem (acts m first) second ct (connect results) in
      ap
        (λ o. o >>= λ results.
          co_asio_value has_ctx h r (during (acts m first) second) ct (connect results))
        ends
      ∙ unless_cancelled->>= (acts m first) ct (ended resolve) _
      ∙ ap (unless_cancelled (acts m first) ct) (>>=-same (ended resolve) _ _ tries)

  -- A resolution that ends gives the address of every endpoint, in the order of asio, and one that
  -- fails or is cancelled gives no address but the error.
  pub resolve_outcome :
      {P A : Type 0} (address : P → A) (m : States) (actions : List Action) (ct : CancelToken)
      (op : Operation E (List P))
      → async_resolve has_ctx h r address (during m actions) ct op
        ≡ unless_cancelled
            (acts m actions)
            ct
            (ended op >>= λ results. returns (map address results))
  unfolding async_resolve
  resolve_outcome address m actions ct op =
      ap (λ o. o >>= λ results. returns (push_all address results []))
        (co_asio_value_lem m actions ct op)
      ∙ unless_cancelled->>= (acts m actions) ct (ended op) _
      ∙ ap (unless_cancelled (acts m actions) ct)
          (>>=-same (ended op) _ _ (λ results. ap returns (push_all-map address results [])))

  -- A send to an address that does not parse throws that error, and starts nothing: its outcome
  -- depends neither on the token nor on asio. Any other send, and every receive, throws the
  -- cancellation if the token is cancelled by the end, else the error of asio; else it gives the
  -- number of bytes, a receive with the endpoint that the datagram came from.
  pub datagrams_outcome :
      {S : Type 0} (parsed : ErrorCode) (m : States) (actions : List Action) (ct : CancelToken)
      (op : Operation E ℕ) (src : S)
      → (async_send_to has_ctx h r parsed (during m actions) ct op ≡ (
          if is_error parsed
          then throws (system_error parsed)
          else unless_cancelled (acts m actions) ct (ended op)))
        × (async_recv_from has_ctx h r (during m actions) ct op src
            ≡ unless_cancelled (acts m actions) ct (ended op >>= λ n. returns (src, n)))
  unfolding async_send_to async_recv_from
  datagrams_outcome parsed m actions ct op src =
      let ends = co_asio_value_lem m actions ct op in
      (
        elim (Bool-cases (is_error parsed)) [ inl bad ↦ rw bad refl | inr good ↦ rw good ends ],
        ap (λ o. o >>= λ n. returns (src, n)) ends
            ∙ unless_cancelled->>= (acts m actions) ct (ended op) (λ n. returns (src, n)),
      )

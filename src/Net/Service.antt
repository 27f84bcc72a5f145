-- ===== src/Net/Service.antt =====
-- src/net/asio_net_service.cpp and src/net/asio_net_service.hpp: the thread that runs asio. What
-- asio documents of `run` is the guard of the event `run_ends`: it returns when its context was
-- stopped, or when no work is left, and the work guard counts as work.
use async.Prelude.{
  ◌≡◌, refl, ◌⊎◌, inl, inr, Bool, true, false, ◌&&◌, ◌||◌, not, Option, none, some, List, [], ◌∷◌,
  arith, if◌then◌else◌, Option-cases,
}

-- `running` says whether the thread is in `ioc_.run()`, and `joinable` is that of `net_thread_`.
pub record Service : Type 0 where
  pub guard : Bool
  pub stopped : Bool
  pub ioc_stopped : Bool
  pub running : Bool
  pub joinable : Bool

-- `run_ends` tells whether operations are left, `run_throws` is an exception of a handler, and
-- `joins` tells whether the network thread itself is the caller.
pub data Event : Type 0 where
  stops : Event
  run_ends : Bool → Event
  run_throws : Event
  joins : Bool → Event

-- The constructor.
abbrev pub new_service : Service
new_service = record {
  guard = true;
  stopped = false;
  ioc_stopped = false;
  running = true;
  joinable = true;
}

unfoldable pub stop : Service → Service
stop s = if s.stopped then s else record s { stopped = true; guard = false; ioc_stopped = true }

-- `none` while the caller waits.
unfoldable pub join : Bool → Service → Option Service
join self s =
    if not s.joinable
    then some s
    else (if self
        then some (record s { joinable = false })
        else (if s.running then none else some (record s { joinable = false })))

unfoldable pub step : Event → Service → Option Service
unfolding stop join
step stops s = some (stop s)
step (run_ends work) s =
    if s.running && (s.ioc_stopped || (not s.guard && not work))
    then some (record s { running = false })
    else none
step run_throws s = if s.running then some (record s { running = false }) else none
step (joins self) s = join self s

unfoldable pub steps : List Event → Service → Option Service
steps [] s = some s
steps (e ∷ es) s = elim (step e s) [ none ↦ none | some t ↦ steps es t ]

abbrev pub no_throw : List Event → Bool
no_throw [] = true
no_throw (run_throws ∷ es) = false
no_throw (e ∷ es) = no_throw es

-- The guard is dropped, and the context stopped, by `stop` alone.
record Inv (s : Service) : Type 0 where
  guarded : s.stopped ≡ false → (s.guard ≡ true) × (s.ioc_stopped ≡ false) × (s.running ≡ true)
  released : s.stopped ≡ true → s.ioc_stopped ≡ true

step-Inv :
    (e : Event) (s t : Service) → no_throw (e ∷ []) ≡ true → step e s ≡ some t → Inv s → Inv t
unfolding step
step-Inv stops s t n p v = record {
  guarded = ground (arith, v.guarded);
  released = ground (arith, v.released);
}
step-Inv (run_ends work) s t n p v = record {
  guarded = ground (arith, v.guarded);
  released = ground (arith, v.released);
}
step-Inv run_throws s t n p v = cc
step-Inv (joins self) s t n p v = record {
  guarded = ground (arith, v.guarded);
  released = ground (arith, v.released);
}

no_throw-cons :
    (e : Event) (es : List Event)
    → no_throw (e ∷ es) ≡ true
    → (no_throw (e ∷ []) ≡ true) × (no_throw es ≡ true)
no_throw-cons run_throws es n = cc
no_throw-cons _ es n = (refl, n)

steps-Inv :
    (es : List Event) (s t : Service) → no_throw es ≡ true → steps es s ≡ some t → Inv s → Inv t
unfolding steps
steps-Inv [] s t n p v = record {
  guarded = ground (arith, v.guarded);
  released = ground (arith, v.released);
}
steps-Inv (e ∷ es) s t n p v = elim (Option-cases (step e s)) [
  | inl q ↦ cc (rw (q, steps) at p)
  | inr (u, q) ↦
      let (one, rest) = no_throw-cons e es n in
      steps-Inv es u t rest (rw (q, steps) at p) (step-Inv e s u one q v)
]

-- The rest of the destructor in another thread, when asio lets go.
abbrev pub destruction : Service → List Event
destruction s = stops ∷ (if s.running then run_ends true ∷ joins false ∷ [] else joins false ∷ [])

-- Whatever came before, with handlers that do not throw: until `stop` the network thread runs,
-- whether it has operations or not, and a `join` by another thread waits; and the destructor, in
-- whatever state the service is and whatever operations are pending, can stop the thread and gets
-- through its `join`.
pub service_stops :
    (es : List Event) (s : Service)
    → no_throw es ≡ true
    → steps es new_service ≡ some s
    → (s.stopped ≡ false
        → (s.running ≡ true) × ((s.joinable ≡ false) ⊎ (step (joins false) s ≡ none)))
      × ((t : Service) × (steps (destruction s) s ≡ some t)
          × (t.running ≡ false)
          × (t.joinable ≡ false))
unfolding step steps
service_stops es s n p =
    let v =
      steps-Inv es new_service s n p
        (record { guarded = λ h. (refl, refl, refl); released = λ h. cc }) in
    (
      λ on. (ground (arith, v.guarded), ground (arith, v.guarded)),
      (
        record s {
          guard = if s.stopped then s.guard else false;
          stopped = true;
          ioc_stopped = true;
          running = false;
          joinable = false;
        },
        ground (arith, v.guarded, v.released),
        refl,
        refl,
      ),
    )

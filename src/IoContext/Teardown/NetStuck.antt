-- ===== src/IoContext/Teardown/NetStuck.antt =====
-- A handler on the network thread that waits for the lifecycle mutex.
use async.Prelude.{◌≡◌, refl, Bool, true, false, none, some, List, [], ◌∷◌, arith, is_some}
use async.Net.Service as Net
use async.IoContext.{
  Service, cpu_pool, timers, signals, net, Call, gets, shuts_down, posts, posts_handle, stops, step,
}
use async.IoContext.Teardown.{
  Phase, idle, stopping, joining, Runtime, Event, calls, stops_service, joins_service, of_pool,
  of_timer, of_signals, of_net, asks_net, answers, is_idle, next, stop_at, join_phase, call,
  net_step, advance,
}

-- The network service has not been destroyed yet.
abbrev pub has_net : List Service → Bool
has_net [] = false
has_net (net ∷ vs) = true
has_net (v ∷ vs) = has_net vs

abbrev pub net_ahead : Phase → Bool
net_ahead idle = false
net_ahead (stopping v rest) = has_net (v ∷ rest)
net_ahead (joining v rest) = has_net (v ∷ rest)

next-has_net : (vs : List Service) → net_ahead (next vs) ≡ has_net vs
next-has_net [] = refl
next-has_net (v ∷ vs) = refl

pub net_ahead-busy : (p : Phase) → net_ahead p ≡ true → is_idle p ≡ false
net_ahead-busy idle h = cc
net_ahead-busy (stopping v rest) h = refl
net_ahead-busy (joining v rest) h = refl

-- A handler on the network thread waits for the mutex, and the shutdown holds it and has the network
-- service ahead of it.
abbrev pub IsNetStuck : {F : Type 0} → Runtime F → Type 0
IsNetStuck s =
    (net_ahead s.phase ≡ true)
    × (is_some s.c.net_ptr ≡ true)
    × (s.net_asks ≡ true)
    × (s.netsvc.running ≡ true)
    × (s.netsvc.joinable ≡ true)

module _ {F : Type 0} (asks : F → Bool) where
  stop_at-IsNetStuck :
      (ph : Phase) (s t : Runtime F)
      → s.phase ≡ ph
      → stop_at ph s ≡ some t
      → IsNetStuck s
      → IsNetStuck t
  unfolding Net.stop
  stop_at-IsNetStuck idle s t at p v = cc
  stop_at-IsNetStuck (joining w rest) s t at p v = cc
  stop_at-IsNetStuck (stopping net rest) s t at p v = ground arith
  stop_at-IsNetStuck (stopping timers rest) s t at p v = ground (arith, next-has_net rest)
  stop_at-IsNetStuck (stopping signals rest) s t at p v = ground (arith, next-has_net rest)
  stop_at-IsNetStuck (stopping cpu_pool rest) s t at p v = ground (arith, next-has_net rest)

  join_phase-IsNetStuck :
      (ph : Phase) (s t : Runtime F)
      → s.phase ≡ ph
      → join_phase ph s ≡ some t
      → IsNetStuck s
      → IsNetStuck t
  unfolding Net.join
  join_phase-IsNetStuck idle s t at p v = cc
  join_phase-IsNetStuck (stopping w rest) s t at p v = cc
  join_phase-IsNetStuck (joining net rest) s t at p v = ground arith
  join_phase-IsNetStuck (joining timers rest) s t at p v = ground (arith, next-has_net rest)
  join_phase-IsNetStuck (joining signals rest) s t at p v = ground (arith, next-has_net rest)
  join_phase-IsNetStuck (joining cpu_pool rest) s t at p v = ground (arith, next-has_net rest)

  call-IsNetStuck : (x : Call F) (s t : Runtime F) → call x s ≡ some t → IsNetStuck s → IsNetStuck t
  unfolding step
  call-IsNetStuck (gets w) s t p v = ground (arith, net_ahead-busy s.phase)
  call-IsNetStuck shuts_down s t p v = ground (arith, net_ahead-busy s.phase)
  call-IsNetStuck (posts g) s t p v = ground arith
  call-IsNetStuck (posts_handle h) s t p v = ground arith
  call-IsNetStuck stops s t p v = ground arith

  net_step-stuck : (e : Net.Event) (s : Runtime F) → s.net_asks ≡ true → net_step asks e s ≡ none
  net_step-stuck (Net.run_ends work) s v = ground arith
  net_step-stuck Net.run_throws s v = ground arith
  net_step-stuck _ s v = refl

  pub advance-IsNetStuck :
      (e : Event F) (s t : Runtime F) → advance asks e s ≡ some t → IsNetStuck s → IsNetStuck t
  unfolding advance
  advance-IsNetStuck (calls x) s t p v = call-IsNetStuck x s t p v
  advance-IsNetStuck stops_service s t p v = stop_at-IsNetStuck s.phase s t refl p v
  advance-IsNetStuck joins_service s t p v = join_phase-IsNetStuck s.phase s t refl p v
  advance-IsNetStuck (of_pool e) s t p v = ground arith
  advance-IsNetStuck (of_timer e) s t p v = ground arith
  advance-IsNetStuck (of_signals e) s t p v = ground arith
  advance-IsNetStuck (of_net e) s t p v = ground (arith, net_step-stuck e s v.2)
  advance-IsNetStuck asks_net s t p v = ground arith
  advance-IsNetStuck answers s t p v = ground (arith, net_ahead-busy s.phase)

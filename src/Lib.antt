-- ===== src/Lib.antt =====
-- A model of the asynchronous runtime of vix, and theorems about it.
--
-- The parts and how they interact. An `io_context` owns one scheduler and makes the thread pool,
-- the timer, the signal set and the network service when they are first asked for. The scheduler is
-- the only place where coroutines run: the other parts work on threads of their own and post
-- coroutine handles and callables to its two queues. Coroutines are tasks: a task owns the frame of
-- a coroutine, and awaiting it stores the awaiting coroutine in the frame. `when_all` and
-- `when_any` start one runner for each task of a pack and go on when all, or the first one, have
-- ended. Cancel tokens are read by the operations that can be cancelled, and error codes are what
-- these then throw.
--
-- Which file models which part. A module has the source's names: `post_handle` of Scheduler.antt is
-- `scheduler::post_handle`. A local definition of a coroutine or of a lambda, such as the awaitables,
-- is a record with the functions `await_ready`, `await_suspend` and `await_resume`.
--   Error          include/vix/async/core/error.hpp
--   Cancel         include/vix/async/core/cancel.hpp: the flags are a heap that sources and tokens share
--   Completion     what a coroutine ends with: a value, an exception, or undefined behaviour
--   Scheduler      include/vix/async/core/scheduler.hpp: the queues and `run`, alone on its thread
--   Scheduler/Interleaving  the same, with other threads between the mutex sections of `run`;
--                  Scheduler/Schedule is the awaitable of `schedule`
--   ThreadPool     include/vix/async/core/thread_pool.hpp, src/core/thread_pool.cpp: `enqueue`, the
--                  workers and `shutdown` as steps; ThreadPool/Awaitable is the coroutine `submit`, and
--                  ThreadPool/Resumption puts the coroutines that await it and the pool together
--   Timer          include/vix/async/core/timer.hpp, src/core/timer.cpp: the ordered queue
--   Timer/Loop     `timer::timer_loop` as steps between which other threads and the clock act;
--                  Timer/Sleep is the coroutine `sleep_for` on that loop, and
--                  Timer/Loop/Shutdown the destructor
--   When           include/vix/async/core/when.hpp: what both combinators share; When/All and When/Any
--                  have the shared state, the runner and the awaitable of each, and
--                  When/All/OnScheduler and When/Any/OnScheduler run the runners on the loop of the
--                  scheduler
--   Signal         include/vix/async/core/signal.hpp, src/core/signal.cpp: the mutex sections, the
--                  delivery that the worker posts, and the awaitable of `async_wait`;
--                  Signal/Worker is the worker thread and the destructor
--   IoContext      include/vix/async/core/io_context.hpp, src/core/io_context.cpp;
--                  IoContext/Teardown is `shutdown` with the lifecycle mutex and the threads of the
--                  services, which go on while it joins them
--   Task           include/vix/async/core/task.hpp: frames, promises and awaiters; Task/Ownership is a
--                  program's tasks over one heap of frames; Task/Void is the specialisation for `void`
--   Task/Spawn     include/vix/async/core/spawn.hpp: the detached task on that heap
--   Net/Await      src/net/asio_await.hpp: the awaitable behind every network operation
--   Net/Service    src/net/asio_net_service.cpp: its start, its stop and its thread
--   Net/Sockets    src/net/asio_tcp.cpp, src/net/asio_udp.cpp, src/net/asio_dns.cpp: what the
--                  streams, the datagram sockets and the resolver do
--   Net/Listener   src/net/asio_tcp.cpp: the flags and the acceptor of `tcp_listener_asio`;
--                  Net/Listener/Accept is its `async_accept`, and Net/Listener/Race a listen and closes
--                  whose accesses to the flags interleave
--   Net/Tcp, Net/Udp, Net/Dns, Net/Listener/Promises  include/vix/async/net/tcp.hpp, udp.hpp, dns.hpp:
--                  the interfaces, as records of operations over a type of objects; the classes that
--                  implement them with asio, and promises of the interfaces
--   Net/Factories  the functions that make those objects from a context
--   Log            include/vix/async/detail/log.hpp
--
-- State and concurrency. An object is a record, and a method is a function from the record to the
-- new one. A mutex section is one step, and a thread is a program counter between its sections, so
-- that a list of events is an interleaving; a step that a thread cannot take gives `none`. Atomics
-- are sequentially consistent. A thread that waits on a condition variable goes on as soon as the
-- predicate holds; `stop` of the scheduler sets its flag without the mutex, so that the program
-- can miss the wake-up that the model has. Coroutine handles are natural numbers, and callables
-- are values of a type that is an argument. A C++ exception is a value of `Completion`.
--
-- Bounds and fuel. `run` of the scheduler takes fuel: each round removes one item from a queue,
-- and after a stop request more fuel than the queues weigh is enough, where the weight of an item
-- bounds the work that it posts. The counter of the timer's entries is 64 bits wide and wraps
-- around in the model as in the source; statements that tell its entries apart assume fewer than
-- 2^64 events. The clock and the deadlines are natural numbers; a delay whose end is no 64-bit
-- number of nanoseconds is undefined behaviour, and `after` gives `none` for it. The counter of
-- `when_all` wraps around likewise, and the moment at which it resumes assumes a pack of fewer
-- than 2^64 tasks. The loop on which `when_all` runs takes fuel too: one pass for each suspension
-- and each end of a runner, and one for the coroutine that goes on, are enough; so does the one of
-- `when_any`, of which the first round of passes is considered. Every other function is total.
--
-- Not modelled. `sigwait`, asio and the operating system's threads are arguments or events, since
-- their code is elsewhere. The examples only call the library and are left out. A pack of
-- `when_all` or `when_any` with a `task<void>` does not compile, so that every task of a pack has
-- a value. Assertions and configuration are macros and names of types, and are left out. So are
-- exceptions that an allocation throws, and the memory orders of the atomics.
mod Prelude
pub mod Error
pub mod Cancel
pub mod Completion
pub mod Scheduler
pub mod ThreadPool
pub mod Timer
pub mod When
pub mod Signal
pub mod IoContext
pub mod Log
pub mod Task
pub mod Net

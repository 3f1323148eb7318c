-- ===== src/Scheduler/Fiber.antt =====
-- The life of one fiber, as the state word of its context sees it: `wait_pinned` and the wakers of
-- src/future_bridge.rs, `dispatch_loop` of src/dta_scheduler.rs, `wake_fiber` and
-- `awaken_fiber_by_index` of src/lib.rs, `fiber_entry_point` and `spawn` of src/api.rs, and
-- `dtact_await` of src/c_ffi.rs when it is called under a poll. Each access of the state word is one
-- step.
pub mod Owned
pub mod Exclusive
pub mod Wakes
pub mod Late
pub mod Handoff
pub mod Tests
use dtact.Base.{
  ℕ, zero, suc, ◌+◌, ◌-◌, ◌≡◌, Bool, true, false, Option, none, some, List, [], ◌∷◌, ◌++◌,
}

pub data FiberStatus : Type 0 where
  initial : FiberStatus
  running : FiberStatus
  yielded : FiberStatus
  finished : FiberStatus
  panicked : FiberStatus
  notified : FiberStatus
  suspending : FiberStatus

-- Where a worker that has taken the fiber from a queue stands, and where a fiber goes on: in
-- `wait_pinned` at the load of the state, the store of `Running`, a poll, the rest of a poll, a poll
-- of the spin loop with so many to come, or the exchange with `Suspending`; in `dtact_await` at the
-- swap with `Running` on top of its loop, or behind it, where it leaves the loop or goes on to its
-- exchange with `Suspending`; at the end of `fiber_entry_point` before its store of `Finished`, or
-- behind its last switch, where it returns into `dtact_abort`; in `dispatch_loop` at the load after the
-- switch or the exchange with `Yielded`.
pub data Pc : Type 0 where
  loads : Pc
  clears : Pc
  polls : Pc
  continues : Pc
  spins : ℕ → Pc
  suspends : Pc
  joins : Pc
  joined : Pc
  finishes : Pc
  ended : Pc
  looks : Pc
  parks : Pc

-- What the code under a poll does: it answers `Pending`, and the spin loop will poll so many times; or
-- it answers `Ready` or panics; or it gives way in `backpressure_yield` or in `spawn`, or in the
-- blocking `yield_to`; or it calls `dtact_await` and, in its loop, goes on to suspend: any other choice
-- there leaves the loop.
pub data Choice : Type 0 where
  pends : ℕ → Choice
  readies : Choice
  gives_way : Choice
  yields : Choice
  awaits : Choice

-- `queued` counts the queue entries of the fiber, `enqueuing` the threads that are about to make one,
-- and `saved` is where the fiber goes on at its next switch. `due` remembers a wake that
-- none of these has followed yet: the start of a poll, a swap with `Running` of `dtact_await`, a store
-- of `Suspending` of `yield_to`. The context of a `freed` fiber is in the pool.
pub record Fiber : Type 0 where
  pub state : FiberStatus
  pub queued : ℕ
  pub enqueuing : ℕ
  pub runners : List Pc
  pub saved : Pc
  pub due : Bool
  pub freed : Bool

-- `spawn` up to its call of `wake_fiber`.
unfoldable pub spawned : Fiber
spawned = record {
  state = running;
  queued = 0;
  enqueuing = 1;
  runners = [];
  saved = loads;
  due = false;
  freed = false;
}

-- `state.swap(Notified)`: the thread that finds `Yielded` goes on to enqueue the fiber.
abbrev pub found : FiberStatus → ℕ
found yielded = 1
found s = 0

unfoldable pub wake : Fiber → Fiber
wake f = record f { state = notified; enqueuing = f.enqueuing + found f.state; due = true }

-- `wake_fiber`, when one of its attempts succeeds.
unfoldable pub enqueue : Fiber → Fiber
enqueue f = record f { queued = f.queued + 1; enqueuing = f.enqueuing - 1 }

-- The top of the loop of `wait_pinned`.
abbrev pub after_load : FiberStatus → Pc
after_load running = polls
after_load s = clears

-- The exchange of `Running` with `Suspending`; on success the worker takes over.
unfoldable pub suspend : FiberStatus → Fiber → Fiber × Option Pc
suspend running f = (record f { state = suspending; saved = loads }, some looks)
suspend s f = (f, some loads)

abbrev pub spin_on : ℕ → Pc
spin_on zero = suspends
spin_on (suc k) = spins k

-- The store of `Suspending` and the switch in the blocking `yield_to`, after it has woken its target.
unfoldable pub yield_to : Fiber → Fiber
yield_to f = record f { state = suspending; saved = continues; due = false }

-- What follows a poll, or the rest of one.
unfoldable pub answer : Choice → ℕ → Fiber → Fiber × Option Pc
unfolding yield_to
answer (pends k) left f = (f, some (spin_on left))
answer readies left f = (f, some finishes)
answer gives_way left f = (record f { state = notified; saved = continues }, some looks)
answer yields left f = (yield_to f, some looks)
answer awaits left f = (f, some joins)

abbrev pub planned : Choice → ℕ
planned (pends k) = k
planned readies = 0
planned gives_way = 0
planned yields = 0
planned awaits = 0

-- The exchange of `Running` with `Suspending` in `dtact_await`; if it fails the loop goes round.
unfoldable pub suspend_join : FiberStatus → Fiber → Fiber × Option Pc
suspend_join running f = (record f { state = suspending; saved = joins }, some looks)
suspend_join s f = (f, some joins)

-- `dtact_await` behind its swap: the fiber that it waits for is not over, or it is.
unfoldable pub join : Choice → Fiber → Fiber × Option Pc
unfolding suspend_join
join awaits f = suspend_join f.state f
join c f = (f, some continues)

-- `free_context` resets the state; the worker then has nothing more to do with the fiber.
unfoldable pub free : Fiber → Fiber
free f = record f { state = initial; due = false; freed = true }

-- The decision of `dispatch_loop` on a final state.
unfoldable pub decide : FiberStatus → Fiber → Fiber × Option Pc
unfolding free
decide finished f = (free f, none)
decide panicked f = (free f, none)
decide notified f = (record f { queued = f.queued + 1 }, none)
decide s f = (f, none)

-- The load after the switch.
unfoldable pub look : FiberStatus → Fiber → Fiber × Option Pc
unfolding decide
look suspending f = (f, some parks)
look s f = decide s f

-- The exchange of `Suspending` with `Yielded`, and the decision on what a failed exchange finds.
unfoldable pub park : FiberStatus → Fiber → Fiber × Option Pc
unfolding decide
park suspending f = (record f { state = yielded }, none)
park s f = decide s f

-- One access of a worker that has the fiber, and where it stands then, if it still has it.
unfoldable pub step : Choice → Pc → Fiber → Fiber × Option Pc
unfolding suspend answer join look park
step c loads f = (f, some (after_load f.state))
step c clears f = (record f { state = running }, some polls)
step c polls f = answer c (planned c) (record f { due = false })
step c continues f = answer c (planned c) f
step c (spins k) f = answer c k (record f { due = false })
step c suspends f = suspend f.state f
step c joins f = (record f { state = running; due = false }, some joined)
step c joined f = join c f
step c finishes f = (record f { state = finished; saved = ended; due = false }, some looks)
step c ended f = (f, some ended)
step c looks f = look f.state f
step c parks f = park f.state f

abbrev pub placed : List Pc → Option Pc → List Pc → List Pc
placed before none after = before ++ after
placed before (some pc) after = before ++ pc ∷ after

-- What happens to a fiber, in any order: a wake by any thread at any time, even late; an entry that is
-- made; a worker that pops an entry and switches to the fiber; a step of a worker; and a new fiber in
-- the same context.
pub data Step : Fiber → Fiber → Type 0 where
  woken : (f : Fiber) → Step f (wake f)
  enqueued : (f : Fiber) (k : ℕ) → f.enqueuing ≡ suc k → Step f (enqueue f)
  dispatched :
      (f : Fiber) (k : ℕ)
      → f.queued ≡ suc k
      → Step f (record f { queued = k; runners = f.saved ∷ f.runners })
  moved :
      (f : Fiber) (c : Choice) (before : List Pc) (pc : Pc) (after : List Pc)
      → f.runners ≡ before ++ pc ∷ after
      → Step f (record (step c pc f).0 { runners = placed before (step c pc f).1 after })
  respawned : (f : Fiber) → f.freed ≡ true → Step f spawned

pub data Reach : Fiber → Type 0 where
  start : Reach spawned
  next : {f g : Fiber} → Reach f → Step f g → Reach g

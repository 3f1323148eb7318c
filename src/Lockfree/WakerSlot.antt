-- ===== src/Lockfree/WakerSlot.antt =====
-- `AtomicWakerSlot` of dtact-util/src/lockfree.rs: one waker, guarded by a state word. `register` and
-- `take_and_wake` are programs of one shared access a step, so that threads can interleave. Two bits
-- make the word: `registering` is 1 and `waking` is 2. A waker is the number of its task.
pub mod Lost
pub mod Exclusive
pub mod Serial
pub mod Tests
use dtact.Base.{
  ℕ, zero, suc, Bool, true, false, not, ◌||◌, ◌&&◌, Option, none, some, List, [], ◌∷◌, ◌++◌, ◌==◌,
  if◌then◌else◌,
}

-- The state word as its two bits; `WAITING` has neither.
pub record State : Type 0 where
  pub registering : Bool
  pub waking : Bool

abbrev pub waiting_state : State
waiting_state = record { registering = false; waking = false }

abbrev pub registering_state : State
registering_state = record { registering = true; waking = false }

abbrev pub waking_state : State
waking_state = record { registering = false; waking = true }

-- `woken` logs the tasks that were woken, in order.
pub record AtomicWakerSlot : Type 0 where
  pub state : State
  pub waker : Option ℕ
  pub woken : List ℕ

unfoldable pub new : AtomicWakerSlot
new = record { state = waiting_state; waker = none; woken = [] }

abbrev pub is_waiting : State → Bool
is_waiting s = not (s.registering || s.waking)

-- `Option::is_some_and(|w| w.will_wake(waker))`.
abbrev pub will_wake : Option ℕ → ℕ → Bool
will_wake none w = false
will_wake (some v) w = v == w

abbrev pub wake_task : Option ℕ → AtomicWakerSlot → AtomicWakerSlot
wake_task none s = s
wake_task (some w) s = record s { woken = s.woken ++ w ∷ [] }

-- Where a thread is: at the start of a call, between two accesses of one, or done.
pub data Thread : Type 0 where
  registers : ℕ → Thread
  stores : ℕ → Thread
  releases : Thread
  takes_over : Thread
  hands_back : Option ℕ → Thread
  takes : Thread
  takes_cell : Thread
  leaves : Option ℕ → Thread
  marks : Thread
  done : Thread

-- One access of a thread.
unfoldable pub step : Thread → AtomicWakerSlot → Thread × AtomicWakerSlot
step (registers w) s =
    if is_waiting s.state
    then (stores w, record s { state = registering_state })
    else (done, wake_task (some w) s)
step (stores w) s = (releases, if will_wake s.waker w then s else record s { waker = some w })
step releases s =
    if s.state.registering && not s.state.waking
    then (done, record s { state = waiting_state })
    else (takes_over, s)
step takes_over s = (hands_back s.waker, record s { waker = none })
step (hands_back w) s = (done, wake_task w (record s { state = waiting_state }))
step takes s =
    if is_waiting s.state then (takes_cell, record s { state = waking_state }) else (marks, s)
step takes_cell s = (leaves s.waker, record s { waker = none })
step (leaves w) s = (done, wake_task w (record s { state = waiting_state }))
step marks s = (done, record s { state = record s.state { waking = true } })
step done s = (done, s)

-- A thread that runs alone for a number of accesses.
unfoldable pub steps : ℕ → Thread → AtomicWakerSlot → Thread × AtomicWakerSlot
steps zero t s = (t, s)
steps (suc n) t s = let (t', s') = step t s in steps n t' s'

-- Whole calls that nobody interrupts: five accesses are enough for either.
unfoldable pub register : ℕ → AtomicWakerSlot → AtomicWakerSlot
register w s = (steps 5 (registers w) s).1

unfoldable pub take_and_wake : AtomicWakerSlot → AtomicWakerSlot
take_and_wake s = (steps 5 takes s).1

-- Threads that share the slot; `schedule` says which of them makes the next access.
unfoldable pub step_at : ℕ → List Thread → AtomicWakerSlot → List Thread × AtomicWakerSlot
step_at n [] s = ([], s)
step_at zero (t ∷ ts) s = let (t', s') = step t s in (t' ∷ ts, s')
step_at (suc n) (t ∷ ts) s = let (ts', s') = step_at n ts s in (t ∷ ts', s')

unfoldable pub run : List ℕ → List Thread → AtomicWakerSlot → List Thread × AtomicWakerSlot
run [] ts s = (ts, s)
run (n ∷ schedule) ts s = let (ts', s') = step_at n ts s in run schedule ts' s'

-- ===== src/Sync/Semaphore.antt =====
-- `Semaphore` of dtact-util/src/sync/semaphore.rs. A permit is the right to go on; dropping it is
-- two accesses to shared memory, which others can come between. Addition on `usize` wraps.
pub mod Permits
pub mod Tests
use dtact.Base.{
  ℕ, zero, suc, ◌+◌, ◌-◌, ◌≡◌, refl, Bool, true, false, not, Option, none, some, List, [], ◌∷◌,
  ◌==◌, if◌then◌else◌, wrapping_add,
}
use dtact.Sync.Poll.{Poll, ready, pending}
use dtact.Sync.WaitQueue
use dtact.Sync.WaitQueue.{WaitQueue}
use dtact.Sync.Protocol.{Waits, poll_with}

pub record Semaphore : Type 0 where
  pub permits : ℕ
  pub wait : WaitQueue

unfoldable pub new : ℕ → Semaphore
new permits = record { permits = permits; wait = WaitQueue.new }

unfoldable pub available_permits : Semaphore → ℕ
available_permits s = s.permits

-- `some tt` is a permit. The compare-exchange of the loop retries until the value that it read is
-- the current one, so the loop as a whole is one access.
abbrev pub take_one : ℕ → Semaphore → Semaphore × Option (Unit {0})
take_one zero s = (s, none)
take_one (suc n) s = (record s { permits = n }, some tt)

unfoldable pub try_acquire_one : Semaphore → Semaphore × Option (Unit {0})
try_acquire_one s = take_one s.permits s

pub wait-try_acquire_one : (s : Semaphore) → (try_acquire_one s).0.wait ≡ s.wait
unfolding try_acquire_one
wait-try_acquire_one s = by_permits s.permits
  where
    by_permits : (n : ℕ) → (take_one n s).0.wait ≡ s.wait
    by_permits zero = refl
    by_permits (suc n) = refl

abbrev pub acquires : Waits Semaphore (Unit {0})
acquires = record {
  wait_of = λ s. s.wait;
  with_wait = λ s q. record s { wait = q };
  attempt = try_acquire_one;
  wait_of-with_wait = λ s q. refl;
  wait_of-attempt = wait-try_acquire_one;
}

-- One poll of `acquire`, with what others do before and after the registration.
unfoldable pub poll_acquire :
    (Semaphore → Semaphore) → (Semaphore → Semaphore) → Semaphore → ℕ → Semaphore × Poll (Unit {0})
poll_acquire = poll_with acquires (λ s. not (WaitQueue.has_waiters s.wait))

-- The first access of `add_permits` and of a permit's `Drop`.
unfoldable pub release : Semaphore → ℕ → Semaphore
release s n = record s { permits = wrapping_add s.permits n }

unfoldable pub wake : Semaphore → Semaphore
wake s = record s { wait = WaitQueue.wake_one s.wait }

unfoldable pub wake_all : Semaphore → Semaphore
wake_all s = record s { wait = WaitQueue.wake_all s.wait }

unfoldable pub add_permits : Semaphore → ℕ → Semaphore
unfolding release wake_all
add_permits s n = wake_all (release s n)

unfoldable pub drop_permit : Semaphore → Semaphore
unfolding release wake
drop_permit s = wake (release s 1)

-- What other tasks can do between two accesses of a poll.
pub data Event : Type 0 where
  tries : Event
  polls : ℕ → Event
  releases : ℕ → Event
  wakes : Event
  wakes_all : Event

unfoldable pub step : Semaphore → Event → Semaphore
unfolding try_acquire_one poll_acquire release wake wake_all
step s tries = (try_acquire_one s).0
step s (polls w) = (poll_acquire (λ k. k) (λ k. k) s w).0
step s (releases n) = release s n
step s wakes = wake s
step s wakes_all = wake_all s

unfoldable pub run : List Event → Semaphore → Semaphore
run [] s = s
run (e ∷ es) s = run es (step s e)

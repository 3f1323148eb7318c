-- ===== src/Sync/Mutex.antt =====
-- `Mutex<T>` of dtact-util/src/sync/mutex.rs. A guard is the right to the data; dropping it is two
-- accesses to shared memory, which others can come between.
pub mod Abandon
pub mod Exclusion
pub mod Safety
pub mod Tests
use dtact.Base.{
  ℕ, ◌-◌, ◌≡◌, refl, Bool, true, false, not, Option, none, some, List, [], ◌∷◌, if◌then◌else◌,
}
use dtact.Sync.Poll.{Poll, ready, pending}
use dtact.Sync.WaitQueue
use dtact.Sync.WaitQueue.{WaitQueue}
use dtact.Sync.Protocol.{Waits, poll_with}

pub record Mutex {ℓ} (T : Type ℓ) : Type ℓ where
  pub locked : Bool
  pub wait : WaitQueue
  pub contents : T

module _ {ℓ} {T : Type ℓ} where
  unfoldable pub new : T → Mutex T
  new t = record { locked = false; wait = WaitQueue.new; contents = t }

  pub into_inner : Mutex T → T
  into_inner m = m.contents

  -- `some tt` is a guard.
  abbrev pub lock_by : Bool → Mutex T → Mutex T × Option (Unit {0})
  lock_by true m = (m, none)
  lock_by false m = (record m { locked = true }, some tt)

  unfoldable pub try_lock : Mutex T → Mutex T × Option (Unit {0})
  try_lock m = lock_by m.locked m

  pub wait-try_lock : (m : Mutex T) → (try_lock m).0.wait ≡ m.wait
  unfolding try_lock
  wait-try_lock m = by_flag m.locked
    where
      by_flag : (b : Bool) → (lock_by b m).0.wait ≡ m.wait
      by_flag true = refl
      by_flag false = refl

  abbrev pub locks : Waits (Mutex T) (Unit {0})
  locks = record {
    wait_of = λ m. m.wait;
    with_wait = λ m q. record m { wait = q };
    attempt = try_lock;
    wait_of-with_wait = λ m q. refl;
    wait_of-attempt = wait-try_lock;
  }

  -- One poll of `lock`, with what others do before and after the registration.
  unfoldable pub poll_lock :
      (Mutex T → Mutex T) → (Mutex T → Mutex T) → Mutex T → ℕ → Mutex T × Poll (Unit {0})
  poll_lock = poll_with locks (λ m. not (WaitQueue.has_waiters m.wait))

  -- The two accesses of a guard's `Drop`.
  unfoldable pub unlock : Mutex T → Mutex T
  unlock m = record m { locked = false }

  unfoldable pub wake : Mutex T → Mutex T
  wake m = record m { wait = WaitQueue.wake_one m.wait }

  unfoldable pub drop_guard : Mutex T → Mutex T
  unfolding unlock wake
  drop_guard m = wake (unlock m)

  -- The drop of a `lock` future that is told to wait. The future holds a reference to the mutex and
  -- has no `Drop`, so that nothing happens to the entry of its token.
  unfoldable pub drop_lock : ℕ → Mutex T → Mutex T
  drop_lock token m = m

  unfoldable pub set_contents : Mutex T → T → Mutex T
  set_contents m t = record m { contents = t }

-- What other tasks can do between two accesses of a poll.
pub data Event {ℓ} (T : Type ℓ) : Type ℓ where
  tries : Event T
  polls : ℕ → Event T
  unlocks : Event T
  wakes : Event T
  writes : T → Event T

module _ {ℓ} {T : Type ℓ} where
  unfoldable pub step : Mutex T → Event T → Mutex T
  unfolding try_lock poll_lock unlock wake set_contents
  step m tries = (try_lock m).0
  step m (polls w) = (poll_lock (λ k. k) (λ k. k) m w).0
  step m unlocks = unlock m
  step m wakes = wake m
  step m (writes t) = set_contents m t

  unfoldable pub run : List (Event T) → Mutex T → Mutex T
  run [] m = m
  run (e ∷ es) m = run es (step m e)

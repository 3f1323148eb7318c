-- ===== src/Sync/RwLock.antt =====
-- `RwLock<T>` of dtact-util/src/sync/rwlock.rs. The state is an `isize`, kept as its 64-bit word: the
-- words from 2^63 on are the negative numbers, and the last one is -1, `WRITE_LOCKED`.
pub mod Exclusion
pub mod Safety
pub mod Tests
use dtact.Base.{
  ℕ, zero, suc, ◌+◌, ◌-◌, ◌^◌, ◌≡◌, refl, ◌⊎◌, Bool, true, false, not, Option, none, some, List, [],
  ◌∷◌, ◌==◌, leb, if◌then◌else◌, wrapping_add, wrapping_sub, Bool-cases, inl, inr,
}
use dtact.Sync.Poll.{Poll, ready, pending}
use dtact.Sync.WaitQueue
use dtact.Sync.WaitQueue.{WaitQueue}
use dtact.Sync.Protocol.{Waits, poll_with}

abbrev pub write_locked : ℕ
write_locked = 2 ^ 64 - 1

abbrev pub is_negative : ℕ → Bool
is_negative n = leb (2 ^ 63) n

pub record RwLock {ℓ} (T : Type ℓ) : Type ℓ where
  pub state : ℕ
  pub wait : WaitQueue
  pub contents : T

module _ {ℓ} {T : Type ℓ} where
  unfoldable pub new : T → RwLock T
  new t = record { state = 0; wait = WaitQueue.new; contents = t }

  pub into_inner : RwLock T → T
  into_inner l = l.contents

  abbrev pub set_state : Bool → ℕ → RwLock T → RwLock T × Option (Unit {0})
  set_state true n l = (record l { state = n }, some tt)
  set_state false n l = (l, none)

  -- `some tt` is a read guard. The compare-exchange of the loop retries until the value that it
  -- read is the current one, so the loop as a whole is one access.
  unfoldable pub try_acquire_read : RwLock T → RwLock T × Option (Unit {0})
  try_acquire_read l = set_state (not (is_negative l.state)) (wrapping_add l.state 1) l

  -- `some tt` is a write guard.
  unfoldable pub try_write : RwLock T → RwLock T × Option (Unit {0})
  try_write l = set_state (l.state == 0) write_locked l

  pub set_state-cases :
      (b : Bool) (n : ℕ) (l : RwLock T)
      → ((b ≡ true) × ((set_state b n l).0.state ≡ n) × ((set_state b n l).1 ≡ some tt))
        ⊎ ((b ≡ false) × ((set_state b n l).0.state ≡ l.state) × ((set_state b n l).1 ≡ none))
  set_state-cases true n l = inl (refl, refl, refl)
  set_state-cases false n l = inr (refl, refl, refl)

  wait-set_state : (b : Bool) (n : ℕ) (l : RwLock T) → (set_state b n l).0.wait ≡ l.wait
  wait-set_state true n l = refl
  wait-set_state false n l = refl

  pub wait-try_acquire_read : (l : RwLock T) → (try_acquire_read l).0.wait ≡ l.wait
  unfolding try_acquire_read
  wait-try_acquire_read l = wait-set_state (not (is_negative l.state)) (wrapping_add l.state 1) l

  pub wait-try_write : (l : RwLock T) → (try_write l).0.wait ≡ l.wait
  unfolding try_write
  wait-try_write l = wait-set_state (l.state == 0) write_locked l

  abbrev pub reads : Waits (RwLock T) (Unit {0})
  reads = record {
    wait_of = λ l. l.wait;
    with_wait = λ l q. record l { wait = q };
    attempt = try_acquire_read;
    wait_of-with_wait = λ l q. refl;
    wait_of-attempt = wait-try_acquire_read;
  }

  abbrev pub writes : Waits (RwLock T) (Unit {0})
  writes = record {
    wait_of = λ l. l.wait;
    with_wait = λ l q. record l { wait = q };
    attempt = try_write;
    wait_of-with_wait = λ l q. refl;
    wait_of-attempt = wait-try_write;
  }

  -- One poll of `read` and of `write`, with what others do before and after the registration.
  unfoldable pub poll_read :
      (RwLock T → RwLock T) → (RwLock T → RwLock T) → RwLock T → ℕ → RwLock T × Poll (Unit {0})
  poll_read = poll_with reads (λ l. true)

  unfoldable pub poll_write :
      (RwLock T → RwLock T) → (RwLock T → RwLock T) → RwLock T → ℕ → RwLock T × Poll (Unit {0})
  poll_write = poll_with writes (λ l. not (WaitQueue.has_waiters l.wait))

  unfoldable pub wake_all : RwLock T → RwLock T
  wake_all l = record l { wait = WaitQueue.wake_all l.wait }

  -- The first access of a read guard's `Drop`; the second is made if the old state was 1.
  unfoldable pub leave_read : RwLock T → RwLock T
  leave_read l = record l { state = wrapping_sub l.state 1 }

  unfoldable pub wake_if_last : ℕ → RwLock T → RwLock T
  unfolding wake_all
  wake_if_last prev l = if prev == 1 then wake_all l else l

  -- A read guard's `Drop`, with what others do between its accesses.
  unfoldable pub drop_read : (RwLock T → RwLock T) → RwLock T → RwLock T
  unfolding leave_read wake_if_last
  drop_read between l = wake_if_last l.state (between (leave_read l))

  unfoldable pub leave_write : RwLock T → RwLock T
  leave_write l = record l { state = 0 }

  unfoldable pub drop_write : (RwLock T → RwLock T) → RwLock T → RwLock T
  unfolding leave_write wake_all
  drop_write between l = wake_all (between (leave_write l))

  unfoldable pub set_contents : RwLock T → T → RwLock T
  set_contents l t = record l { contents = t }

-- What other tasks can do between two accesses of a poll.
pub data Event {ℓ} (T : Type ℓ) : Type ℓ where
  polls_read : ℕ → Event T
  polls_write : ℕ → Event T
  tries_read : Event T
  tries_write : Event T
  leaves_read : Event T
  leaves_write : Event T
  wakes_all : Event T
  assigns : T → Event T

module _ {ℓ} {T : Type ℓ} where
  unfoldable pub step : RwLock T → Event T → RwLock T
  unfolding try_acquire_read try_write poll_read poll_write leave_read leave_write wake_all
      set_contents
  step l (polls_read w) = (poll_read (λ k. k) (λ k. k) l w).0
  step l (polls_write w) = (poll_write (λ k. k) (λ k. k) l w).0
  step l tries_read = (try_acquire_read l).0
  step l tries_write = (try_write l).0
  step l leaves_read = leave_read l
  step l leaves_write = leave_write l
  step l wakes_all = wake_all l
  step l (assigns t) = set_contents l t

  unfoldable pub run : List (Event T) → RwLock T → RwLock T
  run [] l = l
  run (e ∷ es) l = run es (step l e)

-- ===== src/Sync/Notify.antt =====
-- `Notify` of dtact-util/src/sync/notify.rs: a flag that holds at most one permit, and a wait queue.
pub mod Permit
pub mod Tests
use dtact.Base.{◌≡◌, ℕ, refl, Bool, true, false, Option, none, some, List, [], ◌∷◌}
use dtact.Sync.Poll.{Poll, ready, pending}
use dtact.Sync.WaitQueue
use dtact.Sync.WaitQueue.{WaitQueue}
use dtact.Sync.Protocol.{Waits, poll_with}

pub record Notify : Type 0 where
  pub permit : Bool
  pub wait : WaitQueue

unfoldable pub new : Notify
new = record { permit = false; wait = WaitQueue.new }

abbrev pub consume_by : Bool → Notify → Notify × Option (Unit {0})
consume_by true n = (record n { permit = false }, some tt)
consume_by false n = (n, none)

-- `permit.compare_exchange(true, false)`.
unfoldable pub consume : Notify → Notify × Option (Unit {0})
consume n = consume_by n.permit n

pub wait-consume : (n : Notify) → (consume n).0.wait ≡ n.wait
unfolding consume
wait-consume n = by_flag n.permit
  where
    by_flag : (b : Bool) → (consume_by b n).0.wait ≡ n.wait
    by_flag true = refl
    by_flag false = refl

abbrev pub consumes : Waits Notify (Unit {0})
consumes = record {
  wait_of = λ n. n.wait;
  with_wait = λ n q. record n { wait = q };
  attempt = consume;
  wait_of-with_wait = λ n q. refl;
  wait_of-attempt = wait-consume;
}

-- `Notified::poll`, with what others do before and after the registration.
unfoldable pub poll_notified :
    (Notify → Notify) → (Notify → Notify) → Notify → ℕ → Notify × Poll (Unit {0})
poll_notified = poll_with consumes (λ n. true)

-- The two accesses of `notify_one`.
unfoldable pub store_permit : Notify → Notify
store_permit n = record n { permit = true }

unfoldable pub wake : Notify → Notify
wake n = record n { wait = WaitQueue.wake_one n.wait }

unfoldable pub notify_one : Notify → Notify
unfolding store_permit wake
notify_one n = wake (store_permit n)

unfoldable pub notify_waiters : Notify → Notify
notify_waiters n = record n { wait = WaitQueue.wake_all n.wait }

-- What other tasks can do between two accesses of a poll.
pub data Event : Type 0 where
  polls : ℕ → Event
  stores : Event
  wakes : Event
  notifies_waiters : Event

unfoldable pub step : Notify → Event → Notify
unfolding poll_notified store_permit wake notify_waiters
step n (polls w) = (poll_notified (λ k. k) (λ k. k) n w).0
step n stores = store_permit n
step n wakes = wake n
step n notifies_waiters = notify_waiters n

unfoldable pub run : List Event → Notify → Notify
run [] n = n
run (e ∷ es) n = run es (step n e)

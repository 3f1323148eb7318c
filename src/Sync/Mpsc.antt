-- ===== src/Sync/Mpsc.antt =====
-- The channels of dtact-util/src/sync/mpsc.rs. The bounded queue is the list that its
-- `BoundedMpmcQueue` holds, which behaves as a bounded list when it has two cells or more; the unbounded
-- one is the list of its `MpmcStack`, newest first, with the receiver's local deque in front of it.
pub mod Order
pub mod Pending
pub mod Waiting
pub mod Tests
use dtact.Base.{
  ℕ, zero, suc, ◌+◌, ◌-◌, max, ◌≡◌, refl, Bool, true, false, not, ◌||◌, Option, none, some, List,
  [], ◌∷◌, ◌++◌, reverse, ◌==◌, if◌then◌else◌, PushResult, ok, err, wrapping_add, wrapping_sub,
}
use dtact.Lockfree.Mpmc.Fifo.{fifo_push}
use dtact.Sync.Poll.{Poll}
use dtact.Sync.WaitQueue
use dtact.Sync.WaitQueue.{WaitQueue}
use dtact.Sync.Protocol.{Waits, poll_with}

pub data Queue {ℓ} (T : Type ℓ) : Type ℓ where
  bounded : ℕ → List T → Queue T
  unbounded : List T → Queue T

-- `Shared` with the receiver's `local`.
pub record Shared {ℓ} (T : Type ℓ) : Type ℓ where
  pub queue : Queue T
  pub local : List T
  pub sender_count : ℕ
  pub receiver_dropped : Bool
  pub recv_wait : WaitQueue
  pub send_wait : WaitQueue

-- A wake-up of a task that is parked, if there is one.
abbrev pub wake_parked : WaitQueue → WaitQueue
wake_parked q = if WaitQueue.has_waiters q then WaitQueue.wake_one q else q

module _ {ℓ} {T : Type ℓ} where
  abbrev pub with_queue : Queue T → Shared T
  with_queue q = record {
    queue = q;
    local = [];
    sender_count = 1;
    receiver_dropped = false;
    recv_wait = WaitQueue.new;
    send_wait = WaitQueue.new;
  }

  unfoldable pub channel : ℕ → Shared T
  channel capacity = with_queue (bounded (max capacity 1) [])

  unfoldable pub unbounded_channel : Shared T
  unbounded_channel = with_queue (unbounded [])

  abbrev pub push_bounded : ℕ → List T × PushResult T → Queue T × PushResult T
  push_bounded capacity (xs, r) = (bounded capacity xs, r)

  unfoldable pub try_push : Queue T → T → Queue T × PushResult T
  unfolding fifo_push
  try_push (bounded capacity xs) v = push_bounded capacity (fifo_push capacity xs v)
  try_push (unbounded xs) v = (unbounded (v ∷ xs), ok)

  abbrev pub pushed : Shared T → Queue T × PushResult T → Shared T × Option (PushResult T)
  pushed c (q, ok) = (record c { queue = q; recv_wait = wake_parked c.recv_wait }, some ok)
  pushed c (q, err v) = (record c { queue = q }, none)

  abbrev pub send_by : Bool → T → Shared T → Shared T × Option (PushResult T)
  send_by true v c = (c, some (err v))
  send_by false v c = pushed c (try_push c.queue v)

  -- One attempt of `poll_send`: closed, pushed, or full.
  unfoldable pub attempt_send : T → Shared T → Shared T × Option (PushResult T)
  attempt_send v c = send_by c.receiver_dropped v c

  -- `UnboundedSender::send`.
  abbrev pub sent : Shared T → Queue T × PushResult T → Shared T × PushResult T
  sent c (q, r) = (record c { queue = q; recv_wait = WaitQueue.wake_one c.recv_wait }, r)

  unfoldable pub send : T → Shared T → Shared T × PushResult T
  unfolding try_push
  send v c = if c.receiver_dropped then (c, err v) else sent c (try_push c.queue v)

  unfoldable pub is_closed : Shared T → Bool
  is_closed c = c.receiver_dropped

  -- The refill of the local deque.
  abbrev pub pop_front : List T → List T × Option T
  pop_front [] = ([], none)
  pop_front (x ∷ xs) = (xs, some x)

  abbrev pub refill : List T → Queue T × (List T × Option T)
  refill xs = (unbounded [], pop_front (reverse xs))

  abbrev pub pop_queue : Queue T → List T → Queue T × (List T × Option T)
  pop_queue (bounded capacity []) local = (bounded capacity [], (local, none))
  pop_queue (bounded capacity (x ∷ xs)) local = (bounded capacity xs, (local, some x))
  pop_queue (unbounded xs) (y ∷ local) = (unbounded xs, (local, some y))
  pop_queue (unbounded xs) [] = refill xs

  abbrev pub popped : Shared T → Queue T × (List T × Option T) → Shared T × Option T
  popped c (q, (local, none)) = (record c { queue = q; local = local }, none)
  popped c (q, (local, some v)) =
      (record c { queue = q; local = local; send_wait = wake_parked c.send_wait }, some v)

  unfoldable pub try_pop : Shared T → Shared T × Option T
  try_pop c = popped c (pop_queue c.queue c.local)

  abbrev pub last_pop : Shared T × Option T → Shared T × Option (Option T)
  last_pop (c, r) = (c, some r)

  abbrev pub or_closed : Shared T × Option T → Shared T × Option (Option T)
  or_closed (c, some v) = (c, some (some v))
  or_closed (c, none) = if c.sender_count == 0 then last_pop (try_pop c) else (c, none)

  -- One attempt of `poll_recv`: an element, the end of a closed channel, or nothing yet.
  unfoldable pub attempt_recv : Shared T → Shared T × Option (Option T)
  attempt_recv c = or_closed (try_pop c)

  unfoldable pub clone_sender : Shared T → Shared T
  clone_sender c = record c { sender_count = wrapping_add c.sender_count 1 }

  unfoldable pub drop_sender : Shared T → Shared T
  drop_sender c = record c {
    sender_count = wrapping_sub c.sender_count 1;
    recv_wait = if c.sender_count == 1 then WaitQueue.wake_all c.recv_wait else c.recv_wait;
  }

  unfoldable pub drop_receiver : Shared T → Shared T
  drop_receiver c = record c { receiver_dropped = true; send_wait = WaitQueue.wake_all c.send_wait }

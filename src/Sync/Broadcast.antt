-- ===== src/Sync/Broadcast.antt =====
-- The broadcast channel of dtact-util/src/sync/broadcast.rs, with the cursor of one receiver. Sequence
-- numbers are 64-bit words; the last two mark a slot that was never written and one that is being
-- written.
pub mod Lag
pub mod Tests
use Prim.Native.Nat.{Ordering, compare}
use dtact.Base.{
  ℕ, zero, suc, ◌+◌, ◌-◌, ◌%◌, ◌^◌, max, Bool, true, false, ◌||◌, Option, none, some, List, [], ◌∷◌,
  ◌==◌, if◌then◌else◌, update, wrapping_add, wrapping_sub, PushResult, ok, err,
}
use dtact.Sync.WaitQueue
use dtact.Sync.WaitQueue.{WaitQueue}

abbrev pub unset : ℕ
unset = 2 ^ 64 - 1

abbrev pub transient : ℕ
transient = 2 ^ 64 - 2

pub record Slot {ℓ} (T : Type ℓ) : Type ℓ where
  pub seq : ℕ
  pub value : Option T

-- `strong_count` counts the handles of the shared state, those of senders and receivers.
pub record Shared {ℓ} (T : Type ℓ) : Type ℓ where
  pub slots : ℕ → Slot T
  pub capacity : ℕ
  pub next_seq : ℕ
  pub sender_count : ℕ
  pub strong_count : ℕ
  pub wait : WaitQueue
  pub cursor : ℕ

-- What a receiver gets: what it reads from a slot, or how far it lags, or the end.
pub data Received {ℓ} (T : Type ℓ) : Type ℓ where
  value_of : Option T → Received T
  lagged : ℕ → Received T
  closed : Received T

module _ {ℓ} {T : Type ℓ} where
  unfoldable pub channel : ℕ → Shared T
  channel capacity = record {
    slots = λ i. record { seq = unset; value = none };
    capacity = max capacity 1;
    next_seq = 0;
    sender_count = 1;
    strong_count = 2;
    wait = WaitQueue.new;
    cursor = 0;
  }

  -- `saturating_sub`.
  unfoldable pub receiver_count : Shared T → ℕ
  receiver_count c = c.strong_count - c.sender_count

  -- The accesses of `send`: the sequence number is taken, the slot is marked, filled and published.
  unfoldable pub take_seq : Shared T → Shared T
  take_seq c = record c { next_seq = wrapping_add c.next_seq 1 }

  unfoldable pub set_slot : ℕ → Slot T → Shared T → Shared T
  set_slot i s c = record c { slots = update c.slots i s }

  unfoldable pub wake_parked : Shared T → Shared T
  wake_parked c = record c {
    wait = if WaitQueue.has_waiters c.wait then WaitQueue.wake_all c.wait else c.wait;
  }

  -- `send`, which nobody interrupts.
  unfoldable pub fill : T → Shared T → Shared T
  unfolding take_seq set_slot wake_parked
  fill v c =
      let i = c.next_seq % c.capacity in
      let marked =
        set_slot i (record { seq = transient; value = (c.slots i).value }) (take_seq c) in
      let filled = set_slot i (record { seq = transient; value = some v }) marked in
      wake_parked (set_slot i (record { seq = c.next_seq; value = some v }) filled)

  unfoldable pub send : T → Shared T → Shared T × PushResult T
  unfolding fill receiver_count
  send v c = if receiver_count c == 0 then (c, err v) else (fill v c, ok)

  abbrev pub recv_by : Ordering → Shared T → Slot T → Shared T × Option (Received T)
  recv_by Ordering.eq c s = (record c { cursor = wrapping_add c.cursor 1 }, some (value_of s.value))
  recv_by Ordering.lt c s = (record c { cursor = s.seq }, some (lagged (s.seq - c.cursor)))
  recv_by Ordering.gt c s = (c, none)

  abbrev pub recv_slot : Shared T → Slot T → Shared T × Option (Received T)
  recv_slot c s =
      if (s.seq == unset) || (s.seq == transient)
      then (c, none)
      else recv_by (compare c.cursor s.seq) c s

  -- `try_recv_one`, which nobody interrupts, so that its second look at the sequence number finds the
  -- first one.
  unfoldable pub try_recv_one : Shared T → Shared T × Option (Received T)
  try_recv_one c = recv_slot c (c.slots (c.cursor % c.capacity))

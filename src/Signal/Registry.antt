-- ===== src/Signal/Registry.antt =====
-- The registry of signal listeners of dtact-util/src/signal/registry.rs. A listener's waker is an
-- `AtomicWakerSlot`, called by one thread at a time here.
pub mod Broadcast
pub mod Tests
use dtact.Base.{
  ℕ, zero, suc, ◌+◌, ◌-◌, Bool, true, false, Option, none, some, ltb, leb, ◌==◌, if◌then◌else◌,
  List, [], ◌∷◌, update, wrapping_add,
}
use dtact.Lockfree.WakerSlot
use dtact.Lockfree.WakerSlot.{AtomicWakerSlot}
use dtact.Sync.Poll.{Poll, ready, pending}

abbrev pub max_listeners : ℕ
max_listeners = 16

pub record ListenerState : Type 0 where
  pub pending : ℕ
  pub waker : AtomicWakerSlot
  pub dead : Bool

-- An empty slot is a listener that is being registered.
pub record ListenerRegistry : Type 0 where
  pub slots : ℕ → Option ListenerState
  pub len : ℕ

unfoldable pub new_state : ListenerState
new_state = record { pending = 0; waker = WakerSlot.new; dead = false }

unfoldable pub new : ListenerRegistry
new = record { slots = λ i. none; len = 0 }

abbrev pub deliver_to : Bool → ListenerState → ListenerState
deliver_to true l = l
deliver_to false l = record l {
  pending = wrapping_add l.pending 1;
  waker = WakerSlot.take_and_wake l.waker;
}

unfoldable pub deliver : ListenerState → ListenerState
deliver l = deliver_to l.dead l

abbrev pub recv_by : ℕ → ListenerState → ListenerState × Poll (Unit {0})
recv_by zero l = (l, pending)
recv_by (suc n) l = (record l { pending = n }, ready tt)

-- `poll_recv`, with what others do between the registration and the second look; the loop goes
-- round at most once more.
unfoldable pub poll_recv :
    (ListenerState → ListenerState) → ListenerState → ℕ → ListenerState × Poll (Unit {0})
poll_recv between l w = first_look l.pending
  where
    registered : ListenerState
    registered = between (record l { waker = WakerSlot.register w l.waker })

    first_look : ℕ → ListenerState × Poll (Unit {0})
    first_look zero = recv_by registered.pending registered
    first_look (suc n) = recv_by (suc n) l

unfoldable pub mark_dead : ListenerState → ListenerState
mark_dead l = record l { dead = true }

-- `register` answers the index of the new listener; `none` if the assertion fails, after the count
-- has been raised.
abbrev pub register_at : ℕ → ListenerRegistry → ListenerRegistry × Option ℕ
register_at idx r =
    if ltb idx max_listeners
    then (
      record { slots = update r.slots idx (some new_state); len = wrapping_add idx 1 },
      some idx,
    )
    else (record r { len = wrapping_add idx 1 }, none)

unfoldable pub register : ListenerRegistry → ListenerRegistry × Option ℕ
register r = register_at r.len r

abbrev pub deliver_slot : Option ListenerState → Option ListenerState
deliver_slot none = none
deliver_slot (some l) = some (deliver l)

-- The loop of `broadcast` over the first `n` slots, the last one first: the slots are independent.
unfoldable pub deliver_all : ℕ → (ℕ → Option ListenerState) → ℕ → Option ListenerState
deliver_all zero slots = slots
deliver_all (suc n) slots = deliver_all n (update slots n (deliver_slot (slots n)))

-- `none` when the slice of the slots panics, with nothing delivered.
unfoldable pub broadcast : ListenerRegistry → Option ListenerRegistry
broadcast r =
    if leb r.len max_listeners then some (record r { slots = deliver_all r.len r.slots }) else none

-- A call on the registry, or on the listener of a slot: `poll_recv`, with nothing in between, and the
-- drop of its guard.
pub data Op : Type 0 where
  registers : Op
  broadcasts : Op
  recvs : ℕ → ℕ → Op
  drops : ℕ → Op

abbrev pub or_as_before : ListenerRegistry → Option ListenerRegistry → ListenerRegistry
or_as_before r none = r
or_as_before r (some r') = r'

abbrev pub at_slot : (ListenerState → ListenerState) → Option ListenerState → Option ListenerState
at_slot f none = none
at_slot f (some l) = some (f l)

-- The state that a call leaves, also when it panics.
unfoldable pub step : Op → ListenerRegistry → ListenerRegistry
step registers r = (register r).0
step broadcasts r = or_as_before r (broadcast r)
step (recvs i w) r = record r {
  slots = update r.slots i (at_slot (λ l. (poll_recv (λ k. k) l w).0) (r.slots i));
}
step (drops i) r = record r { slots = update r.slots i (at_slot mark_dead (r.slots i)) }

unfoldable pub run : List Op → ListenerRegistry → ListenerRegistry
run [] r = r
run (o ∷ os) r = run os (step o r)

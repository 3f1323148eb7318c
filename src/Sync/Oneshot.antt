-- ===== src/Sync/Oneshot.antt =====
-- The one-value channel of dtact-util/src/sync/oneshot.rs. The sender's side is a program of one
-- access a step, so that its accesses can fall anywhere in the receiver's.
pub mod Arrival
pub mod Delivery
pub mod Tests
use dtact.Base.{
  ◌≡◌, ℕ, refl, Bool, true, false, Option, none, some, List, [], ◌∷◌, ◌++◌, if◌then◌else◌,
  PushResult, ok, err,
}
use dtact.Sync.Poll.{Poll, ready, pending}
use dtact.Sync.WaitQueue
use dtact.Sync.WaitQueue.{WaitQueue}
use dtact.Sync.Protocol.{Waits, poll_with}

pub record Inner {ℓ} (T : Type ℓ) : Type ℓ where
  pub value : Option T
  pub sent : Bool
  pub sender_dropped : Bool
  pub receiver_dropped : Bool
  pub wait : WaitQueue

-- What the receiver gets: `Ok(value)` or `Err(RecvError)`.
pub data Received {ℓ} (T : Type ℓ) : Type ℓ where
  value_of : T → Received T
  recv_error : Received T

-- The accesses of `Sender::send` after its first, and those of `Sender`'s `Drop`, which always
-- follows.
pub data Access {ℓ} (T : Type ℓ) : Type ℓ where
  writes : T → Access T
  publishes : Access T
  wakes : Access T
  closes : Access T

module _ {ℓ} {T : Type ℓ} where
  unfoldable pub channel : Inner T
  channel = record {
    value = none;
    sent = false;
    sender_dropped = false;
    receiver_dropped = false;
    wait = WaitQueue.new;
  }

  unfoldable pub access : Inner T → Access T → Inner T
  access c (writes t) = record c { value = some t }
  access c publishes = record c { sent = true }
  access c wakes = record c { wait = WaitQueue.wake_all c.wait }
  access c closes = record c { sender_dropped = true }

  unfoldable pub run : List (Access T) → Inner T → Inner T
  run [] c = c
  run (a ∷ rest) c = run rest (access c a)

  -- `Sender`'s `Drop`.
  abbrev pub drop_sender : List (Access T)
  drop_sender = closes ∷ wakes ∷ []

  -- `Sender::send` once it has seen the receiver alive.
  abbrev pub deliver : T → List (Access T)
  deliver t = writes t ∷ publishes ∷ wakes ∷ drop_sender

  -- `Sender::send`, which nobody interrupts. The sender is dropped in either case.
  unfoldable pub send : T → Inner T → Inner T × PushResult T
  send t c = if c.receiver_dropped then (run drop_sender c, err t) else (run (deliver t) c, ok)

  unfoldable pub is_closed : Inner T → Bool
  is_closed c = c.receiver_dropped

  unfoldable pub drop_receiver : Inner T → Inner T
  drop_receiver c = record c { receiver_dropped = true }

  -- `Option::ok_or(RecvError)`.
  abbrev pub ok_or : Option T → Received T
  ok_or (some t) = value_of t
  ok_or none = recv_error

  abbrev pub take_value : Inner T → Inner T × Option (Received T)
  take_value c = (record c { value = none }, some (ok_or c.value))

  -- The second look at `sent`, of a receiver that has seen the sender dropped.
  abbrev pub look_again : Bool → Inner T → Inner T × Option (Received T)
  look_again true c = take_value c
  look_again false c = (c, some recv_error)

  abbrev pub look_dropped : Bool → (Inner T → Inner T) → Inner T → Inner T × Option (Received T)
  look_dropped true later c = let c' = later c in look_again c'.sent c'
  look_dropped false later c = (c, none)

  abbrev pub look_sent :
      Bool → (Inner T → Inner T) → (Inner T → Inner T) → Inner T → Inner T × Option (Received T)
  look_sent true soon later c = take_value c
  look_sent false soon later c = let c' = soon c in look_dropped c'.sender_dropped later c'

  -- `Receiver::try_take`, with what the sender does after each of its first two loads.
  unfoldable pub try_take :
      (Inner T → Inner T) → (Inner T → Inner T) → Inner T → Inner T × Option (Received T)
  try_take soon later c = look_sent c.sent soon later c

  abbrev pub take_now : Inner T → Inner T × Option (Received T)
  take_now c = try_take (λ k. k) (λ k. k) c

  pub wait-take_now : (c : Inner T) → (take_now c).0.wait ≡ c.wait
  unfolding try_take
  wait-take_now c = by_sent c.sent
    where
      by_again : (b : Bool) → (look_again b c).0.wait ≡ c.wait
      by_again true = refl
      by_again false = refl

      by_dropped : (b : Bool) → (look_dropped b (λ k. k) c).0.wait ≡ c.wait
      by_dropped true = by_again c.sent
      by_dropped false = refl

      by_sent : (b : Bool) → (look_sent b (λ k. k) (λ k. k) c).0.wait ≡ c.wait
      by_sent true = refl
      by_sent false = by_dropped c.sender_dropped

  abbrev pub takes : Waits (Inner T) (Received T)
  takes = record {
    wait_of = λ c. c.wait;
    with_wait = λ c q. record c { wait = q };
    attempt = take_now;
    wait_of-with_wait = λ c q. refl;
    wait_of-attempt = wait-take_now;
  }

  -- `Receiver`'s `poll`, with what the sender does before and after the registration.
  unfoldable pub poll :
      (Inner T → Inner T) → (Inner T → Inner T) → Inner T → ℕ → Inner T × Poll (Received T)
  poll = poll_with takes (λ c. true)

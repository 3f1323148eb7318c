-- ===== src/Sync/Watch.antt =====
-- The latest-value channel of dtact-util/src/sync/watch.rs, with the version that one receiver has
-- seen. Versions are 64-bit words.
pub mod Changes
pub mod Tests
use dtact.Base.{
  ◌≡◌, ◌∙◌, ℕ, ◌+◌, ◌-◌, refl, Bool, true, false, Option, none, some, List, [], ◌∷◌, ◌==◌,
  if◌then◌else◌, wrapping_add, wrapping_sub,
}
use dtact.Sync.Poll.{Poll}
use dtact.Sync.WaitQueue
use dtact.Sync.WaitQueue.{WaitQueue}
use dtact.Sync.Protocol.{Waits, poll_with}

pub record Shared {ℓ} (T : Type ℓ) : Type ℓ where
  pub value : T
  pub version : ℕ
  pub sender_count : ℕ
  pub receiver_count : ℕ
  pub wait : WaitQueue
  pub seen_version : ℕ

-- What `changed` answers: `Ok(())` or `Err(RecvError)`.
pub data Changed : Type 0 where
  changed : Changed
  recv_error : Changed

abbrev pub woken_if : Bool → WaitQueue → WaitQueue
woken_if true q = WaitQueue.wake_all q
woken_if false q = q

module _ {ℓ} {T : Type ℓ} where
  unfoldable pub channel : T → Shared T
  channel init = record {
    value = init;
    version = 0;
    sender_count = 1;
    receiver_count = 1;
    wait = WaitQueue.new;
    seen_version = 0;
  }

  -- The accesses of `send`.
  unfoldable pub write : T → Shared T → Shared T
  write t c = record c { value = t }

  unfoldable pub bump : Shared T → Shared T
  bump c = record c { version = wrapping_add c.version 1 }

  unfoldable pub wake_all : Shared T → Shared T
  wake_all c = record c { wait = WaitQueue.wake_all c.wait }

  unfoldable pub send : T → Shared T → Shared T
  unfolding write bump wake_all
  send t c = wake_all (bump (write t c))

  unfoldable pub clone_sender : Shared T → Shared T
  clone_sender c = record c { sender_count = wrapping_add c.sender_count 1 }

  unfoldable pub drop_sender : Shared T → Shared T
  drop_sender c = record c {
    sender_count = wrapping_sub c.sender_count 1;
    wait = woken_if (c.sender_count == 1) c.wait;
  }

  -- Cloning and dropping a receiver, and whether one is left.
  unfoldable pub clone_receiver : Shared T → Shared T
  clone_receiver c = record c { receiver_count = wrapping_add c.receiver_count 1 }

  unfoldable pub drop_receiver : Shared T → Shared T
  drop_receiver c = record c { receiver_count = wrapping_sub c.receiver_count 1 }

  unfoldable pub is_closed : Shared T → Bool
  is_closed c = c.receiver_count == 0

  unfoldable pub borrow_and_update : Shared T → Shared T × T
  borrow_and_update c = (record c { seen_version = c.version }, c.value)

  -- `try_observe_change`.
  abbrev pub observe_by : Bool → Shared T → Shared T × Bool
  observe_by true c = (c, false)
  observe_by false c = (record c { seen_version = c.version }, true)

  unfoldable pub try_observe_change : Shared T → Shared T × Bool
  try_observe_change c = observe_by (c.version == c.seen_version) c

  abbrev pub last_look : Shared T × Bool → Shared T × Option Changed
  last_look (c, true) = (c, some changed)
  last_look (c, false) = (c, some recv_error)

  abbrev pub closed_by : Bool → Shared T → Shared T × Option Changed
  closed_by true c = last_look (try_observe_change c)
  closed_by false c = (c, none)

  abbrev pub or_closed : Shared T × Bool → Shared T × Option Changed
  or_closed (c, true) = (c, some changed)
  or_closed (c, false) = closed_by (c.sender_count == 0) c

  -- One attempt of `poll_changed`.
  unfoldable pub attempt_change : Shared T → Shared T × Option Changed
  attempt_change c = or_closed (try_observe_change c)

  wait-observe_by : (b : Bool) (c : Shared T) → (observe_by b c).0.wait ≡ c.wait
  wait-observe_by true c = refl
  wait-observe_by false c = refl

  wait-last_look : (p : Shared T × Bool) → (last_look p).0.wait ≡ p.0.wait
  wait-last_look (c, true) = refl
  wait-last_look (c, false) = refl

  wait-closed_by : (b : Bool) (c : Shared T) → (closed_by b c).0.wait ≡ c.wait
  unfolding try_observe_change
  wait-closed_by true c =
      wait-last_look (try_observe_change c) ∙ wait-observe_by (c.version == c.seen_version) c
  wait-closed_by false c = refl

  wait-or_closed : (p : Shared T × Bool) → (or_closed p).0.wait ≡ p.0.wait
  wait-or_closed (c, true) = refl
  wait-or_closed (c, false) = wait-closed_by (c.sender_count == 0) c

  pub wait-attempt_change : (c : Shared T) → (attempt_change c).0.wait ≡ c.wait
  unfolding attempt_change try_observe_change
  wait-attempt_change c =
      wait-or_closed (try_observe_change c) ∙ wait-observe_by (c.version == c.seen_version) c

  abbrev pub observes : Waits (Shared T) Changed
  observes = record {
    wait_of = λ c. c.wait;
    with_wait = λ c q. record c { wait = q };
    attempt = attempt_change;
    wait_of-with_wait = λ c q. refl;
    wait_of-attempt = wait-attempt_change;
  }

  unfoldable pub poll_changed :
      (Shared T → Shared T) → (Shared T → Shared T) → Shared T → ℕ → Shared T × Poll Changed
  poll_changed = poll_with observes (λ c. true)

  -- Any number of values sent, one after the other.
  unfoldable pub send_all : List T → Shared T → Shared T
  send_all [] c = c
  send_all (t ∷ ts) c = send_all ts (send t c)

-- What the senders can do between two accesses of a poll.
pub data Access {ℓ} (T : Type ℓ) : Type ℓ where
  writes : T → Access T
  bumps : Access T
  wakes : Access T
  clones : Access T
  drops : Access T

module _ {ℓ} {T : Type ℓ} where
  unfoldable pub access : Shared T → Access T → Shared T
  unfolding write bump wake_all clone_sender drop_sender
  access c (writes t) = write t c
  access c bumps = bump c
  access c wakes = wake_all c
  access c clones = clone_sender c
  access c drops = drop_sender c

  unfoldable pub run : List (Access T) → Shared T → Shared T
  run [] c = c
  run (a ∷ rest) c = run rest (access c a)

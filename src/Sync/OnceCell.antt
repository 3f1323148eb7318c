-- ===== src/Sync/OnceCell.antt =====
-- `OnceCell<T>` of dtact-util/src/sync/once_cell.rs. The caller that moves the state to
-- `INITIALIZING` holds the cell's only token, runs its initializer and publishes the value.
pub mod Once
pub mod Tests
use dtact.Base.{
  ◌≡◌, ℕ, refl, Bool, true, false, Option, none, some, List, [], ◌∷◌, PushResult, ok, err,
}
use dtact.Sync.Poll.{Poll, ready, pending}
use dtact.Sync.WaitQueue
use dtact.Sync.WaitQueue.{WaitQueue}
use dtact.Sync.Protocol.{Waits, poll_with}

pub data Phase : Type 0 where
  uninit : Phase
  initializing : Phase
  init : Phase

pub record OnceCell {ℓ} (T : Type ℓ) : Type ℓ where
  pub state : Phase
  pub contents : Option T
  pub wait : WaitQueue

abbrev pub is_uninit : Phase → Bool
is_uninit uninit = true
is_uninit initializing = false
is_uninit init = false

module _ {ℓ} {T : Type ℓ} where
  unfoldable pub new : OnceCell T
  new = record { state = uninit; contents = none; wait = WaitQueue.new }

  unfoldable pub new_with : T → OnceCell T
  new_with t = record { state = init; contents = some t; wait = WaitQueue.new }

  abbrev pub get_by : Phase → Option T → Option T
  get_by uninit v = none
  get_by initializing v = none
  get_by init v = v

  unfoldable pub get : OnceCell T → Option T
  get c = get_by c.state c.contents

  abbrev pub claim_by : Phase → OnceCell T → OnceCell T × Bool
  claim_by uninit c = (record c { state = initializing }, true)
  claim_by initializing c = (c, false)
  claim_by init c = (c, false)

  -- `compare_exchange(UNINIT, INITIALIZING)`: `true` gives the token.
  unfoldable pub claim : OnceCell T → OnceCell T × Bool
  claim c = claim_by c.state c

  -- The accesses of the holder of the token, once it has the value.
  unfoldable pub write : T → OnceCell T → OnceCell T
  write t c = record c { contents = some t }

  unfoldable pub finish : OnceCell T → OnceCell T
  finish c = record c { state = init }

  unfoldable pub wake_all : OnceCell T → OnceCell T
  wake_all c = record c { wait = WaitQueue.wake_all c.wait }

  unfoldable pub publish : T → OnceCell T → OnceCell T
  unfolding write finish wake_all
  publish t c = wake_all (finish (write t c))

  abbrev pub set_by : OnceCell T × Bool → T → OnceCell T × PushResult T
  set_by (c, true) t = (publish t c, ok)
  set_by (c, false) t = (c, err t)

  -- `set`, which nobody interrupts.
  unfoldable pub set : T → OnceCell T → OnceCell T × PushResult T
  set t c = set_by (claim c) t

  -- One turn of `get_or_init`'s loop, up to its first `await`: the value is there; or the caller
  -- holds the token, and its initializer runs; or it waits for the other caller.
  abbrev pub turn_by : Option T → OnceCell T → OnceCell T × (Option T × Bool)
  turn_by (some t) c = (c, (some t, false))
  turn_by none c = let (c', token) = claim c in (c', (none, token))

  unfoldable pub turn : OnceCell T → OnceCell T × (Option T × Bool)
  turn c = turn_by (get c) c

  abbrev pub look : Phase → OnceCell T → OnceCell T × Option (Unit {0})
  look uninit c = (c, none)
  look initializing c = (c, none)
  look init c = (c, some tt)

  unfoldable pub is_init : OnceCell T → OnceCell T × Option (Unit {0})
  is_init c = look c.state c

  pub wait-is_init : (c : OnceCell T) → (is_init c).0.wait ≡ c.wait
  unfolding is_init
  wait-is_init c = by_phase c.state
    where
      by_phase : (p : Phase) → (look p c).0.wait ≡ c.wait
      by_phase uninit = refl
      by_phase initializing = refl
      by_phase init = refl

  abbrev pub looks : Waits (OnceCell T) (Unit {0})
  looks = record {
    wait_of = λ c. c.wait;
    with_wait = λ c q. record c { wait = q };
    attempt = is_init;
    wait_of-with_wait = λ c q. refl;
    wait_of-attempt = wait-is_init;
  }

  unfoldable pub poll_wait_for_init :
      (OnceCell T → OnceCell T)
      → (OnceCell T → OnceCell T)
      → OnceCell T
      → ℕ
      → OnceCell T × Poll (Unit {0})
  poll_wait_for_init = poll_with looks (λ c. true)

  unfoldable pub into_inner : OnceCell T → Option T
  into_inner c = c.contents

-- The accesses that callers make to the cell.
pub data Access {ℓ} (T : Type ℓ) : Type ℓ where
  claims : Access T
  writes : T → Access T
  finishes : Access T
  wakes : Access T
  polls : ℕ → Access T

module _ {ℓ} {T : Type ℓ} where
  unfoldable pub access : OnceCell T → Access T → OnceCell T
  unfolding claim write finish wake_all poll_wait_for_init
  access c claims = (claim c).0
  access c (writes t) = write t c
  access c finishes = finish c
  access c wakes = wake_all c
  access c (polls w) = (poll_wait_for_init (λ k. k) (λ k. k) c w).0

  unfoldable pub run : List (Access T) → OnceCell T → OnceCell T
  run [] c = c
  run (a ∷ rest) c = run rest (access c a)

-- ===== src/Sync/Barrier.antt =====
-- `Barrier` of dtact-util/src/sync/barrier.rs. `usize` counters wrap.
pub mod Rounds
pub mod Tests
use dtact.Base.{
  ◌≡◌, ℕ, zero, suc, refl, Bool, true, false, not, Option, none, some, List, [], ◌∷◌, ◌==◌,
  if◌then◌else◌, wrapping_add,
}
use dtact.Sync.Poll.{Poll, ready, pending}
use dtact.Sync.WaitQueue
use dtact.Sync.WaitQueue.{WaitQueue}
use dtact.Sync.Protocol.{Waits, poll_with}

pub record Barrier : Type 0 where
  pub n : ℕ
  pub count : ℕ
  pub generation : ℕ
  pub wait : WaitQueue

unfoldable pub new : ℕ → Barrier
new n = record { n = if n == 0 then 1 else n; count = 0; generation = 0; wait = WaitQueue.new }

unfoldable pub wake_all : Barrier → Barrier
wake_all b = record b { wait = WaitQueue.wake_all b.wait }

-- The accesses of the arrival that completes a generation.
unfoldable pub reset : Barrier → Barrier
reset b = record b { count = 0 }

unfoldable pub advance : Barrier → Barrier
advance b = record b { generation = wrapping_add b.generation 1 }

unfoldable pub count_in : Barrier → Barrier
count_in b = record b { count = wrapping_add b.count 1 }

-- `wait` up to its first `await`, which nobody interrupts: `true` for the leader.
unfoldable pub arrive : Barrier → Barrier × Bool
unfolding count_in reset advance wake_all
arrive b =
    let b' = count_in b in
    if b'.count == b.n then (wake_all (advance (reset b')), true) else (b', false)

abbrev pub look : Bool → Barrier → Barrier × Option (Unit {0})
look true b = (b, none)
look false b = (b, some tt)

-- Whether the generation is another than the one observed.
unfoldable pub has_advanced : ℕ → Barrier → Barrier × Option (Unit {0})
has_advanced observed b = look (b.generation == observed) b

pub wait-has_advanced : (observed : ℕ) (b : Barrier) → (has_advanced observed b).0.wait ≡ b.wait
unfolding has_advanced
wait-has_advanced observed b = by_test (b.generation == observed)
  where
    by_test : (t : Bool) → (look t b).0.wait ≡ b.wait
    by_test true = refl
    by_test false = refl

abbrev pub looks : ℕ → Waits Barrier (Unit {0})
looks observed = record {
  wait_of = λ b. b.wait;
  with_wait = λ b q. record b { wait = q };
  attempt = has_advanced observed;
  wait_of-with_wait = λ b q. refl;
  wait_of-attempt = wait-has_advanced observed;
}

unfoldable pub poll_generation_advanced :
    (Barrier → Barrier) → (Barrier → Barrier) → Barrier → ℕ → ℕ → Barrier × Poll (Unit {0})
poll_generation_advanced before between b observed w =
    poll_with (looks observed) (λ b. true) before between b w

-- What other tasks can do between two accesses of a poll.
pub data Access : Type 0 where
  counts : Access
  resets : Access
  advances : Access
  wakes : Access
  polls : ℕ → ℕ → Access

unfoldable pub access : Barrier → Access → Barrier
unfolding count_in reset advance wake_all poll_generation_advanced
access b counts = count_in b
access b resets = reset b
access b advances = advance b
access b wakes = wake_all b
access b (polls observed w) = (poll_generation_advanced (λ k. k) (λ k. k) b observed w).0

unfoldable pub run : List Access → Barrier → Barrier
run [] b = b
run (a ∷ rest) b = run rest (access b a)

-- Any number of arrivals, one after the other; their answers, the first one first.
unfoldable pub arrivals : ℕ → Barrier → Barrier × List Bool
arrivals zero b = (b, [])
arrivals (suc k) b =
    let (b', leader) = arrive b in let (b'', leaders) = arrivals k b' in (b'', leader ∷ leaders)

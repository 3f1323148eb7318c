-- ===== src/Sync/Barrier/Rounds.antt =====
-- `Barrier`: who is the leader of a round, and who is let go.
use dtact.Base.{
  ==_of_ne, ℕ, zero, suc, ◌+◌, ◌^◌, ◌<◌, ◌≡◌, refl, ap, ◌∙◌, ◌⊎◌, inl, inr, Bool, true, false, none,
  List, [], ◌∷◌, arith, ◌==◌, wrapping_add, wrapping_add-small,
}
use dtact.Sync.Poll.{ready, pending}
use dtact.Sync.WaitQueue
use dtact.Sync.WaitQueue.{WaitQueue}
use dtact.Sync.WaitQueue.Waiting.{IsOrdered}
use dtact.Sync.WaitQueue.Parked.{Parked}
use dtact.Sync.WaitQueue.Others.{wake_all-Parked, wake_all-IsOrdered}
use dtact.Sync.Protocol.{Keeps, Keeps-id, Keeps-comp}
use dtact.Sync.Protocol.Polls.{poll-Keeps, poll_with-Parked}
use dtact.Sync.Barrier.{
  Barrier, Access, counts, resets, advances, wakes, polls, count_in, reset, advance, wake_all,
  arrive, look, has_advanced, looks, poll_generation_advanced, access, run, arrivals,
}

-- The barrier after the arrival that completes a generation.
abbrev pub completed : Barrier → Barrier
completed b = record {
  n = b.n;
  count = 0;
  generation = wrapping_add b.generation 1;
  wait = WaitQueue.wake_all b.wait;
}

equal : (a b : ℕ) → a ≡ b → (a == b) ≡ true
equal a b e = ground arith

arrive-early :
    (b : Barrier)
    → b.count + 1 < b.n
    → b.n < 2 ^ 64
    → arrive b ≡ (record b { count = b.count + 1 }, false)
unfolding arrive count_in
arrive-early b h k =
    rw
      (
        wrapping_add-small b.count 1 (omega arith),
        ==_of_ne (b.count + 1) b.n (λ e. absurd (omega arith)),
      )
      refl

arrive-last : (b : Barrier) → b.count + 1 ≡ b.n → b.n < 2 ^ 64 → arrive b ≡ (completed b, true)
unfolding arrive count_in reset advance wake_all
arrive-last b h k = rw (wrapping_add-small b.count 1 (omega arith), equal (b.count + 1) b.n h) refl

-- The answers of a round in which `k` arrivals are followed by the last one.
abbrev pub leaders : ℕ → List Bool
leaders zero = true ∷ []
leaders (suc k) = false ∷ leaders k

arrivals-step :
    (k : ℕ) (b b' b'' : Barrier) (l : Bool) (ls : List Bool)
    → arrive b ≡ (b', l)
    → arrivals k b' ≡ (b'', ls)
    → arrivals (suc k) b ≡ (b'', l ∷ ls)
unfolding arrivals
arrivals-step k b b' b'' l ls e f =
    ap (λ x. ((arrivals k x.0).0, x.1 ∷ (arrivals k x.0).1)) e ∙ ap (λ y. (y.0, l ∷ y.1)) f

arrivals-none : (b : Barrier) → arrivals 0 b ≡ (b, [])
unfolding arrivals
arrivals-none b = refl

-- When as many arrivals come, one after the other, as the generation still lacks, the last one
-- alone is the leader, the count is back at 0, the generation is the next one, and `wake_all` has
-- been called once. The number of participants is a word.
pub arrivals-completed :
    (k : ℕ) (b : Barrier)
    → b.count + suc k ≡ b.n
    → b.n < 2 ^ 64
    → arrivals (suc k) b ≡ (completed b, leaders k)
arrivals-completed zero b h w =
    arrivals-step 0 b (completed b) (completed b) true [] (arrive-last b (omega arith) w)
      (arrivals-none (completed b))
arrivals-completed (suc k) b h w =
    arrivals-step (suc k) b (record b { count = b.count + 1 }) (completed b) false (leaders k)
      (arrive-early b (omega arith) w)
      (arrivals-completed k (record b { count = b.count + 1 }) (omega arith) w)

access-Keeps : (observed : ℕ) (a : Access) → Keeps (looks observed) (λ b. access b a)
unfolding access count_in reset advance wake_all poll_generation_advanced
access-Keeps observed counts = record { ordered = λ s o. o; parked = λ s t w o h. h }
access-Keeps observed resets = record { ordered = λ s o. o; parked = λ s t w o h. h }
access-Keeps observed advances = record { ordered = λ s o. o; parked = λ s t w o h. h }
access-Keeps observed wakes = record {
  ordered = λ s. wake_all-IsOrdered s.wait;
  parked = λ s t w. wake_all-Parked t w s.wait;
}
access-Keeps observed (polls other w) =
    let k = poll-Keeps (looks other) (λ b. true) w in
    record { ordered = k.ordered; parked = k.parked }

run-Keeps : (observed : ℕ) (l : List Access) → Keeps (looks observed) (run l)
unfolding run
run-Keeps observed [] = Keeps-id (looks observed)
run-Keeps observed (a ∷ l) =
    Keeps-comp (looks observed) (λ b. access b a) (run l) (access-Keeps observed a)
      (run-Keeps observed l)

same_of_failure :
    (observed : ℕ) (b : Barrier)
    → (has_advanced observed b).1 ≡ none
    → (has_advanced observed b).0.generation ≡ observed
unfolding has_advanced
same_of_failure observed b = by_test (b.generation == observed) refl
  where
    by_test :
        (t : Bool)
        → (b.generation == observed) ≡ t
        → (look t b).1 ≡ none
        → (look t b).0.generation ≡ observed
    by_test true e h = ground arith
    by_test false e h = cc

-- Whatever accesses of others come before and between the steps of a poll, on a wait queue in
-- order: a participant is let go, or it is told to wait, the generation is the one that it
-- observed, and its task is parked (in the queue and valid, or woken).
poll_generation_advanced-Parked :
    (before between : List Access) (b : Barrier) (observed w : ℕ)
    → IsOrdered b.wait
    → let r = poll_generation_advanced (run before) (run between) b observed w in
      (r.1 ≡ ready tt)
      ⊎ ((r.1 ≡ pending) × (r.0.generation ≡ observed) × ((t : ℕ) × Parked t w r.0.wait))
unfolding poll_generation_advanced
poll_generation_advanced-Parked before between b observed w o =
    elim (poll_with-Parked (looks observed) (λ b. true) (run before) (run between) b w
      (run-Keeps observed before) (run-Keeps observed between) o) [
        | inl (a, e) ↦ inl e
        | inr (e, (s, (last, failed)), parked) ↦
            inr (e, ap (λ r. r.generation) last ∙ same_of_failure observed s failed, parked)
      ]

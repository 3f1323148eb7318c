-- ===== src/Sync/Semaphore/Permits.antt =====
-- `Semaphore`: no permit is lost or made up, and a pending `acquire` is not forgotten.
use dtact.Base.{
  granted, ℕ, zero, suc, ◌+◌, ◌^◌, ◌<◌, ◌≡◌, refl, ap, ◌∙◌, ◌⊎◌, inl, inr, not, none, List, [], ◌∷◌,
  arith, wrapping_add-small, In,
}
use dtact.Sync.Poll.{ready, pending}
use dtact.Sync.WaitQueue
use dtact.Sync.WaitQueue.{WaitQueue}
use dtact.Sync.WaitQueue.Waiting.{IsOrdered}
use dtact.Sync.WaitQueue.Parked.{Parked, wake_one-Parked, wake_one-IsOrdered}
use dtact.Sync.WaitQueue.Others.{wake_all-Parked, wake_all-IsOrdered, wake_all-reached}
use dtact.Sync.Protocol.{Keeps, Keeps-id, Keeps-comp}
use dtact.Sync.Protocol.Polls.{poll-Keeps, attempt-Keeps, poll_with-Parked}
use dtact.Sync.Semaphore.{
  Semaphore, Event, tries, polls, releases, wakes, wakes_all, new, take_one, try_acquire_one,
  acquires, poll_acquire, release, wake, wake_all, step, run,
}

step-Keeps : (e : Event) → Keeps acquires (λ s. step s e)
unfolding step release wake wake_all poll_acquire
step-Keeps tries = attempt-Keeps acquires
step-Keeps (polls w) = poll-Keeps acquires (λ s. not (WaitQueue.has_waiters s.wait)) w
step-Keeps (releases n) = record { ordered = λ s o. o; parked = λ s t w o h. h }
step-Keeps wakes = record {
  ordered = λ s. wake_one-IsOrdered s.wait;
  parked = λ s t w. wake_one-Parked t w s.wait;
}
step-Keeps wakes_all = record {
  ordered = λ s. wake_all-IsOrdered s.wait;
  parked = λ s t w. wake_all-Parked t w s.wait;
}

run-Keeps : (es : List Event) → Keeps acquires (run es)
unfolding run
run-Keeps [] = Keeps-id acquires
run-Keeps (e ∷ es) = Keeps-comp acquires (λ s. step s e) (run es) (step-Keeps e) (run-Keeps es)

empty_of_failure :
    (s : Semaphore) → (try_acquire_one s).1 ≡ none → (try_acquire_one s).0.permits ≡ 0
unfolding try_acquire_one
empty_of_failure s = by_permits s.permits refl
  where
    by_permits : (n : ℕ) → s.permits ≡ n → (take_one n s).1 ≡ none → (take_one n s).0.permits ≡ 0
    by_permits zero e h = e
    by_permits (suc n) e h = cc

-- Whatever accesses of others come before and between the steps of a poll of `acquire`, on a wait
-- queue in order: the poll answers with a permit, or it answers `Pending`, no permit is left, and
-- the task is parked (its entry is in the queue and valid, or has been woken).
poll_acquire-Parked :
    (before between : List Event) (s : Semaphore) (w : ℕ)
    → IsOrdered s.wait
    → let r = poll_acquire (run before) (run between) s w in
      (r.1 ≡ ready tt) ⊎ ((r.1 ≡ pending) × (r.0.permits ≡ 0) × ((t : ℕ) × Parked t w r.0.wait))
unfolding poll_acquire
poll_acquire-Parked before between s w o =
    elim (poll_with-Parked acquires (λ s. not (WaitQueue.has_waiters s.wait)) (run before)
      (run between) s w (run-Keeps before) (run-Keeps between) o) [
        | inl (a, e) ↦ inl e
        | inr (e, (s2, (last, failed)), parked) ↦
            inr (e, ap (λ r. r.permits) last ∙ empty_of_failure s2 failed, parked)
      ]

-- `add_permits`, with any accesses of others between its two, wakes every task that was parked
-- before it began.
pub add_permits-reached :
    (between : List Event) (s : Semaphore) (n t w : ℕ)
    → IsOrdered s.wait
    → Parked t w s.wait
    → In t (wake_all (run between (release s n))).wait.woken
unfolding release wake_all
add_permits-reached between s n t w o h =
    let k = run-Keeps between in
    wake_all-reached t w _ (k.ordered (release s n) o) (k.parked (release s n) t w o h)

-- `Holds total held s`: some sequence of accesses reaches `s`; `total` permits were created or
-- added, and `held` of them are out. A permit that is dropped is one that was out.
pub data Holds : ℕ → ℕ → Semaphore → Type 0 where
  created : (n : ℕ) → Holds n 0 (new n)
  tried :
      (total held : ℕ) (s : Semaphore)
      → Holds total held s
      → Holds total (granted (try_acquire_one s).1 + held) (try_acquire_one s).0
  dropped :
      (total held : ℕ) (s : Semaphore) → Holds total (suc held) s → Holds total held (release s 1)
  added :
      (total held n : ℕ) (s : Semaphore)
      → total + n < 2 ^ 64
      → Holds total held s
      → Holds (total + n) held (release s n)
  queued :
      (total held : ℕ) (s : Semaphore) (q : WaitQueue)
      → Holds total held s
      → Holds total held (record s { wait = q })

try_acquire_one-conserves :
    (s : Semaphore) → granted (try_acquire_one s).1 + (try_acquire_one s).0.permits ≡ s.permits
unfolding try_acquire_one
try_acquire_one-conserves s = by_permits s.permits refl
  where
    by_permits :
        (n : ℕ) → s.permits ≡ n → granted (take_one n s).1 + (take_one n s).0.permits ≡ s.permits
    by_permits zero e = omega arith
    by_permits (suc n) e = omega arith

-- Over every interleaving of accesses that starts with a count below 2^64 and adds no permits
-- beyond it, the permits out and the permits left add up to the permits created and added, and
-- the count has not wrapped.
pub Holds-conserved :
    (total held : ℕ) (s : Semaphore)
    → total < 2 ^ 64
    → Holds total held s
    → held + s.permits ≡ total
unfolding new release
Holds-conserved _ _ _ b (created n) = omega arith
Holds-conserved _ _ _ b (tried total held s h) =
    let ih = Holds-conserved total held s b h in let k = try_acquire_one-conserves s in omega arith
Holds-conserved _ _ _ b (dropped total held s h) =
    let ih = Holds-conserved total (suc held) s b h in
    rw (wrapping_add-small s.permits 1 (omega arith)) (omega arith)
Holds-conserved _ _ _ b (added total held n s c h) =
    let ih = Holds-conserved total held s (omega arith) h in
    rw (wrapping_add-small s.permits n (omega arith)) (omega arith)
Holds-conserved _ _ _ b (queued total held s q h) = Holds-conserved total held s b h

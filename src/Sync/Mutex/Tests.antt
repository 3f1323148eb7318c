-- ===== src/Sync/Mutex/Tests.antt =====
-- `Mutex` run on small inputs.
use dtact.Base.{ℕ, ◌≡◌, refl, ◌⊎◌, true, false, [], ◌∷◌, ◌++◌}
use dtact.Sync.Poll.{ready, pending}
use dtact.Sync.WaitQueue.Parked.{Parked, lone, lone-IsOrdered, register-IsOrdered}
use dtact.Sync.Mutex.{Mutex, new, tries, unlocks, wakes, try_lock, poll_lock, unlock, run}
use dtact.Sync.WaitQueue
use dtact.Sync.WaitQueue.Waiting.{waiting, IsOrdered}
use dtact.Sync.Mutex.{drop_guard, drop_lock}
use dtact.Sync.Mutex.Abandon.{drop_guard-abandoned}
use dtact.Sync.Mutex.Exclusion.{Held, created, tried, unlocked, permitted, Held-permitted}
use dtact.Sync.Mutex.Safety.{poll_lock-Parked}

-- Task 7 waits.
abbrev contended : Mutex ℕ
contended = record { locked = true; wait = lone 7; contents = 5 }

abbrev freed : Mutex ℕ
freed = record contended { locked = false }

poll_lock-Parked_example :
    let r = poll_lock (run (unlocks ∷ [])) (run (tries ∷ wakes ∷ [])) contended 9 in
    (r.1 ≡ ready tt) ⊎ ((r.1 ≡ pending) × (r.0.locked ≡ true) × ((t : ℕ) × Parked t 9 r.0.wait))
poll_lock-Parked_example =
    poll_lock-Parked (unlocks ∷ []) (tries ∷ wakes ∷ []) contended 9 (lone-IsOrdered 7)

-- A lock and an unlock.
abbrev used : Mutex ℕ
used = unlock (try_lock (new 5)).0

used-Held : Held 0 used
unfolding try_lock new
used-Held = unlocked 0 (try_lock (new 5)).0 (tried 0 (new 5) (created 5))

Held-permitted_example : 0 ≡ permitted used.locked
Held-permitted_example = Held-permitted 0 used used-Held

-- Task 8 waits behind task 7.
abbrev crowded : Mutex ℕ
crowded = (poll_lock (λ k. k) (λ k. k) contended 8).0

crowded-IsOrdered : IsOrdered crowded.wait
unfolding poll_lock try_lock WaitQueue.has_waiters WaitQueue.register
crowded-IsOrdered = register-IsOrdered (lone 7) 8 (lone-IsOrdered 7)

crowded-waiting : waiting crowded.wait ≡ 0 ∷ 1 ∷ []
unfolding poll_lock try_lock WaitQueue.has_waiters WaitQueue.register
crowded-waiting = refl

drop_guard-abandoned_example :
    (let m' = drop_guard (drop_lock 0 crowded) in
      (m'.locked ≡ false)
      × (waiting m'.wait ≡ 1 ∷ [])
      × (m'.wait.woken ≡ crowded.wait.woken ++ 0 ∷ []))
drop_guard-abandoned_example = drop_guard-abandoned crowded 0 1 [] crowded-IsOrdered crowded-waiting

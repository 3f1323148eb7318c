-- ===== src/Sync/Mutex/Safety.antt =====
-- `Mutex`: what a poll of `lock` and the drop of a guard do, whatever other tasks do in between.
use dtact.Base.{
  ℕ, ◌≡◌, refl, ap, ◌∙◌, ◌⊎◌, inl, inr, Bool, true, false, not, none, List, [], ◌∷◌, Bool-cases,
}
use dtact.Sync.Poll.{ready, pending}
use dtact.Sync.WaitQueue
use dtact.Sync.WaitQueue.{WaitQueue}
use dtact.Sync.WaitQueue.Waiting.{IsOrdered, WakesOne, wake_one-WakesOne}
use dtact.Sync.WaitQueue.Parked.{Parked, wake_one-Parked, wake_one-IsOrdered}
use dtact.Sync.Protocol.{settle, after_first, Keeps, Keeps-id, Keeps-comp}
use dtact.Sync.Protocol.Polls.{poll-Keeps, attempt-Keeps, poll_with-Parked}
use dtact.Sync.Mutex.{
  Mutex, Event, tries, polls, unlocks, wakes, writes, lock_by, try_lock, locks, poll_lock, unlock,
  wake, step, run,
}

module _ {ℓ} {T : Type ℓ} where
  step-Keeps : (e : Event T) → Keeps locks (λ m. step m e)
  unfolding step
  step-Keeps tries = attempt-Keeps locks
  step-Keeps (polls w) = poll-Keeps locks (λ m. not (WaitQueue.has_waiters m.wait)) w
  step-Keeps unlocks = record { ordered = λ s o. o; parked = λ s t w o h. h }
  step-Keeps wakes = record {
    ordered = λ s. wake_one-IsOrdered s.wait;
    parked = λ s t w. wake_one-Parked t w s.wait;
  }
  step-Keeps (writes x) = record { ordered = λ s o. o; parked = λ s t w o h. h }

  run-Keeps : (es : List (Event T)) → Keeps locks (run es)
  unfolding run
  run-Keeps [] = Keeps-id locks
  run-Keeps (e ∷ es) = Keeps-comp locks (λ m. step m e) (run es) (step-Keeps e) (run-Keeps es)

  locked_of_failure : (m : Mutex T) → (try_lock m).1 ≡ none → (try_lock m).0.locked ≡ true
  unfolding try_lock
  locked_of_failure m = by_flag m.locked refl
    where
      by_flag : (b : Bool) → m.locked ≡ b → (lock_by b m).1 ≡ none → (lock_by b m).0.locked ≡ true
      by_flag true e h = e
      by_flag false e h = cc

  -- Whatever accesses of others come before and between the steps of a poll of `lock`, on a wait
  -- queue in order: the poll answers with the guard, or it answers `Pending`, the mutex is locked,
  -- and the task is parked (its entry is in the queue and valid, or has been woken).
  pub poll_lock-Parked :
      (before between : List (Event T)) (m : Mutex T) (w : ℕ)
      → IsOrdered m.wait
      → let r = poll_lock (run before) (run between) m w in
        (r.1 ≡ ready tt) ⊎ ((r.1 ≡ pending) × (r.0.locked ≡ true) × ((t : ℕ) × Parked t w r.0.wait))
  unfolding poll_lock
  poll_lock-Parked before between m w o =
      elim (poll_with-Parked locks (λ m. not (WaitQueue.has_waiters m.wait)) (run before)
        (run between) m w (run-Keeps before) (run-Keeps between) o) [
          | inl (a, e) ↦ inl e
          | inr (e, (s, (last, failed)), parked) ↦
              inr (e, ap (λ r. r.locked) last ∙ locked_of_failure s failed, parked)
        ]

  -- Dropping a guard, with any accesses of others between its two, leaves the queue in order and
  -- wakes the task that has waited longest, if there is one.
  pub drop_guard-WakesOne :
      (between : List (Event T)) (m : Mutex T)
      → IsOrdered m.wait
      → let m' = run between (unlock m) in
        WakesOne m'.wait (wake m').wait × IsOrdered (wake m').wait
  unfolding unlock wake
  drop_guard-WakesOne between m o =
      let o' = (run-Keeps between).ordered (unlock m) o in
      (wake_one-WakesOne _ o', wake_one-IsOrdered _ o')

  settle-free :
      (token : ℕ) (m : Mutex T)
      → m.locked ≡ false
      → ((settle locks token (try_lock m)).1 ≡ ready tt)
        × ((settle locks token (try_lock m)).0.locked ≡ true)
  unfolding try_lock
  settle-free token m e = by_flag m.locked e
    where
      by_flag :
          (b : Bool)
          → b ≡ false
          → ((settle locks token (lock_by b m)).1 ≡ ready tt)
            × ((settle locks token (lock_by b m)).0.locked ≡ true)
      by_flag true e = cc
      by_flag false e = (refl, refl)

  after_first-free :
      (m : Mutex T) (w : ℕ)
      → m.locked ≡ false
      → ((after_first locks (λ k. k) (λ k. k) w (try_lock m)).1 ≡ ready tt)
        × ((after_first locks (λ k. k) (λ k. k) w (try_lock m)).0.locked ≡ true)
  unfolding try_lock
  after_first-free m w e = by_flag m.locked e
    where
      by_flag :
          (b : Bool)
          → b ≡ false
          → ((after_first locks (λ k. k) (λ k. k) w (lock_by b m)).1 ≡ ready tt)
            × ((after_first locks (λ k. k) (λ k. k) w (lock_by b m)).0.locked ≡ true)
      by_flag true e = cc
      by_flag false e = (refl, refl)

  -- A poll of `lock` that no other access interrupts takes an unlocked mutex even when other
  -- tasks have waited for it longer.
  pub poll_lock-barges :
      (m : Mutex T) (w : ℕ)
      → m.locked ≡ false
      → ((poll_lock (λ k. k) (λ k. k) m w).1 ≡ ready tt)
        × ((poll_lock (λ k. k) (λ k. k) m w).0.locked ≡ true)
  unfolding poll_lock
  poll_lock-barges m w e = elim (Bool-cases (WaitQueue.has_waiters m.wait)) [
    | inl h ↦ rw h (settle-free _ (record m { wait = (WaitQueue.register m.wait w).0 }) e)
    | inr h ↦ rw h (after_first-free m w e)
  ]

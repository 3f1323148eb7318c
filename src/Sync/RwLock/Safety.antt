-- ===== src/Sync/RwLock/Safety.antt =====
-- `RwLock`: a pending `read` or `write` is not forgotten, and the last guard to leave wakes the tasks
-- that wait.
use dtact.Base.{
  ℕ, ◌^◌, ◌≤◌, ◌≡◌, refl, ◌≢◌, ◌⊎◌, inl, inr, true, false, not, none, List, [], ◌∷◌, arith, ◌==◌,
  In, wrapping_add, Bool-cases,
}
use dtact.Sync.Poll.{ready, pending}
use dtact.Sync.WaitQueue
use dtact.Sync.WaitQueue.{WaitQueue}
use dtact.Sync.WaitQueue.Waiting.{IsOrdered}
use dtact.Sync.WaitQueue.Parked.{Parked}
use dtact.Sync.WaitQueue.Others.{wake_all-Parked, wake_all-IsOrdered, wake_all-reached}
use dtact.Sync.Protocol.{Keeps, Keeps-id, Keeps-comp}
use dtact.Sync.Protocol.Polls.{poll-Keeps, attempt-Keeps, poll_with-Parked}
use dtact.Sync.RwLock.{
  RwLock, Event, polls_read, polls_write, tries_read, tries_write, leaves_read, leaves_write,
  wakes_all, assigns, write_locked, is_negative, set_state-cases, try_acquire_read, try_write,
  reads, writes, poll_read, poll_write, wake_all, leave_read, wake_if_last, drop_read, leave_write,
  drop_write, set_contents, step, run,
}

negative_of_failure : (n : ℕ) → not (is_negative n) ≡ false → 2 ^ 63 ≤ n
negative_of_failure n h = ground arith

nonzero_of_failure : (n : ℕ) → (n == 0) ≡ false → n ≢ 0
nonzero_of_failure n h e = ground arith

module _ {ℓ} {T : Type ℓ} where
  -- Both kinds of waiting use the same queue.
  of_writes : (f : RwLock T → RwLock T) → Keeps writes f → Keeps reads f
  of_writes f k = record { ordered = k.ordered; parked = k.parked }

  to_writes : (f : RwLock T → RwLock T) → Keeps reads f → Keeps writes f
  to_writes f k = record { ordered = k.ordered; parked = k.parked }

  step-Keeps : (e : Event T) → Keeps reads (λ l. step l e)
  unfolding step poll_read poll_write leave_read leave_write wake_all set_contents
  step-Keeps (polls_read w) = poll-Keeps reads (λ l. true) w
  step-Keeps (polls_write w) =
      of_writes _ (poll-Keeps writes (λ l. not (WaitQueue.has_waiters l.wait)) w)
  step-Keeps tries_read = attempt-Keeps reads
  step-Keeps tries_write = of_writes _ (attempt-Keeps writes)
  step-Keeps leaves_read = record { ordered = λ s o. o; parked = λ s t w o h. h }
  step-Keeps leaves_write = record { ordered = λ s o. o; parked = λ s t w o h. h }
  step-Keeps wakes_all = record {
    ordered = λ s. wake_all-IsOrdered s.wait;
    parked = λ s t w. wake_all-Parked t w s.wait;
  }
  step-Keeps (assigns t) = record { ordered = λ s o. o; parked = λ s t w o h. h }

  run-Keeps : (es : List (Event T)) → Keeps reads (run es)
  unfolding run
  run-Keeps [] = Keeps-id reads
  run-Keeps (e ∷ es) = Keeps-comp reads (λ l. step l e) (run es) (step-Keeps e) (run-Keeps es)

  written_of_failure :
      (l : RwLock T) → (try_acquire_read l).1 ≡ none → 2 ^ 63 ≤ (try_acquire_read l).0.state
  unfolding try_acquire_read
  written_of_failure l h =
      elim (set_state-cases (not (is_negative l.state)) (wrapping_add l.state 1) l) [
        | inl (on, s, g) ↦ cc
        | inr (off, s, g) ↦ rw s (negative_of_failure l.state off)
      ]

  taken_of_failure : (l : RwLock T) → (try_write l).1 ≡ none → (try_write l).0.state ≢ 0
  unfolding try_write
  taken_of_failure l h = elim (set_state-cases (l.state == 0) write_locked l) [
    | inl (on, s, g) ↦ cc
    | inr (off, s, g) ↦ rw s (nonzero_of_failure l.state off)
  ]

  -- Whatever accesses of others come before and between the steps of a poll of `read`, on a wait
  -- queue in order: the poll answers with a read guard, or it answers `Pending`, the state is
  -- negative (a writer's), and the task is parked (in the queue and valid, or woken).
  pub poll_read-Parked :
      (before between : List (Event T)) (l : RwLock T) (w : ℕ)
      → IsOrdered l.wait
      → let r = poll_read (run before) (run between) l w in
        (r.1 ≡ ready tt)
        ⊎ ((r.1 ≡ pending) × (2 ^ 63 ≤ r.0.state) × ((t : ℕ) × Parked t w r.0.wait))
  unfolding poll_read
  poll_read-Parked before between l w o =
      elim (poll_with-Parked reads (λ l. true) (run before) (run between) l w (run-Keeps before)
        (run-Keeps between) o) [
          | inl (a, e) ↦ inl e
          | inr (e, (s, (last, failed)), parked) ↦
              inr (e, rw last (written_of_failure s failed), parked)
        ]

  -- Whatever accesses of others come before and between the steps of a poll of `write`, on a wait
  -- queue in order: the poll answers with the write guard, or it answers `Pending`, the state is
  -- not 0 (the lock is held), and the task is parked (in the queue and valid, or woken).
  pub poll_write-Parked :
      (before between : List (Event T)) (l : RwLock T) (w : ℕ)
      → IsOrdered l.wait
      → let r = poll_write (run before) (run between) l w in
        (r.1 ≡ ready tt) ⊎ ((r.1 ≡ pending) × (r.0.state ≢ 0) × ((t : ℕ) × Parked t w r.0.wait))
  unfolding poll_write
  poll_write-Parked before between l w o =
      elim (poll_with-Parked writes (λ l. not (WaitQueue.has_waiters l.wait)) (run before)
        (run between) l w (to_writes _ (run-Keeps before)) (to_writes _ (run-Keeps between)) o) [
          | inl (a, e) ↦ inl e
          | inr (e, (s, (last, failed)), parked) ↦
              inr (e, rw last (taken_of_failure s failed), parked)
        ]

  wake_if_last_one : (prev : ℕ) (l : RwLock T) → prev ≡ 1 → wake_if_last prev l ≡ wake_all l
  unfolding wake_if_last
  wake_if_last_one prev l e = rw e refl

  wake_if_last_many : (prev : ℕ) (l : RwLock T) → prev ≢ 1 → wake_if_last prev l ≡ l
  unfolding wake_if_last
  wake_if_last_many prev l ne = elim (Bool-cases (prev == 1)) [
    | inl e ↦ absurd (ne (ground arith))
    | inr e ↦ rw e refl
  ]

  -- On a wait queue in order, dropping the only read guard, and dropping a write guard, wake every
  -- task that was parked before, whatever accesses of others come between the accesses of the
  -- drop; dropping one of several read guards wakes nobody.
  pub drop-reached :
      (between : List (Event T)) (l : RwLock T)
      → IsOrdered l.wait
      → ((t w : ℕ) → l.state ≡ 1 → Parked t w l.wait → In t (drop_read (run between) l).wait.woken)
        × ((t w : ℕ) → Parked t w l.wait → In t (drop_write (run between) l).wait.woken)
        × (l.state ≢ 1 → drop_read (run between) l ≡ run between (leave_read l))
  unfolding drop_read drop_write wake_all leave_read leave_write
  drop-reached between l o = (
    λ t w e h.
        rw (wake_if_last_one l.state (run between (leave_read l)) e)
          (wake_all-reached t w _ (k.ordered (leave_read l) o) (k.parked (leave_read l) t w o h)),
    λ t w h.
        wake_all-reached t w _ (k.ordered (leave_write l) o) (k.parked (leave_write l) t w o h),
    λ ne. wake_if_last_many l.state (run between (leave_read l)) ne,
  )
    where
      k : Keeps reads (run between)
      k = run-Keeps between

-- ===== src/Sync/Notify/Permit.antt =====
-- `Notify`: a pending `notified` is not forgotten by `notify_one`, no notification is consumed twice,
-- and what `notify_waiters` does for the tasks it wakes.
use dtact.Base.{
  granted, ℕ, suc, ◌+◌, ◌≤◌, ◌≡◌, refl, ap, ◌∙◌, ◌⊎◌, inl, inr, Bool, true, false, none, List, [],
  ◌∷◌, arith, In,
}
use dtact.Sync.Poll.{ready, pending}
use dtact.Sync.WaitQueue
use dtact.Sync.WaitQueue.{WaitQueue}
use dtact.Sync.WaitQueue.Waiting.{IsOrdered}
use dtact.Sync.WaitQueue.Parked.{Parked, wake_one-Parked, wake_one-IsOrdered}
use dtact.Sync.WaitQueue.Others.{wake_all-Parked, wake_all-IsOrdered, wake_all-reached}
use dtact.Sync.Protocol.{Keeps, Keeps-id, Keeps-comp, settle, after_first}
use dtact.Sync.Protocol.Polls.{poll-Keeps, poll_with-Parked}
use dtact.Sync.Notify.{
  Notify, Event, polls, stores, wakes, notifies_waiters, new, consume_by, consume, consumes,
  poll_notified, store_permit, wake, notify_waiters, step, run,
}

step-Keeps : (e : Event) → Keeps consumes (λ n. step n e)
unfolding step poll_notified store_permit wake notify_waiters
step-Keeps (polls w) = poll-Keeps consumes (λ n. true) w
step-Keeps stores = record { ordered = λ s o. o; parked = λ s t w o h. h }
step-Keeps wakes = record {
  ordered = λ s. wake_one-IsOrdered s.wait;
  parked = λ s t w. wake_one-Parked t w s.wait;
}
step-Keeps notifies_waiters = record {
  ordered = λ s. wake_all-IsOrdered s.wait;
  parked = λ s t w. wake_all-Parked t w s.wait;
}

run-Keeps : (es : List Event) → Keeps consumes (run es)
unfolding run
run-Keeps [] = Keeps-id consumes
run-Keeps (e ∷ es) = Keeps-comp consumes (λ n. step n e) (run es) (step-Keeps e) (run-Keeps es)

empty_of_failure : (n : Notify) → (consume n).1 ≡ none → (consume n).0.permit ≡ false
unfolding consume
empty_of_failure n = by_flag n.permit refl
  where
    by_flag :
        (b : Bool) → n.permit ≡ b → (consume_by b n).1 ≡ none → (consume_by b n).0.permit ≡ false
    by_flag true e h = cc
    by_flag false e h = e

-- Whatever accesses of others come before and between the steps of a poll of `notified`, on a
-- wait queue in order: the poll answers `Ready`, or it answers `Pending`, no permit is stored, and
-- the task is parked (its entry is in the queue and valid, or has been woken).
poll_notified-Parked :
    (before between : List Event) (n : Notify) (w : ℕ)
    → IsOrdered n.wait
    → let r = poll_notified (run before) (run between) n w in
      (r.1 ≡ ready tt) ⊎ ((r.1 ≡ pending) × (r.0.permit ≡ false) × ((t : ℕ) × Parked t w r.0.wait))
unfolding poll_notified
poll_notified-Parked before between n w o =
    elim (poll_with-Parked consumes (λ n. true) (run before) (run between) n w (run-Keeps before)
      (run-Keeps between) o) [
        | inl (a, e) ↦ inl e
        | inr (e, (s, (last, failed)), parked) ↦
            inr (e, ap (λ r. r.permit) last ∙ empty_of_failure s failed, parked)
      ]

consume-empty : (n : Notify) → n.permit ≡ false → consume n ≡ (n, none)
unfolding consume
consume-empty n e = ap (λ b. consume_by b n) e

poll-empty :
    (n : Notify) (w : ℕ) → n.permit ≡ false → (poll_notified (λ k. k) (λ k. k) n w).1 ≡ pending
unfolding poll_notified
poll-empty n w e =
    ap (λ x. (after_first consumes (λ k. k) (λ k. k) w x).1) (consume-empty n e)
    ∙ ap (λ x. (settle consumes (WaitQueue.register n.wait w).1 x).1)
        (consume-empty (record n { wait = (WaitQueue.register n.wait w).0 }) e)

-- When no permit is stored and the wait queue is in order, `notify_waiters` wakes every parked task, and
-- the poll that such a task makes next, with no notification in between, answers `Pending`.
pub notify_waiters-pending :
    (n : Notify) (t w : ℕ)
    → n.permit ≡ false
    → IsOrdered n.wait
    → Parked t w n.wait
    → In t (notify_waiters n).wait.woken
      × ((poll_notified (λ k. k) (λ k. k) (notify_waiters n) w).1 ≡ pending)
unfolding notify_waiters
notify_waiters-pending n t w e o h =
    (wake_all-reached t w n.wait o h, poll-empty (notify_waiters n) w e)

abbrev pub stored : Bool → ℕ
stored true = 1
stored false = 0

-- `Notified sent taken n`: some sequence of accesses with `sent` calls of `notify_one` and `taken`
-- permits consumed reaches `n`.
pub data Notified : ℕ → ℕ → Notify → Type 0 where
  created : Notified 0 0 new
  stored_one :
      (sent taken : ℕ) (n : Notify)
      → Notified sent taken n
      → Notified (suc sent) taken (store_permit n)
  tried :
      (sent taken : ℕ) (n : Notify)
      → Notified sent taken n
      → Notified sent (granted (consume n).1 + taken) (consume n).0
  queued :
      (sent taken : ℕ) (n : Notify) (q : WaitQueue)
      → Notified sent taken n
      → Notified sent taken (record n { wait = q })

consume-stored :
    (n : Notify) → granted (consume n).1 + stored (consume n).0.permit ≡ stored n.permit
unfolding consume
consume-stored n = by_flag n.permit refl
  where
    by_flag :
        (b : Bool)
        → n.permit ≡ b
        → granted (consume_by b n).1 + stored (consume_by b n).0.permit ≡ stored n.permit
    by_flag true e = rw e refl
    by_flag false e = rw e refl

-- Over every interleaving of accesses, the permits consumed and the permit stored are at most as
-- many as the calls of `notify_one`.
pub Notified-taken :
    (sent taken : ℕ) (n : Notify) → Notified sent taken n → taken + stored n.permit ≤ sent
unfolding new store_permit
Notified-taken _ _ _ created = omega arith
Notified-taken _ _ _ (stored_one sent taken n h) =
    let ih = Notified-taken sent taken n h in omega arith
Notified-taken _ _ _ (tried sent taken n h) =
    let ih = Notified-taken sent taken n h in let k = consume-stored n in omega arith
Notified-taken _ _ _ (queued sent taken n q h) = Notified-taken sent taken n h

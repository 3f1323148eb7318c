-- ===== src/Sync/Notify/Tests.antt =====
-- `Notify` run on small inputs.
use dtact.Base.{◌≡◌, refl, false, In}
use dtact.Sync.Poll.{pending}
use dtact.Sync.WaitQueue.Parked.{lone, lone-IsOrdered, lone-Parked}
use dtact.Sync.Notify.{Notify, new, consume, store_permit, poll_notified, notify_waiters}
use dtact.Sync.Notify.Permit.{Notified, created, stored_one, tried, notify_waiters-pending}

-- Task 7 waits for a notification.
abbrev waited : Notify
waited = record { permit = false; wait = lone 7 }

notify_waiters-pending_example :
    In 0 (notify_waiters waited).wait.woken
    × ((poll_notified (λ k. k) (λ k. k) (notify_waiters waited) 7).1 ≡ pending)
notify_waiters-pending_example =
    notify_waiters-pending waited 0 7 refl (lone-IsOrdered 7) (lone-Parked 7)

-- Two notifications and one permit consumed.
abbrev notified_twice : Notify
notified_twice = (consume (store_permit (store_permit new))).0

notified_twice-Notified : Notified 2 1 notified_twice
unfolding consume store_permit new
notified_twice-Notified =
    tried 2 0 (store_permit (store_permit new))
      (stored_one 1 0 (store_permit new) (stored_one 0 0 new created))

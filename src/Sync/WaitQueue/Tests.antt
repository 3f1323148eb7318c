-- ===== src/Sync/WaitQueue/Tests.antt =====
-- `WaitQueue` run on small inputs.
use dtact.Base.{◌≡◌, [], ◌∷◌, refl}
use dtact.Sync.WaitQueue
use dtact.Sync.WaitQueue.{WaitQueue, register, cancel, wake_one, wake_all, ready_list}
use dtact.Sync.WaitQueue.Waiting.{waiting, IsOrdered}
use dtact.Sync.WaitQueue.Parked.{lone, lone-IsOrdered, register-IsOrdered}

-- Two tasks wait, 7 before 8.
abbrev pair : WaitQueue
pair = (register (lone 7) 8).0

pair-IsOrdered : IsOrdered pair
pair-IsOrdered = register-IsOrdered (lone 7) 8 (lone-IsOrdered 7)

pair-waiting : waiting pair ≡ 0 ∷ 1 ∷ []
unfolding register
pair-waiting = refl

-- A cancelled entry is passed over.
wake_one-cancelled : (wake_one (cancel pair 0)).woken ≡ 1 ∷ []
unfolding register cancel wake_one WaitQueue.pop_valid
wake_one-cancelled = refl

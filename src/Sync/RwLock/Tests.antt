-- ===== src/Sync/RwLock/Tests.antt =====
-- `RwLock` run on small inputs.
use dtact.Base.{ℕ, arith}
use dtact.Sync.WaitQueue.Parked.{lone}
use dtact.Sync.RwLock.{RwLock, new, try_acquire_read}
use dtact.Sync.RwLock.Exclusion.{Held, created, read_tried, Counts, Held-Counts}

-- One reader holds the lock and task 7 waits.
abbrev shared : RwLock ℕ
shared = record { state = 1; wait = lone 7; contents = 5 }

abbrev read_twice : RwLock ℕ
read_twice = (try_acquire_read (try_acquire_read (new 5)).0).0

read_twice-Held : Held 2 0 read_twice
unfolding try_acquire_read new
read_twice-Held =
    read_tried 1 0 (try_acquire_read (new 5)).0 (omega arith)
      (read_tried 0 0 (new 5) (omega arith) (created 5))

Held-Counts_example : Counts 2 0 read_twice.state
Held-Counts_example = Held-Counts 2 0 read_twice read_twice-Held

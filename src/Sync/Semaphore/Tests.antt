-- ===== src/Sync/Semaphore/Tests.antt =====
-- `Semaphore` run on small inputs.
use dtact.Base.{◌+◌, ◌≡◌, arith}
use dtact.Sync.WaitQueue.Parked.{lone}
use dtact.Sync.Semaphore.{Semaphore, new, try_acquire_one, release}
use dtact.Sync.Semaphore.Permits.{Holds, created, tried, added, Holds-conserved}

-- Task 7 waits for a permit.
abbrev exhausted : Semaphore
exhausted = record { permits = 0; wait = lone 7 }

-- Two permits, one taken, three added.
abbrev grown : Semaphore
grown = release (try_acquire_one (new 2)).0 3

grown-Holds : Holds 5 1 grown
unfolding try_acquire_one new
grown-Holds = added 2 1 3 (try_acquire_one (new 2)).0 (omega arith) (tried 2 0 (new 2) (created 2))

Holds-conserved_example : 1 + grown.permits ≡ 5
Holds-conserved_example = Holds-conserved 5 1 grown (omega arith) grown-Holds

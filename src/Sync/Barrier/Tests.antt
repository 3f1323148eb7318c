-- ===== src/Sync/Barrier/Tests.antt =====
-- `Barrier` run on small inputs.
use dtact.Base.{◌≡◌, refl, arith}
use dtact.Sync.WaitQueue.Parked.{lone}
use dtact.Sync.Barrier.{Barrier, arrivals}
use dtact.Sync.Barrier.Rounds.{completed, leaders, arrivals-completed}

-- One of three participants has arrived.
abbrev started : Barrier
started = record { n = 3; count = 1; generation = 4; wait = lone 7 }

arrivals-completed_example : arrivals 2 started ≡ (completed started, leaders 1)
arrivals-completed_example = arrivals-completed 1 started refl (omega arith)

-- ===== src/Scheduler/Worker/Tests.antt =====
-- `Worker` run on small inputs.
use dtact.Base.{ℕ, ◌≡◌, refl, some, [], ◌∷◌, ◌==◌, arith, if◌then◌else◌}
use dtact.Scheduler.Fiber.{FiberStatus, finished, notified}
use dtact.Scheduler.Mailbox.{TaskChunk}
use dtact.Scheduler.Worker.{
  Worker, new, push_batch, dispatch_loop, polling_order_for, range, rotation,
}
use dtact.Scheduler.Worker.Polling.{count, count-polling_order_for}
use dtact.Scheduler.Worker.Queue.{Queued, new-Queued, push_batch-Queued}
use dtact.Scheduler.Worker.Dispatch.{quiet, drained, dispatch_loop-drained}

abbrev three : TaskChunk
three = record { tasks = 4 ∷ 5 ∷ 6 ∷ []; count = 3; hop_count = 0 }

abbrev worker : Worker
worker = push_batch (new 3 0 12) three

worker-Queued : Queued worker (4 ∷ 5 ∷ 6 ∷ [])
worker-Queued =
    push_batch-Queued (new 3 0 12) [] three (new-Queued 3 0 12) (omega arith) (omega arith)

-- The peers of its CCX from the first on, and then the others, round from itself.
polling_three : polling_order_for 3 0 12 ≡ 0 ∷ 1 ∷ 2 ∷ 4 ∷ 5 ∷ 6 ∷ 7 ∷ 8 ∷ 9 ∷ 10 ∷ 11 ∷ []
unfolding polling_order_for range rotation
polling_three = refl

count-polling_order_for_example : count 9 (polling_order_for 3 0 12) ≡ 1
count-polling_order_for_example = count-polling_order_for 3 12 9 (omega arith)

-- The second of the three tasks is to run again.
abbrev found_as : ℕ → FiberStatus
found_as task = if task == 5 then notified else finished

dispatch_loop-drained_example :
    (v : Worker) × (dispatch_loop 4 (quiet found_as) worker
      ≡ some (v, (drained found_as (4 ∷ 5 ∷ 6 ∷ [])).1))
    × Queued v (6 ∷ 5 ∷ [])
unfolding drained
dispatch_loop-drained_example = dispatch_loop-drained found_as worker (4 ∷ 5 ∷ 6 ∷ []) worker-Queued

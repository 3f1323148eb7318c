-- ===== src/Scheduler/Routing/Tests.antt =====
-- `DtaScheduler` with four workers.
use dtact.Base.{ℕ, ◌+◌, ◌<◌, ◌≤◌, ◌≡◌, ◌⊎◌, [], ◌∷◌, true, arith, length, ltb, drop}
use dtact.Scheduler.Mailbox.{single, chunk_size}
use dtact.Lockfree.Mpmc.Fifo.{fifo_push}
use dtact.Scheduler.Warehouse
use dtact.Scheduler.Warehouse.Backlog.{new-empty, push-Backlog}
use dtact.Scheduler.Warehouse.Ring.{head-push}
use dtact.Scheduler.Routing.Wake.{Woken, wake_attempt, wake_attempt-Woken}
use dtact.Scheduler.Routing.Drained.{taken, drain_warehouse-Stops}
use dtact.Scheduler.Worker.{local_queue_high_watermark}
use dtact.Scheduler.Routing.{
  DtaScheduler, p2p_mesh, same_core, same_ccx, new, push_chunk_with_hop, enqueue_deflect,
  drain_warehouse,
}
use dtact.Scheduler.Routing.View.{Stored, stock-set, empty_view, new-Stored}
use dtact.Scheduler.Routing.Hops.{Arrives, push_chunk_with_hop-Arrives}
use dtact.Scheduler.Routing.Enqueue.{Enqueued, enqueue_deflect-Enqueued}

push_chunk_with_hop-Arrives_example :
    Arrives 1 (single 7) (empty_view 4) (push_chunk_with_hop 1 1 (single 7) (new 4 p2p_mesh))
push_chunk_with_hop-Arrives_example =
    push_chunk_with_hop-Arrives 1 1 (single 7) (new 4 p2p_mesh) (empty_view 4)
      (new-Stored 4 p2p_mesh) (omega arith) (omega arith) (omega arith)

enqueue_deflect-Enqueued_example :
    Enqueued 1 7 (empty_view 4) (enqueue_deflect 1 1 5 7 same_ccx (new 4 p2p_mesh))
enqueue_deflect-Enqueued_example =
    enqueue_deflect-Enqueued 1 1 5 7 same_ccx (new 4 p2p_mesh) (empty_view 4)
      (new-Stored 4 p2p_mesh) (omega arith) (omega arith)

-- The warehouse holds one chunk.
abbrev stocked_one : DtaScheduler
stocked_one = record (new 4 p2p_mesh) { warehouse = (Warehouse.push 1 Warehouse.new (single 7)).0 }

stocked_one-Stored : Stored stocked_one (record (empty_view 4) { stock = single 7 ∷ [] })
unfolding fifo_push Warehouse.new
stocked_one-Stored =
    stock-set (new 4 p2p_mesh) (empty_view 4) (single 7 ∷ []) _ (new-Stored 4 p2p_mesh)
      (push-Backlog 0 Warehouse.new [] (single 7) new-empty (omega arith)).1
      (omega (arith, head-push 1 Warehouse.new (single 7)))

drain_warehouse-Stops_example :
    (n : ℕ) × (n ≤ 64)
    × (n ≤ length (single 7 ∷ []))
    × ((drain_warehouse 1 stocked_one).1 ≡ ltb 0 n)
    × Stored
        (drain_warehouse 1 stocked_one).0
        (taken 1 n (record (empty_view 4) { stock = single 7 ∷ [] }))
    × ((n ≡ 64)
        ⊎ (drop n (single 7 ∷ []) ≡ [])
        ⊎ (local_queue_high_watermark
            < length ((taken 1 n (record (empty_view 4) { stock = single 7 ∷ [] })).locals 1)
              + chunk_size))
unfolding Warehouse.new
drain_warehouse-Stops_example =
    drain_warehouse-Stops 1 stocked_one (record (empty_view 4) { stock = single 7 ∷ [] })
      stocked_one-Stored (omega arith, omega arith, tt)
      (omega (arith, head-push 1 Warehouse.new (single 7)))

-- A fiber that is pinned by its affinity.
wake_attempt-Woken_example :
    Woken true 1 5 7 (empty_view 4) (wake_attempt 1 5 7 p2p_mesh same_core (new 4 p2p_mesh))
wake_attempt-Woken_example =
    wake_attempt-Woken 1 5 7 p2p_mesh same_core (new 4 p2p_mesh) (empty_view 4)
      (new-Stored 4 p2p_mesh) (omega arith) (omega arith)

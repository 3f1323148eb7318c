-- ===== src/Scheduler/Warehouse/Tests.antt =====
-- `Warehouse` run on small inputs.
use dtact.Base.{◌≡◌, refl}
use dtact.Scheduler.Warehouse.{backoff_cycles}

-- The first wait of worker 7, and its longest.
worker_seven : (backoff_cycles 7 0 ≡ 18) × (backoff_cycles 7 6 ≡ 1152)
unfolding backoff_cycles
worker_seven = (refl, refl)

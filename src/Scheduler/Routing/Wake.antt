-- ===== src/Scheduler/Routing/Wake.antt =====
-- One attempt of `wake_fiber` of src/lib.rs, which enqueues a fiber by its mode and affinity.
use dtact.Base.{ℕ, ◌%◌, ◌≤◌, ◌<◌, Bool, true, false}
use dtact.Scheduler.Routing.{
  DtaScheduler, TopologyMode, pinned, Affinity, same_core, Outcome, enqueue_pinned, enqueue_deflect,
}
use dtact.Scheduler.Routing.View.{View, Stored}
use dtact.Scheduler.Routing.Enqueue.{Enqueued, enqueue_deflect-Enqueued}
use dtact.Scheduler.Routing.Pinned.{Pinned, enqueue_pinned-Pinned}

abbrev pub is_pinned : TopologyMode → Affinity → Bool
is_pinned pinned affinity = true
is_pinned m same_core = true
is_pinned m affinity = false

-- The table of the two shims; the flow is the index of the fiber.
abbrev pub enqueue_by : Bool → ℕ → ℕ → ℕ → Affinity → DtaScheduler → DtaScheduler × Outcome
enqueue_by true current origin_core fiber_index affinity s =
    enqueue_pinned current origin_core fiber_index s
enqueue_by false current origin_core fiber_index affinity s =
    enqueue_deflect current origin_core fiber_index fiber_index affinity s

unfoldable pub wake_attempt :
    ℕ → ℕ → ℕ → TopologyMode → Affinity → DtaScheduler → DtaScheduler × Outcome
wake_attempt current origin_core fiber_index mode affinity s =
    enqueue_by (is_pinned mode affinity) current origin_core fiber_index affinity s

-- A pinned fiber is with its worker, or refused; another one is enqueued, and never refused.
abbrev pub Woken : Bool → ℕ → ℕ → ℕ → View → DtaScheduler × Outcome → Type 0
Woken true current origin_core fiber_index v r =
    Pinned current (origin_core % v.num_workers) fiber_index v r
Woken false current origin_core fiber_index v r = Enqueued current fiber_index v r

-- The queues of a scheduler hold the lists of a view, it has two workers or more, and its hop limit is
-- a byte. Then an attempt to wake a fiber whose mode is pinned or whose affinity is its core ends with
-- the fiber in a queue of its own worker, or is refused with the queues as before; an attempt for
-- another fiber is never refused: the fiber is in one queue, or the warehouse was full.
pub wake_attempt-Woken :
    (current origin_core fiber_index : ℕ) (mode : TopologyMode) (affinity : Affinity)
    (s : DtaScheduler) (v : View)
    → Stored s v
    → 1 < v.num_workers
    → v.max_hops ≤ 255
    → Woken
        (is_pinned mode affinity)
        current
        origin_core
        fiber_index
        v
        (wake_attempt current origin_core fiber_index mode affinity s)
unfolding wake_attempt
wake_attempt-Woken current origin_core fiber_index mode affinity s v h two small =
    by (is_pinned mode affinity)
  where
    by :
        (b : Bool)
        → Woken b current origin_core fiber_index v
            (enqueue_by b current origin_core fiber_index affinity s)
    by true = enqueue_pinned-Pinned current origin_core fiber_index s v h
    by false =
        enqueue_deflect-Enqueued current origin_core fiber_index fiber_index affinity s v h two
          small

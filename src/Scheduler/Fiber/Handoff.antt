-- ===== src/Scheduler/Fiber/Handoff.antt =====
-- `yield_to` of src/api.rs, which suspends the fiber that calls it.
use dtact.Base.{◌+◌, ◌≡◌, refl, arith}
use dtact.Scheduler.Fiber.{
  Fiber, Choice, running, yielded, looks, parks, wake, found, yield_to, step, look, park,
}

-- The worker's two accesses after the switch.
unfoldable pub switched : Choice → Fiber → Fiber
switched c f = (step c parks (step c looks f).0).0

-- A running fiber, which is in no queue, is woken and then calls `yield_to`: its worker parks it, and the
-- wake is neither in its state nor in a queue.
pub yield_to-lost :
    (c : Choice) (f : Fiber)
    → f.state ≡ running
    → f.queued ≡ 0
    → f.enqueuing ≡ 0
    → (let g = switched c (yield_to (wake f)) in (g.state ≡ yielded) × (g.queued + g.enqueuing ≡ 0))
unfolding yield_to switched wake step look park
yield_to-lost c f on q e = (refl, omega (arith, found_none))
  where
    found_none : found f.state ≡ 0
    found_none = λ i. found (on i)

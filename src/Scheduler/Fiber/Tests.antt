-- ===== src/Scheduler/Fiber/Tests.antt =====
-- The life of a fiber run on small schedules.
use dtact.Base.{◌≡◌, refl, ◌≢◌, ◌+◌, length, true, false, none, some, [], ◌∷◌}
use dtact.Scheduler.Fiber.Wakes.{Reach-heard}
use dtact.Scheduler.Fiber.Late.{looked, resumed, look-late}
use dtact.Scheduler.Fiber.Handoff.{switched, yield_to-lost}
use dtact.Scheduler.Fiber.{
  finished, notified, ended, looks, loads, polls, readies, finishes, Fiber, spawned, wake, enqueue,
  free, step, Step, woken, enqueued, dispatched, moved, Reach, start, next, yielded, running, polls,
  answer, yield_to, suspend, look, park, joins, parks, suspends, continues, pends,
}

-- A fiber whose future is ready at its first poll, up to the switch to its worker.
abbrev at_poll : Fiber
at_poll = record {
  state = running;
  queued = 0;
  enqueuing = 0;
  runners = polls ∷ [];
  saved = loads;
  due = false;
  freed = false;
}

at_poll-Reach : Reach at_poll
unfolding spawned enqueue step
at_poll-Reach =
    next (next (next start (enqueued spawned 0 refl)) (dispatched (enqueue spawned) 0 refl))
      (moved _ readies [] loads [] refl)

abbrev at_end : Fiber
at_end = record at_poll { state = finished; runners = looks ∷ []; saved = ended }

at_end-Reach : Reach at_end
unfolding step answer
at_end-Reach =
    next (next at_poll-Reach (moved at_poll readies [] polls [] refl))
      (moved (record at_poll { runners = finishes ∷ [] }) readies [] finishes [] refl)

-- A fiber that is woken during its poll, which answers `Pending`, goes back to a queue.
abbrev woken_once : Fiber
woken_once = record at_poll { state = notified; due = true }

woken_once-Reach : Reach (wake at_poll)
woken_once-Reach = next at_poll-Reach (woken at_poll)

Reach-heard_example :
    ((wake at_poll).state ≢ yielded)
    × ((wake at_poll).queued + (wake at_poll).enqueuing + length (wake at_poll).runners ≡ 1)
unfolding wake
Reach-heard_example = Reach-heard woken_once-Reach refl refl

look-late_example :
    (step readies looks at_end ≡ (free at_end, none))
    × Step at_end (wake at_end)
    × (step readies looks (wake at_end)
        ≡ (record (wake at_end) { queued = (wake at_end).queued + 1 }, none))
    × Step (wake at_end) (looked at_end)
    × Step (looked at_end) (resumed at_end)
    × ((resumed at_end).runners ≡ ended ∷ [])
    × ((resumed at_end).freed ≡ false)
    × Reach (resumed at_end)
    × (step readies ended (resumed at_end) ≡ (resumed at_end, some ended))
look-late_example = look-late readies at_end-Reach refl refl refl refl

-- A fiber that is woken during a poll calls `dtact_await` for one that is over already; the poll then
-- answers `Pending`, and the fiber is parked.
cleared_run :
    (let f = (step readies joins (wake at_poll)).0 in
      let g = (step readies parks (step readies suspends f).0).0 in
      ((step (pends 0) continues f).1 ≡ some suspends)
      × (g.state ≡ yielded)
      × (g.queued + g.enqueuing ≡ 0))
unfolding step wake answer suspend look park
cleared_run = (refl, refl, refl)

yield_to_run :
    (let g = switched readies (yield_to (wake at_poll)) in
      (g.state ≡ yielded) × (g.queued + g.enqueuing ≡ 0))
yield_to_run = yield_to-lost readies at_poll refl refl refl

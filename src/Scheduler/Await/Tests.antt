-- ===== src/Scheduler/Await/Tests.antt =====
-- Fiber 1, and then fiber 2, wait for the same fiber.
use dtact.Base.{◌≡◌, refl, true, false, none, arith}
use dtact.Scheduler.Await.{
  Join, live, finished, swapped, freed, suspended, began, enter, check_generation, check_state,
  register_waiter, recheck_generation, recheck_state, suspend, take_waiter,
}
use dtact.Scheduler.Await.Heard.{register_waiter-overwrites}

abbrev asked : Join
asked = check_state 1 (check_generation 1 (enter 1 began))

-- The other fiber ends, and looks for a waiter, before fiber 1 registers.
abbrev over : Join
over = record (take_waiter (record asked { phase = finished })) { phase = swapped }

abbrev known : Join
known = recheck_generation 1 (register_waiter 1 over)

-- The context is freed and used again between the second loads of the generation and of the state.
abbrev waiting : Join
waiting = suspend 1 (recheck_state 1 (record known { phase = live; current = false }))

-- Fiber 1 sleeps in a context that is another's, and was not woken.
waiting_run : (waiting.spots 1 ≡ suspended) × (waiting.woken 1 ≡ false) × (waiting.current ≡ false)
unfolding enter check_generation check_state register_waiter take_waiter recheck_generation
    recheck_state suspend
waiting_run = (refl, refl, refl)

overwritten_run :
    (let e = record (take_waiter (record (register_waiter 2 waiting) { phase = finished })) {
      phase = freed;
      current = false;
    } in
      (e.spots 1 ≡ suspended) × (e.woken 1 ≡ false) × (e.woken 2 ≡ true) × (e.waiter ≡ none))
unfolding enter check_generation check_state register_waiter take_waiter recheck_generation
    recheck_state suspend
overwritten_run = register_waiter-overwrites 1 2 waiting (λ e. absurd (omega arith)) refl refl

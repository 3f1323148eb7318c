-- ===== src/Scheduler/Worker/Threshold.antt =====
-- The load and the deflection threshold of a worker stay in their ranges.
use dtact.Base.{ℕ, ◌≤◌, List, [], ◌∷◌, arith}
use dtact.Scheduler.Worker.{Worker, new, update_load, tick, new_threshold}

pub record Bounded (w : Worker) : Type 0 where
  pub load : w.load_level ≤ 100
  pub low : 40 ≤ w.deflection_threshold
  pub high : w.deflection_threshold ≤ 95

new_threshold_bounds :
    (load t : ℕ) → 40 ≤ t → t ≤ 95 → (40 ≤ new_threshold load t) × (new_threshold load t ≤ 95)
unfolding new_threshold
new_threshold_bounds load t lo hi = ground arith

-- The end of each `poll_mailboxes`, on a queue whose places are anywhere.
unfoldable pub beats : List (ℕ × ℕ) → Worker → Worker
beats [] w = w
beats ((head, tail) ∷ ps) w =
    beats ps (tick (update_load (record w { local_head = head; local_tail = tail })))

tick-Bounded : (w : Worker) → Bounded w → Bounded (tick w)
unfolding tick
tick-Bounded w b =
    let (lo, hi) = new_threshold_bounds w.load_level w.deflection_threshold b.low b.high in
    let load : w.load_level ≤ 100 = b.load in
    record { load = load; low = ground arith; high = ground arith }

update_load-Bounded : (w : Worker) → Bounded w → Bounded (update_load w)
unfolding update_load
update_load-Bounded w b = record { load = omega arith; low = b.low; high = b.high }

beats-Bounded : (ps : List (ℕ × ℕ)) (w : Worker) → Bounded w → Bounded (beats ps w)
unfolding beats
beats-Bounded [] w b = b
beats-Bounded ((head, tail) ∷ ps) w b = beats-Bounded ps _ (
    tick-Bounded _ (
      update_load-Bounded (record w { local_head = head; local_tail = tail })
        (record { load = b.load; low = b.low; high = b.high })))

-- From a new worker on, whatever its local queue holds at each round of polling, its load is at most
-- 100 and its deflection threshold is between 40 and 95.
beats-bounded :
    (core ccx total : ℕ) (ps : List (ℕ × ℕ))
    → (let w = beats ps (new core ccx total) in
        (w.load_level ≤ 100) × (40 ≤ w.deflection_threshold) × (w.deflection_threshold ≤ 95))
unfolding new
beats-bounded core ccx total ps =
    let b =
      beats-Bounded ps (new core ccx total)
        (record { load = omega arith; low = omega arith; high = omega arith }) in
    (b.load, b.low, b.high)

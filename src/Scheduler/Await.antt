-- ===== src/Scheduler/Await.antt =====
-- `dtact_await` of src/c_ffi.rs on its fiber path, against the end of `fiber_entry_point` of src/api.rs
-- and `free_context` of src/memory_management.rs: fibers that wait for another, and the one waiter
-- handle of its context. Each access is a step, the loads of the generation and of the state are two.
-- The generation is taken not to come round while a fiber waits. What the suspension does with the
-- fiber's own state is in Scheduler/Fiber.
pub mod Spots
pub mod Heard
pub mod Tests
use dtact.Base.{ℕ, Bool, true, false, not, Option, none, some, ◌≡◌, ◌≢◌, ◌==◌, if◌then◌else◌}

-- The context of the fiber that is waited for: before the store of `Finished`, before the swap of the
-- waiter, before the store of `Initial`, before the generation is raised, and free. Then the next fiber
-- in it is live.
pub data Phase : Type 0 where
  live : Phase
  finished : Phase
  swapped : Phase
  cleared : Phase
  freed : Phase

-- A fiber that waits: at the swap with `Running`, the loads of the generation and of the state, the
-- swap of the waiter handle, the second loads, and the exchange with `Suspending`; suspended; and
-- behind the loop.
pub data Spot : Type 0 where
  enters : Spot
  checks : Spot
  checks_state : Spot
  registers : Spot
  rechecks : Spot
  rechecks_state : Spot
  suspends : Spot
  suspended : Spot
  leaves : Spot

-- `current` tells whether the generation is still that of the handle, `noted` whether a wake has put
-- `Notified` over the `Finished` or `Initial` of a fiber that is over, and `late_wake` whether that has
-- ever happened. `woken` tells of each fiber whether it was woken since its swap with `Running`.
pub record Join : Type 0 where
  pub phase : Phase
  pub current : Bool
  pub noted : Bool
  pub late_wake : Bool
  pub waiter : Option ℕ
  pub spots : ℕ → Spot
  pub woken : ℕ → Bool

-- The state is `Finished` or `Initial`.
abbrev pub is_over : Phase → Bool → Bool
is_over live noted = false
is_over p noted = not noted

abbrev pub set_spot : ℕ → Spot → Join → Join
set_spot k t j = record j { spots = λ i. if k == i then t else j.spots i }

abbrev pub wake_waiter : Option ℕ → (ℕ → Bool) → ℕ → Bool
wake_waiter none woken i = woken i
wake_waiter (some k) woken i = if k == i then true else woken i

-- The swap of `fiber_entry_point`, and the wake of what it finds.
unfoldable pub take_waiter : Join → Join
take_waiter j = record j { waiter = none; woken = wake_waiter j.waiter j.woken }

-- The swap with `Running` clears a wake from before.
unfoldable pub enter : ℕ → Join → Join
enter k j = record (set_spot k checks j) { woken = λ i. if k == i then false else j.woken i }

abbrev pub on_or_leave : Bool → Spot → Spot
on_or_leave true t = t
on_or_leave false t = leaves

unfoldable pub check_generation : ℕ → Join → Join
check_generation k j = set_spot k (on_or_leave j.current checks_state) j

unfoldable pub check_state : ℕ → Join → Join
check_state k j = set_spot k (on_or_leave (not (is_over j.phase j.noted)) registers) j

unfoldable pub register_waiter : ℕ → Join → Join
register_waiter k j = record (set_spot k rechecks j) { waiter = some k }

abbrev pub withdrawn : ℕ → Option ℕ → Option ℕ
withdrawn k none = none
withdrawn k (some i) = if k == i then none else some i

abbrev pub on_or_withdraw : Bool → Spot → ℕ → Join → Join
on_or_withdraw true t k j = set_spot k t j
on_or_withdraw false t k j = record (set_spot k leaves j) { waiter = withdrawn k j.waiter }

unfoldable pub recheck_generation : ℕ → Join → Join
recheck_generation k j = on_or_withdraw j.current rechecks_state k j

unfoldable pub recheck_state : ℕ → Join → Join
recheck_state k j = on_or_withdraw (not (is_over j.phase j.noted)) suspends k j

abbrev pub after_exchange : Bool → Spot
after_exchange true = enters
after_exchange false = suspended

-- The exchange of `Running` with `Suspending`: it fails when the fiber was woken.
unfoldable pub suspend : ℕ → Join → Join
suspend k j = set_spot k (after_exchange (j.woken k)) j

-- What happens while one fiber waits, in any order; `notes` is a wake of the fiber that is over,
-- `stirs` a wake of the waiting fiber by anybody else, and `clears` the store of `Initial`, also over
-- a wake that came after the worker's load of the state.
pub data Step (k : ℕ) : Join → Join → Type 0 where
  stores : (j : Join) → j.phase ≡ live → Step k j (record j { phase = finished; noted = false })
  swaps : (j : Join) → j.phase ≡ finished → Step k j (record (take_waiter j) { phase = swapped })
  clears : (j : Join) → j.phase ≡ swapped → Step k j (record j { phase = cleared; noted = false })
  frees : (j : Join) → j.phase ≡ cleared → Step k j (record j { phase = freed; current = false })
  reuses : (j : Join) → j.phase ≡ freed → Step k j (record j { phase = live; noted = false })
  notes : (j : Join) → j.phase ≢ live → Step k j (record j { noted = true; late_wake = true })
  stirs : (j : Join) → Step k j (record j { woken = wake_waiter (some k) j.woken })
  entered : (j : Join) → j.spots k ≡ enters → Step k j (enter k j)
  checked : (j : Join) → j.spots k ≡ checks → Step k j (check_generation k j)
  checked_state : (j : Join) → j.spots k ≡ checks_state → Step k j (check_state k j)
  registered : (j : Join) → j.spots k ≡ registers → Step k j (register_waiter k j)
  rechecked : (j : Join) → j.spots k ≡ rechecks → Step k j (recheck_generation k j)
  rechecked_state : (j : Join) → j.spots k ≡ rechecks_state → Step k j (recheck_state k j)
  exchanged : (j : Join) → j.spots k ≡ suspends → Step k j (suspend k j)
  resumed : (j : Join) → j.spots k ≡ suspended → j.woken k ≡ true → Step k j (set_spot k enters j)

abbrev pub began : Join
began = record {
  phase = live;
  current = true;
  noted = false;
  late_wake = false;
  waiter = none;
  spots = λ i. enters;
  woken = λ i. false;
}

pub data Reach (k : ℕ) : Join → Type 0 where
  start : Reach k began
  next : {i j : Join} → Reach k i → Step k i j → Reach k j

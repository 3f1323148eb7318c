-- ===== src/Scheduler/Worker.antt =====
-- `Worker` of src/dta_scheduler.rs: its order of polling, its local queue, its load and threshold, and
-- the dispatch of its tasks. What a fiber does between the two switches is a parameter.
pub mod Queue
pub mod Polling
pub mod Threshold
pub mod Dispatch
pub mod Tests
use dtact.Base.{
  ℕ, zero, suc, ◌+◌, ◌-◌, ◌*◌, ◌/◌, ◌%◌, ◌^◌, min, max, Bool, true, false, not, ◌&&◌, Option, none,
  some, List, [], ◌∷◌, ◌++◌, ltb, leb, ◌==◌, if◌then◌else◌, update, take, drop, keep, word_mod,
  wrapping_sub,
}
use dtact.Scheduler.Fiber.{
  FiberStatus, finished, panicked, notified, suspending, yielded, initial, running,
}
use dtact.Scheduler.Mailbox.{TaskChunk}

abbrev pub local_queue_capacity : ℕ
local_queue_capacity = 131072

abbrev pub local_queue_high_watermark : ℕ
local_queue_high_watermark = local_queue_capacity - local_queue_capacity / 8

-- `ccx_id` is that of `cpu`; `local_queue` has `local_queue_capacity` places.
pub record Worker : Type 0 where
  pub core_id : ℕ
  pub ccx_id : ℕ
  pub load_level : ℕ
  pub deflection_threshold : ℕ
  pub local_head : ℕ
  pub local_tail : ℕ
  pub ticks : ℕ
  pub event_signal : ℕ
  pub local_queue : ℕ → ℕ
  pub polling_order : List ℕ

-- The numbers from `i` on: the ranges of the two loops of `new`.
unfoldable pub range : ℕ → ℕ → List ℕ
range i zero = []
range i (suc n) = i ∷ range (i + 1) n

-- `(i / 8) as u16 == my_ccx`.
abbrev pub same_ccx : ℕ → ℕ → Bool
same_ccx ccx i = i / 8 % 2 ^ 16 == ccx

-- The body of the second loop, which goes round from the worker's own core.
unfoldable pub rotation : ℕ → ℕ → List ℕ → List ℕ
rotation core total [] = []
rotation core total (offset ∷ offsets) = (core + offset) % total ∷ rotation core total offsets

unfoldable pub polling_order_for : ℕ → ℕ → ℕ → List ℕ
unfolding rotation range
polling_order_for core ccx total =
    keep (λ i. not (i == core) && same_ccx ccx i) (range 0 total)
    ++ keep (λ i. not (i == core) && not (same_ccx ccx i)) (rotation core total (range 0 total))

unfoldable pub new : ℕ → ℕ → ℕ → Worker
unfolding polling_order_for
new core ccx total_cores = record {
  core_id = core;
  ccx_id = ccx;
  load_level = 0;
  deflection_threshold = 80;
  local_head = 0;
  local_tail = 0;
  ticks = 0;
  event_signal = 0;
  local_queue = λ i. 0;
  polling_order = polling_order_for core ccx total_cores;
}

unfoldable pub local_queue_len : Worker → ℕ
local_queue_len w = wrapping_sub w.local_tail w.local_head % local_queue_capacity

unfoldable pub update_load : Worker → Worker
unfolding local_queue_len
update_load w = record w { load_level = min (local_queue_len w * 100 / 2 ^ 13) 100 }

-- `saturating_sub(5).max(40)` and `saturating_add(5).min(95)` on a `u8`.
unfoldable pub new_threshold : ℕ → ℕ → ℕ
new_threshold load current =
    if ltb 90 load
    then max (current - 5) 40
    else if ltb load 30
    then min (min (current + 5) 255) 95
    else current

-- `ticks.trailing_zeros() >= 10`.
unfoldable pub tick : Worker → Worker
unfolding new_threshold
tick w =
    let t = (w.ticks + 1) % word_mod in
    record w {
      ticks = t;
      deflection_threshold =
          if t % 2 ^ 10 == 0
          then new_threshold w.load_level w.deflection_threshold
          else w.deflection_threshold;
    }

unfoldable pub push_local : Worker → ℕ → Worker × Bool
unfolding local_queue_len
push_local w task = if leb (local_queue_capacity - 1) (local_queue_len w) then (w, false) else (
  record w {
    local_queue = update w.local_queue w.local_tail task;
    local_tail = (w.local_tail + 1) % local_queue_capacity;
  },
  true,
)

-- `ptr::copy_nonoverlapping` into the queue from place `i` on.
unfoldable pub copy_in : (ℕ → ℕ) → ℕ → List ℕ → ℕ → ℕ
copy_in f i [] = f
copy_in f i (x ∷ xs) = copy_in (update f i x) (i + 1) xs

unfoldable pub copied : Worker → TaskChunk → ℕ → ℕ
unfolding copy_in
copied w chunk =
    if leb (w.local_tail + chunk.count) local_queue_capacity
    then copy_in w.local_queue w.local_tail (take chunk.count chunk.tasks)
    else (let first_part = local_queue_capacity - w.local_tail in
        copy_in (copy_in w.local_queue w.local_tail (take first_part chunk.tasks)) 0
          (take (chunk.count - first_part) (drop first_part chunk.tasks)))

unfoldable pub push_batch : Worker → TaskChunk → Worker
unfolding copied
push_batch w chunk = record w {
  local_queue = copied w chunk;
  local_tail = (w.local_tail + chunk.count) % local_queue_capacity;
}

unfoldable pub pop_local : Worker → Worker × ℕ
pop_local w = (
  record w { local_head = (w.local_head + 1) % local_queue_capacity },
  w.local_queue w.local_head,
)

-- What the worker does with a task after the switch: `free_context`, a push to its own queue, or
-- nothing, for a fiber that is parked.
pub data Disposal : Type 0 where
  frees : Disposal
  requeues : Disposal
  leaves : Disposal

abbrev pub settle : FiberStatus → Disposal
settle finished = frees
settle panicked = frees
settle notified = requeues
settle s = leaves

-- One task of `dispatch_loop`. `run` is what happens while the fiber has the worker, with the final
-- state that the worker finds: the fiber may push tasks to the same queue. The result tells which task
-- was freed, and whether the push back of a notified one succeeded.
pub data Dispatched : Type 0 where
  freed : ℕ → Dispatched
  parked : ℕ → Dispatched
  requeued : ℕ → Bool → Dispatched

abbrev pub dispose : Disposal → ℕ → Worker → Worker × Dispatched
dispose frees task w = (w, freed task)
dispose leaves task w = (w, parked task)
dispose requeues task w = let (w', pushed) = push_local w task in (w', requeued task pushed)

unfoldable pub dispatch_one : (ℕ → Worker → Worker × FiberStatus) → Worker → Worker × Dispatched
unfolding push_local pop_local
dispatch_one run w =
    let (popped, task) = pop_local w in
    let (ran, final_state) = run task popped in dispose (settle final_state) task ran

abbrev pub ends_turn : Dispatched → Bool
ends_turn (freed t) = false
ends_turn (parked t) = false
ends_turn (requeued t b) = true

abbrev pub prepend :
    Dispatched → Option (Worker × List Dispatched) → Option (Worker × List Dispatched)
prepend d none = none
prepend d (some (w, ds)) = some (w, d ∷ ds)

-- A task that is pushed back ends the loop.
abbrev pub after_one :
    (Worker → Option (Worker × List Dispatched))
    → Worker × Dispatched
    → Option (Worker × List Dispatched)
after_one rest (w, d) = elim (ends_turn d) [ true ↦ some (w, d ∷ []) | false ↦ prepend d (rest w) ]

-- `dispatch_loop`, with what became of each task. `none` if the fuel ran out.
unfoldable pub dispatch_loop :
    ℕ → (ℕ → Worker → Worker × FiberStatus) → Worker → Option (Worker × List Dispatched)
unfolding dispatch_one
dispatch_loop zero run w = none
dispatch_loop (suc fuel) run w = elim (w.local_head == w.local_tail) [
  | true ↦ some (w, [])
  | false ↦ after_one (λ v. dispatch_loop fuel run v) (dispatch_one run w)
]

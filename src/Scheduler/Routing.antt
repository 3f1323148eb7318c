-- ===== src/Scheduler/Routing.antt =====
-- `DtaScheduler` of src/dta_scheduler.rs: how tasks are enqueued, how chunks travel between the
-- mailboxes, the warehouse and the local queues, and how a worker drains and routes. A call is modelled
-- as it runs with no other thread inside it; so the spin locks of the external mailboxes are left out.
pub mod View
pub mod Hops
pub mod Enqueue
pub mod Arrival
pub mod Drain
pub mod Drained
pub mod Pinned
pub mod Wake
pub mod Tests
use Prim.Native.Nat.{bit_and, bit_or, bit_xor}
use dtact.Base.{
  ℕ, zero, suc, ◌+◌, ◌-◌, ◌*◌, ◌/◌, ◌%◌, ◌^◌, min, Bool, true, false, not, ◌&&◌, ◌||◌, Option, none,
  some, List, [], ◌∷◌, ltb, leb, ◌==◌, if◌then◌else◌, update, wrapping_add, PushResult, ok, err,
}
use dtact.Scheduler.Mailbox.{TaskChunk, Mailbox, single, chunk_size}
use dtact.Scheduler.Mailbox
use dtact.Scheduler.Warehouse.{Warehouse, is_busy}
use dtact.Scheduler.Warehouse
use dtact.Scheduler.Worker.{
  Worker, local_queue_capacity, local_queue_high_watermark, local_queue_len, push_local, push_batch,
  update_load, tick,
}
use dtact.Scheduler.Worker

pub data TopologyMode : Type 0 where
  p2p_mesh : TopologyMode
  global : TopologyMode
  pinned : TopologyMode

pub data Affinity : Type 0 where
  same_core : Affinity
  same_ccx : Affinity
  same_numa : Affinity
  any : Affinity

-- `num_workers` is the length of `workers` and of the lists of mailboxes.
pub record DtaScheduler : Type 0 where
  pub num_workers : ℕ
  pub workers : ℕ → Worker
  pub mailboxes : ℕ → ℕ → Mailbox
  pub external_mailboxes : ℕ → Mailbox
  pub topology : TopologyMode
  pub max_hops : ℕ
  pub warehouse : Warehouse

unfoldable pub new : ℕ → TopologyMode → DtaScheduler
unfolding Worker.new Mailbox.new Warehouse.new
new num_workers topology = record {
  num_workers = num_workers;
  workers = λ i. Worker.new (i % 2 ^ 16) (i / 8 % 2 ^ 16) num_workers;
  mailboxes = λ i j. Mailbox.new;
  external_mailboxes = λ j. Mailbox.new;
  topology = topology;
  max_hops = min (num_workers / 2) 255;
  warehouse = Warehouse.new;
}

-- What an enqueue or a routing comes to: `true`, `false`, the panic on an overfull warehouse, or no end.
pub data Outcome : Type 0 where
  placed : Outcome
  refused : Outcome
  overflows : Outcome
  spins : Outcome

abbrev pub set_worker : ℕ → Worker → DtaScheduler → DtaScheduler
set_worker i w s = record s { workers = λ k. if i == k then w else s.workers k }

abbrev pub set_mailbox : ℕ → ℕ → Mailbox → DtaScheduler → DtaScheduler
set_mailbox i j m s = record s {
  mailboxes = λ k l. if (i == k) && (j == l) then m else s.mailboxes k l;
}

abbrev pub set_external : ℕ → Mailbox → DtaScheduler → DtaScheduler
set_external j m s = record s {
  external_mailboxes = λ l. if j == l then m else s.external_mailboxes l;
}

unfoldable pub signal_worker : ℕ → DtaScheduler → DtaScheduler
signal_worker target s =
    set_worker target
      (record (s.workers target) { event_signal = ((s.workers target).event_signal + 1) % 2 ^ 32 })
      s

-- A push to the mailbox of a worker, or to the external one for a host thread.
unfoldable pub put : ℕ → ℕ → TaskChunk → DtaScheduler → DtaScheduler × PushResult TaskChunk
put producer target chunk s =
    if ltb producer s.num_workers
    then (let (m, r) = Mailbox.push (s.mailboxes producer target) chunk in
        (set_mailbox producer target m s, r))
    else (let (m, r) = Mailbox.push (s.external_mailboxes target) chunk in
        (set_external target m s, r))

-- `assert!(self.warehouse.push(chunk).is_ok())`.
abbrev pub parked_as : Option (PushResult TaskChunk) → Outcome
parked_as none = spins
parked_as (some ok) = placed
parked_as (some (err c)) = overflows

unfoldable pub park_in_warehouse : TaskChunk → DtaScheduler → DtaScheduler × Outcome
park_in_warehouse chunk s =
    let (wh, r) = Warehouse.push 1 s.warehouse chunk in (record s { warehouse = wh }, parked_as r)

unfoldable pub divert_to_warehouse : ℕ → DtaScheduler → DtaScheduler × Outcome
divert_to_warehouse task = park_in_warehouse (record (single task) { hop_count = 255 })

-- The target is moved off the producer's own column, which nobody polls.
abbrev pub off_column : ℕ → ℕ → ℕ → ℕ
off_column n producer target =
    if ltb producer n && ltb 1 n && (target == producer) then (target + 1) % n else target

-- `saturating_add(1)` on the `u8`.
abbrev pub hop : TaskChunk → TaskChunk
hop c = record c { hop_count = min (c.hop_count + 1) 255 }

abbrev pub next_target : ℕ → ℕ → TaskChunk → ℕ
next_target n producer c = off_column n producer (wrapping_add producer (1 + c.hop_count * 7) % n)

-- The branches of `push_chunk_with_hop` on a full mailbox, by whether the hops are used up.
abbrev pub on_full :
    (ℕ → TaskChunk → DtaScheduler → DtaScheduler × Outcome)
    → ℕ
    → TaskChunk
    → DtaScheduler
    → Bool
    → DtaScheduler × Outcome
on_full again producer c s true = park_in_warehouse c s
on_full again producer c s false = again (next_target s.num_workers producer (hop c)) (hop c) s

-- What the loop of `push_chunk_with_hop` does with the answer of a mailbox.
abbrev pub hopped :
    (ℕ → TaskChunk → DtaScheduler → DtaScheduler × Outcome)
    → ℕ
    → ℕ
    → DtaScheduler × PushResult TaskChunk
    → DtaScheduler × Outcome
hopped again producer target (s, ok) = (signal_worker target s, placed)
hopped again producer target (s, err c) = on_full again producer c s (leb s.max_hops c.hop_count)

unfoldable pub hop_loop : ℕ → ℕ → ℕ → TaskChunk → DtaScheduler → DtaScheduler × Outcome
hop_loop zero producer target chunk s = (s, spins)
hop_loop (suc fuel) producer target chunk s =
    hopped (λ t c s'. hop_loop fuel producer t c s') producer target (put producer target chunk s)

-- A chunk hops `max_hops` times at most, and `max_hops` is a `u8`.
unfoldable pub push_chunk_with_hop : ℕ → ℕ → TaskChunk → DtaScheduler → DtaScheduler × Outcome
push_chunk_with_hop producer initial_target chunk s =
    hop_loop 256 producer (off_column s.num_workers producer initial_target) chunk s

abbrev pub accepted : Bool → Outcome
accepted true = placed
accepted false = refused

abbrev pub signalled : ℕ → DtaScheduler × PushResult TaskChunk → DtaScheduler × Outcome
signalled target (s, ok) = (signal_worker target s, placed)
signalled target (s, err c) = (s, refused)

-- `current` is `CURRENT_WORKER_ID`: `usize::MAX` on a host thread.
unfoldable pub enqueue_pinned : ℕ → ℕ → ℕ → DtaScheduler → DtaScheduler × Outcome
enqueue_pinned current target_core task s =
    let target = target_core % s.num_workers in
    if current == target
    then (let (w, done) = push_local (s.workers target) task in
        (set_worker target w s, accepted done))
    else signalled target (put current target (single task) s)

-- The bits of the flow that spread the deflection.
abbrev pub h1 : ℕ → ℕ
h1 flow_id = bit_and flow_id 7

abbrev pub h2 : ℕ → ℕ
h2 flow_id = bit_or (bit_and (flow_id / 2 ^ 3) 7) 1

-- `local ^ ((local ^ deflected) & mask)`, with the mask of all ones or zero.
abbrev pub select : Bool → ℕ → ℕ → ℕ
select deflect here there =
    bit_xor here (bit_and (bit_xor here there) (if deflect then 2 ^ 64 - 1 else 0))

abbrev pub local_target : Affinity → Bool → ℕ → ℕ → ℕ → ℕ
local_target same_numa deflect source flow n =
    (source / 64 * 64 + select deflect (source % 64) ((source % 64 + h1 flow + h2 flow) % 64)) % n
local_target a deflect source flow n =
    (source / 8 * 8 + select deflect (source % 8) ((source % 8 + h1 flow + h2 flow) % 8)) % n

abbrev pub is_global : TopologyMode → Affinity → Bool
is_global global any = true
is_global m a = false

unfoldable pub deflect_target : DtaScheduler → ℕ → ℕ → Affinity → ℕ
deflect_target s source_core flow affinity =
    let n = s.num_workers in
    let source = source_core % n in
    let w = s.workers source in
    if is_global s.topology affinity
    then (source + h1 flow + h2 flow) % n
    else local_target affinity (ltb w.deflection_threshold w.load_level) source flow n

unfoldable pub enqueue_at : ℕ → ℕ → ℕ → DtaScheduler → DtaScheduler × Outcome
enqueue_at current target task s =
    let (w, done) = push_local (s.workers target) task in
    if (current == target) && done
    then (set_worker target w s, placed)
    else push_chunk_with_hop current target (single task) s

unfoldable pub enqueue_deflect : ℕ → ℕ → ℕ → ℕ → Affinity → DtaScheduler → DtaScheduler × Outcome
enqueue_deflect current source_core flow task affinity s =
    if is_busy s.warehouse
    then divert_to_warehouse task s
    else enqueue_at current (deflect_target s source_core flow affinity) task s

-- One turn of `drain_warehouse` after its test of the room: what was popped is pushed.
abbrev pub drained :
    (DtaScheduler → DtaScheduler × ℕ)
    → ℕ
    → DtaScheduler
    → Warehouse × Option (Option (Option TaskChunk))
    → DtaScheduler × ℕ
drained rest core s (wh, some (some (some chunk))) =
    let (s', n) =
      rest (set_worker core (push_batch (s.workers core) chunk) (record s { warehouse = wh })) in
    (s', suc n)
drained rest core s (wh, r) = (record s { warehouse = wh }, 0)

-- The loop, with the turns that are left of its cap, and how many chunks it drained.
unfoldable pub drain_loop : ℕ → ℕ → DtaScheduler → DtaScheduler × ℕ
drain_loop zero core s = (s, 0)
drain_loop (suc left) core s =
    elim (ltb local_queue_high_watermark (local_queue_len (s.workers core) + chunk_size)) [
      | true ↦ (s, 0)
      | false ↦ drained (λ s'. drain_loop left core s') core s (Warehouse.pop 1 s.warehouse)
    ]

unfoldable pub drain_warehouse : ℕ → DtaScheduler → DtaScheduler × Bool
drain_warehouse core s = let (s', n) = drain_loop 64 core s in (s', ltb 0 n)

abbrev pub deflected : ℕ → DtaScheduler × PushResult TaskChunk → DtaScheduler × Outcome
deflected target (s, ok) = (signal_worker target s, placed)
deflected target (s, err c) = park_in_warehouse c s

-- The peer of a chunk that has hopped.
abbrev pub peer_of : ℕ → ℕ → TaskChunk → ℕ
peer_of n core c =
    let start = wrapping_add core (1 + c.hop_count * 7) % n in
    if ltb 1 n && (start == core) then (start + 1) % n else start

-- The push of `route_deflect` to the peer's mailbox, and what follows.
unfoldable pub push_to_peer : ℕ → ℕ → TaskChunk → DtaScheduler → DtaScheduler × Outcome
push_to_peer core target c s =
    let (m, r) = Mailbox.push (s.mailboxes core target) c in
    deflected target (set_mailbox core target m s, r)

unfoldable pub route_deflect : ℕ → TaskChunk → DtaScheduler → DtaScheduler × Outcome
route_deflect core chunk s =
    push_to_peer core (peer_of s.num_workers core (hop chunk)) (hop chunk) s

unfoldable pub route_local : ℕ → TaskChunk → DtaScheduler → DtaScheduler × Outcome
route_local core chunk s = (set_worker core (push_batch (s.workers core) chunk) s, placed)

-- The table of `route_chunk`, indexed by whether there is space and whether hops are left.
abbrev pub routes : Bool → Bool → ℕ → TaskChunk → DtaScheduler → DtaScheduler × Outcome
routes false false core chunk s = park_in_warehouse chunk s
routes true hops core chunk s = route_local core chunk s
routes false true core chunk s = route_deflect core chunk s

unfoldable pub route_chunk : ℕ → TaskChunk → DtaScheduler → DtaScheduler × Outcome
route_chunk core chunk s =
    routes (leb (local_queue_len (s.workers core) + chunk.count) local_queue_high_watermark)
      (ltb chunk.hop_count s.max_hops) core chunk s

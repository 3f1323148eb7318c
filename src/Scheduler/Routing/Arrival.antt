-- ===== src/Scheduler/Routing/Arrival.antt =====
-- `route_chunk`: what a worker does with a chunk that has arrived.
use native.Mathlib.Nat.{mod-lt}
use dtact.Base.{
  ℕ, ◌+◌, ◌*◌, ◌%◌, ◌≤◌, ◌<◌, ◌≡◌, ◌≢◌, ◌⊎◌, refl, ap, sym, subst, Bool, true, false, ◌&&◌, ◌++◌,
  arith, ltb, leb, ◌==◌, ==_self, if◌then◌else◌, Bool-cases, inl, inr, length, wrapping_add,
}
use dtact.Scheduler.Mailbox.{TaskChunk, items, chunk_size}
use dtact.Scheduler.Mailbox
use dtact.Scheduler.Worker.{
  local_queue_capacity, local_queue_high_watermark, local_queue_len, push_batch,
}
use dtact.Scheduler.Worker.Queue.{len-Queued, push_batch-Queued}
use dtact.Scheduler.Routing.{
  DtaScheduler, placed, hop, park_in_warehouse, route_local, route_deflect, route_chunk, routes,
  deflected, peer_of, push_to_peer, set_worker, set_mailbox,
}
use dtact.Scheduler.Routing.View.{
  View, Stored, box, stocked, put_box-Stored, set_worker-Stored, signal-Stored, park-Stored,
}
use dtact.Scheduler.Routing.Hops.{Arrives, turned}

-- The tasks of a chunk at the end of a worker's own queue.
abbrev pub local_batch : ℕ → TaskChunk → View → View
local_batch k c v = record v { locals = λ i. if k == i then v.locals i ++ items c else v.locals i }

parked :
    (p : ℕ) (c : TaskChunk) (s : DtaScheduler) (v : View)
    → Stored s v
    → Arrives p c v (park_in_warehouse c s)
parked p c s v h = elim (park-Stored s v p c h) [
  | inl (done, held) ↦ inl (done, (stocked, c.hop_count, tt, held))
  | inr over ↦ inr over
]

pub batch-Stored :
    (s : DtaScheduler) (v : View) (k : ℕ) (c : TaskChunk)
    → Stored s v
    → c.count ≤ length c.tasks
    → length (v.locals k) + c.count < local_queue_capacity
    → Stored (set_worker k (push_batch (s.workers k) c) s) (local_batch k c v)
batch-Stored s v k c h have room =
    set_worker-Stored s v (local_batch k c v).locals k _ h
      (rw (==_self k) (push_batch-Queued (s.workers k) (v.locals k) c (h.locals_hold k) have room))
      (λ i off. rw off refl)

peer_of-Fair :
    (n core : ℕ) (c : TaskChunk)
    → 1 < n
    → core < n
    → (peer_of n core c < n) × (peer_of n core c ≢ core)
peer_of-Fair n core c two lt = elim (Bool-cases (ltb 1 n && (start == core))) [
  | inl e ↦
      let same : start ≡ core = ground arith in
      let (below, apart) = turned n core two lt in rw (e, same) (below, apart)
  | inr e ↦ rw e (mod-lt _ (omega arith), λ same. absurd (contrary same e))
]
  where
    start : ℕ
    start = wrapping_add core (1 + c.hop_count * 7) % n

    contrary : start ≡ core → (ltb 1 n && (start == core)) ≡ false → ⊥
    contrary same e = ground arith

push_to_peer-Arrives :
    (core target : ℕ) (c : TaskChunk) (s : DtaScheduler) (v : View)
    → Stored s v
    → core < v.num_workers
    → (target < v.num_workers) × (target ≢ core)
    → Arrives core c v (push_to_peer core target c s)
unfolding push_to_peer
push_to_peer-Arrives core target c s v h lt (below, apart) =
    elim (put_box-Stored s v core target c h) [
      | inl (e, stored) ↦ subst (Arrives core c v) (sym (ap (λ a. deflected target (after, a)) e)) (
          inl (
            refl,
            (box target, c.hop_count, (lt, below, apart), signal-Stored after _ target stored),
          ))
      | inr (e, stored) ↦
          subst (Arrives core c v) (sym (ap (λ a. deflected target (after, a)) e))
            (parked core c after v stored)
    ]
  where
    after : DtaScheduler
    after = set_mailbox core target (Mailbox.push (s.mailboxes core target) c).0 s

-- A deflected chunk goes to the mailbox of another worker, or to the warehouse.
route_deflect-Arrives :
    (core : ℕ) (c : TaskChunk) (s : DtaScheduler) (v : View)
    → Stored s v
    → 1 < v.num_workers
    → core < v.num_workers
    → Arrives core c v (route_deflect core c s)
unfolding route_deflect
route_deflect-Arrives core c s v h two lt =
    push_to_peer-Arrives core (peer_of s.num_workers core (hop c)) (hop c) s v h lt (
      subst (λ n. (peer_of n core (hop c) < v.num_workers) × (peer_of n core (hop c) ≢ core))
        (sym h.workers_same) (peer_of-Fair v.num_workers core (hop c) two lt))

-- A chunk that has arrived at a worker among two or more, with all its tasks in its array, goes to the end of the worker's queue if that leaves the queue at its high-water mark at most; else to
-- the mailbox of another worker or to the warehouse; or the warehouse was full, and the program panics.
pub route_chunk-Arrives :
    (core : ℕ) (c : TaskChunk) (s : DtaScheduler) (v : View)
    → Stored s v
    → 1 < v.num_workers
    → core < v.num_workers
    → c.count ≤ length c.tasks
    → (let r = route_chunk core c s in
        ((length (v.locals core) + c.count ≤ local_queue_high_watermark)
          × (r.1 ≡ placed)
          × Stored r.0 (local_batch core c v))
        ⊎ ((local_queue_high_watermark < length (v.locals core) + c.count) × Arrives core c v r))
unfolding route_chunk route_local
route_chunk-Arrives core c s v h two lt have =
    elim (Bool-cases
      (leb (local_queue_len (s.workers core) + c.count) local_queue_high_watermark)) [
        | inl e ↦
            let fits : length (v.locals core) + c.count ≤ local_queue_high_watermark = omega (
              arith,
              leb→le _ _ e,
              len-Queued (s.workers core) (v.locals core) (h.locals_hold core),
            ) in
            let (done, stored) = taken e (refl, batch-Stored s v core c h have (omega arith)) in
            inl (fits, done, stored)
        | inr e ↦ inr (
          omega (
            arith,
            lt_of_not-leb _ _ e,
            len-Queued (s.workers core) (v.locals core) (h.locals_hold core),
          ),
          passed e (onward (ltb c.hop_count s.max_hops)),
        )
      ]
  where
    leb→le : (a b : ℕ) → leb a b ≡ true → a ≤ b
    leb→le a b q = ground arith

    lt_of_not-leb : (a b : ℕ) → leb a b ≡ false → b < a
    lt_of_not-leb a b q = ground arith

    taken :
        {b : Bool}
        → leb (local_queue_len (s.workers core) + c.count) local_queue_high_watermark ≡ b
        → (let r = routes b (ltb c.hop_count s.max_hops) core c s in
            (r.1 ≡ placed) × Stored r.0 (local_batch core c v))
        → (let r = route_chunk core c s in (r.1 ≡ placed) × Stored r.0 (local_batch core c v))
    taken e =
        subst
          (λ b.
            (let r = routes b (ltb c.hop_count s.max_hops) core c s in
              (r.1 ≡ placed) × Stored r.0 (local_batch core c v)))
          (sym e)

    passed :
        {b : Bool}
        → leb (local_queue_len (s.workers core) + c.count) local_queue_high_watermark ≡ b
        → Arrives core c v (routes b (ltb c.hop_count s.max_hops) core c s)
        → Arrives core c v (route_chunk core c s)
    passed e =
        subst (λ b. Arrives core c v (routes b (ltb c.hop_count s.max_hops) core c s)) (sym e)

    onward : (hops : Bool) → Arrives core c v (routes false hops core c s)
    onward true = route_deflect-Arrives core c s v h two lt
    onward false = parked core c s v h

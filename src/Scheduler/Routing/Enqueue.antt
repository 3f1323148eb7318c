-- ===== src/Scheduler/Routing/Enqueue.antt =====
-- `enqueue_deflect` and `enqueue_pinned`: every task ends in one queue; and the one queue that nobody
-- polls when there is a single worker.
use dtact.Base.{
  ℕ, suc, ◌+◌, ◌≤◌, ◌<◌, ◌≡◌, ◌⊎◌, refl, ap, sym, subst, ◌∙◌, Bool, true, false, ◌&&◌, [], ◌∷◌,
  ◌++◌, arith, lt→ltb, ◌==◌, ==_iff, ==_of_ne, ==_self, if◌then◌else◌, Bool-cases, inl, inr, length,
  ok,
}
use native.Mathlib.Nat.{mod-lt}
use dtact.Scheduler.Mailbox.{TaskChunk, mailbox_capacity, single}
use dtact.Scheduler.Mailbox.Fifo.{push-Fifo, fifo_push}
use dtact.Scheduler.Worker.{Worker, local_queue_capacity, push_local, polling_order_for}
use dtact.Scheduler.Worker.Queue.{Queued, push_local-full, push_local-room}
use dtact.Scheduler.Warehouse.{is_busy}
use dtact.Scheduler.Routing.{
  DtaScheduler, Outcome, placed, Affinity, same_core, same_ccx, same_numa, any, put,
  divert_to_warehouse, push_chunk_with_hop, hop_loop, hopped, off_column, signal_worker, set_worker,
  enqueue_at, enqueue_deflect, deflect_target, is_global, local_target,
}
use dtact.Scheduler.Routing.View.{
  View, Stored, box, stocked, deposit, set_worker-Stored, signal-Stored, park-Stored, aim,
  put-Stored,
}
use dtact.Scheduler.Routing.Hops.{Arrives, push_chunk_with_hop-Arrives}

-- A task at the end of a worker's own queue.
abbrev pub local_push : ℕ → ℕ → View → View
local_push k task v = record v {
  locals = λ i. if k == i then v.locals i ++ task ∷ [] else v.locals i;
}

pub push_local-Stored :
    (s : DtaScheduler) (v : View) (k task : ℕ)
    → Stored s v
    → (let r = push_local (s.workers k) task in
        ((r.1 ≡ true) × Stored (set_worker k r.0 s) (local_push k task v))
        ⊎ ((r.1 ≡ false)
            × (length (v.locals k) + 1 ≡ local_queue_capacity)
            × Stored (set_worker k r.0 s) v))
push_local-Stored s v k task h =
    elim (Bool-cases (length (v.locals k) + 1 == local_queue_capacity)) [
      | inl e ↦
          let full : length (v.locals k) + 1 ≡ local_queue_capacity = (==_iff _ _).0 e in
          let same = push_local-full (s.workers k) (v.locals k) task (h.locals_hold k) full in
          inr (
            ap (λ r. r.1) same,
            full,
            set_worker-Stored s v v.locals k _ h
                (subst (λ r. Queued r.0 (v.locals k)) (sym same) (h.locals_hold k)) (λ i off. refl),
          )
      | inr e ↦
          let (done, held) =
            push_local-room (s.workers k) (v.locals k) task (h.locals_hold k)
              (room (h.locals_hold k).fits e) in
          inl (
            done,
            set_worker-Stored s v (local_push k task v).locals k _ h (rw (==_self k) held)
                (λ i off. rw off refl),
          )
    ]
  where
    room :
        {n : ℕ}
        → n < local_queue_capacity
        → (n + 1 == local_queue_capacity) ≡ false
        → n + 1 < local_queue_capacity
    room lt e = ground arith

-- The task is in the queue of the calling worker, or where its chunk arrives.
abbrev pub Enqueued : ℕ → ℕ → View → DtaScheduler × Outcome → Type 0
Enqueued current task v r =
    ((r.1 ≡ placed) × (current < v.num_workers) × Stored r.0 (local_push current task v))
    ⊎ Arrives current (single task) v r

enqueue_at-Enqueued :
    (current target task : ℕ) (s : DtaScheduler) (v : View)
    → Stored s v
    → 1 < v.num_workers
    → v.max_hops ≤ 255
    → target < v.num_workers
    → Enqueued current task v (enqueue_at current target task s)
unfolding enqueue_at
enqueue_at-Enqueued current target task s v h two small lt = elim (Bool-cases (current == target)) [
  | inr other ↦ chosen (ap (λ b. b && done) other) (inr across)
  | inl own ↦ elim (push_local-Stored s v target task h) [
    | inr (full, e, stored) ↦ chosen (λ i. own i && full i) (inr across)
    | inl (fits, stored) ↦
        chosen (λ i. own i && fits i)
          (inl (
            refl,
            subst (λ k. k < v.num_workers) (sym ((==_iff current target).0 own)) lt,
            subst (λ k. Stored (set_worker target w s) (local_push k task v))
                (sym ((==_iff current target).0 own)) stored,
          ))
  ]
]
  where
    w : Worker
    w = (push_local (s.workers target) task).0

    done : Bool
    done = (push_local (s.workers target) task).1

    by_test : Bool → DtaScheduler × Outcome
    by_test b =
        if b
        then (set_worker target w s, placed)
        else push_chunk_with_hop current target (single task) s

    chosen :
        {b : Bool}
        → ((current == target) && done) ≡ b
        → Enqueued current task v (by_test b)
        → Enqueued current task v (enqueue_at current target task s)
    chosen e = subst (λ b. Enqueued current task v (by_test b)) (sym e)

    across : Arrives current (single task) v (push_chunk_with_hop current target (single task) s)
    across = push_chunk_with_hop-Arrives current target (single task) s v h two small lt

local_target-lt :
    (a : Affinity) (deflect : Bool) (source flow n : ℕ)
    → 0 < n
    → local_target a deflect source flow n < n
local_target-lt same_core deflect source flow n h = mod-lt _ h
local_target-lt same_ccx deflect source flow n h = mod-lt _ h
local_target-lt same_numa deflect source flow n h = mod-lt _ h
local_target-lt any deflect source flow n h = mod-lt _ h

-- The target is a worker.
deflect_target-lt :
    (s : DtaScheduler) (v : View) (source flow : ℕ) (affinity : Affinity)
    → Stored s v
    → 1 < v.num_workers
    → deflect_target s source flow affinity < v.num_workers
unfolding deflect_target
deflect_target-lt s v source flow affinity h two =
    subst (λ n. deflect_target s source flow affinity < n) h.workers_same
      (elim (Bool-cases (is_global s.topology affinity)) [
        | inl e ↦ rw e (mod-lt _ some_worker)
        | inr e ↦ rw e (local_target-lt affinity _ _ flow s.num_workers some_worker)
      ])
  where
    some_worker : 0 < s.num_workers
    some_worker = omega (arith, h.workers_same)

-- The queues of a scheduler hold the lists of a view, it has two workers or more, and its hop limit is
-- a byte. Then `enqueue_deflect` ends, and the task is in one place: at the end of the calling
-- worker's own queue, or in a chunk in a mailbox of another worker, in an external mailbox, or in the
-- warehouse; or the warehouse was full, and the program panics.
pub enqueue_deflect-Enqueued :
    (current source flow task : ℕ) (affinity : Affinity) (s : DtaScheduler) (v : View)
    → Stored s v
    → 1 < v.num_workers
    → v.max_hops ≤ 255
    → Enqueued current task v (enqueue_deflect current source flow task affinity s)
unfolding enqueue_deflect divert_to_warehouse
enqueue_deflect-Enqueued current source flow task affinity s v h two small =
    elim (Bool-cases (is_busy s.warehouse)) [
      | inl busy ↦
          chosen busy (elim (park-Stored s v current (record (single task) { hop_count = 255 }) h) [
            | inl (done, stored) ↦ inr (inl (done, (stocked, 255, tt, stored)))
            | inr over ↦ inr (inr over)
          ])
      | inr calm ↦ chosen calm (
          enqueue_at-Enqueued current (deflect_target s source flow affinity) task s v h two small
            (deflect_target-lt s v source flow affinity h two))
    ]
  where
    by_test : Bool → DtaScheduler × Outcome
    by_test b =
        if b
        then divert_to_warehouse task s
        else enqueue_at current (deflect_target s source flow affinity) task s

    chosen :
        {b : Bool}
        → is_busy s.warehouse ≡ b
        → Enqueued current task v (by_test b)
        → Enqueued current task v (enqueue_deflect current source flow task affinity s)
    chosen e = subst (λ b. Enqueued current task v (by_test b)) (sym e)

put-room :
    (s : DtaScheduler) (v : View) (p t : ℕ) (c : TaskChunk)
    → Stored s v
    → p < s.num_workers
    → length (v.boxes p t) + 1 < mailbox_capacity
    → (put p t c s).1 ≡ ok
unfolding put fifo_push
put-room s v p t c h lt room =
    let (answer, held) = push-Fifo (s.mailboxes p t) (v.boxes p t) c (h.boxes_hold p t) in
    rw (lt→ltb p s.num_workers lt) (
      answer
      ∙ rw (==_of_ne (length (v.boxes p t) + 1) mailbox_capacity (λ e. absurd (omega arith))) refl)

hop_loop-ok :
    (fuel p t : ℕ) (c : TaskChunk) (s : DtaScheduler)
    → (put p t c s).1 ≡ ok
    → hop_loop (suc fuel) p t c s ≡ (signal_worker t (put p t c s).0, placed)
unfolding hop_loop
hop_loop-ok fuel p t c s e =
    ap (λ a. hopped (λ t' c' s'. hop_loop fuel p t' c' s') p t ((put p t c s).0, a)) e

-- With one worker, whose mailbox to itself has room: a chunk that the worker pushes on is put into that
-- mailbox, and reported as placed, though the worker polls no mailbox of the matrix.
push_chunk_with_hop-stranded :
    (c : TaskChunk) (s : DtaScheduler) (v : View)
    → Stored s v
    → v.num_workers ≡ 1
    → length (v.boxes 0 0) + 1 < mailbox_capacity
    → (let r = push_chunk_with_hop 0 0 c s in
        (r.1 ≡ placed) × Stored r.0 (deposit 0 (box 0) c v) × (polling_order_for 0 0 1 ≡ []))
unfolding push_chunk_with_hop polling_order_for
push_chunk_with_hop-stranded c s v h one room =
    let single_worker : s.num_workers ≡ 1 = h.workers_same ∙ one in
    let accepted : (put 0 0 c s).1 ≡ ok = put-room s v 0 0 c h (omega arith) room in
    let run : push_chunk_with_hop 0 0 c s ≡ (signal_worker 0 (put 0 0 c s).0, placed) =
      ap (λ n. hop_loop 256 0 (off_column n 0 0) c s) single_worker
      ∙ hop_loop-ok 255 0 0 c s accepted in
    (
      ap (λ r. r.1) run,
      subst (λ r. Stored r.0 (deposit 0 (box 0) c v)) (sym run)
          (signal-Stored _ _ 0 (elim (put-Stored s v 0 0 c h) [
            | inl (e, stored) ↦
                subst (λ n. Stored (put 0 0 c s).0 (deposit 0 (aim n 0 0) c v)) single_worker stored
            | inr (e, stored) ↦ absurd cc
          ])),
      refl,
    )

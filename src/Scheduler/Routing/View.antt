-- ===== src/Scheduler/Routing/View.antt =====
-- What the queues of a scheduler hold, as lists, and where a chunk can be put.
use mathlib.Core.Path.{subst₂}
use dtact.Base.{
  ℕ, ◌+◌, ◌/◌, ◌%◌, ◌^◌, min, ◌≤◌, ◌≡◌, ◌⊎◌, refl, ap, sym, subst, ◌∙◌, true, false, ◌&&◌, List, [],
  ◌∷◌, ◌++◌, arith, ltb, ◌==◌, ==_iff, ==_self, if◌then◌else◌, Bool-cases, inl, inr, length, ok,
  err,
}
use dtact.Scheduler.Mailbox.{TaskChunk, Mailbox, mailbox_capacity}
use dtact.Scheduler.Mailbox
use dtact.Scheduler.Mailbox.Fifo.{push-Fifo, fifo_push, new-Holds}
use dtact.Scheduler.Warehouse.{Warehouse, warehouse_capacity}
use dtact.Scheduler.Warehouse
use dtact.Lockfree.Mpmc
use dtact.Scheduler.Warehouse.Backlog.{new-empty}
use dtact.Scheduler.Warehouse.Ring.{Fresh, head-push}
use dtact.Scheduler.Worker.{Worker}
use dtact.Scheduler.Worker.Queue.{Queued, new-Queued}
use dtact.Scheduler.Routing.{
  DtaScheduler, TopologyMode, new, placed, overflows, set_mailbox, set_external, set_worker,
  signal_worker, put, park_in_warehouse, parked_as,
}

pub record View : Type 0 where
  pub num_workers : ℕ
  pub max_hops : ℕ
  pub boxes : ℕ → ℕ → List TaskChunk
  pub outside : ℕ → List TaskChunk
  pub stock : List TaskChunk
  pub locals : ℕ → List ℕ

pub record Stored (s : DtaScheduler) (v : View) : Type 0 where
  pub workers_same : s.num_workers ≡ v.num_workers
  pub hops_same : s.max_hops ≡ v.max_hops
  pub boxes_hold : (i j : ℕ) → Mailbox.Fifo.Holds (s.mailboxes i j) (v.boxes i j)
  pub outside_hold : (j : ℕ) → Mailbox.Fifo.Holds (s.external_mailboxes j) (v.outside j)
  pub stock_hold : Warehouse.Backlog.Holds s.warehouse v.stock
  pub fresh : Fresh s.warehouse
  pub locals_hold : (i : ℕ) → Queued (s.workers i) (v.locals i)

-- A mailbox of the producer, the external one of a worker, or the warehouse.
pub data Place : Type 0 where
  box : ℕ → Place
  external : ℕ → Place
  stocked : Place

-- A chunk at the end of what a place holds.
abbrev pub deposit : ℕ → Place → TaskChunk → View → View
deposit p (box t) c v = record v {
  boxes = λ i j. if (p == i) && (t == j) then v.boxes i j ++ c ∷ [] else v.boxes i j;
}
deposit p (external t) c v = record v {
  outside = λ j. if t == j then v.outside j ++ c ∷ [] else v.outside j;
}
deposit p stocked c v = record v { stock = v.stock ++ c ∷ [] }

both_eq : (p i t j : ℕ) → ((p == i) && (t == j)) ≡ true → (p ≡ i) × (t ≡ j)
both_eq p i t j e = ground arith

push-cases :
    (m : Mailbox) (xs : List TaskChunk) (c : TaskChunk)
    → Mailbox.Fifo.Holds m xs
    → (let r = Mailbox.push m c in
        ((r.1 ≡ ok) × Mailbox.Fifo.Holds r.0 (xs ++ c ∷ []))
        ⊎ ((r.1 ≡ err c) × Mailbox.Fifo.Holds r.0 xs))
unfolding fifo_push
push-cases m xs c h =
    let (answer, held) = push-Fifo m xs c h in
    elim (Bool-cases (length xs + 1 == mailbox_capacity)) [
      | inl e ↦ inr (rw e at answer, rw e at held)
      | inr e ↦ inl (rw e at answer, rw e at held)
    ]

-- One mailbox of the matrix is replaced, or one external mailbox.
matrix-set :
    (f : ℕ → ℕ → Mailbox) (g : ℕ → ℕ → List TaskChunk) (p t : ℕ) (m : Mailbox)
    → Mailbox.Fifo.Holds m (g p t)
    → ((i j : ℕ) → ((p == i) && (t == j)) ≡ false → Mailbox.Fifo.Holds (f i j) (g i j))
    → (i j : ℕ) → Mailbox.Fifo.Holds (if (p == i) && (t == j) then m else f i j) (g i j)
matrix-set f g p t m at others i j = elim (Bool-cases ((p == i) && (t == j))) [
  | inl e ↦
      let (pi, tj) = both_eq p i t j e in
      rw e (subst₂ (λ k l. Mailbox.Fifo.Holds m (g k l)) pi tj at)
  | inr e ↦ rw e (others i j e)
]

row-set :
    (f : ℕ → Mailbox) (g : ℕ → List TaskChunk) (t : ℕ) (m : Mailbox)
    → Mailbox.Fifo.Holds m (g t)
    → ((j : ℕ) → (t == j) ≡ false → Mailbox.Fifo.Holds (f j) (g j))
    → (j : ℕ) → Mailbox.Fifo.Holds (if t == j then m else f j) (g j)
row-set f g t m at others j = elim (Bool-cases (t == j)) [
  | inl e ↦ rw e (subst (λ l. Mailbox.Fifo.Holds m (g l)) ((==_iff t j).0 e) at)
  | inr e ↦ rw e (others j e)
]

pub set_mailbox-Stored :
    (s : DtaScheduler) (v : View) (g : ℕ → ℕ → List TaskChunk) (p t : ℕ) (m : Mailbox)
    → Stored s v
    → Mailbox.Fifo.Holds m (g p t)
    → ((i j : ℕ) → ((p == i) && (t == j)) ≡ false → g i j ≡ v.boxes i j)
    → Stored (set_mailbox p t m s) (record v { boxes = g })
set_mailbox-Stored s v g p t m h at others = record {
  workers_same = h.workers_same;
  hops_same = h.hops_same;
  boxes_hold = matrix-set s.mailboxes g p t m at (λ i j e.
      subst (Mailbox.Fifo.Holds (s.mailboxes i j)) (sym (others i j e)) (h.boxes_hold i j));
  outside_hold = h.outside_hold;
  stock_hold = h.stock_hold;
  fresh = h.fresh;
  locals_hold = h.locals_hold;
}

pub put_box-Stored :
    (s : DtaScheduler) (v : View) (p t : ℕ) (c : TaskChunk)
    → Stored s v
    → (let r = Mailbox.push (s.mailboxes p t) c in
        ((r.1 ≡ ok) × Stored (set_mailbox p t r.0 s) (deposit p (box t) c v))
        ⊎ ((r.1 ≡ err c) × Stored (set_mailbox p t r.0 s) v))
put_box-Stored s v p t c h =
    elim (push-cases (s.mailboxes p t) (v.boxes p t) c (h.boxes_hold p t)) [
      | inl (e, held) ↦ inl (
        e,
        set_mailbox-Stored s v (deposit p (box t) c v).boxes p t _ h
            (rw (==_self p, ==_self t) held) (λ i j off. rw off refl),
      )
      | inr (e, held) ↦ inr (e, set_mailbox-Stored s v v.boxes p t _ h held (λ i j off. refl))
    ]

pub set_external-Stored :
    (s : DtaScheduler) (v : View) (g : ℕ → List TaskChunk) (t : ℕ) (m : Mailbox)
    → Stored s v
    → Mailbox.Fifo.Holds m (g t)
    → ((j : ℕ) → (t == j) ≡ false → g j ≡ v.outside j)
    → Stored (set_external t m s) (record v { outside = g })
set_external-Stored s v g t m h at others = record {
  workers_same = h.workers_same;
  hops_same = h.hops_same;
  boxes_hold = h.boxes_hold;
  outside_hold = row-set s.external_mailboxes g t m at (λ j e.
      subst (Mailbox.Fifo.Holds (s.external_mailboxes j)) (sym (others j e)) (h.outside_hold j));
  stock_hold = h.stock_hold;
  fresh = h.fresh;
  locals_hold = h.locals_hold;
}

put_external-Stored :
    (s : DtaScheduler) (v : View) (p t : ℕ) (c : TaskChunk)
    → Stored s v
    → (let r = Mailbox.push (s.external_mailboxes t) c in
        ((r.1 ≡ ok) × Stored (set_external t r.0 s) (deposit p (external t) c v))
        ⊎ ((r.1 ≡ err c) × Stored (set_external t r.0 s) v))
put_external-Stored s v p t c h =
    elim (push-cases (s.external_mailboxes t) (v.outside t) c (h.outside_hold t)) [
      | inl (e, held) ↦ inl (
        e,
        set_external-Stored s v (deposit p (external t) c v).outside t _ h (rw (==_self t) held)
            (λ j off. rw off refl),
      )
      | inr (e, held) ↦ inr (e, set_external-Stored s v v.outside t _ h held (λ j off. refl))
    ]

-- Where `put` puts a chunk of this producer.
abbrev pub aim : ℕ → ℕ → ℕ → Place
aim n p t = if ltb p n then box t else external t

pub put-Stored :
    (s : DtaScheduler) (v : View) (p t : ℕ) (c : TaskChunk)
    → Stored s v
    → (let r = put p t c s in
        ((r.1 ≡ ok) × Stored r.0 (deposit p (aim s.num_workers p t) c v))
        ⊎ ((r.1 ≡ err c) × Stored r.0 v))
unfolding put
put-Stored s v p t c h = elim (Bool-cases (ltb p s.num_workers)) [
  | inl e ↦ rw e (put_box-Stored s v p t c h)
  | inr e ↦ rw e (put_external-Stored s v p t c h)
]

pub set_worker-Stored :
    (s : DtaScheduler) (v : View) (g : ℕ → List ℕ) (k : ℕ) (w : Worker)
    → Stored s v
    → Queued w (g k)
    → ((i : ℕ) → (k == i) ≡ false → g i ≡ v.locals i)
    → Stored (set_worker k w s) (record v { locals = g })
set_worker-Stored s v g k w h at others = record {
  workers_same = h.workers_same;
  hops_same = h.hops_same;
  boxes_hold = h.boxes_hold;
  outside_hold = h.outside_hold;
  stock_hold = h.stock_hold;
  fresh = h.fresh;
  locals_hold = λ i. elim (Bool-cases (k == i)) [
    | inl e ↦ rw e (subst (λ l. Queued w (g l)) ((==_iff k i).0 e) at)
    | inr e ↦ rw e (subst (Queued (s.workers i)) (sym (others i e)) (h.locals_hold i))
  ];
}

pub signal-Stored :
    (s : DtaScheduler) (v : View) (k : ℕ) → Stored s v → Stored (signal_worker k s) v
unfolding signal_worker
signal-Stored s v k h =
    let q = h.locals_hold k in
    set_worker-Stored s v v.locals k _ h
      (record { head_in = q.head_in; tail_at = q.tail_at; fits = q.fits; cells = q.cells })
      (λ i off. refl)

pub stock-set :
    (s : DtaScheduler) (v : View) (xs : List TaskChunk) (wh : Warehouse)
    → Stored s v
    → Warehouse.Backlog.Holds wh xs
    → Fresh wh
    → Stored (record s { warehouse = wh }) (record v { stock = xs })
stock-set s v xs wh h held far = record {
  workers_same = h.workers_same;
  hops_same = h.hops_same;
  boxes_hold = h.boxes_hold;
  outside_hold = h.outside_hold;
  stock_hold = held;
  fresh = far;
  locals_hold = h.locals_hold;
}

-- The warehouse takes a chunk unless it is full.
pub park-Stored :
    (s : DtaScheduler) (v : View) (p : ℕ) (c : TaskChunk)
    → Stored s v
    → (let r = park_in_warehouse c s in
        ((r.1 ≡ placed) × Stored r.0 (deposit p stocked c v))
        ⊎ ((r.1 ≡ overflows) × (warehouse_capacity ≤ length v.stock)))
unfolding park_in_warehouse Mpmc.Fifo.fifo_push
park-Stored s v p c h =
    let (told, held) =
      Warehouse.Backlog.push-Backlog 0 s.warehouse v.stock c h.stock_hold h.fresh in
    let far : Fresh (Warehouse.push 1 s.warehouse c).0 =
      omega (arith, h.fresh, head-push 1 s.warehouse c) in
    elim (Bool-cases (ltb (length v.stock) warehouse_capacity)) [
      | inl e ↦
          inl (
            ap parked_as told ∙ rw e refl,
            stock-set s v (v.stock ++ c ∷ []) _ h (rw e at held) far,
          )
      | inr e ↦ inr (ap parked_as told ∙ rw e refl, ground arith)
    ]

abbrev pub empty_view : ℕ → View
empty_view n = record {
  num_workers = n;
  max_hops = min (n / 2) 255;
  boxes = λ i j. [];
  outside = λ j. [];
  stock = [];
  locals = λ i. [];
}

-- A new scheduler holds nothing.
pub new-Stored : (n : ℕ) (topology : TopologyMode) → Stored (new n topology) (empty_view n)
unfolding new Warehouse.new
new-Stored n topology = record {
  workers_same = refl;
  hops_same = refl;
  boxes_hold = λ i j. new-Holds;
  outside_hold = λ j. new-Holds;
  stock_hold = new-empty;
  fresh = omega arith;
  locals_hold = λ i. new-Queued (i % 2 ^ 16) (i / 8 % 2 ^ 16) n;
}

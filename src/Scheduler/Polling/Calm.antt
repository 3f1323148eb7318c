-- ===== src/Scheduler/Polling/Calm.antt =====
-- A worker that polls: what stays as it is while its mailboxes are emptied.
use dtact.Base.{
  ℕ, ◌+◌, ◌<◌, ◌≡◌, refl, ap, sym, subst, ◌∙◌, Bool, true, false, Option, none, some, List, [], ◌∷◌,
  arith, lt→ltb, ◌==◌, ==_iff, ==_self, Bool-cases, inl, inr, length, PushResult, ok, err,
}
use dtact.Scheduler.Mailbox.{TaskChunk, chunk_size}
use dtact.Scheduler.Worker.{push_batch, local_queue_capacity}
use dtact.Scheduler.Routing.{
  DtaScheduler, signal_worker, route_chunk, route_local, route_deflect, push_to_peer,
  park_in_warehouse, routes, deflected,
}
use dtact.Scheduler.Routing.View.{View, Stored}
use dtact.Scheduler.Polling.{pop_row, has_room}
use dtact.Scheduler.Polling.Columns.{
  column, set_column, Lands, Filled, column-set, column-Lands, workers-Lands, workers-set_column,
}

-- Nothing that a worker does with a chunk moves the head of its queue.
abbrev pub head_of : ℕ → DtaScheduler → ℕ
head_of core s = (s.workers core).local_head

head_of-signal_worker :
    (core k : ℕ) (s : DtaScheduler) → head_of core (signal_worker k s) ≡ head_of core s
unfolding signal_worker
head_of-signal_worker core k s = elim (Bool-cases (k == core)) [
  | inl e ↦ rw (e, head_of) (ap (λ i. (s.workers i).local_head) ((==_iff k core).0 e))
  | inr e ↦ rw (e, head_of) refl
]

head_of-park_in_warehouse :
    (core : ℕ) (c : TaskChunk) (s : DtaScheduler)
    → head_of core (park_in_warehouse c s).0 ≡ head_of core s
unfolding park_in_warehouse
head_of-park_in_warehouse core c s = refl

head_of-deflected :
    (core target : ℕ) (s : DtaScheduler) (r : PushResult TaskChunk)
    → head_of core (deflected target (s, r)).0 ≡ head_of core s
head_of-deflected core target s ok = head_of-signal_worker core target s
head_of-deflected core target s (err c) = head_of-park_in_warehouse core c s

head_of-routes :
    (space hops : Bool) (core : ℕ) (c : TaskChunk) (s : DtaScheduler)
    → head_of core (routes space hops core c s).0 ≡ head_of core s
unfolding route_local route_deflect push_to_peer push_batch
head_of-routes true hops core c s = rw (==_self core, head_of) refl
head_of-routes false true core c s = head_of-deflected core _ _ _
head_of-routes false false core c s = head_of-park_in_warehouse core c s

pub head_of-route_chunk :
    (core : ℕ) (c : TaskChunk) (s : DtaScheduler)
    → head_of core (route_chunk core c s).0 ≡ head_of core s
unfolding route_chunk
head_of-route_chunk core c s = head_of-routes _ _ core c s

pub head_of-pop_row :
    (core : ℕ) (r : Option ℕ) (s : DtaScheduler)
    → head_of core (pop_row core r s).0 ≡ head_of core s
unfolding pop_row
head_of-pop_row core none s = refl
head_of-pop_row core (some i) s = refl

-- The worker is one of several, its queue has room for more than a chunk, and the chunks that wait for
-- it have all their tasks in their arrays.
pub record Calm (core : ℕ) (v : View) : Type 0 where
  pub several : 1 < v.num_workers
  pub inside : core < v.num_workers
  pub room : length (v.locals core) + chunk_size < local_queue_capacity
  pub filled : (r : Option ℕ) → Filled (column core r v)

abbrev pub Keeps : ℕ → View → View → Type 0
Keeps core v w = (r : Option ℕ) → column core r v ≡ [] → column core r w ≡ []

pub has_room-true :
    (core : ℕ) (s : DtaScheduler) (v : View)
    → Stored s v
    → Calm core v
    → has_room (head_of core s) core s ≡ true
unfolding has_room
has_room-true core s v h calm =
    let q = h.locals_hold core in
    lt→ltb _ _ (omega (arith, q.tail_at, q.head_in, q.fits, calm.room))

-- A move, by what was in the mailbox and where it lands.
pub Move-Keeps :
    (core : ℕ) (row : Option ℕ) (c : TaskChunk) (rest : List TaskChunk) (v w : View)
    → column core row v ≡ c ∷ rest
    → core < v.num_workers
    → Lands core c (set_column core row rest v) w
    → Keeps core v w
Move-Keeps core row c rest v w e lt lands r empty = elim (column-set core row r rest v) [
  | inl (same, now) ↦ absurd cc (sym e ∙ ap (λ k. column core k v) same ∙ empty)
  | inr other ↦
      column-Lands core c (set_column core row rest v) w
        (subst (λ n. core < n) (sym (workers-set_column core row rest v)) lt) lands r
      ∙ other
      ∙ empty
]

pub Move-Calm :
    (core : ℕ) (row : Option ℕ) (c : TaskChunk) (rest : List TaskChunk) (v w : View)
    → column core row v ≡ c ∷ rest
    → Calm core v
    → Lands core c (set_column core row rest v) w
    → length (w.locals core) + chunk_size < local_queue_capacity
    → Calm core w
Move-Calm core row c rest v w e calm lands room = record {
  several = subst (λ n. 1 < n) (sym workers) calm.several;
  inside = subst (λ n. core < n) (sym workers) calm.inside;
  room = room;
  filled = λ r.
      subst Filled (sym (column-Lands core c (set_column core row rest v) w inside lands r))
        (elim (column-set core row r rest v) [
          | inl (same, now) ↦ subst Filled (sym now) (subst Filled e (calm.filled row)).1
          | inr other ↦ subst Filled (sym other) (calm.filled r)
        ]);
}
  where
    workers : w.num_workers ≡ v.num_workers
    workers =
        workers-Lands core c (set_column core row rest v) w lands
        ∙ workers-set_column core row rest v

    inside : core < (set_column core row rest v).num_workers
    inside = subst (λ n. core < n) (sym (workers-set_column core row rest v)) calm.inside

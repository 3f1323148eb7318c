-- ===== src/Scheduler/Routing/Pinned.antt =====
-- `enqueue_pinned`: a pinned task goes to its own worker, or nowhere.
use dtact.Base.{
  ℕ, ◌+◌, ◌%◌, ◌≡◌, ◌≢◌, ◌⊎◌, refl, ap, sym, subst, Bool, false, arith, ◌==◌, ==_iff, if◌then◌else◌,
  Bool-cases, inl, inr, length,
}
use dtact.Scheduler.Mailbox.{single}
use dtact.Scheduler.Worker.{local_queue_capacity, push_local}
use dtact.Scheduler.Routing.{
  DtaScheduler, Outcome, placed, refused, accepted, signalled, signal_worker, enqueue_pinned, put,
  set_worker,
}
use dtact.Scheduler.Routing.View.{View, Stored, deposit, aim, put-Stored, signal-Stored}
use dtact.Scheduler.Routing.Enqueue.{local_push, push_local-Stored}

-- Where a pinned task may be put for its worker: in its queue by the worker itself, in the mailbox from
-- another worker, or in the external one.
abbrev pub Pinned : ℕ → ℕ → ℕ → View → DtaScheduler × Outcome → Type 0
Pinned current target task v r =
    ((r.1 ≡ placed)
      × (((current ≡ target) × Stored r.0 (local_push target task v))
          ⊎ ((current ≢ target)
              × Stored r.0 (deposit current (aim v.num_workers current target) (single task) v))))
    ⊎ ((r.1 ≡ refused)
        × ((current ≢ target) ⊎ (length (v.locals target) + 1 ≡ local_queue_capacity))
        × Stored r.0 v)

own :
    (s : DtaScheduler) (v : View) (current target task : ℕ)
    → Stored s v
    → current ≡ target
    → (let (w, done) = push_local (s.workers target) task in
        Pinned current target task v (set_worker target w s, accepted done))
own s v current target task h same = elim (push_local-Stored s v target task h) [
  | inl (fits, stored) ↦ inl (ap accepted fits, inl (same, stored))
  | inr (full, e, stored) ↦ inr (ap accepted full, inr e, stored)
]

apart : (a b : ℕ) → (a == b) ≡ false → a ≢ b
apart a b e q = ground arith

across :
    (s : DtaScheduler) (v : View) (current target task : ℕ)
    → Stored s v
    → current ≢ target
    → Pinned current target task v (signalled target (put current target (single task) s))
across s v current target task h other = elim (put-Stored s v current target (single task) h) [
  | inl (e, stored) ↦
      subst (Pinned current target task v)
        (sym (ap (λ a. signalled target ((put current target (single task) s).0, a)) e))
        (inl (
          refl,
          inr (
            other,
            subst
                (λ n.
                  Stored (signal_worker target (put current target (single task) s).0)
                    (deposit current (aim n current target) (single task) v))
                h.workers_same (signal-Stored _ _ target stored),
          ),
        ))
  | inr (e, stored) ↦
      subst (Pinned current target task v)
        (sym (ap (λ a. signalled target ((put current target (single task) s).0, a)) e))
        (inr (refl, inl other, stored))
]

-- A worker or a host thread enqueues a pinned task; there is a worker. Then the task is at the end of
-- the target's own queue, if the caller is the target; else in the target's mailbox from the caller, or
-- in its external one if the caller is no worker; or it is refused, and the queues are as before.
pub enqueue_pinned-Pinned :
    (current target_core task : ℕ) (s : DtaScheduler) (v : View)
    → Stored s v
    → Pinned current
        (target_core % v.num_workers)
        task
        v
        (enqueue_pinned current target_core task s)
unfolding enqueue_pinned
enqueue_pinned-Pinned current target_core task s v h =
    subst (λ n. Pinned current (target_core % n) task v (enqueue_pinned current target_core task s))
      h.workers_same
      (elim (Bool-cases (current == target_core % s.num_workers)) [
        | inl e ↦
            by_test e (own s v current (target_core % s.num_workers) task h ((==_iff _ _).0 e))
        | inr e ↦ by_test e (across s v current (target_core % s.num_workers) task h (apart _ _ e))
      ])
  where
    branches : Bool → DtaScheduler × Outcome
    branches b =
        if b
        then (let (w, done) = push_local (s.workers (target_core % s.num_workers)) task in
            (set_worker (target_core % s.num_workers) w s, accepted done))
        else signalled (target_core % s.num_workers)
            (put current (target_core % s.num_workers) (single task) s)

    by_test :
        {b : Bool}
        → (current == target_core % s.num_workers) ≡ b
        → Pinned current (target_core % s.num_workers) task v (branches b)
        → Pinned current
            (target_core % s.num_workers)
            task
            v
            (enqueue_pinned current target_core task s)
    by_test e =
        subst (λ b. Pinned current (target_core % s.num_workers) task v (branches b)) (sym e)

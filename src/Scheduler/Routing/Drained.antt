-- ===== src/Scheduler/Routing/Drained.antt =====
-- What `drain_warehouse` leaves in the warehouse and in the worker's queue, and why it stops.
use dtact.Base.{
  ℕ, zero, suc, ◌+◌, ◌*◌, ◌^◌, ◌≤◌, ◌<◌, ◌≡◌, refl, ap, sym, subst, ◌∙◌, true, List, [], ◌∷◌, ◌++◌,
  arith, ltb, if◌then◌else◌, Bool-cases, inl, inr, length, take, drop, append-nil, append_assoc,
  ◌⊎◌, ◌==◌,
}
use dtact.Scheduler.Mailbox.{TaskChunk, chunk_size, items}
use dtact.Scheduler.Warehouse.{warehouse_capacity}
use dtact.Scheduler.Worker.{local_queue_high_watermark}
use dtact.Scheduler.Routing.{DtaScheduler, drain_loop, drain_warehouse}
use dtact.Scheduler.Routing.View.{View, Stored}
use dtact.Scheduler.Routing.Arrival.{local_batch}
use dtact.Scheduler.Routing.Drain.{
  drain_first, drains, Small, drains-full, drains-turn, Same, loop-Same,
}

abbrev pub tasks_of : List TaskChunk → List ℕ
tasks_of [] = []
tasks_of (c ∷ cs) = items c ++ tasks_of cs

-- The first chunks of the stock are at the end of the worker's queue.
abbrev pub taken : ℕ → ℕ → View → View
taken core n v = record v {
  stock = drop n v.stock;
  locals = λ i. if core == i then v.locals i ++ tasks_of (take n v.stock) else v.locals i;
}

taken-zero : (core : ℕ) (v : View) → v ≡ taken core 0 v
taken-zero core v = λ k. record v { locals = λ i. same i k }
  where
    same : (i : ℕ) → v.locals i ≡ (if core == i then v.locals i ++ [] else v.locals i)
    same i = elim (Bool-cases (core == i)) [
      | inl e ↦ rw e (sym (append-nil (v.locals i)))
      | inr e ↦ rw e refl
    ]

taken-suc :
    (core n : ℕ) (v : View) (c : TaskChunk) (cs : List TaskChunk)
    → taken core n (local_batch core c (record v { stock = cs }))
      ≡ taken core (suc n) (record v { stock = c ∷ cs })
taken-suc core n v c cs = λ k. record v { stock = drop n cs; locals = λ i. same i k }
  where
    same :
        (i : ℕ)
        → (taken core n (local_batch core c (record v { stock = cs }))).locals i
          ≡ (taken core (suc n) (record v { stock = c ∷ cs })).locals i
    same i = elim (Bool-cases (core == i)) [
      | inl e ↦ rw e (append_assoc (v.locals i) (items c) (tasks_of (take n cs)))
      | inr e ↦ rw e refl
    ]

-- Why the loop has stopped: its turns are used up, or the stock is, or the queue is at its mark.
abbrev pub Stops : ℕ → ℕ → View → View → ℕ → Type 0
Stops left core v w n =
    (n ≤ left)
    × (n ≤ length v.stock)
    × (w ≡ taken core n v)
    × ((n ≡ left)
        ⊎ (w.stock ≡ [])
        ⊎ (local_queue_high_watermark < length (w.locals core) + chunk_size))

first-Stops :
    (left core : ℕ) (v : View) (xs : List TaskChunk)
    → v.stock ≡ xs
    → ((w : View) → Stops left core w (drains left core w).0 (drains left core w).1)
    → (let r = drain_first (λ w. drains left core w) core v xs in Stops (suc left) core v r.0 r.1)
first-Stops left core v [] e later = (omega arith, omega arith, taken-zero core v, inr (inl e))
first-Stops left core v (c ∷ cs) e later =
    let (below, within, same, why) = later (local_batch core c (record v { stock = cs })) in
    (
      omega arith,
      omega (arith, within, ap length e),
      same
          ∙ taken-suc core (drains left core (local_batch core c (record v { stock = cs }))).1 v c
              cs
          ∙ ap
              (λ ys.
                taken core (suc (drains left core (local_batch core c (record v { stock = cs }))).1)
                  (record v { stock = ys }))
              (sym e),
      elim why [ inl all ↦ inl (ap suc all) | inr rest ↦ inr rest ],
    )

drains-Stops :
    (left core : ℕ) (v : View) → Stops left core v (drains left core v).0 (drains left core v).1
unfolding drains
drains-Stops zero core v = (omega arith, omega arith, taken-zero core v, inl refl)
drains-Stops (suc left) core v =
    elim (Bool-cases (ltb local_queue_high_watermark (length (v.locals core) + chunk_size))) [
      | inl e ↦
          subst (λ r. Stops (suc left) core v r.0 r.1) (sym (drains-full left core v e))
            (omega arith, omega arith, taken-zero core v, inr (inr (over _ _ e)))
      | inr e ↦
          subst (λ r. Stops (suc left) core v r.0 r.1) (sym (drains-turn left core v e))
            (first-Stops left core v v.stock refl (λ w. drains-Stops left core w))
    ]
  where
    over : (a b : ℕ) → ltb a b ≡ true → a < b
    over a b e = ground arith

-- The queues of a scheduler hold the lists of a view. The warehouse holds chunks of at most 32 tasks,
-- all in their arrays, and its head is far from the end of its word. Then `drain_warehouse` moves some
-- chunks, at most 64 and at most as many as the stock has, from the front of the stock to the end of
-- the worker's queue, and answers whether it moved any. It stops after 64, at the end of the stock, or when the queue is less than
-- 32 below its high-water mark.
pub drain_warehouse-Stops :
    (core : ℕ) (s : DtaScheduler) (v : View)
    → Stored s v
    → Small v.stock
    → s.warehouse.head + 64 + 2 * warehouse_capacity < 2 ^ 63
    → (n : ℕ) × (n ≤ 64)
      × (n ≤ length v.stock)
      × ((drain_warehouse core s).1 ≡ ltb 0 n)
      × Stored (drain_warehouse core s).0 (taken core n v)
      × ((n ≡ 64)
          ⊎ (drop n v.stock ≡ [])
          ⊎ (local_queue_high_watermark < length ((taken core n v).locals core) + chunk_size))
unfolding drain_warehouse Same
drain_warehouse-Stops core s v h small far =
    let (told, held) = loop-Same 64 core s v h small far in
    let (below, within, same, why) = drains-Stops 64 core v in
    (
      (drains 64 core v).1,
      below,
      within,
      ap (ltb 0) told,
      subst (Stored (drain_loop 64 core s).0) same held,
      subst
          (λ w.
            ((drains 64 core v).1 ≡ 64)
            ⊎ (w.stock ≡ [])
            ⊎ (local_queue_high_watermark < length (w.locals core) + chunk_size))
          same why,
    )

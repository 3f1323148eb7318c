-- ===== src/Scheduler/Routing/Drain.antt =====
-- `drain_warehouse`: chunks go from the warehouse to the queue of a worker, until that is at its mark.
use mathlib.Core.Path.{subst₂}
use dtact.Base.{
  ℕ, zero, suc, ◌+◌, ◌*◌, ◌^◌, ◌≤◌, ◌<◌, ◌≡◌, refl, ap, sym, subst, ◌∙◌, true, false, List, [], ◌∷◌,
  arith, ltb, if◌then◌else◌, Bool-cases, inl, inr, length, wrapping_add,
}
use dtact.Scheduler.Mailbox.{TaskChunk, chunk_size}
use dtact.Scheduler.Warehouse.{Warehouse, warehouse_capacity}
use dtact.Scheduler.Warehouse
use dtact.Lockfree.Mpmc
use dtact.Scheduler.Warehouse.Backlog.{pop-Backlog}
use dtact.Scheduler.Warehouse.Ring.{Fresh, head-pop, after_head}
use dtact.Scheduler.Worker.{local_queue_high_watermark, local_queue_len}
use dtact.Scheduler.Worker.Queue.{len-Queued}
use dtact.Scheduler.Routing.{DtaScheduler, drained, drain_loop}
use dtact.Scheduler.Routing.View.{View, Stored, stock-set}
use dtact.Scheduler.Routing.Arrival.{local_batch, batch-Stored}

-- What a worker may drain: the first chunks of the stock, a number of them at most, each while the
-- worker's queue is at least 32 below its mark. The number of them comes with the view.
abbrev pub drain_first : (View → View × ℕ) → ℕ → View → List TaskChunk → View × ℕ
drain_first again core v [] = (v, 0)
drain_first again core v (c ∷ cs) =
    let (w, n) = again (local_batch core c (record v { stock = cs })) in (w, suc n)

unfoldable pub drains : ℕ → ℕ → View → View × ℕ
drains zero core v = (v, 0)
drains (suc left) core v =
    if ltb local_queue_high_watermark (length (v.locals core) + chunk_size)
    then (v, 0)
    else drain_first (λ w. drains left core w) core v v.stock

abbrev pub Small : List TaskChunk → Type 0
Small [] = Unit {0}
Small (c ∷ cs) = (c.count ≤ length c.tasks) × (c.count ≤ chunk_size) × Small cs

drain_loop-full :
    (left core : ℕ) (s : DtaScheduler)
    → ltb local_queue_high_watermark (local_queue_len (s.workers core) + chunk_size) ≡ true
    → drain_loop (suc left) core s ≡ (s, 0)
unfolding drain_loop
drain_loop-full left core s e = rw (e, drain_loop) refl

drain_loop-turn :
    (left core : ℕ) (s : DtaScheduler)
    → ltb local_queue_high_watermark (local_queue_len (s.workers core) + chunk_size) ≡ false
    → drain_loop (suc left) core s
      ≡ drained (λ s'. drain_loop left core s') core s (Warehouse.pop 1 s.warehouse)
unfolding drain_loop
drain_loop-turn left core s e = rw (e, drain_loop) refl

pub drains-full :
    (left core : ℕ) (v : View)
    → ltb local_queue_high_watermark (length (v.locals core) + chunk_size) ≡ true
    → drains (suc left) core v ≡ (v, 0)
unfolding drains
drains-full left core v e = rw (e, drains) refl

pub drains-turn :
    (left core : ℕ) (v : View)
    → ltb local_queue_high_watermark (length (v.locals core) + chunk_size) ≡ false
    → drains (suc left) core v ≡ drain_first (λ w. drains left core w) core v v.stock
unfolding drains
drains-turn left core v e = rw (e, drains) refl

-- The result of a loop is that of another view of it.
unfoldable pub Same : View × ℕ → DtaScheduler × ℕ → Type 0
Same (w, n) r = (r.1 ≡ n) × Stored r.0 w

-- One turn that pops.
turn-Same :
    (left core : ℕ) (s : DtaScheduler) (v : View) (xs : List TaskChunk)
    → v.stock ≡ xs
    → Stored s v
    → Small xs
    → s.warehouse.head + suc left + 2 * warehouse_capacity < 2 ^ 63
    → length (v.locals core) + chunk_size ≤ local_queue_high_watermark
    → ((t : DtaScheduler) (w : View)
        → Stored t w
        → Small w.stock
        → t.warehouse.head + left + 2 * warehouse_capacity < 2 ^ 63
        → Same (drains left core w) (drain_loop left core t))
    → Same
        (drain_first (λ w. drains left core w) core v xs)
        (drained (λ s'. drain_loop left core s') core s (Warehouse.pop 1 s.warehouse))
unfolding Same Mpmc.Fifo.fifo_pop
turn-Same left core s v [] e h small far room later =
    let (told, held) =
      pop-Backlog 0 s.warehouse [] (subst (Warehouse.Backlog.Holds s.warehouse) e h.stock_hold)
        h.fresh in
    let at = head-pop 1 s.warehouse in
    let stays : Fresh (Warehouse.pop 1 s.warehouse).0 =
      omega (arith, h.fresh, at ∙ ap (λ a. after_head a s.warehouse.head) told) in
    subst (Same (v, 0))
      (sym (
        ap
          (λ a. drained (λ s'. drain_loop left core s') core s ((Warehouse.pop 1 s.warehouse).0, a))
          told))
      (
        refl,
        subst
            (λ ys.
              Stored (record s { warehouse = (Warehouse.pop 1 s.warehouse).0 })
                (record v { stock = ys }))
            (sym e) (stock-set s v [] _ h held stays),
      )
turn-Same left core s v (c ∷ cs) e h (have, few, small) far room later =
    let (told, held) =
      pop-Backlog 0 s.warehouse (c ∷ cs)
        (subst (Warehouse.Backlog.Holds s.warehouse) e h.stock_hold) h.fresh in
    let next : (Warehouse.pop 1 s.warehouse).0.head ≡ wrapping_add s.warehouse.head 1 =
      head-pop 1 s.warehouse ∙ ap (λ a. after_head a s.warehouse.head) told in
    let popped : Stored (record s { warehouse = (Warehouse.pop 1 s.warehouse).0 })
        (record v { stock = cs }) =
      stock-set s v cs _ h held (omega (arith, next)) in
    let (told', held') =
      later _ (local_batch core c (record v { stock = cs }))
        (batch-Stored _ (record v { stock = cs }) core c popped have (omega arith)) small
        (omega (arith, next)) in
    subst (Same (drain_first (λ w. drains left core w) core v (c ∷ cs)))
      (sym (
        ap
          (λ a. drained (λ s'. drain_loop left core s') core s ((Warehouse.pop 1 s.warehouse).0, a))
          told))
      (ap suc told', held')

pub loop-Same :
    (left core : ℕ) (s : DtaScheduler) (v : View)
    → Stored s v
    → Small v.stock
    → s.warehouse.head + left + 2 * warehouse_capacity < 2 ^ 63
    → Same (drains left core v) (drain_loop left core s)
unfolding Same drain_loop drains
loop-Same zero core s v h small far = (refl, h)
loop-Same (suc left) core s v h small far =
    elim (Bool-cases (ltb local_queue_high_watermark (length (v.locals core) + chunk_size))) [
      | inl e ↦
          subst₂ Same (sym (drains-full left core v e))
            (sym (drain_loop-full left core s (same ∙ e))) (refl, h)
      | inr e ↦
          subst₂ Same (sym (drains-turn left core v e))
            (sym (drain_loop-turn left core s (same ∙ e)))
            (turn-Same left core s v v.stock refl h small far (not_over _ _ e)
              (λ t w held few near. loop-Same left core t w held few near))
    ]
  where
    same :
        ltb local_queue_high_watermark (local_queue_len (s.workers core) + chunk_size)
        ≡ ltb local_queue_high_watermark (length (v.locals core) + chunk_size)
    same =
        ap (λ n. ltb local_queue_high_watermark (n + chunk_size))
          (len-Queued (s.workers core) (v.locals core) (h.locals_hold core))

    not_over : (a b : ℕ) → ltb a b ≡ false → b ≤ a
    not_over a b e = ground arith

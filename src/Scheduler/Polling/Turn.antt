-- ===== src/Scheduler/Polling/Turn.antt =====
-- One chunk of a mailbox that leads to a worker is popped and routed.
use dtact.Base.{
  ℕ, ◌+◌, ◌≤◌, ◌<◌, ◌≡◌, ◌⊎◌, refl, ap, sym, subst, ◌∙◌, Option, List, ◌∷◌, arith, ==_self, inl,
  inr, length, length-append, length-take,
}
use dtact.Scheduler.Mailbox.{TaskChunk, chunk_size, items}
use dtact.Scheduler.Warehouse.{warehouse_capacity}
use dtact.Scheduler.Worker.{local_queue_capacity, local_queue_high_watermark}
use dtact.Scheduler.Routing.{DtaScheduler, placed, overflows, route_chunk}
use dtact.Scheduler.Routing.View.{View, Stored, deposit}
use dtact.Scheduler.Routing.Arrival.{local_batch, route_chunk-Arrives}
use dtact.Scheduler.Polling.{Polled, received, routed}
use dtact.Scheduler.Polling.Columns.{
  column, set_column, Lands, kept, sent, moved, Moves, done, onward, Moves-trans, Filled,
  column-Lands, workers-set_column, locals-set_column, stock-set_column, column_self,
  locals-deposit,
}
use dtact.Scheduler.Polling.Calm.{head_of, head_of-route_chunk, Calm, Keeps, Move-Keeps, Move-Calm}

-- What the loops come to: an end with the property, or the panic of a full warehouse.
abbrev pub Polls : ℕ → ℕ → View → (View → Type 0) → Polled → Type 0
Polls core head v P r =
    ((r.1 ≡ placed)
      × ((w : View) × Moves core v w
          × Stored r.0 w
          × Calm core w
          × (head_of core r.0 ≡ head)
          × Keeps core v w
          × P w))
    ⊎ ((r.1 ≡ overflows) × ((w : View) × Moves core v w × (warehouse_capacity ≤ length w.stock)))

-- The polls that follow a move.
pub received-Polls :
    (core head : ℕ) (v w : View) (P : View → Type 0)
    → Moves core v w
    → Keeps core v w
    → (r : Polled) → Polls core head w P r
    → Polls core head v P (received r)
received-Polls core head v w P ms keep (s, o, b) (inl (ends, (z, ns, stored, calm, at, keeps, p))) =
    inl (ends, (z, Moves-trans ms ns, stored, calm, at, λ r e. keeps r (keep r e), p))
received-Polls core head v w P ms keep (s, o, b) (inr (over, (z, ns, full))) =
    inr (over, (z, Moves-trans ms ns, full))

-- A chunk that was popped is routed, and the polls go on.
module _ (core head : ℕ) (row : Option ℕ) (c : TaskChunk) (rest : List TaskChunk) (v : View)
    (e : column core row v ≡ c ∷ rest) (calm : Calm core v) (P : View → Type 0)
    (again : DtaScheduler → Polled) where
  abbrev pub after_pop : View
  after_pop = set_column core row rest v

  unfoldable pub Again : Type 0
  Again =
      (s : DtaScheduler) (w : View)
      → Stored s w
      → Calm core w
      → head_of core s ≡ head
      → column core row w ≡ rest
      → Polls core head w P (again s)

  inside : core < after_pop.num_workers
  inside = subst (λ n. core < n) (sym (workers-set_column core row rest v)) calm.inside

  landed-Polls :
      (s : DtaScheduler) (w : View)
      → head_of core s ≡ head
      → Again
      → Lands core c after_pop w
      → (route_chunk core c s).1 ≡ placed
      → Stored (route_chunk core c s).0 w
      → length (w.locals core) + chunk_size < local_queue_capacity
      → Polls core head v P (routed again (route_chunk core c s))
  unfolding Again
  landed-Polls s w at go lands ends held room =
      subst (Polls core head v P) (sym (ap (λ a. routed again ((route_chunk core c s).0, a)) ends))
        (received-Polls core head v w P (onward (moved row c rest v w e lands) (done w))
          (Move-Keeps core row c rest v w e calm.inside lands) (again (route_chunk core c s).0)
          (go (route_chunk core c s).0 w held (Move-Calm core row c rest v w e calm lands room)
            (head_of-route_chunk core c s ∙ at)
            (column-Lands core c after_pop w inside lands row ∙ column_self core row rest v)))

  kept-room :
      length (after_pop.locals core) + c.count ≤ local_queue_high_watermark
      → length ((local_batch core c after_pop).locals core) + chunk_size < local_queue_capacity
  kept-room fits =
      rw (==_self core) (
        omega (arith, length-append (after_pop.locals core) (items c), length-take c.count c.tasks))

  sent-room : (n : ℕ) → n ≡ length (v.locals core) → n + chunk_size < local_queue_capacity
  sent-room n same = omega (arith, calm.room)

  pub routed-Polls :
      (s : DtaScheduler)
      → Stored s after_pop
      → head_of core s ≡ head
      → Again
      → Polls core head v P (routed again (route_chunk core c s))
  routed-Polls s h at go =
      elim (route_chunk-Arrives core c s after_pop h
        (subst (λ n. 1 < n) (sym (workers-set_column core row rest v)) calm.several) inside
        (subst Filled e (calm.filled row)).0) [
          | inl (fits, ends, held) ↦
              landed-Polls s (local_batch core c after_pop) at go kept ends held (kept-room fits)
          | inr (over, inl (ends, (place, hops, allowed, held))) ↦
              landed-Polls s (deposit core place (record c { hop_count = hops }) after_pop) at go
                (sent place hops allowed) ends held
                (sent-room _ (
                  ap (λ f. length (f core))
                    (locals-deposit core place (record c { hop_count = hops }) after_pop
                      ∙ locals-set_column core row rest v)))
          | inr (over, inr (panics, full)) ↦
              subst (Polls core head v P)
                (sym (ap (λ a. routed again ((route_chunk core c s).0, a)) panics))
                (inr (
                  refl,
                  (
                    v,
                    done v,
                    subst (λ xs. warehouse_capacity ≤ length xs) (stock-set_column core row rest v)
                        full,
                  ),
                ))
        ]

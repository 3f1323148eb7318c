-- ===== src/Scheduler/Polling/Emptied.antt =====
-- `poll_mailboxes` empties the mailboxes that lead to its worker, and loses no chunk.
use dtact.Base.{
  ℕ, zero, suc, ◌≤◌, ◌<◌, ◌≡◌, ◌⊎◌, refl, ap, sym, subst, ◌∙◌, Bool, true, false, Option, none,
  some, List, [], ◌∷◌, arith, inl, inr, length,
}
use dtact.Scheduler.Mailbox.{TaskChunk, mailbox_capacity}
use dtact.Scheduler.Warehouse.{warehouse_capacity}
use dtact.Scheduler.Worker.{tick, update_load}
use dtact.Scheduler.Routing.{DtaScheduler, placed, overflows}
use dtact.Scheduler.Routing.View.{View, Stored, set_worker-Stored}
use dtact.Scheduler.Polling.{
  Polled, pop_row, has_room, popped, if_room, poll_row, also, then_rows, poll_rows, beat, rows_of,
  poll_mailboxes,
}
use dtact.Scheduler.Polling.Columns.{column, Moves, done, Moves-trans, pop_row-some, pop_row-none}
use dtact.Scheduler.Polling.Calm.{head_of, head_of-pop_row, Calm, Keeps, has_room-true}
use dtact.Scheduler.Polling.Turn.{Polls, Again, routed-Polls}

abbrev RowEmpty : ℕ → Option ℕ → View → Type 0
RowEmpty core row w = column core row w ≡ []

-- A loop with that fuel empties the mailbox.
RowPolls : ℕ → ℕ → ℕ → Option ℕ → Type 0
RowPolls fuel head core row =
    (xs : List TaskChunk) (s : DtaScheduler) (v : View)
    → column core row v ≡ xs
    → length xs < fuel
    → Stored s v
    → Calm core v
    → head_of core s ≡ head
    → Polls core head v (RowEmpty core row) (poll_row fuel head core row s)

poll_row-turn :
    (fuel head core : ℕ) (row : Option ℕ)
    → RowPolls fuel head core row
    → RowPolls (suc fuel) head core row
unfolding poll_row RowPolls Again
poll_row-turn fuel head core row later xs s v e short h calm at =
    subst (Polls core head v (RowEmpty core row)) (sym (ap (λ b. if_room b s polled) roomy))
      (by xs e short)
  where
    rest_of : DtaScheduler → Polled
    rest_of s' = poll_row fuel head core row s'

    polled : Polled
    polled = popped rest_of core (pop_row core row s)

    roomy : has_room head core s ≡ true
    roomy = subst (λ k. has_room k core s ≡ true) at (has_room-true core s v h calm)

    after : DtaScheduler
    after = (pop_row core row s).0

    stays : head_of core after ≡ head
    stays = head_of-pop_row core row s ∙ at

    by :
        (xs : List TaskChunk)
        → column core row v ≡ xs
        → length xs < suc fuel
        → Polls core head v (RowEmpty core row) polled
    by [] none_left lt =
        let (answer, held) = pop_row-none s v core row h none_left in
        subst (Polls core head v (RowEmpty core row))
          (sym (ap (λ a. popped rest_of core (after, a)) answer))
          (inl (refl, (v, done v, held, calm, stays, λ r k. k, none_left)))
    by (c ∷ cs) first lt =
        let (answer, held) = pop_row-some s v core row c cs h first in
        subst (Polls core head v (RowEmpty core row))
          (sym (ap (λ a. popped rest_of core (after, a)) answer))
          (routed-Polls core head row c cs v first calm (RowEmpty core row) rest_of after held stays
            (λ s' w stored calm' at' left. later cs s' w left (omega arith) stored calm' at'))

poll_row-RowPolls : (fuel head core : ℕ) (row : Option ℕ) → RowPolls fuel head core row
unfolding RowPolls
poll_row-RowPolls zero head core row xs s v e short h calm at = absurd (omega arith)
poll_row-RowPolls (suc fuel) head core row xs s v e short h calm at =
    poll_row-turn fuel head core row (poll_row-RowPolls fuel head core row) xs s v e short h calm at

abbrev RowsEmpty : ℕ → List (Option ℕ) → View → Type 0
RowsEmpty core [] w = Unit {0}
RowsEmpty core (row ∷ rows) w = (column core row w ≡ []) × RowsEmpty core rows w

column-short :
    (s : DtaScheduler) (v : View) (core : ℕ) (row : Option ℕ)
    → Stored s v
    → length (column core row v) < mailbox_capacity
column-short s v core none h = (h.outside_hold core).fits
column-short s v core (some i) h = (h.boxes_hold i core).fits

-- The rest of the mailboxes, after one.
rows-after :
    (core head : ℕ) (row : Option ℕ) (rows : List (Option ℕ)) (v w : View) (b : Bool) (r : Polled)
    → Moves core v w
    → Keeps core v w
    → RowEmpty core row w
    → Polls core head w (RowsEmpty core rows) r
    → Polls core head v (RowsEmpty core (row ∷ rows)) (also b r)
rows-after core head row rows v w true (s, o, b) ms keep gone
      (inl (ends, (z, ns, stored, calm, at, keeps, p))) =
    inl (
      ends,
      (z, Moves-trans ms ns, stored, calm, at, λ r e. keeps r (keep r e), (keeps row gone, p)),
    )
rows-after core head row rows v w false (s, o, b) ms keep gone
      (inl (ends, (z, ns, stored, calm, at, keeps, p))) =
    inl (
      ends,
      (z, Moves-trans ms ns, stored, calm, at, λ r e. keeps r (keep r e), (keeps row gone, p)),
    )
rows-after core head row rows v w true (s, o, b) ms keep gone (inr (over, (z, ns, full))) =
    inr (over, (z, Moves-trans ms ns, full))
rows-after core head row rows v w false (s, o, b) ms keep gone (inr (over, (z, ns, full))) =
    inr (over, (z, Moves-trans ms ns, full))

rows-then :
    (core head : ℕ) (row : Option ℕ) (rows : List (Option ℕ)) (v : View)
    (again : DtaScheduler → Polled) (r : Polled)
    → Polls core head v (RowEmpty core row) r
    → ((s : DtaScheduler) (w : View)
        → Stored s w
        → Calm core w
        → head_of core s ≡ head
        → Polls core head w (RowsEmpty core rows) (again s))
    → Polls core head v (RowsEmpty core (row ∷ rows)) (then_rows again r)
rows-then core head row rows v again (s, o, b) (inl (ends, (w, ms, stored, calm, at, keeps, gone)))
      go =
    subst (λ k. Polls core head v (RowsEmpty core (row ∷ rows)) (then_rows again (s, k, b)))
      (sym ends)
      (rows-after core head row rows v w b (again s) ms keeps gone (go s w stored calm at))
rows-then core head row rows v again (s, o, b) (inr (over, (w, ms, full))) go =
    subst (λ k. Polls core head v (RowsEmpty core (row ∷ rows)) (then_rows again (s, k, b)))
      (sym over) (inr (refl, (w, ms, full)))

poll_rows-Polls :
    (head core : ℕ) (rows : List (Option ℕ)) (s : DtaScheduler) (v : View)
    → Stored s v
    → Calm core v
    → head_of core s ≡ head
    → Polls core head v (RowsEmpty core rows) (poll_rows head core rows s)
unfolding poll_rows RowPolls
poll_rows-Polls head core [] s v h calm at = inl (refl, (v, done v, h, calm, at, λ r k. k, tt))
poll_rows-Polls head core (row ∷ rows) s v h calm at =
    rows-then core head row rows v (λ s'. poll_rows head core rows s') _
      (poll_row-RowPolls mailbox_capacity head core row (column core row v) s v refl
        (column-short s v core row h) h calm at)
      (λ s' w held calm' at'. poll_rows-Polls head core rows s' w held calm' at')

-- The mailboxes from these workers and the external mailbox are empty.
abbrev pub Emptied : ℕ → List ℕ → View → Type 0
Emptied core [] w = w.outside core ≡ []
Emptied core (i ∷ is) w = (w.boxes i core ≡ []) × Emptied core is w

Emptied-rows_of :
    (core : ℕ) (peers : List ℕ) (w : View) → RowsEmpty core (rows_of peers) w → Emptied core peers w
unfolding rows_of
Emptied-rows_of core [] w (outside, t) = outside
Emptied-rows_of core (i ∷ is) w (box, rest) = (box, Emptied-rows_of core is w rest)

-- All mailboxes are empty and each chunk has moved; or the warehouse was full after some moves.
abbrev pub Ends : ℕ → List ℕ → View → Polled → Type 0
Ends core peers v r =
    ((r.1 ≡ placed) × ((w : View) × Moves core v w × Stored r.0 w × Emptied core peers w))
    ⊎ ((r.1 ≡ overflows) × ((w : View) × Moves core v w × (warehouse_capacity ≤ length w.stock)))

beat-Polls :
    (core head : ℕ) (peers : List ℕ) (v : View) (r : Polled)
    → Polls core head v (RowsEmpty core (rows_of peers)) r
    → Ends core peers v (beat core r)
unfolding tick update_load
beat-Polls core head peers v (s, o, b) (inl (ends, (w, ms, held, calm, at, keeps, gone))) =
    let q = held.locals_hold core in
    subst (λ k. Ends core peers v (beat core (s, k, b))) (sym ends)
      (inl (
        refl,
        (
          w,
          ms,
          set_worker-Stored s w w.locals core _ held
              (record { head_in = q.head_in; tail_at = q.tail_at; fits = q.fits; cells = q.cells })
              (λ i off. refl),
          Emptied-rows_of core peers w gone,
        ),
      ))
beat-Polls core head peers v (s, o, b) (inr (over, (w, ms, full))) =
    subst (λ k. Ends core peers v (beat core (s, k, b))) (sym over) (inr (refl, (w, ms, full)))

-- The queues of a scheduler hold the lists of a view. A worker polls, one of several, whose queue has
-- room for more than a chunk, and whose mailboxes hold chunks with all their tasks in their arrays.
-- Then `poll_mailboxes` ends with all mailboxes of its polling order and its external one empty: each
-- chunk has moved, one after the other, to the end of the worker's queue, to a mailbox of another
-- worker, or to the warehouse. Or, after some of these moves, the warehouse was full, and the program
-- panics.
pub poll_mailboxes-Emptied :
    (core : ℕ) (s : DtaScheduler) (v : View)
    → Stored s v
    → Calm core v
    → Ends core (s.workers core).polling_order v (poll_mailboxes core s)
unfolding poll_mailboxes
poll_mailboxes-Emptied core s v h calm =
    beat-Polls core (head_of core s) (s.workers core).polling_order v _ (
      poll_rows-Polls (head_of core s) core (rows_of (s.workers core).polling_order) s v h calm
        refl)

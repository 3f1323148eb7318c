-- ===== src/Scheduler/Polling.antt =====
-- `DtaScheduler::poll_mailboxes` of src/dta_scheduler.rs: a worker empties the mailboxes that lead to it,
-- and routes what it finds. A call is modelled as it runs with no other thread inside it.
pub mod Columns
pub mod Calm
pub mod Turn
pub mod Emptied
pub mod Tests
use dtact.Base.{
  ℕ, zero, suc, ◌+◌, ◌%◌, Bool, true, false, Option, none, some, List, [], ◌∷◌, ◌++◌, ltb,
  wrapping_sub,
}
use dtact.Scheduler.Mailbox.{TaskChunk, chunk_size, mailbox_capacity}
use dtact.Scheduler.Mailbox
use dtact.Scheduler.Worker.{local_queue_capacity, update_load, tick}
use dtact.Scheduler.Routing.{
  DtaScheduler, Outcome, placed, spins, set_worker, set_mailbox, set_external, route_chunk,
}

-- A pop from the mailbox of another worker, or from the external one.
unfoldable pub pop_row : ℕ → Option ℕ → DtaScheduler → DtaScheduler × Option TaskChunk
pop_row core none s =
    let (m, r) = Mailbox.pop (s.external_mailboxes core) in (set_external core m s, r)
pop_row core (some i) s =
    let (m, r) = Mailbox.pop (s.mailboxes i core) in (set_mailbox i core m s, r)

-- The test of both loops, with the head that was read before them.
unfoldable pub has_room : ℕ → ℕ → DtaScheduler → Bool
has_room fixed_head core s =
    ltb (wrapping_sub (s.workers core).local_tail fixed_head % local_queue_capacity + chunk_size)
      local_queue_capacity

-- The outcome of a loop, with `received_any`. An outcome that is not `placed` ends the polling.
abbrev pub Polled : Type 0
Polled = DtaScheduler × Outcome × Bool

abbrev pub received : Polled → Polled
received (s, o, b) = (s, o, true)

abbrev pub routed : (DtaScheduler → Polled) → DtaScheduler × Outcome → Polled
routed rest (s, placed) = received (rest s)
routed rest (s, o) = (s, o, true)

abbrev pub popped : (DtaScheduler → Polled) → ℕ → DtaScheduler × Option TaskChunk → Polled
popped rest core (s, none) = (s, placed, false)
popped rest core (s, some chunk) = routed rest (route_chunk core chunk s)

abbrev pub if_room : Bool → DtaScheduler → Polled → Polled
if_room true s r = r
if_room false s r = (s, placed, false)

unfoldable pub poll_row : ℕ → ℕ → ℕ → Option ℕ → DtaScheduler → Polled
poll_row zero fixed_head core row s = (s, spins, false)
poll_row (suc fuel) fixed_head core row s =
    if_room (has_room fixed_head core s) s
      (popped (λ s'. poll_row fuel fixed_head core row s') core (pop_row core row s))

abbrev pub also : Bool → Polled → Polled
also true r = received r
also false r = r

abbrev pub then_rows : (DtaScheduler → Polled) → Polled → Polled
then_rows rest (s, placed, b) = also b (rest s)
then_rows rest (s, o, b) = (s, o, b)

-- A ring holds fewer chunks than its capacity, so that its loop has as many turns at most.
unfoldable pub poll_rows : ℕ → ℕ → List (Option ℕ) → DtaScheduler → Polled
poll_rows fixed_head core [] s = (s, placed, false)
poll_rows fixed_head core (row ∷ rows) s =
    then_rows (λ s'. poll_rows fixed_head core rows s')
      (poll_row mailbox_capacity fixed_head core row s)

abbrev pub beat : ℕ → Polled → Polled
beat core (s, placed, b) = (set_worker core (tick (update_load (s.workers core))) s, placed, b)
beat core (s, o, b) = (s, o, b)

-- The mailboxes in the polling order, and then the external one.
unfoldable pub rows_of : List ℕ → List (Option ℕ)
rows_of [] = none ∷ []
rows_of (i ∷ is) = some i ∷ rows_of is

unfoldable pub poll_mailboxes : ℕ → DtaScheduler → Polled
poll_mailboxes core s =
    let w = s.workers core in beat core (poll_rows w.local_head core (rows_of w.polling_order) s)

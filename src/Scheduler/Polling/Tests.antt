-- ===== src/Scheduler/Polling/Tests.antt =====
-- The second of four workers polls a chunk that waits in the mailbox from the first.
use dtact.Base.{ℕ, ◌≡◌, refl, true, none, some, [], ◌∷◌, arith, inl, inr, subst, sym, Option}
use dtact.Scheduler.Mailbox.{Mailbox, single, TaskChunk, mailbox_capacity}
use dtact.Scheduler.Mailbox
use dtact.Scheduler.Mailbox.Fifo.{push-Fifo, new-Holds, fifo_push}
use dtact.Scheduler.Routing.{DtaScheduler, p2p_mesh, new, set_mailbox, route_chunk, route_local}
use dtact.Scheduler.Routing.View.{View, Stored, empty_view, new-Stored, set_mailbox-Stored}
use dtact.Scheduler.Worker.{
  polling_order_for, range, rotation, local_queue_len, push_batch, copied, copy_in, tick,
  update_load, new_threshold,
}
use dtact.Scheduler.Worker
use dtact.Scheduler.Polling.{poll_mailboxes, poll_rows, poll_row, pop_row, has_room, rows_of}
use dtact.Scheduler.Polling.Calm.{Calm}
use dtact.Scheduler.Polling.Columns.{column, set_column, Filled, column-set}
use dtact.Scheduler.Polling.Emptied.{Ends, poll_mailboxes-Emptied}

abbrev waiting : DtaScheduler
waiting = set_mailbox 0 1 (Mailbox.push Mailbox.new (single 7)).0 (new 4 p2p_mesh)

abbrev waiting_view : View
waiting_view = set_column 1 (some 0) (single 7 ∷ []) (empty_view 4)

waiting-Stored : Stored waiting waiting_view
unfolding fifo_push
waiting-Stored =
    set_mailbox-Stored (new 4 p2p_mesh) (empty_view 4) waiting_view.boxes 0 1 _
      (new-Stored 4 p2p_mesh) (push-Fifo Mailbox.new [] (single 7) new-Holds).1
      (λ i j off. rw off refl)

waiting-Calm : Calm 1 waiting_view
waiting-Calm = record {
  several = omega arith;
  inside = omega arith;
  room = omega arith;
  filled = λ r. elim (column-set 1 (some 0) r (single 7 ∷ []) (empty_view 4)) [
    | inl (same, now) ↦ subst Filled (sym now) (omega arith, tt)
    | inr other ↦ subst Filled (sym other) (nothing r)
  ];
}
  where
    nothing : (r : Option ℕ) → Filled (column 1 r (empty_view 4))
    nothing none = tt
    nothing (some i) = tt

-- The task is in the queue of the worker.
poll_run :
    (local_queue_len ((poll_mailboxes 1 waiting).0.workers 1) ≡ 1)
    × ((poll_mailboxes 1 waiting).2 ≡ true)
unfolding poll_mailboxes poll_rows poll_row pop_row has_room rows_of Mailbox.push Mailbox.pop
    Mailbox.new new Worker.new polling_order_for range rotation route_chunk route_local
    local_queue_len push_batch copied copy_in tick update_load new_threshold
poll_run = (refl, refl)

poll_mailboxes-Emptied_example :
    Ends 1 (waiting.workers 1).polling_order waiting_view (poll_mailboxes 1 waiting)
poll_mailboxes-Emptied_example =
    poll_mailboxes-Emptied 1 waiting waiting_view waiting-Stored waiting-Calm

-- ===== src/Sync/Mpsc/Tests.antt =====
-- The channels run on small inputs.
use dtact.Base.{arith, ℕ, ◌≡◌, refl, none, some, [], ◌∷◌, ◌++◌}
use dtact.Lockfree.Mpmc.Fifo.{fifo_push}
use dtact.Sync.WaitQueue.Parked.{lone}
use dtact.Sync.Mpsc.{
  Shared, bounded, unbounded, with_queue, channel, try_push, try_pop, attempt_send, attempt_recv,
}
use dtact.Sync.Mpsc.Order.{
  contents, Traffic, bounded_made, sent_one, received_one, Traffic-contents,
}

-- Two sends and a receive on a channel of two places.
abbrev busy : Shared ℕ
busy = (attempt_recv (attempt_send 6 (attempt_send 5 (channel 2)).0).0).0

busy-Traffic : Traffic (5 ∷ 6 ∷ []) (5 ∷ []) busy
unfolding channel attempt_send attempt_recv try_push try_pop fifo_push
busy-Traffic = received_one (5 ∷ 6 ∷ []) [] (attempt_send 6 (attempt_send 5 (channel 2)).0).0 (
    sent_one (5 ∷ []) [] (attempt_send 5 (channel 2)).0 6
      (sent_one [] [] (channel 2) 5 (bounded_made 2 (omega arith))))

Traffic-contents_example : 5 ∷ 6 ∷ [] ≡ 5 ∷ [] ++ contents busy
Traffic-contents_example = Traffic-contents (5 ∷ 6 ∷ []) (5 ∷ []) busy busy-Traffic

-- The receiver, task 7, waits on an empty channel.
abbrev waited : Shared ℕ
waited = record (with_queue (unbounded [])) { recv_wait = lone 7 }

abbrev closed : Shared ℕ
closed = record (with_queue (bounded 2 [])) { sender_count = 0 }

closed-end : (attempt_recv closed).1 ≡ some none
unfolding attempt_recv try_pop
closed-end = refl

-- ===== src/Scheduler/Warehouse.antt =====
-- `Warehouse` of src/dta_scheduler.rs: a bounded ring of chunks with a count of its backlog. A call is
-- modelled as it runs with no other thread inside it; its retries are recursion on fuel.
pub mod Ring
pub mod Backlog
pub mod Tests
use Prim.Native.Nat.{Ordering}
use dtact.Base.{
  ℕ, zero, suc, ◌+◌, ◌-◌, ◌*◌, ◌%◌, ◌^◌, min, Bool, true, false, not, Option, none, some, ◌==◌,
  if◌then◌else◌, update, word_mod, wrapping_add, signed_cmp, PushResult, ok, err,
}
use dtact.Scheduler.Mailbox.{TaskChunk, empty_chunk}

abbrev pub warehouse_capacity : ℕ
warehouse_capacity = 32768

-- `seq` and `chunk` are the fields of the slots; a chunk is `none` while it is uninitialised.
pub record Warehouse : Type 0 where
  pub backlog : ℕ
  pub tail : ℕ
  pub head : ℕ
  pub seq : ℕ → ℕ
  pub chunk : ℕ → Option TaskChunk

unfoldable pub new : Warehouse
new = record { backlog = 0; tail = 0; head = 0; seq = λ i. i; chunk = λ i. none }

-- The cycles that `warehouse_backoff` waits.
unfoldable pub backoff_cycles : ℕ → ℕ → ℕ
backoff_cycles worker_id retry = (worker_id * 7 % word_mod % 32 + 1) * 2 ^ min retry 6

-- What the winner of the exchange on `tail` does.
unfoldable pub publish : Warehouse → ℕ → TaskChunk → Warehouse
publish wh pos chunk = record wh {
  tail = wrapping_add pos 1;
  chunk = update wh.chunk (pos % warehouse_capacity) (some chunk);
  seq = update wh.seq (pos % warehouse_capacity) (wrapping_add pos 1);
  backlog = (wh.backlog + 1) % 2 ^ 32;
}

unfoldable pub push_loop : ℕ → Warehouse → ℕ → TaskChunk → Warehouse × Option (PushResult TaskChunk)
unfolding publish
push_loop zero wh pos chunk = (wh, none)
push_loop (suc fuel) wh pos chunk =
    let again = push_loop fuel wh wh.tail chunk in
    elim (signed_cmp (wh.seq (pos % warehouse_capacity)) pos) [
      | Ordering.eq ↦ if wh.tail == pos then (publish wh pos chunk, some ok) else again
      | Ordering.lt ↦ (wh, some (err chunk))
      | Ordering.gt ↦ again
    ]

unfoldable pub push : ℕ → Warehouse → TaskChunk → Warehouse × Option (PushResult TaskChunk)
unfolding push_loop
push fuel wh chunk = push_loop fuel wh wh.tail chunk

-- What the winner of the exchange on `head` does.
unfoldable pub release : Warehouse → ℕ → Warehouse
release wh pos = record wh {
  head = wrapping_add pos 1;
  seq = update wh.seq (pos % warehouse_capacity) (wrapping_add pos warehouse_capacity);
  backlog = (wh.backlog + 2 ^ 32 - 1) % 2 ^ 32;
}

-- The inner options: `none` for an empty warehouse, and else what is read.
unfoldable pub pop_loop : ℕ → Warehouse → ℕ → Warehouse × Option (Option (Option TaskChunk))
unfolding release
pop_loop zero wh pos = (wh, none)
pop_loop (suc fuel) wh pos =
    let again = pop_loop fuel wh wh.head in
    elim (signed_cmp (wh.seq (pos % warehouse_capacity)) (wrapping_add pos 1)) [
      | Ordering.eq ↦
          if wh.head == pos
          then (release wh pos, some (some (wh.chunk (pos % warehouse_capacity))))
          else again
      | Ordering.lt ↦ (wh, some none)
      | Ordering.gt ↦ again
    ]

unfoldable pub pop : ℕ → Warehouse → Warehouse × Option (Option (Option TaskChunk))
unfolding pop_loop
pop fuel wh = pop_loop fuel wh wh.head

unfoldable pub is_busy : Warehouse → Bool
is_busy wh = not (wh.backlog == 0)

-- ===== src/Scheduler/Mailbox.antt =====
-- `TaskChunk` and `Mailbox` of src/dta_scheduler.rs: a ring of chunks with one producer and one
-- consumer, which keeps one of its places empty.
pub mod Fifo
pub mod Tests
use dtact.Base.{
  ℕ, zero, suc, ◌+◌, ◌%◌, ◌^◌, Bool, true, false, Option, none, some, List, [], ◌∷◌, ◌==◌,
  if◌then◌else◌, update, take, PushResult, ok, err,
}

abbrev pub chunk_size : ℕ
chunk_size = 32

abbrev pub mailbox_capacity : ℕ
mailbox_capacity = 65536

-- `tasks` are the first entries of the array, the others are zero.
pub record TaskChunk : Type 0 where
  pub tasks : List ℕ
  pub count : ℕ
  pub hop_count : ℕ

-- The active tasks of a chunk.
abbrev pub items : TaskChunk → List ℕ
items c = take c.count c.tasks

-- `TaskChunk::default()`, and a chunk of one task as the callers fill it.
abbrev pub empty_chunk : TaskChunk
empty_chunk = record { tasks = []; count = 0; hop_count = 0 }

abbrev pub single : ℕ → TaskChunk
single task = record empty_chunk { tasks = task ∷ []; count = 1 }

pub record Mailbox : Type 0 where
  pub head : ℕ
  pub tail : ℕ
  pub buffer : ℕ → TaskChunk

unfoldable pub new : Mailbox
new = record { head = 0; tail = 0; buffer = λ i. empty_chunk }

-- The mask of a power of two.
abbrev pub next_place : ℕ → ℕ
next_place i = (i + 1) % mailbox_capacity

unfoldable pub push : Mailbox → TaskChunk → Mailbox × PushResult TaskChunk
push m chunk =
    if next_place m.tail == m.head
    then (m, err chunk)
    else (record m { buffer = update m.buffer m.tail chunk; tail = next_place m.tail }, ok)

unfoldable pub pop : Mailbox → Mailbox × Option TaskChunk
pop m =
    if m.head == m.tail
    then (m, none)
    else (record m { head = next_place m.head }, some (m.buffer m.head))

-- ===== src/Lockfree/FreeList.antt =====
-- `TreiberStack` of dtact-util/src/lockfree.rs: a free-list of indices below `size`. The head is a
-- 64-bit word, an index in its low half and a tag in its high half.
pub mod Chain
pub mod Tagged
pub mod Tests
use dtact.Base.{
  ℕ, zero, suc, ◌+◌, ◌-◌, ◌*◌, ◌/◌, ◌%◌, ◌^◌, Bool, true, false, Option, none, some, List, [], ◌∷◌,
  ltb, ◌==◌, if◌then◌else◌, update,
}

-- `u32::MAX`, which ends the list.
abbrev pub nil_index : ℕ
nil_index = 2 ^ 32 - 1

pub record TreiberStack : Type 0 where
  pub head : ℕ
  pub next : ℕ → ℕ
  pub size : ℕ

-- `(head & 0xFFFF_FFFF) as u32` and `(head >> 32) as u32`.
abbrev pub index_of : ℕ → ℕ
index_of head = head % 2 ^ 32

abbrev pub tag_of : ℕ → ℕ
tag_of head = head / 2 ^ 32

-- `(u64::from(tag.wrapping_add(1)) << 32) | u64::from(idx)`.
abbrev pub next_head : ℕ → ℕ → ℕ
next_head head idx = (tag_of head + 1) % 2 ^ 32 * 2 ^ 32 + idx

unfoldable pub new : ℕ → TreiberStack
new size = record {
  head = nil_index;
  next = if ltb 0 size then update (λ i. 0) (size - 1) nil_index else (λ i. 0);
  size = size;
}

unfoldable pub new_empty : ℕ → TreiberStack
new_empty size = record { head = nil_index; next = λ i. 0; size = size }

-- A turn of `push`'s loop, from a head read earlier: the link is written, then the head is
-- exchanged if it is still the one that was read. `none` for a failed exchange.
unfoldable pub push_turn : TreiberStack → ℕ → ℕ → TreiberStack × Bool
push_turn s seen idx =
    let linked = record s { next = update s.next idx (index_of seen) } in
    if s.head == seen then (record linked { head = next_head seen idx }, true) else (linked, false)

-- `none` for an index out of bounds, on which the program panics.
unfoldable pub push : TreiberStack → ℕ → Option TreiberStack
unfolding push_turn
push s idx = if ltb idx s.size then some (push_turn s s.head idx).0 else none

-- The exchange of `pop`'s loop, with a head and a successor read earlier.
unfoldable pub pop_exchange : TreiberStack → ℕ → ℕ → TreiberStack × Bool
pop_exchange s seen successor =
    if s.head == seen then (record s { head = next_head seen successor }, true) else (s, false)

-- `pop`, which nobody interrupts: its first turn succeeds.
unfoldable pub pop : TreiberStack → TreiberStack × Option ℕ
unfolding pop_exchange
pop s =
    if index_of s.head == nil_index
    then (s, none)
    else ((pop_exchange s s.head (s.next (index_of s.head))).0, some (index_of s.head))

unfoldable pub write_next_slot : TreiberStack → ℕ → ℕ → TreiberStack
write_next_slot s idx next_idx = record s { next = update s.next idx next_idx }

unfoldable pub set_head : TreiberStack → ℕ → TreiberStack
set_head s head_idx = record s { head = head_idx }

-- What other threads do: each of these succeeds or leaves the list as it was.
pub data Op : Type 0 where
  pushes : ℕ → Op
  pops : Op

unfoldable pub step : TreiberStack → Op → TreiberStack
unfolding push_turn pop
step s (pushes idx) = (push_turn s s.head idx).0
step s pops = (pop s).0

unfoldable pub run : List Op → TreiberStack → TreiberStack
run [] s = s
run (op ∷ ops) s = run ops (step s op)

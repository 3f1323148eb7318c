-- ===== src/Lockfree/BufferPool.antt =====
-- `BufferPool` of dtact-util/src/lockfree.rs: an arena of chunks, handed out by index from a free-list.
-- The arena is its address and its size; an address is a number.
pub mod Chunks
pub mod Tests
use dtact.Base.{
  ℕ, zero, suc, ◌+◌, ◌-◌, ◌*◌, ◌%◌, ◌^◌, max, Bool, Option, none, some, ◌==◌, if◌then◌else◌,
}
use dtact.Lockfree.FreeList
use dtact.Lockfree.FreeList.{TreiberStack, nil_index}

pub record BufferPool : Type 0 where
  pub arena_ptr : ℕ
  pub layout_size : ℕ
  pub chunk_size : ℕ
  pub free : TreiberStack

-- The loop of `new` that links the chunks, from chunk `i` on with `left` to go.
unfoldable pub link_chunks : ℕ → ℕ → ℕ → TreiberStack → TreiberStack
link_chunks total zero i s = s
link_chunks total (suc left) i s =
    link_chunks total left (suc i)
      (FreeList.write_next_slot s i (if suc i == total then nil_index else suc i % 2 ^ 32))

-- `new`, with the address that the allocator answers. An impossible layout and a failed allocation
-- end the program.
unfoldable pub new : ℕ → ℕ → ℕ → BufferPool
new arena_ptr total_chunks chunk_size =
    let total = max total_chunks 1 in
    let size = max chunk_size 1 in
    record {
      arena_ptr = arena_ptr;
      layout_size = total * size;
      chunk_size = size;
      free = FreeList.set_head (link_chunks total total 0 (FreeList.new_empty total)) 0;
    }

unfoldable pub get_ptr : BufferPool → ℕ → ℕ
get_ptr p idx = p.arena_ptr + idx * p.chunk_size

unfoldable pub acquire : BufferPool → BufferPool × Option ℕ
acquire p = let (s, idx) = FreeList.pop p.free in (record p { free = s }, idx)

unfoldable pub release : BufferPool → ℕ → Option BufferPool
release p idx = released (FreeList.push p.free idx)
  where
    released : Option TreiberStack → Option BufferPool
    released none = none
    released (some s) = some (record p { free = s })

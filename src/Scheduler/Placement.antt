-- ===== src/Scheduler/Placement.antt =====
-- Where `spawn` and `spawn_with_stack` of src/api.rs put a future or a closure and the stack of a fiber.
-- Alignments are powers of two, so that their masks round down; addresses are words that wrap.
pub mod Inside
pub mod Tests
use dtact.Base.{
  ℕ, ◌+◌, ◌-◌, ◌*◌, ◌/◌, ◌%◌, ◌^◌, Bool, true, false, ◌||◌, ltb, if◌then◌else◌, word_mod,
}
use dtact.Scheduler.Pool.{read_buffer_size}

-- In the buffer at an address, or in a box of the heap.
pub data FuturePlace : Type 0 where
  in_buffer : ℕ → FuturePlace
  in_box : FuturePlace

unfoldable pub aligned_fut_addr : ℕ → ℕ → ℕ → ℕ
aligned_fut_addr buffer_start fut_size align =
    (buffer_start + read_buffer_size + word_mod - fut_size) % word_mod / align * align

unfoldable pub place_future : ℕ → ℕ → ℕ → FuturePlace
unfolding aligned_fut_addr
place_future buffer_start fut_size align =
    let addr = aligned_fut_addr buffer_start fut_size align in
    if ltb addr buffer_start || ltb (buffer_start + read_buffer_size) ((addr + fut_size) % word_mod)
    then in_box
    else in_buffer addr

-- The end of the stack region.
abbrev pub stack_limit : ℕ → FuturePlace → ℕ
stack_limit buffer_start (in_buffer addr) = addr
stack_limit buffer_start in_box = buffer_start + read_buffer_size

-- The first stack pointer; on x86 the poisoned return address is written there.
unfoldable pub stack_top : Bool → ℕ → ℕ
stack_top true limit = limit / 16 * 16 - 8
stack_top false limit = limit / 16 * 16

-- `spawn_with_stack` writes the closure at the start of the buffer, whatever its size.
unfoldable pub closure_end : ℕ → ℕ → ℕ
closure_end buffer_start closure_size = buffer_start + closure_size

unfoldable pub closure_stack_top : ℕ → ℕ
closure_stack_top buffer_start = buffer_start / 16 * 16 - 72

-- ===== src/Scheduler/Handle.antt =====
-- The handles of fibers: how `spawn` and `spawn_with_stack` of src/api.rs pack one, how `dtact_await` of
-- src/c_ffi.rs and `yield_to` of src/api.rs read it, and the waiter handle between `dtact_await` and
-- `wake_waiter_handle` of src/lib.rs. Masks and shifts are remainders and quotients by powers of two.
pub mod Packing
pub mod Tests
use Prim.Native.Nat.{bit_or}
use dtact.Base.{ℕ, ◌*◌, ◌/◌, ◌%◌, ◌^◌, Bool, ◌==◌}

-- One bit to mark it valid, 15 of the generation, 16 of the core, 32 of the context.
unfoldable pub handle : ℕ → ℕ → ℕ → ℕ
handle ctx_id core generation =
    bit_or (bit_or (bit_or ctx_id (core * 2 ^ 32 % 2 ^ 64)) (generation % 2 ^ 15 * 2 ^ 48 % 2 ^ 64))
      (2 ^ 63)

-- The handle of `spawn_with_stack`.
unfoldable pub stack_handle : ℕ → ℕ → ℕ
stack_handle ctx_id core = bit_or ctx_id (core * 2 ^ 32 % 2 ^ 64)

unfoldable pub target_ctx_id : ℕ → ℕ
target_ctx_id handle = handle % 2 ^ 63 % 2 ^ 32

unfoldable pub handle_gen : ℕ → ℕ
handle_gen handle = handle % 2 ^ 63 / 2 ^ 48 % 2 ^ 15

unfoldable pub target_core_id : ℕ → ℕ
target_core_id handle = handle / 2 ^ 32 % 2 ^ 16

-- The test of `dtact_await` that the context still has the fiber of the handle.
unfoldable pub is_current : ℕ → ℕ → Bool
unfolding handle_gen
is_current handle generation = generation % 2 ^ 16 % 2 ^ 15 == handle_gen handle

unfoldable pub waiter_handle : ℕ → ℕ → ℕ
waiter_handle ctx_id worker = bit_or (bit_or ctx_id (worker * 2 ^ 32 % 2 ^ 64)) (2 ^ 63)

-- The worker and the fiber that `wake_waiter_handle` wakes.
unfoldable pub waiter_of : ℕ → ℕ × ℕ
waiter_of packed = (packed % 2 ^ 63 / 2 ^ 32, packed % 2 ^ 63 % 2 ^ 32)

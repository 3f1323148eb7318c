-- ===== src/Scheduler/Handle/Tests.antt =====
-- Handles of context 9 on core 3.
use dtact.Base.{◌+◌, ◌*◌, ◌^◌, ◌≤◌, ◌≡◌, refl, true, false, arith}
use dtact.Scheduler.Handle.{
  handle, stack_handle, target_ctx_id, handle_gen, target_core_id, is_current, waiter_handle,
  waiter_of,
}
use dtact.Scheduler.Handle.Packing.{
  handle-read, waiter_of-waiter_handle, is_current-handle, is_current-stack_handle,
}

handle_run : handle 9 3 5 ≡ 9 + 3 * 2 ^ 32 + 5 * 2 ^ 48 + 2 ^ 63
unfolding handle
handle_run = refl

handle-read_example :
    (target_ctx_id (handle 9 3 32773) ≡ 9)
    × (target_core_id (handle 9 3 32773) ≡ 3)
    × (handle_gen (handle 9 3 32773) ≡ 5)
    × (2 ^ 63 ≤ handle 9 3 32773)
handle-read_example = handle-read 9 3 32773 (omega arith) (omega arith)

waiter_run : waiter_of (waiter_handle 9 3) ≡ (3, 9)
waiter_run = waiter_of-waiter_handle 9 3 (omega arith) (omega arith)

is_current-handle_example :
    (is_current (handle 9 3 5) 5 ≡ true)
    × (is_current (handle 9 3 5) 6 ≡ false)
    × (is_current (handle 9 3 5) 32773 ≡ true)
is_current-handle_example =
    is_current-handle 9 3 5 1 (omega arith) (omega arith) (omega arith) (omega arith)

is_current-stack_handle_example :
    (target_ctx_id (stack_handle 9 3) ≡ 9) × (is_current (stack_handle 9 3) 5 ≡ false)
is_current-stack_handle_example =
    is_current-stack_handle 9 3 5 (omega arith) (omega arith) (omega arith) (omega arith)

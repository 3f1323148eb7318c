-- ===== src/Scheduler/Placement/Tests.antt =====
-- A buffer at address 65600.
use dtact.Base.{◌≡◌, refl, true, false, arith}
use dtact.Scheduler.Placement.{
  in_buffer, in_box, aligned_fut_addr, place_future, stack_top, closure_stack_top,
}
use dtact.Scheduler.Placement.Inside.{Sound, place_future-Sound}

-- A future of 100 bytes, aligned at 64, and one that is larger than the buffer.
placed_small : place_future 65600 100 64 ≡ in_buffer 73664
unfolding place_future aligned_fut_addr
placed_small = refl

placed_large : place_future 65600 8193 8 ≡ in_box
unfolding place_future aligned_fut_addr
placed_large = refl

tops :
    (stack_top true 73664 ≡ 73656)
    × (stack_top false 73664 ≡ 73664)
    × (closure_stack_top 65600 ≡ 65528)
unfolding stack_top closure_stack_top
tops = (refl, refl, refl)

place_future-Sound_example : Sound 65600 100 64 (place_future 65600 100 64)
place_future-Sound_example =
    place_future-Sound 65600 100 64 (omega arith) (omega arith) (omega arith)

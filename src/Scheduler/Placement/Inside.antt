-- ===== src/Scheduler/Placement/Inside.antt =====
-- The future lies in the fiber's buffer, aligned, and its stack does not reach it.
use native.Mathlib.Nat.{mul-mod_left, div-add-mod'}
use dtact.Base.{
  ℕ, ◌+◌, ◌-◌, ◌*◌, ◌/◌, ◌%◌, ◌≤◌, ◌<◌, ◌≡◌, refl, ap, sym, subst, true, false, ◌||◌, arith, ltb,
  if◌then◌else◌, Bool-cases, inl, inr, word_mod,
}
use dtact.Scheduler.Pool.{read_buffer_size}
use dtact.Scheduler.Placement.{
  FuturePlace, in_buffer, in_box, aligned_fut_addr, place_future, stack_top, closure_end,
}

-- In a buffer: behind its start, in front of its end, aligned, and above the stack and its first word.
-- In a box: no aligned address of the buffer was far enough from its end, and the stack has the buffer.
abbrev pub Sound : ℕ → ℕ → ℕ → FuturePlace → Type 0
Sound start size align (in_buffer addr) =
    (start ≤ addr)
    × (addr + size ≤ start + read_buffer_size)
    × (addr % align ≡ 0)
    × (stack_top true addr + 8 ≤ addr)
    × (stack_top false addr ≤ addr)
Sound start size align in_box =
    (start + read_buffer_size < start + size + (start + read_buffer_size - size) % align)
    × (stack_top true (start + read_buffer_size) + 8 ≤ start + read_buffer_size)

no_wrap :
    (start size align : ℕ)
    → size ≤ start
    → start + read_buffer_size < word_mod
    → aligned_fut_addr start size align ≡ (start + read_buffer_size - size) / align * align
unfolding aligned_fut_addr
no_wrap start size align h1 h2 = ap (λ n. n / align * align) (omega arith)

stack-below :
    (limit : ℕ) → 16 ≤ limit → (stack_top true limit + 8 ≤ limit) × (stack_top false limit ≤ limit)
unfolding stack_top
stack-below limit h = (omega arith, omega arith)

abbrev by_tests : ℕ → ℕ → ℕ → FuturePlace
by_tests start size addr =
    if ltb addr start || ltb (start + read_buffer_size) ((addr + size) % word_mod)
    then in_box
    else in_buffer addr

tests-Sound :
    (start size align addr r : ℕ)
    → 16 ≤ start
    → size ≤ start
    → start + read_buffer_size < word_mod
    → addr + r ≡ start + read_buffer_size - size
    → (start + read_buffer_size - size) % align ≡ r
    → addr % align ≡ 0
    → Sound start size align (by_tests start size addr)
tests-Sound start size align addr r low small high split rem aligned =
    elim (Bool-cases
      (ltb addr start || ltb (start + read_buffer_size) ((addr + size) % word_mod))) [
        | inl e ↦ rw e (
          subst (λ k. start + read_buffer_size < start + size + k) (sym rem)
              (boxed start addr size r small high split e),
          (stack-below (start + read_buffer_size) (omega arith)).0,
        )
        | inr e ↦
            let (above, fits) = kept start addr size r small high split e in
            rw e (
              above,
              fits,
              aligned,
              (stack-below addr (omega arith)).0,
              (stack-below addr (omega arith)).1,
            )
      ]
  where
    boxed :
        (start addr size r : ℕ)
        → size ≤ start
        → start + read_buffer_size < word_mod
        → addr + r ≡ start + read_buffer_size - size
        → (ltb addr start || ltb (start + read_buffer_size) ((addr + size) % word_mod)) ≡ true
        → start + read_buffer_size < start + size + r
    boxed start addr size r small high split e = ground arith

    kept :
        (start addr size r : ℕ)
        → size ≤ start
        → start + read_buffer_size < word_mod
        → addr + r ≡ start + read_buffer_size - size
        → (ltb addr start || ltb (start + read_buffer_size) ((addr + size) % word_mod)) ≡ false
        → (start ≤ addr) × (addr + size ≤ start + read_buffer_size)
    kept start addr size r small high split e = ground arith

-- The buffer is not among the first 16 addresses and ends within the address space, and the future is no
-- larger than the buffer's address. Then `spawn` puts the future into the buffer, aligned, with the
-- stack below it, or else into a box when it does not fit.
pub place_future-Sound :
    (start size align : ℕ)
    → 16 ≤ start
    → size ≤ start
    → start + read_buffer_size < word_mod
    → Sound start size align (place_future start size align)
unfolding place_future
place_future-Sound start size align low small high =
    subst (λ addr. Sound start size align (by_tests start size addr))
      (sym (no_wrap start size align small high))
      (tests-Sound start size align ((start + read_buffer_size - size) / align * align)
        ((start + read_buffer_size - size) % align) low small high
        (div-add-mod' (start + read_buffer_size - size) align) refl
        (mul-mod_left ((start + read_buffer_size - size) / align) align))

-- A closure of `spawn_with_stack` that is larger than the buffer by 64 bytes or more ends behind the
-- start of its fiber's own context, where the buffer is the one of `ContextPool::new`.
closure_end-overlaps :
    (context_ptr size : ℕ)
    → read_buffer_size + 64 ≤ size
    → read_buffer_size ≤ context_ptr
    → context_ptr < closure_end ((context_ptr - read_buffer_size) / 64 * 64) size
unfolding closure_end
closure_end-overlaps context_ptr size large high = omega arith

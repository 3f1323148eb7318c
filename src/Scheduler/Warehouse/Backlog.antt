-- ===== src/Scheduler/Warehouse/Backlog.antt =====
-- The warehouse against a bounded list: it is the queue of dtact-util with a count beside it.
use dtact.Base.{
  ℕ, zero, suc, ◌+◌, ◌*◌, ◌%◌, ◌^◌, ◌≤◌, min, ◌≡◌, refl, ap, sym, subst, ◌∙◌, some, List, [], ◌∷◌,
  arith, ltb, Bool-cases, inl, inr, length, length-append, word_mod,
}
use native.Mathlib.Nat.{mul-le-mul}
use dtact.Lockfree.Mpmc.{BoundedMpmcQueue, try_push, try_pop}
use dtact.Lockfree.Mpmc
use dtact.Lockfree.Mpmc.Cells.{InRange, new-Holds, publish-Holds, release-Holds, run_head}
use dtact.Lockfree.Mpmc.Fifo.{fifo_push, fifo_pop, push-room, push-full, pop-some, pop-empty}
use dtact.Scheduler.Mailbox.{TaskChunk}
use dtact.Scheduler.Warehouse.{
  Warehouse, warehouse_capacity, new, push_loop, push, pop_loop, pop, backoff_cycles,
}
use dtact.Scheduler.Warehouse.Ring.{
  ring, Fresh, push_loop-ring, pop_loop-ring, after_push, after_pop, push_loop-backlog,
  pop_loop-backlog,
}

pub record Holds (wh : Warehouse) (xs : List TaskChunk) : Type 0 where
  pub stored : Mpmc.Cells.Holds (ring wh) xs
  pub counted : wh.backlog ≡ length xs

-- The backlog is the length of the list, after either answer.
pushed-length :
    (xs : List TaskChunk) (c : TaskChunk)
    → length xs ≤ warehouse_capacity
    → after_push (some (fifo_push warehouse_capacity xs c).1) (length xs)
      ≡ length (fifo_push warehouse_capacity xs c).0
unfolding fifo_push
pushed-length xs c small = elim (Bool-cases (ltb (length xs) warehouse_capacity)) [
  | inl e ↦ rw e (omega (arith, length-append xs (c ∷ [])))
  | inr e ↦ rw e refl
]

popped-length :
    (xs : List TaskChunk)
    → length xs ≤ warehouse_capacity
    → after_pop (some (fifo_pop xs).1) (length xs) ≡ length (fifo_pop xs).0
unfolding fifo_pop
popped-length [] small = refl
popped-length (x ∷ xs) small = omega arith

-- On a warehouse that holds a list, with its positions in range, `push` answers at its first turn what
-- the list with room for 32768 chunks answers, the warehouse then holds what the list has become, and
-- its backlog is the length of it.
pub push-Backlog :
    (fuel : ℕ) (wh : Warehouse) (xs : List TaskChunk) (c : TaskChunk)
    → Holds wh xs
    → Fresh wh
    → ((push (suc fuel) wh c).1 ≡ some (fifo_push warehouse_capacity xs c).1)
      × Holds (push (suc fuel) wh c).0 (fifo_push warehouse_capacity xs c).0
unfolding push Mpmc.try_push
push-Backlog fuel wh xs c h range =
    let (answer, held) = Mpmc.Fifo.push-Fifo fuel (ring wh) xs c h.stored range (omega arith) in
    let same = push_loop-ring (suc fuel) wh wh.tail c in
    let told : (push_loop (suc fuel) wh wh.tail c).1 ≡ some (fifo_push warehouse_capacity xs c).1 =
      ap (λ r. r.1) same ∙ answer in
    (
      told,
      record {
        stored =
            subst (λ r. Mpmc.Cells.Holds r.0 (fifo_push warehouse_capacity xs c).0) (sym same) held;
        counted =
            push_loop-backlog (suc fuel) wh wh.tail c
            ∙ (λ i. after_push (told i) (h.counted i))
            ∙ pushed-length xs c h.stored.fits;
      },
    )

-- On a warehouse that holds a list, with its positions in range, `pop` answers at its first turn the
-- list's first chunk or that there is none, the warehouse then holds the rest, and its backlog is the
-- length of it.
pub pop-Backlog :
    (fuel : ℕ) (wh : Warehouse) (xs : List TaskChunk)
    → Holds wh xs
    → Fresh wh
    → ((pop (suc fuel) wh).1 ≡ some (fifo_pop xs).1) × Holds (pop (suc fuel) wh).0 (fifo_pop xs).0
unfolding pop Mpmc.try_pop
pop-Backlog fuel wh xs h range =
    let (answer, held) = Mpmc.Fifo.pop-Fifo fuel (ring wh) xs h.stored range in
    let same = pop_loop-ring (suc fuel) wh wh.head in
    let told : (pop_loop (suc fuel) wh wh.head).1 ≡ some (fifo_pop xs).1 =
      ap (λ r. r.1) same ∙ answer in
    (
      told,
      record {
        stored = subst (λ r. Mpmc.Cells.Holds r.0 (fifo_pop xs).0) (sym same) held;
        counted =
            pop_loop-backlog (suc fuel) wh wh.head
            ∙ (λ i. after_pop (told i) (h.counted i))
            ∙ popped-length xs h.stored.fits;
      },
    )

pub new-empty : Holds new []
unfolding new Mpmc.new
new-empty = record { stored = new-Holds 32768; counted = refl }

power_bounds : (k : ℕ) → k ≤ 6 → (1 ≤ 2 ^ k) × (2 ^ k ≤ 64)
power_bounds zero h = omega arith
power_bounds (suc zero) h = omega arith
power_bounds (suc (suc zero)) h = omega arith
power_bounds (suc (suc (suc zero))) h = omega arith
power_bounds (suc (suc (suc (suc zero)))) h = omega arith
power_bounds (suc (suc (suc (suc (suc zero))))) h = omega arith
power_bounds (suc (suc (suc (suc (suc (suc zero)))))) h = omega arith
power_bounds (suc (suc (suc (suc (suc (suc (suc k))))))) h = omega arith

-- The back-off waits for at least one cycle and at most 2048.
backoff_cycles_bounds :
    (worker_id retry : ℕ)
    → (1 ≤ backoff_cycles worker_id retry) × (backoff_cycles worker_id retry ≤ 2048)
unfolding backoff_cycles
backoff_cycles_bounds worker_id retry =
    let base = worker_id * 7 % word_mod % 32 + 1 in
    let (low, high) = power_bounds (min retry 6) (omega arith) in
    (
      mul-le-mul {n₁ = 1} {m₁ = 1} {n₂ = base} (omega arith) low,
      mul-le-mul {n₁ = base} {n₂ = 32} (omega arith) high,
    )

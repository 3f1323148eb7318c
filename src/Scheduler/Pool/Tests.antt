-- ===== src/Scheduler/Pool/Tests.antt =====
-- A pool of three contexts of 500 bytes, with stacks of 4000 bytes, pages of 4096 and a guard page each.
use dtact.Base.{
  ℕ, ◌+◌, ◌%◌, ◌^◌, ◌≤◌, ◌<◌, ◌≡◌, refl, ◌⊎◌, Bool, true, Option, some, [], ◌∷◌, arith, NotIn,
}
use dtact.Lockfree.FreeList.Chain.{Holds}
use dtact.Scheduler.Fiber.{initial}
use dtact.Scheduler.Pool.{
  ContextPool, safety_2, made, new, blank, filled, panics, alloc_context, free_context,
  get_context_ptr, context_sz, guard_count, metadata_size, read_buffer_size,
}
use dtact.Scheduler.Pool.Layout.{slot_start, guard_start, slots-layout}
use dtact.Scheduler.Pool.Contexts.{free_list, new-all_free, alloc-free}

abbrev allocate : ℕ → Option ℕ
allocate size = some 65536

abbrev protect : ℕ → Bool
protect at = true

abbrev pool : ContextPool
unfolding blank filled
pool = filled (blank 500 4096 3 4000 safety_2 65536)

pool-new : new 500 4096 allocate protect 3 4000 safety_2 ≡ made pool
unfolding new blank filled
pool-new = refl

empty_panics : new 500 4096 allocate protect 0 4000 safety_2 ≡ panics
unfolding new
empty_panics = refl

slots-layout_example :
    (◌≡◌ {A = ℕ} 1 2
      ⊎ (slot_start pool 1 + pool.slot_size ≤ slot_start pool 2)
      ⊎ (slot_start pool 2 + pool.slot_size ≤ slot_start pool 1))
    × (slot_start pool 2 + pool.slot_size + metadata_size ≤ pool.base_ptr + pool.total_size)
    × ((guard_count pool.safety pool.capacity ≤ 2)
        ⊎ (guard_start pool 2 + pool.page_size ≤ slot_start pool 2)
        ⊎ (slot_start pool 2 + pool.slot_size ≤ guard_start pool 2))
    × (get_context_ptr pool 2 + context_sz 500 ≡ slot_start pool 2 + pool.slot_size)
    × (slot_start pool 2 + read_buffer_size ≤ get_context_ptr pool 2)
unfolding filled blank guard_count
slots-layout_example =
    slots-layout 500 4096 allocate protect 3 4000 safety_2 pool 1 2 2 pool-new (omega arith)
      (omega arith) (omega arith)

pool-Holds : Holds (free_list pool) (0 ∷ 1 ∷ 2 ∷ [])
pool-Holds = new-all_free 500 4096 allocate protect 3 4000 safety_2 pool pool-new (omega arith)

new-all_free_example : Holds (free_list pool) (0 ∷ 1 ∷ 2 ∷ [])
new-all_free_example =
    new-all_free 500 4096 allocate protect 3 4000 safety_2 pool pool-new (omega arith)

alloc-free_example :
    (let q = (alloc_context pool).0 in
      let r = free_context q 0 in
      ((alloc_context pool).1 ≡ some 0)
      × (0 < pool.capacity)
      × NotIn 0 (1 ∷ 2 ∷ [])
      × Holds (free_list q) (1 ∷ 2 ∷ [])
      × Holds (free_list r) (0 ∷ 1 ∷ 2 ∷ [])
      × ((r.contexts 0).state ≡ initial)
      × ((r.contexts 0).generation ≡ ((pool.contexts 0).generation + 1) % 2 ^ 32))
alloc-free_example = alloc-free pool 0 (1 ∷ 2 ∷ []) pool-Holds

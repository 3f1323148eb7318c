-- ===== src/Scheduler/Pool.antt =====
-- `ContextPool` of src/memory_management.rs: the arena of fiber slots with its guard pages, and the
-- free list of contexts. Pointers are numbers. The size of a `FiberContext` is that of the compiler's
-- layout, a parameter; a page is a power of two, so that its masks round down.
pub mod Layout
pub mod Contexts
pub mod Tests
use dtact.Base.{
  ℕ, zero, suc, ◌+◌, ◌-◌, ◌*◌, ◌/◌, ◌%◌, ◌^◌, Bool, true, false, Option, none, some, List, [], ◌∷◌,
  ltb, ◌==◌, if◌then◌else◌, update,
}
use dtact.Scheduler.Fiber.{FiberStatus, initial}
use dtact.Lockfree.FreeList.{TreiberStack, nil_index, index_of, next_head, pop_exchange}

pub data SafetyLevel : Type 0 where
  safety_0 : SafetyLevel
  safety_1 : SafetyLevel
  safety_2 : SafetyLevel

-- The fields of a context that the pool writes.
pub record Context : Type 0 where
  pub fiber_index : ℕ
  pub state : FiberStatus
  pub generation : ℕ
  pub next_free : ℕ
  pub read_buffer_ptr : ℕ

pub record ContextPool : Type 0 where
  pub base_ptr : ℕ
  pub total_size : ℕ
  pub slot_size : ℕ
  pub page_size : ℕ
  pub capacity : ℕ
  pub safety : SafetyLevel
  pub free_head : ℕ
  pub context_end_offset : ℕ
  pub contexts : ℕ → Context

abbrev pub read_buffer_size : ℕ
read_buffer_size = 8192

-- `(n + k - 1) & !(k - 1)` for a power of two `k`.
abbrev pub align_up : ℕ → ℕ → ℕ
align_up n k = (n + k - 1) / k * k

-- `capacity.div_ceil(32)`.
abbrev pub groups : ℕ → ℕ
groups capacity = (capacity + 31) / 32

abbrev pub context_sz : ℕ → ℕ
context_sz context_size = align_up context_size 64

abbrev pub slot_size_for : ℕ → ℕ → ℕ → ℕ
slot_size_for context_size page stack =
    align_up (stack + context_sz context_size + read_buffer_size) page

-- The arena without its metadata.
unfoldable pub arena_size : SafetyLevel → ℕ → ℕ → ℕ → ℕ
arena_size safety_0 capacity slot page = capacity * slot
arena_size safety_1 capacity slot page = capacity * slot + groups capacity * page
arena_size safety_2 capacity slot page = capacity * (slot + page)

abbrev pub metadata_size : ℕ
metadata_size = 4096

-- How many guard pages `new` protects, and the offset of each.
unfoldable pub guard_count : SafetyLevel → ℕ → ℕ
guard_count safety_0 capacity = 0
guard_count safety_1 capacity = groups capacity
guard_count safety_2 capacity = capacity

unfoldable pub guard_at : SafetyLevel → ℕ → ℕ → ℕ → ℕ
guard_at safety_0 slot page i = 0
guard_at safety_1 slot page i = i * (slot * 32 + page)
guard_at safety_2 slot page i = i * (slot + page)

-- `guard_offset` of `get_context_ptr`.
unfoldable pub guard_offset : SafetyLevel → ℕ → ℕ → ℕ
guard_offset safety_0 page index = 0
guard_offset safety_1 page index = (index / 32 + 1) * page
guard_offset safety_2 page index = (index + 1) * page

unfoldable pub get_context_ptr : ContextPool → ℕ → ℕ
unfolding guard_offset
get_context_ptr p index =
    p.base_ptr
    + (index * p.slot_size + guard_offset p.safety p.page_size index + p.context_end_offset)

-- What `new` writes into the contexts, the end of the free list included.
unfoldable pub fresh_context : ContextPool → ℕ → Context
fresh_context p i = record {
  fiber_index = i;
  state = initial;
  generation = 0;
  next_free = if i + 1 == p.capacity then nil_index else i + 1;
  read_buffer_ptr = (get_context_ptr p i - read_buffer_size) / 64 * 64;
}

-- A call of `mprotect` for each guard page; the first failure ends them.
unfoldable pub protect_all : (ℕ → Bool) → (ℕ → ℕ) → ℕ → ℕ → Bool
protect_all protect at i zero = true
protect_all protect at i (suc n) =
    let rest = protect_all protect at (i + 1) n in if protect (at i) then rest else false

-- What `new` comes to: the operating system's refusal, the arithmetic panic of `capacity - 1`, or a pool.
pub data Made : Type 0 where
  mmap_failed : Made
  mprotect_failed : Made
  panics : Made
  made : ContextPool → Made

unfoldable pub blank : ℕ → ℕ → ℕ → ℕ → SafetyLevel → ℕ → ContextPool
unfolding arena_size
blank context_size page capacity stack safety base =
    let slot = slot_size_for context_size page stack in
    record {
      base_ptr = base;
      total_size = arena_size safety capacity slot page + metadata_size;
      slot_size = slot;
      page_size = page;
      capacity = capacity;
      safety = safety;
      free_head = 0;
      context_end_offset = slot - context_sz context_size;
      contexts = λ i. record {
        fiber_index = 0;
        state = initial;
        generation = 0;
        next_free = nil_index;
        read_buffer_ptr = 0;
      };
    }

unfoldable pub filled : ContextPool → ContextPool
unfolding fresh_context
filled p = record p { contexts = fresh_context p }

-- The guard pages and the contexts; `protect` tells whether the page at an address can be protected.
unfoldable pub protected : (ℕ → Bool) → ContextPool → Made
unfolding protect_all guard_at guard_count filled
protected protect p =
    if protect_all protect (λ i. p.base_ptr + guard_at p.safety p.slot_size p.page_size i) 0
      (guard_count p.safety p.capacity)
    then (if p.capacity == 0 then panics else made (filled p))
    else mprotect_failed

abbrev pub if_allocated : Option ℕ → (ℕ → Made) → Made
if_allocated none k = mmap_failed
if_allocated (some base) k = k base

-- `allocate` is `allocate_arena`.
unfoldable pub new : ℕ → ℕ → (ℕ → Option ℕ) → (ℕ → Bool) → ℕ → ℕ → SafetyLevel → Made
unfolding blank protected arena_size
new context_size page allocate protect capacity stack safety =
    if_allocated
      (allocate
        (arena_size safety capacity (slot_size_for context_size page stack) page + metadata_size))
      (λ base. protected protect (blank context_size page capacity stack safety base))

unfoldable pub set_context : ContextPool → ℕ → Context → ContextPool
set_context p i c = record p { contexts = λ j. if i == j then c else p.contexts j }

-- The exchange of `alloc_context`, with a head and a successor read earlier.
unfoldable pub alloc_exchange : ContextPool → ℕ → ℕ → ContextPool × Bool
alloc_exchange p seen successor =
    if p.free_head == seen
    then (record p { free_head = next_head seen successor }, true)
    else (p, false)

-- `alloc_context`, which nobody interrupts: its first turn succeeds.
unfoldable pub alloc_context : ContextPool → ContextPool × Option ℕ
unfolding alloc_exchange
alloc_context p = if index_of p.free_head == nil_index then (p, none) else (
  (alloc_exchange p p.free_head (p.contexts (index_of p.free_head)).next_free).0,
  some (index_of p.free_head),
)

-- A turn of the loop of `free_context`, from a head read earlier.
unfoldable pub free_turn : ContextPool → ℕ → ℕ → ContextPool × Bool
unfolding set_context
free_turn p seen index =
    let c = p.contexts index in
    let linked = set_context p index (record c { next_free = index_of seen }) in
    if p.free_head == seen
    then (record linked { free_head = next_head seen index }, true)
    else (linked, false)

-- The state and the generation, before the loop.
unfoldable pub retire : ContextPool → ℕ → ContextPool
unfolding set_context
retire p index =
    let c = p.contexts index in
    set_context p index (record c { state = initial; generation = (c.generation + 1) % 2 ^ 32 })

unfoldable pub free_context : ContextPool → ℕ → ContextPool
unfolding retire free_turn
free_context p index = let r = retire p index in (free_turn r r.free_head index).0

-- Base pointer, slot size, guard size and context offset. The last is computed anew.
unfoldable pub get_dispatch_layout : ℕ → ContextPool → ℕ × ℕ × ℕ × ℕ
get_dispatch_layout context_size p = (
  p.base_ptr,
  p.slot_size,
  elim p.safety [ safety_0 ↦ 0 | other ↦ p.page_size ],
  p.slot_size - context_sz context_size,
)

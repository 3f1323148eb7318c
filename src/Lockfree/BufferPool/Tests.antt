-- ===== src/Lockfree/BufferPool/Tests.antt =====
-- `BufferPool` run on small inputs.
use dtact.Base.{◌≡◌, ◌⊎◌, refl, some, [], ◌∷◌, arith}
use dtact.Lockfree.FreeList
use dtact.Lockfree.FreeList.Chain.{Holds}
use dtact.Lockfree.BufferPool.{BufferPool, new, link_chunks, acquire}
use dtact.Lockfree.BufferPool.Chunks.{new-free, Before, Inside, acquire-apart}

-- Three chunks of 64 bytes at address 4096.
abbrev pool : BufferPool
pool = new 4096 3 64

pool-Holds : Holds pool.free (0 ∷ 1 ∷ 2 ∷ [])
pool-Holds = new-free 4096 3 64 (omega arith) (omega arith)

acquire-apart_example :
    let p' = (acquire pool).0 in
    ((acquire pool).1 ≡ some 0)
    × ((acquire p').1 ≡ some 1)
    × Inside pool 0
    × Inside pool 1
    × (Before pool 0 1 ⊎ Before pool 1 0)
unfolding new link_chunks FreeList.set_head FreeList.write_next_slot FreeList.new_empty
acquire-apart_example = acquire-apart pool 0 1 (2 ∷ []) pool-Holds refl

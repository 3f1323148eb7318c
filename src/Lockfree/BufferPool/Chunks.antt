-- ===== src/Lockfree/BufferPool/Chunks.antt =====
-- `BufferPool`: a new pool hands out every chunk, and chunks that are out at the same time do not
-- overlap and lie in the arena.
use dtact.Base.{
  ℕ, zero, suc, ◌+◌, ◌*◌, ◌%◌, ◌^◌, ◌<◌, ◌≤◌, max, ◌≡◌, ◌≢◌, ◌⊎◌, refl, sym, subst, ◌∙◌, some, List,
  [], ◌∷◌, arith, ◌==◌, if◌then◌else◌, update_self, update_ne, NotIn, inl, inr, Bool-cases, ltb,
  ltb→lt,
}
use native.Mathlib.Nat.{mul-le-mul_right, suc-mul}
use dtact.Lockfree.FreeList
use dtact.Lockfree.FreeList.{TreiberStack, nil_index, index_of}
use dtact.Lockfree.FreeList.Chain.{first, Chain, Holds, pop-free}
use dtact.Lockfree.BufferPool.{BufferPool, link_chunks, new, get_ptr, acquire}

-- The chunks from `i` on, `left` of them.
abbrev pub count_from : ℕ → ℕ → List ℕ
count_from i zero = []
count_from i (suc left) = i ∷ count_from (suc i) left

NotIn-count_from : (i j left : ℕ) → i < j → NotIn i (count_from j left)
NotIn-count_from i j zero lt = tt
NotIn-count_from i j (suc left) lt =
    (λ e. absurd (omega arith), NotIn-count_from i (suc j) left (omega arith))

-- What `link_chunks` leaves alone: the links below the chunk it is at.
link_chunks-below :
    (total left i : ℕ) (s : TreiberStack) (k : ℕ)
    → k < i
    → (link_chunks total left i s).next k ≡ s.next k
unfolding link_chunks FreeList.write_next_slot
link_chunks-below total zero i s k lt = refl
link_chunks-below total (suc left) i s k lt =
    link_chunks-below total left (suc i) _ k (omega arith)
    ∙ update_ne s.next i k _ (λ e. absurd (omega arith))

link_chunks-size :
    (total left i : ℕ) (s : TreiberStack) → (link_chunks total left i s).size ≡ s.size
unfolding link_chunks FreeList.write_next_slot
link_chunks-size total zero i s = refl
link_chunks-size total (suc left) i s = link_chunks-size total left (suc i) _

link :
    (total left i : ℕ)
    → i + suc left ≡ total
    → total < 2 ^ 32
    → (if suc i == total then nil_index else suc i % 2 ^ 32) ≡ first (count_from (suc i) left)
link total zero i e lt = ground arith
link total (suc left) i e lt = ground arith

link_chunks-Chain :
    (total left i : ℕ) (s : TreiberStack)
    → i + left ≡ total
    → total < 2 ^ 32
    → Chain (link_chunks total left i s).next total (count_from i left)
unfolding link_chunks FreeList.write_next_slot
link_chunks-Chain total zero i s e lt = tt
link_chunks-Chain total (suc left) i s e lt = (
  omega arith,
  link_chunks-below total left (suc i) _ i (omega arith)
      ∙ update_self s.next i _
      ∙ link total left i e lt,
  NotIn-count_from i (suc i) left (omega arith),
  link_chunks-Chain total left (suc i) _ (omega arith) lt,
)

first-count_from : (total : ℕ) → 0 < total → index_of 0 ≡ first (count_from 0 total)
first-count_from zero lt = absurd (omega arith)
first-count_from (suc n) lt = refl

linked-Holds :
    (total : ℕ)
    → 0 < total
    → total < 2 ^ 32
    → Holds
        (FreeList.set_head (link_chunks total total 0 (FreeList.new_empty total)) 0)
        (count_from 0 total)
unfolding FreeList.set_head FreeList.new_empty
linked-Holds total some_chunk lt = record {
  top = first-count_from total some_chunk;
  chain =
      subst
        (λ n.
          Chain (link_chunks total total 0 (FreeList.new_empty total)).next n (count_from 0 total))
        (sym size) (link_chunks-Chain total total 0 (FreeList.new_empty total) (omega arith) lt);
  indices = rw size lt;
}
  where
    size : (link_chunks total total 0 (FreeList.new_empty total)).size ≡ total
    size = link_chunks-size total total 0 (FreeList.new_empty total)

-- A new pool of `total` chunks, at least one and fewer than 2^32, has all of them free, in order.
pub new-free :
    (arena total size : ℕ)
    → 0 < total
    → total < 2 ^ 32
    → Holds (new arena total size).free (count_from 0 total)
unfolding new
new-free arena total size some_chunk lt =
    let e : max total 1 ≡ total = omega arith in
    subst
      (λ n.
        Holds (FreeList.set_head (link_chunks n n 0 (FreeList.new_empty n)) 0) (count_from 0 total))
      (sym e) (linked-Holds total some_chunk lt)

-- The bytes of chunk `i` end before those of chunk `j` begin.
abbrev pub Before : BufferPool → ℕ → ℕ → Type 0
Before p i j = get_ptr p i + p.chunk_size ≤ get_ptr p j

-- The bytes of chunk `i` lie in the arena.
abbrev pub Inside : BufferPool → ℕ → Type 0
Inside p i =
    (p.arena_ptr ≤ get_ptr p i) × (get_ptr p i + p.chunk_size ≤ p.arena_ptr + p.layout_size)

get_ptr-Before : (p : BufferPool) (i j : ℕ) → i < j → Before p i j
unfolding get_ptr
get_ptr-Before p i j lt =
    let k : suc i * p.chunk_size ≤ j * p.chunk_size = mul-le-mul_right p.chunk_size lt in
    let e : suc i * p.chunk_size ≡ i * p.chunk_size + p.chunk_size = suc-mul i p.chunk_size in
    omega arith

get_ptr-Inside :
    (p : BufferPool) (i total : ℕ) → p.layout_size ≡ total * p.chunk_size → i < total → Inside p i
unfolding get_ptr
get_ptr-Inside p i total size lt =
    let k : suc i * p.chunk_size ≤ total * p.chunk_size = mul-le-mul_right p.chunk_size lt in
    let e : suc i * p.chunk_size ≡ i * p.chunk_size + p.chunk_size = suc-mul i p.chunk_size in
    (omega arith, omega arith)

apart : (p : BufferPool) (i j : ℕ) → i ≢ j → Before p i j ⊎ Before p j i
apart p i j ne = elim (Bool-cases (ltb i j)) [
  | inl e ↦ inl (get_ptr-Before p i j (ltb→lt i j e))
  | inr e ↦ inr (get_ptr-Before p j i (ground arith))
]

-- On a pool whose arena has as many chunks as its free-list has places, and which has at least two
-- chunks free, two calls of `acquire` answer chunks that lie in the arena and do not overlap.
pub acquire-apart :
    (p : BufferPool) (i j : ℕ) (xs : List ℕ)
    → Holds p.free (i ∷ j ∷ xs)
    → p.layout_size ≡ p.free.size * p.chunk_size
    → let p' = (acquire p).0 in
      ((acquire p).1 ≡ some i)
      × ((acquire p').1 ≡ some j)
      × Inside p i
      × Inside p j
      × (Before p i j ⊎ Before p j i)
unfolding acquire
acquire-apart p i j xs h size =
    let (e, lt, out, h') = pop-free p.free i (j ∷ xs) h in
    let (e', lt', out', h'') = pop-free (FreeList.pop p.free).0 j xs h' in
    let (a, b, c, d) = h.chain.3 in
    (
      e,
      e',
      get_ptr-Inside p i p.free.size size lt,
      get_ptr-Inside p j p.free.size size a,
      apart p i j out.0,
    )

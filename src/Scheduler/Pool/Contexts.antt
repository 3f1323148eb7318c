-- ===== src/Scheduler/Pool/Contexts.antt =====
-- The free list of contexts: it is the `TreiberStack` of dtact-util over other links.
use dtact.Base.{
  ℕ, zero, suc, ◌+◌, ◌%◌, ◌^◌, ◌<◌, ◌≡◌, refl, ap, sym, subst, ◌∙◌, Bool, Option, some, List, [],
  ◌∷◌, arith, ◌==◌, ==_self, ==_iff, ==_of_ne, Bool-cases, inl, inr, update, NotIn, lt→ltb,
}
use mathlib.Core.Path.{fun_ext}
use dtact.Lockfree.FreeList.{
  TreiberStack, nil_index, index_of, next_head, push_turn, pop, pop_exchange, push,
}
use dtact.Lockfree.FreeList.Chain.{Holds, Chain, first, pop-free, push-free}
use dtact.Scheduler.Fiber.{initial}
use dtact.Scheduler.Pool.{
  ContextPool, alloc_context, alloc_exchange, free_turn, retire, set_context, free_context, filled,
  fresh_context, SafetyLevel, new, made, blank,
}
use dtact.Scheduler.Pool.Layout.{made-filled}

-- The free list of a pool, as that stack.
abbrev pub free_list : ContextPool → TreiberStack
free_list p = record { head = p.free_head; next = λ i. (p.contexts i).next_free; size = p.capacity }

-- `alloc_context` is `pop`.
alloc-pop :
    (p : ContextPool)
    → (free_list (alloc_context p).0 ≡ (pop (free_list p)).0)
      × ((alloc_context p).1 ≡ (pop (free_list p)).1)
unfolding alloc_context alloc_exchange pop pop_exchange
alloc-pop p = elim (Bool-cases (index_of p.free_head == nil_index)) [
  | inl e ↦ rw e (refl, refl)
  | inr e ↦ rw (e, ==_self p.free_head) (refl, refl)
]

-- `free_context`, which nobody interrupts, succeeds at its first turn.
abbrev freed : ContextPool → ℕ → ContextPool
freed p i =
    record (set_context (retire p i) i
      (record ((retire p i).contexts i) { next_free = index_of p.free_head })) {
        free_head = next_head p.free_head i;
      }

free_context-freed : (p : ContextPool) (i : ℕ) → free_context p i ≡ freed p i
unfolding free_context free_turn retire set_context
free_context-freed p i = rw (==_self p.free_head, free_context) refl

free-push :
    (p : ContextPool) (i : ℕ)
    → free_list (free_context p i) ≡ (push_turn (free_list p) p.free_head i).0
unfolding push_turn retire set_context
free-push p i =
    ap free_list (free_context-freed p i)
    ∙ rw (==_self p.free_head)
        (λ t. record { head = next_head p.free_head i; next = fun_ext links t; size = p.capacity })
  where
    links :
        (j : ℕ)
        → ((freed p i).contexts j).next_free
          ≡ update (λ k. (p.contexts k).next_free) i (index_of p.free_head) j
    links j = elim (Bool-cases (i == j)) [ inl e ↦ rw e refl | inr e ↦ rw e refl ]

retired_lem :
    (q : ContextPool) (x : ℕ)
    → (((free_context q x).contexts x).state ≡ initial)
      × (((free_context q x).contexts x).generation ≡ ((q.contexts x).generation + 1) % 2 ^ 32)
unfolding retire set_context
retired_lem q x =
    subst
      (λ (r : ContextPool).
        ((r.contexts x).state ≡ initial)
        × ((r.contexts x).generation ≡ ((q.contexts x).generation + 1) % 2 ^ 32))
      (sym (free_context-freed q x)) (rw (==_self x) (refl, refl))

-- The indices from `i` on.
abbrev pub count_from : ℕ → ℕ → List ℕ
count_from i zero = []
count_from i (suc n) = i ∷ count_from (i + 1) n

NotIn-count_from : (a i n : ℕ) → a < i → NotIn a (count_from i n)
NotIn-count_from a i zero h = tt
NotIn-count_from a i (suc n) h =
    (λ e. absurd (omega arith), NotIn-count_from a (i + 1) n (omega arith))

filled-Chain :
    (p : ContextPool) (i n : ℕ)
    → i + n ≡ p.capacity
    → Chain (free_list (filled p)).next p.capacity (count_from i n)
unfolding filled fresh_context
filled-Chain p i zero e = tt
filled-Chain p i (suc zero) e =
    (omega arith, rw ((==_iff (i + 1) p.capacity).1 (omega arith)) refl, tt, tt)
filled-Chain p i (suc (suc n)) e = (
  omega arith,
  rw (==_of_ne (i + 1) p.capacity (λ q. absurd (omega arith))) refl,
  NotIn-count_from i (i + 1) (suc n) (omega arith),
  filled-Chain p (i + 1) (suc n) (omega arith),
)

-- In a pool that `new` makes with fewer than 2^32 contexts, each of them is free, and allocated in order.
pub new-all_free :
    (context_size page : ℕ) (allocate : ℕ → Option ℕ) (protect : ℕ → Bool) (capacity stack : ℕ)
    (safety : SafetyLevel) (p : ContextPool)
    → new context_size page allocate protect capacity stack safety ≡ made p
    → capacity < 2 ^ 32
    → Holds (free_list p) (count_from 0 capacity)
unfolding blank filled
new-all_free context_size page allocate protect capacity stack safety p e small =
    let (base, same, some_room) =
      made-filled context_size page allocate protect capacity stack safety p e in
    let q = blank context_size page capacity stack safety base in
    subst (λ r. Holds (free_list r) (count_from 0 capacity)) (sym same)
      (record {
        top = starts capacity some_room;
        chain = filled-Chain q 0 capacity (omega arith);
        indices = small;
      })
  where
    starts : (n : ℕ) → 0 < n → 0 ≡ first (count_from 0 n)
    starts zero h = absurd (omega arith)
    starts (suc n) h = refl

alloc-Holds :
    (p : ContextPool) (x : ℕ) (xs : List ℕ)
    → Holds (free_list p) (x ∷ xs)
    → ((alloc_context p).1 ≡ some x)
      × (x < p.capacity)
      × NotIn x xs
      × Holds (free_list (alloc_context p).0) xs
alloc-Holds p x xs h =
    let (same, answer) = alloc-pop p in
    let (e, lt, out, held) = pop-free (free_list p) x xs h in
    (answer ∙ e, lt, out, subst (λ s. Holds s xs) (sym same) held)

free-Holds :
    (p : ContextPool) (i : ℕ) (xs : List ℕ)
    → Holds (free_list p) xs
    → i < p.capacity
    → NotIn i xs
    → Holds (free_list (free_context p i)) (i ∷ xs)
unfolding push
free-Holds p i xs h lt out =
    let (t, e, held) = push-free (free_list p) i xs h lt out in
    let turned : push (free_list p) i ≡ some (push_turn (free_list p) p.free_head i).0 =
      rw (lt→ltb i p.capacity lt) refl in
    let same : t ≡ (push_turn (free_list p) p.free_head i).0 = cc in
    subst (λ s. Holds s (i ∷ xs)) (same ∙ sym (free-push p i)) held

capacity-alloc : (p : ContextPool) → (alloc_context p).0.capacity ≡ p.capacity
unfolding alloc_context alloc_exchange
capacity-alloc p = ground arith

contexts-alloc : (p : ContextPool) → (alloc_context p).0.contexts ≡ p.contexts
unfolding alloc_context alloc_exchange
contexts-alloc p = elim (Bool-cases (index_of p.free_head == nil_index)) [
  | inl e ↦ rw e refl
  | inr e ↦ rw (e, ==_self p.free_head) refl
]

-- On a pool that has free contexts, `alloc_context` takes the first of them, which is below the
-- capacity and free no more. When it is freed, it is the first again, in its initial state, and its
-- generation has grown by one, modulo 2^32.
pub alloc-free :
    (p : ContextPool) (x : ℕ) (xs : List ℕ)
    → Holds (free_list p) (x ∷ xs)
    → (let q = (alloc_context p).0 in
        let r = free_context q x in
        ((alloc_context p).1 ≡ some x)
        × (x < p.capacity)
        × NotIn x xs
        × Holds (free_list q) xs
        × Holds (free_list r) (x ∷ xs)
        × ((r.contexts x).state ≡ initial)
        × ((r.contexts x).generation ≡ ((p.contexts x).generation + 1) % 2 ^ 32))
alloc-free p x xs h =
    let (e, lt, out, held) = alloc-Holds p x xs h in
    let q = (alloc_context p).0 in
    (
      e,
      lt,
      out,
      held,
      free-Holds q x xs held (omega (arith, capacity-alloc p)) out,
      (retired_lem q x).0,
      (retired_lem q x).1 ∙ ap (λ f. ((f x).generation + 1) % 2 ^ 32) (contexts-alloc p),
    )

-- ===== src/Lockfree/Stack/Aba.antt =====
-- `MpmcStack::pop` against other threads. Its exchange compares addresses alone, so a pop that was
-- interrupted between its reads and its exchange cannot tell a node from a later one at the same
-- address.
use dtact.Base.{ℕ, ◌≡◌, ap, ◌∙◌, none, some, List, ◌∷◌, ==_self, update_self, update_ne}
use dtact.Lockfree.Stack.{MpmcStack, push, take_node, pop, pop_from, compare_exchange, ptr_eq}
use dtact.Lockfree.Stack.Chain.{first, Holds}

module _ {ℓ} {A : Type ℓ} where
  -- On a stack that holds at least two values: a pop has read the head at address `a` and its
  -- successor at `b`; others pop both nodes, and push a value whose node the allocator puts at `a`
  -- again. The exchange of the first pop succeeds all the same, and the head is then the freed
  -- address `b`, so that the next pop reads through a dangling pointer.
  pub pop_reused :
      (s : MpmcStack A) (a b : ℕ) (addrs : List ℕ) (x y z : A) (xs : List A)
      → Holds s (a ∷ b ∷ addrs) (x ∷ y ∷ xs)
      → (t u v : MpmcStack A) × (pop s ≡ some (t, some x))
        × (pop t ≡ some (u, some y))
        × (compare_exchange (push u a z) s.head (some b) ≡ some v)
        × (pop v ≡ none)
  unfolding pop pop_from compare_exchange ptr_eq push
  pop_reused s a b addrs x y z xs h = (
    t,
    u,
    record (push u a z) { head = some b },
    ap (pop_from s) h.top ∙ rw (h.chain.0, pop_from),
    rw (update_ne s.node a b none h.chain.1.0 ∙ h.chain.2.0, pop_from),
    rw (h.top, compare_exchange) (rw (==_self a)),
    rw (freed, pop_from),
  )
    where
      t : MpmcStack A
      t = (take_node s a (record { value = x; next = some b })).0

      u : MpmcStack A
      u = (take_node t b (record { value = y; next = first addrs })).0

      freed : (push u a z).node b ≡ none
      freed = update_ne u.node a b _ h.chain.1.0 ∙ update_self t.node b none

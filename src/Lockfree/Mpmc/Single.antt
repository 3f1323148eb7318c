-- ===== src/Lockfree/Mpmc/Single.antt =====
-- `BoundedMpmcQueue` with a single cell. The sequence number that marks the cell as published for
-- one position is the one that marks it as free for the next, so the queue is never found full.
use Prim.Native.Nat.{Ordering}
use dtact.Base.{
  ℕ, zero, suc, ◌%◌, ◌≡◌, refl, sym, ap, ◌∙◌, none, some, [], ◌∷◌, arith, ==_self, update,
  update_self, wrapping_add, signed_cmp, signed_cmp_self, signed_cmp_gt, ok,
}
use dtact.Lockfree.Mpmc.{BoundedMpmcQueue, publish, push_loop, try_push, pop_loop, try_pop}
use dtact.Lockfree.Mpmc.Cells.{Holds, InRange, run_head}

mod-single : (p c : ℕ) → c ≡ 1 → p % c ≡ 0
mod-single p c e = rw e (omega arith)

module _ {ℓ} {A : Type ℓ} where
  -- A pop that finds a cell published for a later position than its own never ends.
  pop_stuck :
      (fuel : ℕ) (q : BoundedMpmcQueue A)
      → signed_cmp (q.sequence (q.dequeue_pos % q.capacity)) (wrapping_add q.dequeue_pos 1)
        ≡ Ordering.gt
      → pop_loop fuel q q.dequeue_pos ≡ (q, none)
  unfolding pop_loop
  pop_stuck zero q e = refl
  pop_stuck (suc fuel) q e = rw (e, pop_loop) (pop_stuck fuel q e)

  -- A queue of one cell that holds one value, with its positions in range, accepts another value,
  -- and after that no pop ends, whatever its fuel.
  pub overwrite :
      (fuel : ℕ) (q : BoundedMpmcQueue A) (x v : A)
      → Holds q (x ∷ [])
      → InRange q
      → q.capacity ≡ 1
      → (try_push (suc fuel) q v ≡ (publish q q.enqueue_pos v, some ok))
        × ((n : ℕ) → (try_pop n (publish q q.enqueue_pos v)).1 ≡ none)
  unfolding try_push push_loop try_pop publish
  overwrite fuel q x v h range one = (
    rw (at_pos, push_loop) (rw (==_self q.enqueue_pos)),
    λ n. ap (λ r. r.1) (pop_stuck n (publish q q.enqueue_pos v) later),
  )
    where
      taken : q.sequence (q.enqueue_pos % q.capacity) ≡ q.enqueue_pos
      taken =
          ap q.sequence (mod-single q.enqueue_pos _ one ∙ sym (mod-single q.dequeue_pos _ one))
          ∙ run_head q.capacity q.sequence _ _ _ (omega arith) h.published
          ∙ omega (arith, h.enqueue_at)

      at_pos : signed_cmp (q.sequence (q.enqueue_pos % q.capacity)) q.enqueue_pos ≡ Ordering.eq
      at_pos =
          ap (λ s. signed_cmp s q.enqueue_pos) taken
          ∙ signed_cmp_self q.enqueue_pos (omega (arith, h.enqueue_at))

      same_cell : q.enqueue_pos % q.capacity ≡ q.dequeue_pos % q.capacity
      same_cell = mod-single q.enqueue_pos _ one ∙ sym (mod-single q.dequeue_pos _ one)

      later :
          signed_cmp
            (update q.sequence
              (q.enqueue_pos % q.capacity)
              (wrapping_add q.enqueue_pos 1)
              (q.dequeue_pos % q.capacity))
            (wrapping_add q.dequeue_pos 1)
          ≡ Ordering.gt
      later = rw same_cell (
          ap (λ s. signed_cmp s (wrapping_add q.dequeue_pos 1))
            (update_self q.sequence (q.dequeue_pos % q.capacity) (wrapping_add q.enqueue_pos 1))
          ∙ signed_cmp_gt (wrapping_add q.enqueue_pos 1) (wrapping_add q.dequeue_pos 1)
              (omega (arith, h.enqueue_at)) (omega (arith, h.enqueue_at)))

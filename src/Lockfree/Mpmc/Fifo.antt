-- ===== src/Lockfree/Mpmc/Fifo.antt =====
-- `BoundedMpmcQueue` against a bounded first-in first-out list, while its positions stay below 2⁶³.
use Prim.Native.Nat.{Ordering}
use native.Mathlib.Nat.{add-mod_right}
use dtact.Base.{
  ℕ, suc, ◌+◌, ◌%◌, ◌≤◌, ◌<◌, ◌≡◌, refl, ap, subst, ◌∙◌, inl, inr, false, Option, none, some, List,
  [], ◌∷◌, ◌++◌, arith, ltb, if◌then◌else◌, ==_self, Bool-cases, ltb→lt, length, signed_cmp,
  wrapping_add, signed_cmp_self, signed_cmp_lt, PushResult, ok, err,
}
use dtact.Lockfree.Mpmc.{BoundedMpmcQueue, publish, release, push_loop, try_push, pop_loop, try_pop}
use dtact.Lockfree.Mpmc.Cells.{Holds, run_head, InRange, publish-Holds, release-Holds}

-- The abstract queue: at most `cap` elements, oldest first.
unfoldable pub fifo_push {ℓ} : {A : Type ℓ} → ℕ → List A → A → List A × PushResult A
fifo_push cap xs v = if ltb (length xs) cap then (xs ++ v ∷ [], ok) else (xs, err v)

unfoldable pub fifo_pop {ℓ} : {A : Type ℓ} → List A → List A × Option (Option A)
fifo_pop [] = ([], none)
fifo_pop (x ∷ xs) = (xs, some (some x))

module _ {ℓ} {A : Type ℓ} where
  -- A push with room claims the next position at the first try.
  pub push-room :
      (fuel : ℕ) (q : BoundedMpmcQueue A) (xs : List A) (v : A)
      → Holds q xs
      → InRange q
      → length xs < q.capacity
      → try_push (suc fuel) q v ≡ (publish q q.enqueue_pos v, some ok)
  unfolding try_push push_loop
  push-room fuel q xs v h range room = rw (at_pos, push_loop) (rw (==_self q.enqueue_pos))
    where
      free : q.sequence (q.enqueue_pos % q.capacity) ≡ q.enqueue_pos
      free = run_head q.capacity q.sequence _ _ _ (omega arith) h.freed

      at_pos : signed_cmp (q.sequence (q.enqueue_pos % q.capacity)) q.enqueue_pos ≡ Ordering.eq
      at_pos =
          ap (λ s. signed_cmp s q.enqueue_pos) free
          ∙ signed_cmp_self q.enqueue_pos (omega (arith, h.enqueue_at))

  pub push-full :
      (fuel : ℕ) (q : BoundedMpmcQueue A) (xs : List A) (v : A)
      → Holds q xs
      → InRange q
      → length xs ≡ q.capacity
      → 1 < q.capacity
      → try_push (suc fuel) q v ≡ (q, some (err v))
  unfolding try_push push_loop
  push-full fuel q xs v h range full two = rw (behind, push_loop)
    where
      taken : q.sequence (q.enqueue_pos % q.capacity) ≡ q.dequeue_pos + 1
      taken =
          ap q.sequence (
            ap (λ p. p % q.capacity) (omega (arith, h.enqueue_at))
            ∙ add-mod_right q.dequeue_pos q.capacity)
          ∙ run_head q.capacity q.sequence _ _ _ (omega arith) h.published

      behind : signed_cmp (q.sequence (q.enqueue_pos % q.capacity)) q.enqueue_pos ≡ Ordering.lt
      behind =
          ap (λ s. signed_cmp s q.enqueue_pos) taken
          ∙ signed_cmp_lt (q.dequeue_pos + 1) q.enqueue_pos (omega (arith, h.enqueue_at))
              (omega (arith, h.enqueue_at))

  pub pop-some :
      (fuel : ℕ) (q : BoundedMpmcQueue A) (x : A) (xs : List A)
      → Holds q (x ∷ xs)
      → InRange q
      → try_pop (suc fuel) q ≡ (release q q.dequeue_pos, some (some (some x)))
  unfolding try_pop pop_loop
  pop-some fuel q x xs h range =
      rw (at_pos, pop_loop) (rw (==_self q.dequeue_pos, (release-Holds q x xs h range).0))
    where
      ready : q.sequence (q.dequeue_pos % q.capacity) ≡ wrapping_add q.dequeue_pos 1
      ready = run_head q.capacity q.sequence _ _ _ (omega arith) h.published ∙ omega arith

      at_pos :
          signed_cmp (q.sequence (q.dequeue_pos % q.capacity)) (wrapping_add q.dequeue_pos 1)
          ≡ Ordering.eq
      at_pos =
          ap (λ s. signed_cmp s (wrapping_add q.dequeue_pos 1)) ready
          ∙ signed_cmp_self (wrapping_add q.dequeue_pos 1) (omega arith)

  pub pop-empty :
      (fuel : ℕ) (q : BoundedMpmcQueue A)
      → Holds q []
      → InRange q
      → try_pop (suc fuel) q ≡ (q, some none)
  unfolding try_pop pop_loop
  pop-empty fuel q h range = rw (behind, pop_loop)
    where
      free : q.sequence (q.dequeue_pos % q.capacity) ≡ q.dequeue_pos
      free =
          subst (λ p. q.sequence (p % q.capacity) ≡ p) {x = q.enqueue_pos}
            (omega (arith, h.enqueue_at))
            (run_head q.capacity q.sequence _ _ _ (omega arith) h.freed)

      behind :
          signed_cmp (q.sequence (q.dequeue_pos % q.capacity)) (wrapping_add q.dequeue_pos 1)
          ≡ Ordering.lt
      behind =
          ap (λ s. signed_cmp s (wrapping_add q.dequeue_pos 1)) free
          ∙ signed_cmp_lt q.dequeue_pos (wrapping_add q.dequeue_pos 1) (omega arith) (omega arith)

  -- On a queue of two cells or more that holds a list, with its positions in range, `try_push`
  -- answers at its first turn what the bounded queue answers, and the queue then holds what the
  -- bounded queue holds.
  pub push-Fifo :
      (fuel : ℕ) (q : BoundedMpmcQueue A) (xs : List A) (v : A)
      → Holds q xs
      → InRange q
      → 1 < q.capacity
      → ((try_push (suc fuel) q v).1 ≡ some (fifo_push q.capacity xs v).1)
        × Holds (try_push (suc fuel) q v).0 (fifo_push q.capacity xs v).0
  unfolding fifo_push
  push-Fifo fuel q xs v h range two = elim (Bool-cases (ltb (length xs) q.capacity)) [
    | inl room ↦
        let lt : length xs < q.capacity = ltb→lt _ _ room in
        rw (push-room fuel q xs v h range lt, room) (refl, publish-Holds q xs v h range lt)
    | inr full ↦ rw (push-full fuel q xs v h range (fills full) two, full) (refl, h)
  ]
    where
      fills : ltb (length xs) q.capacity ≡ false → length xs ≡ q.capacity
      fills e = let le : length xs ≤ q.capacity = h.fits in ground arith

  -- On a queue that holds a list, with its positions in range, `try_pop` answers at its first turn
  -- what the bounded queue answers, and the queue then holds what the bounded queue holds.
  pub pop-Fifo :
      (fuel : ℕ) (q : BoundedMpmcQueue A) (xs : List A)
      → Holds q xs
      → InRange q
      → ((try_pop (suc fuel) q).1 ≡ some (fifo_pop xs).1)
        × Holds (try_pop (suc fuel) q).0 (fifo_pop xs).0
  unfolding fifo_pop
  pop-Fifo fuel q [] h range = rw (pop-empty fuel q h range) (refl, h)
  pop-Fifo fuel q (x ∷ xs) h range =
      rw (pop-some fuel q x xs h range) (refl, (release-Holds q x xs h range).1)

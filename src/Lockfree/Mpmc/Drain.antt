-- ===== src/Lockfree/Mpmc/Drain.antt =====
-- `drain_until` takes everything that was pushed before its snapshot.
use dtact.Base.{
  ℕ, zero, suc, ◌+◌, ◌*◌, ◌^◌, ◌<◌, ◌≡◌, refl, sym, ap, subst, some, List, [], ◌∷◌, map, arith,
  true, false, length,
}
use dtact.Lockfree.Mpmc.{BoundedMpmcQueue, release, before, drain_round, drain_until}
use dtact.Lockfree.Mpmc.Cells.{Holds, release-Holds}
use dtact.Lockfree.Mpmc.Fifo.{pop-some}

module _ {ℓ} {A : Type ℓ} where
  before_end :
      (q : BoundedMpmcQueue A) (target : ℕ) → target ≡ q.dequeue_pos → before target q ≡ false
  unfolding before
  before_end q target e = ground arith

  before_more :
      (q : BoundedMpmcQueue A) (target : ℕ)
      → q.dequeue_pos < target
      → target < 2 ^ 63
      → before target q ≡ true
  unfolding before
  before_more q target lt range = ground arith

  -- On a queue that holds a list, with its positions in range, and with fuel for more rounds than
  -- there are elements, draining to the snapshot hands over every element, oldest first, and leaves
  -- the queue empty.
  pub drain_until-Holds :
      (fuel : ℕ) (q : BoundedMpmcQueue A) (xs : List A) (target : ℕ)
      → Holds q xs
      → q.dequeue_pos + length xs + 2 * q.capacity < 2 ^ 63
      → target ≡ q.enqueue_pos
      → length xs < fuel
      → ((drain_until fuel q target).1 ≡ map some xs) × Holds (drain_until fuel q target).0 []
  unfolding drain_until drain_round release
  drain_until-Holds zero q xs target h range e le = absurd (omega arith)
  drain_until-Holds (suc fuel) q [] target h range e le =
      rw (before_end q target (omega (arith, h.enqueue_at)), drain_until) (refl, h)
  drain_until-Holds (suc fuel) q (x ∷ xs) target h range e le =
      let rest =
        drain_until-Holds fuel (release q q.dequeue_pos) xs target
          (release-Holds q x xs h (omega arith)).1 (omega arith) e (omega arith) in
      rw
        (
          before_more q target (omega (arith, h.enqueue_at)) (omega (arith, h.enqueue_at, h.fits)),
          drain_until,
        )
        (subst
          (λ r.
            ((drain_round (λ q'. drain_until fuel q' target) r).1 ≡ map some (x ∷ xs))
            × Holds (drain_round (λ q'. drain_until fuel q' target) r).0 [])
          (sym (pop-some fuel q x xs h (omega arith))) (ap (◌∷◌ (some x)) rest.0, rest.1))

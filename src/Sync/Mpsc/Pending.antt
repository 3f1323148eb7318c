-- ===== src/Sync/Mpsc/Pending.antt =====
-- The channels: what a pending receiver can rely on.
use dtact.Base.{
  ℕ, ◌≡◌, ◌≢◌, refl, sym, ap, ◌∙◌, ◌⊎◌, inl, inr, true, false, Bool-cases, Option, none, some, List,
  [], ◌∷◌, ◌++◌, reverse, arith, ◌==◌, ==_iff,
}
use dtact.Sync.Poll.{ready, pending}
use dtact.Sync.WaitQueue.Waiting.{IsOrdered}
use dtact.Sync.WaitQueue.Parked.{Parked}
use dtact.Sync.Protocol.Polls.{poll_with-Parked}
use dtact.Sync.Mpsc.{
  Queue, bounded, unbounded, Shared, pop_front, pop_queue, popped, try_pop, or_closed, last_pop,
  attempt_recv,
}
use dtact.Sync.Mpsc.Order.{contents_of, contents}
use dtact.Sync.Mpsc.Waiting.{receives, Access, run, run-Keeps, poll_recv}

module _ {ℓ} {T : Type ℓ} where
  same_count :
      (c : Shared T) (p : Queue T × (List T × Option T))
      → (popped c p).0.sender_count ≡ c.sender_count
  same_count c (q, (local, none)) = refl
  same_count c (q, (local, some v)) = refl

  nil_front : (xs : List T) → (pop_front xs).1 ≡ none → (pop_front xs).0 ≡ []
  nil_front [] e = refl
  nil_front (x ∷ xs) e = cc

  -- A pop that finds nothing leaves nothing.
  pop_queue-none :
      (q : Queue T) (local : List T)
      → (pop_queue q local).1.1 ≡ none
      → contents_of (pop_queue q local).0 (pop_queue q local).1.0 ≡ []
  pop_queue-none (bounded capacity []) local e = refl
  pop_queue-none (bounded capacity (x ∷ xs)) local e = cc
  pop_queue-none (unbounded xs) (y ∷ local) e = cc
  pop_queue-none (unbounded xs) [] e = ap (λ l. l ++ []) (nil_front (reverse xs) e)

  popped-none :
      (c : Shared T) (p : Queue T × (List T × Option T))
      → (p.1.1 ≡ none → contents_of p.0 p.1.0 ≡ [])
      → (popped c p).1 ≡ none
      → contents (popped c p).0 ≡ []
  popped-none c (q, (local, none)) h e = h refl
  popped-none c (q, (local, some v)) h e = cc

  try_pop-none : (c : Shared T) → (try_pop c).1 ≡ none → contents (try_pop c).0 ≡ []
  unfolding try_pop
  try_pop-none c e = popped-none c (pop_queue c.queue c.local) (pop_queue-none c.queue c.local) e

  or_closed-none :
      (p : Shared T × Option T)
      → (p.1 ≡ none → contents p.0 ≡ [])
      → (or_closed p).1 ≡ none
      → (contents (or_closed p).0 ≡ []) × ((or_closed p).0.sender_count ≢ 0)
  or_closed-none (d, some v) h e = cc
  or_closed-none (d, none) h e = elim (Bool-cases (d.sender_count == 0)) [
    | inl z ↦ absurd (some_answer (try_pop d) (rw z at e))
    | inr z ↦ rw z (h refl, λ k. nonzero d.sender_count z k)
  ]
    where
      some_answer : (p : Shared T × Option T) → (last_pop p).1 ≢ none
      some_answer (c, r) e = cc

      nonzero : (n : ℕ) → (n == 0) ≡ false → n ≢ 0
      nonzero n z k = ground arith

  -- Whatever accesses of the senders come before and between the steps of a poll of `recv`, on a
  -- wait queue in order: the receiver gets an answer, or it is told to wait, the channel is empty, a
  -- sender is alive, and the task is parked (in the queue and valid, or woken).
  pub poll_recv-Parked :
      (before between : List (Access T)) (c : Shared T) (w : ℕ)
      → IsOrdered c.recv_wait
      → let r = poll_recv (run before) (run between) c w in
        ((a : Option T) × (r.1 ≡ ready a))
        ⊎ ((r.1 ≡ pending)
            × (contents r.0 ≡ [])
            × (r.0.sender_count ≢ 0)
            × ((t : ℕ) × Parked t w r.0.recv_wait))
  unfolding poll_recv attempt_recv
  poll_recv-Parked before between c w o =
      elim (poll_with-Parked receives (λ c. true) (run before) (run between) c w (run-Keeps before)
        (run-Keeps between) o) [
          | inl r ↦ inl r
          | inr (e, (s, (last, failed)), parked) ↦
              let (a, b) = or_closed-none (try_pop s) (try_pop-none s) failed in
              inr (
                e,
                ap contents last ∙ a,
                (λ k. b (sym (ap (λ r. r.sender_count) last) ∙ k)),
                parked,
              )
        ]

  last_pop-empty :
      (c : Shared T) (p : Shared T × Option T)
      → (p.1 ≡ none → contents p.0 ≡ [])
      → (last_pop p).1 ≡ some none
      → contents (last_pop p).0 ≡ []
  last_pop-empty c (d, none) h e = h refl
  last_pop-empty c (d, some v) h e = cc

  -- When the receiver is told that the channel is at its end, no sender is left, and the channel is
  -- empty.
  pub attempt_recv-end :
      (c : Shared T)
      → (attempt_recv c).1 ≡ some none
      → (c.sender_count ≡ 0) × (contents (attempt_recv c).0 ≡ [])
  unfolding attempt_recv try_pop
  attempt_recv-end c e = by_pop (try_pop c) (same c) e
    where
      same : (c : Shared T) → (try_pop c).0.sender_count ≡ c.sender_count
      same c = same_count c (pop_queue c.queue c.local)

      impossible : (x : Option (Option T)) → x ≡ none → x ≢ some none
      impossible x k f = cc

      by_pop :
          (p : Shared T × Option T)
          → p.0.sender_count ≡ c.sender_count
          → (or_closed p).1 ≡ some none
          → (c.sender_count ≡ 0) × (contents (or_closed p).0 ≡ [])
      by_pop (d, some v) k e = cc
      by_pop (d, none) k e = elim (Bool-cases (d.sender_count == 0)) [
        | inl z ↦ rw z (
          sym k ∙ (==_iff d.sender_count 0).0 z,
          last_pop-empty c (try_pop d) (try_pop-none d) (rw z at e),
        )
        | inr z ↦ absurd (impossible none refl (rw z at e))
      ]

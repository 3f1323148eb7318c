-- ===== src/Lockfree/Mpmc.antt =====
-- `BoundedMpmcQueue<T>` of dtact-util/src/lockfree.rs: Vyukov's bounded ring of cells, each with a
-- sequence number that says for which position it can be written or read next. A call is modelled
-- as it runs with no other thread inside it; its retries are recursion on fuel.
pub mod Cells
pub mod Fifo
pub mod Single
pub mod Drain
pub mod Tests
use Prim.Native.Nat.{Ordering}
use dtact.Base.{
  ℕ, zero, suc, ◌+◌, ◌-◌, ◌%◌, ◌^◌, max, ◌≡◌, Bool, true, false, ◌&&◌, not, Option, none, some,
  List, [], ◌∷◌, ltb, ◌==◌, if◌then◌else◌, update, wrapping_add, wrapping_sub, signed_cmp,
  PushResult, ok, err,
}

-- `buffer[i].sequence` and `buffer[i].data`; a cell's data is `none` while it is uninitialised.
pub record BoundedMpmcQueue {ℓ} (A : Type ℓ) : Type ℓ where
  pub sequence : ℕ → ℕ
  pub slot : ℕ → Option A
  pub capacity : ℕ
  pub enqueue_pos : ℕ
  pub dequeue_pos : ℕ

module _ {ℓ} {A : Type ℓ} where
  unfoldable pub new : ℕ → BoundedMpmcQueue A
  new capacity = record {
    sequence = λ i. i;
    slot = λ _. none;
    capacity = max capacity 1;
    enqueue_pos = 0;
    dequeue_pos = 0;
  }

  -- What the winner of the exchange on `enqueue_pos` does: claim the position, write, publish.
  unfoldable pub publish : BoundedMpmcQueue A → ℕ → A → BoundedMpmcQueue A
  publish q pos value = record q {
    enqueue_pos = wrapping_add pos 1;
    slot = update q.slot (pos % q.capacity) (some value);
    sequence = update q.sequence (pos % q.capacity) (wrapping_add pos 1);
  }

  -- The loop of `try_push`, from a position read earlier. A result of `none` means that the fuel
  -- ran out.
  unfoldable pub push_loop :
      ℕ → BoundedMpmcQueue A → ℕ → A → BoundedMpmcQueue A × Option (PushResult A)
  push_loop zero q pos value = (q, none)
  push_loop (suc fuel) q pos value =
      let again = push_loop fuel q q.enqueue_pos value in
      elim (signed_cmp (q.sequence (pos % q.capacity)) pos) [
        | Ordering.eq ↦ if q.enqueue_pos == pos then (publish q pos value, some ok) else again
        | Ordering.lt ↦ (q, some (err value))
        | Ordering.gt ↦ again
      ]

  unfoldable pub try_push : ℕ → BoundedMpmcQueue A → A → BoundedMpmcQueue A × Option (PushResult A)
  try_push fuel q value = push_loop fuel q q.enqueue_pos value

  -- What the winner of the exchange on `dequeue_pos` does: read the cell and free it for the
  -- position one round later.
  unfoldable pub release : BoundedMpmcQueue A → ℕ → BoundedMpmcQueue A
  release q pos = record q {
    dequeue_pos = wrapping_add pos 1;
    sequence = update q.sequence (pos % q.capacity) (wrapping_add pos q.capacity);
  }

  -- The loop of `try_pop`. The inner options: `none` for an empty queue, and else what is read.
  unfoldable pub pop_loop :
      ℕ → BoundedMpmcQueue A → ℕ → BoundedMpmcQueue A × Option (Option (Option A))
  pop_loop zero q pos = (q, none)
  pop_loop (suc fuel) q pos =
      let again = pop_loop fuel q q.dequeue_pos in
      elim (signed_cmp (q.sequence (pos % q.capacity)) (wrapping_add pos 1)) [
        | Ordering.eq ↦
            if q.dequeue_pos == pos
            then (release q pos, some (some (q.slot (pos % q.capacity))))
            else again
        | Ordering.lt ↦ (q, some none)
        | Ordering.gt ↦ again
      ]

  unfoldable pub try_pop : ℕ → BoundedMpmcQueue A → BoundedMpmcQueue A × Option (Option (Option A))
  try_pop fuel q = pop_loop fuel q q.dequeue_pos

  pub enqueue_snapshot : BoundedMpmcQueue A → ℕ
  enqueue_snapshot q = q.enqueue_pos

  pub len : BoundedMpmcQueue A → ℕ
  len q = q.enqueue_pos - q.dequeue_pos

  pub is_empty : BoundedMpmcQueue A → Bool
  is_empty q = len q == 0

  -- `(target - dequeue_pos) as isize > 0`.
  pub before : ℕ → BoundedMpmcQueue A → Bool
  before target q =
      ltb 0 (wrapping_sub target q.dequeue_pos) && ltb (wrapping_sub target q.dequeue_pos) (2 ^ 63)

  -- One round of `drain_until` with what its `try_pop` returned: a round that pops nothing spins.
  pub drain_round :
      (BoundedMpmcQueue A → BoundedMpmcQueue A × List (Option A))
      → BoundedMpmcQueue A × Option (Option (Option A))
      → BoundedMpmcQueue A × List (Option A)
  drain_round rest (q, some (some v)) = let (q', vs) = rest q in (q', v ∷ vs)
  drain_round rest (q, none) = rest q
  drain_round rest (q, some none) = rest q

  -- The values that `drain_until` hands to `on_pop`, oldest first.
  pub drain_until : ℕ → BoundedMpmcQueue A → ℕ → BoundedMpmcQueue A × List (Option A)
  drain_until zero q target = (q, [])
  drain_until (suc fuel) q target = elim (before target q) [
    | false ↦ (q, [])
    | true ↦ drain_round (λ q'. drain_until fuel q' target) (try_pop (suc fuel) q)
  ]

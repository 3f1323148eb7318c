-- ===== src/Lockfree/Spsc.antt =====
-- `SpscQueue<T>` of dtact-util/src/lockfree.rs: a ring buffer of a power-of-two capacity with one
-- producer and one consumer. `head` and `tail` are free-running 64-bit words.
pub mod Fifo
pub mod PopSlice
pub mod PushSlice
pub mod New
pub mod Tests
use dtact.Base.{
  ℕ, zero, suc, ◌+◌, ◌-◌, ◌%◌, ◌^◌, min, ◌≡◌, Bool, true, false, Option, none, some, List, [], ◌∷◌,
  ◌++◌, ltb, ◌==◌, if◌then◌else◌, update, length, take, drop, wrapping_add, wrapping_sub,
  PushResult, ok, err,
}

-- A cell of `buffer` is `none` while it is uninitialised (`MaybeUninit::uninit`).
pub record SpscQueue {ℓ} (A : Type ℓ) : Type ℓ where
  pub head : ℕ
  pub tail : ℕ
  pub buffer : ℕ → Option A
  pub capacity : ℕ

-- `usize::is_power_of_two`, by its documentation: one of 2⁰ to 2⁶³.
pub power_below : ℕ → ℕ → Bool
power_below n zero = false
power_below n (suc k) = let rest = power_below n k in if n == 2 ^ k then true else rest

pub is_power_of_two : ℕ → Bool
unfolding power_below
is_power_of_two n = power_below n 64

-- A call of a client, and what it returns.
pub data Op {ℓ} (A : Type ℓ) : Type ℓ where
  pushes : A → Op A
  pops : Op A

pub data Reply {ℓ} (A : Type ℓ) : Type ℓ where
  pushed : PushResult A → Reply A
  popped : Option (Option A) → Reply A

module _ {ℓ} {A : Type ℓ} where
  -- `none` is the panic of the assertion.
  pub new : ℕ → Option (SpscQueue A)
  new capacity =
      if is_power_of_two capacity
      then some (record { head = 0; tail = 0; buffer = λ _. none; capacity = capacity })
      else none

  -- The masks `tail & (capacity - 1)` and `head & (capacity - 1)` of a power of two.
  abbrev pub place : SpscQueue A → ℕ → ℕ
  place q i = i % q.capacity

  pub push : SpscQueue A → A → SpscQueue A × PushResult A
  push q value = if wrapping_sub q.tail q.head == q.capacity then (q, err value) else (
    record q {
      buffer = update q.buffer (place q q.tail) (some value);
      tail = wrapping_add q.tail 1;
    },
    ok,
  )

  -- `none` when the queue is empty, and else what the read finds in the cell.
  pub pop : SpscQueue A → SpscQueue A × Option (Option A)
  pop q =
      if q.head == q.tail
      then (q, none)
      else (record q { head = wrapping_add q.head 1 }, some (q.buffer (place q q.head)))

  pub is_empty : SpscQueue A → Bool
  is_empty q = q.head == q.tail

  pub is_full : SpscQueue A → Bool
  is_full q = wrapping_sub q.tail q.head == q.capacity

  pub len : SpscQueue A → ℕ
  len q = wrapping_sub q.tail q.head

  -- `ptr::copy_nonoverlapping` into the buffer from cell `i` on.
  pub copy_in : (ℕ → Option A) → ℕ → List A → ℕ → Option A
  copy_in f i [] = f
  copy_in f i (x ∷ xs) = copy_in (update f i (some x)) (i + 1) xs

  -- `ptr::copy_nonoverlapping` of `n` cells of the buffer from cell `i` on.
  pub copy_out : (ℕ → Option A) → ℕ → ℕ → List (Option A)
  copy_out f i zero = []
  copy_out f i (suc n) = f i ∷ copy_out f (i + 1) n

  -- The two runs of `push_slice`: `first` elements up to the end of the buffer, the rest from its
  -- start.
  pub push_runs : SpscQueue A → List A → ℕ → ℕ → SpscQueue A
  push_runs q src to_push first = record q {
    buffer =
        copy_in (copy_in q.buffer (place q q.tail) (take first src)) 0
          (take (to_push - first) (drop first src));
    tail = wrapping_add q.tail to_push;
  }

  pub push_slice : SpscQueue A → List A → SpscQueue A × ℕ
  push_slice q src =
      let to_push = min (q.capacity - wrapping_sub q.tail q.head) (length src) in
      if to_push == 0
      then (q, 0)
      else (push_runs q src to_push (min to_push (q.capacity - place q q.tail)), to_push)

  -- The two runs of `pop_slice`, as the list that `dst` starts with afterwards.
  pub pop_runs : SpscQueue A → ℕ → ℕ → List (Option A)
  pop_runs q to_pop first =
      copy_out q.buffer (place q q.head) first ++ copy_out q.buffer 0 (to_pop - first)

  -- `room` is `dst.len()`.
  pub pop_slice : SpscQueue A → ℕ → SpscQueue A × List (Option A)
  pop_slice q room =
      let to_pop = min (wrapping_sub q.tail q.head) room in
      if to_pop == 0 then (q, []) else (
        record q { head = wrapping_add q.head to_pop },
        pop_runs q to_pop (min to_pop (q.capacity - place q q.head)),
      )

  -- A client's calls in order, with what each returns.
  pub run : SpscQueue A → List (Op A) → List (Reply A)
  run q [] = []
  run q (pushes a ∷ ops) = let (q', r) = push q a in pushed r ∷ run q' ops
  run q (pops ∷ ops) = let (q', r) = pop q in popped r ∷ run q' ops

  -- `Drop`: pop until empty. At most `capacity` elements are held, so that much fuel is enough.
  pub drop_queue : ℕ → SpscQueue A → SpscQueue A
  drop_queue zero q = q
  drop_queue (suc fuel) q = let rest = drop_queue fuel (pop q).0 in if is_empty q then q else rest

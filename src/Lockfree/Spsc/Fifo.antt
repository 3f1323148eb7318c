-- ===== src/Lockfree/Spsc/Fifo.antt =====
-- `SpscQueue` against a bounded first-in first-out list: what a client sees of `push` and `pop`.
use Prim.Native.Nat.{◌∣◌}
use mathlib.Core.List.{map-append}
use native.Mathlib.Numerals.{add-one}
use mathlib.Core.Bool.{false≢true}
use mathlib.Core.Path.{ap₂}
use dtact.Base.{
  ℕ, ◌+◌, ◌%◌, ◌≤◌, ◌<◌, ◌≡◌, refl, sym, ap, ◌∙◌, ◌≢◌, inl, inr, true, false, Option, none, some,
  List, [], ◌∷◌, ◌++◌, map, arith, ◌==◌, if◌then◌else◌, ==_of_ne, ==_iff, Bool-cases, update,
  length, length-append, word_mod, wrapping_add, wrapping_sub, wrapping_add-mod, PushResult, ok,
  err,
}
use dtact.Lockfree.Ring.{read_run, read_run-mod, read_run-grow}
use dtact.Lockfree.Spsc.{SpscQueue, push, pop, len, Op, pushes, pops, Reply, pushed, popped, run}

-- The ring holds `xs`, oldest first.
pub record Holds {ℓ} {A : Type ℓ} (q : SpscQueue A) (xs : List A) : Type ℓ where
  pub divides : q.capacity ∣ word_mod
  pub some_room : 0 < q.capacity
  pub small : q.capacity < word_mod
  pub head_word : q.head < word_mod
  pub tail_at : q.tail ≡ wrapping_add q.head (length xs)
  pub fits : length xs ≤ q.capacity
  pub cells : read_run q.capacity q.buffer q.head (length xs) ≡ map some xs

-- The abstract queue: at most `cap` elements, oldest first.
unfoldable pub fifo_push {ℓ} : {A : Type ℓ} → ℕ → List A → A → List A × PushResult A
fifo_push cap xs v = if length xs == cap then (xs, err v) else (xs ++ v ∷ [], ok)

unfoldable pub fifo_pop {ℓ} : {A : Type ℓ} → List A → List A × Option (Option A)
fifo_pop [] = ([], none)
fifo_pop (x ∷ xs) = (xs, some (some x))

unfoldable pub fifo_run {ℓ} : {A : Type ℓ} → ℕ → List A → List (Op A) → List (Reply A)
fifo_run cap xs [] = []
fifo_run cap xs (pushes a ∷ ops) =
    let (ys, r) = fifo_push cap xs a in pushed r ∷ fifo_run cap ys ops
fifo_run cap xs (pops ∷ ops) = let (ys, r) = fifo_pop xs in popped r ∷ fifo_run cap ys ops

module _ {ℓ} {A : Type ℓ} where
  -- The length that the two words encode is the number of elements held.
  pub len-Holds : (q : SpscQueue A) (xs : List A) → Holds q xs → len q ≡ length xs
  unfolding len
  len-Holds q xs h = omega (arith, h.tail_at, h.fits, h.small, h.head_word)

  pub push-full :
      (q : SpscQueue A) (xs : List A) (v : A)
      → Holds q xs
      → length xs ≡ q.capacity
      → push q v ≡ (q, err v)
  unfolding push len
  push-full q xs v h e = let l = len-Holds q xs h in ground arith

  -- The element that `push` writes behind the run.
  pub push-Holds :
      (q : SpscQueue A) (xs : List A) (v : A)
      → Holds q xs
      → length xs < q.capacity
      → Holds
          (record q {
            buffer = update q.buffer (q.tail % q.capacity) (some v);
            tail = wrapping_add q.tail 1;
          })
          (xs ++ v ∷ [])
  push-Holds q xs v h room = record {
    divides = h.divides;
    some_room = h.some_room;
    small = h.small;
    head_word = h.head_word;
    tail_at = omega (arith, h.tail_at, length-append xs (v ∷ []));
    fits = omega (arith, length-append xs (v ∷ []));
    cells =
        rw (length-append xs (v ∷ []), add-one, place_at)
          (read_run-grow q.capacity q.buffer q.head (length xs) (some v) room
            ∙ ap (λ ys. ys ++ some v ∷ []) h.cells
            ∙ sym (map-append some xs (v ∷ [])));
  }
    where
      place_at : q.tail % q.capacity ≡ (q.head + length xs) % q.capacity
      place_at =
          ap (λ t. t % q.capacity) h.tail_at
          ∙ wrapping_add-mod q.capacity q.head (length xs) h.divides

  pub push-room :
      (q : SpscQueue A) (xs : List A) (v : A)
      → Holds q xs
      → length xs ≢ q.capacity
      → ((push q v).1 ≡ ok) × Holds (push q v).0 (xs ++ v ∷ [])
  unfolding push len
  push-room q xs v h e = rw test (refl, push-Holds q xs v h (omega (arith, h.fits)))
    where
      test : (wrapping_sub q.tail q.head == q.capacity) ≡ false
      test = ==_of_ne _ _ (λ w. e (sym (len-Holds q xs h) ∙ w))

  -- `push` does what the bounded queue does, and keeps the correspondence.
  pub push-Fifo :
      (q : SpscQueue A) (xs : List A) (v : A)
      → Holds q xs
      → ((push q v).1 ≡ (fifo_push q.capacity xs v).1)
        × Holds (push q v).0 (fifo_push q.capacity xs v).0
  unfolding fifo_push
  push-Fifo q xs v h = elim (Bool-cases (length xs == q.capacity)) [
    | inl e ↦ let full = push-full q xs v h ((==_iff _ _).0 e) in rw (e, full) (refl, h)
    | inr e ↦ rw e (push-room q xs v h (λ w. false≢true (sym e ∙ (==_iff _ _).1 w)))
  ]

  -- The head moves past the oldest element.
  pub pop-Holds :
      (q : SpscQueue A) (x : A) (xs : List A)
      → Holds q (x ∷ xs)
      → (q.buffer (q.head % q.capacity) ≡ some x)
        × Holds (record q { head = wrapping_add q.head 1 }) xs
  unfolding read_run
  pop-Holds q x xs h = (
    oldest,
    record {
      divides = h.divides;
      some_room = h.some_room;
      small = h.small;
      head_word = omega arith;
      tail_at = omega (arith, h.tail_at);
      fits = omega (arith, h.fits);
      cells =
          read_run-mod q.capacity q.buffer (wrapping_add q.head 1) (q.head + 1) (length xs)
            (wrapping_add-mod q.capacity q.head 1 h.divides)
          ∙ younger;
    },
  )
    where
      oldest : q.buffer (q.head % q.capacity) ≡ some x
      oldest = cc (h.cells)

      younger : read_run q.capacity q.buffer (q.head + 1) (length xs) ≡ map some xs
      younger = cc (h.cells)

  head-ne-tail :
      (q : SpscQueue A) (x : A) (xs : List A) → Holds q (x ∷ xs) → (q.head == q.tail) ≡ false
  head-ne-tail q x xs h =
      ==_of_ne _ _ (λ e. absurd (omega (arith, h.tail_at, h.head_word, h.fits, h.small, e)))

  -- `pop` does what the bounded queue does, and keeps the correspondence.
  pub pop-Fifo :
      (q : SpscQueue A) (xs : List A)
      → Holds q xs
      → ((pop q).1 ≡ (fifo_pop xs).1) × Holds (pop q).0 (fifo_pop xs).0
  unfolding fifo_pop pop
  pop-Fifo q [] h =
      let e : (q.head == q.tail) ≡ true = (==_iff _ _).1 (omega (arith, h.tail_at, h.head_word)) in
      rw e (refl, h)
  pop-Fifo q (x ∷ xs) h =
      let (oldest, rest) = pop-Holds q x xs h in rw (head-ne-tail q x xs h) (ap some oldest, rest)

  capacity-push : (q : SpscQueue A) (v : A) → (push q v).0.capacity ≡ q.capacity
  unfolding push
  capacity-push q v = ground arith

  capacity-pop : (q : SpscQueue A) → (pop q).0.capacity ≡ q.capacity
  unfolding pop
  capacity-pop q = ground arith

  -- Over any sequence of calls, a ring that holds a list answers what the bounded queue answers.
  pub run-fifo_run :
      (q : SpscQueue A) (xs : List A) (ops : List (Op A))
      → Holds q xs
      → run q ops ≡ fifo_run q.capacity xs ops
  unfolding run fifo_run
  run-fifo_run q xs [] h = refl
  run-fifo_run q xs (pushes a ∷ ops) h =
      let (same, kept) = push-Fifo q xs a h in
      ap₂ ◌∷◌ (ap pushed same) (
        run-fifo_run (push q a).0 (fifo_push q.capacity xs a).0 ops kept
        ∙ ap (λ c. fifo_run c (fifo_push q.capacity xs a).0 ops) (capacity-push q a))
  run-fifo_run q xs (pops ∷ ops) h =
      let (same, kept) = pop-Fifo q xs h in
      ap₂ ◌∷◌ (ap popped same) (
        run-fifo_run (pop q).0 (fifo_pop xs).0 ops kept
        ∙ ap (λ c. fifo_run c (fifo_pop xs).0 ops) (capacity-pop q))

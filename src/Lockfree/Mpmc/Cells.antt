-- ===== src/Lockfree/Mpmc/Cells.antt =====
-- The cells of `BoundedMpmcQueue`: the list that they hold, and what publishing and releasing one does to
-- it, while the positions stay below 2⁶³.
use mathlib.Core.List.{map-append}
use mathlib.Core.Path.{ap₂}
use native.Mathlib.Nat.{add-mod_right, mod-eq_of_lt}
use dtact.Base.{
  ℕ, zero, suc, ◌+◌, ◌-◌, ◌*◌, ◌%◌, ◌^◌, ◌≤◌, ◌<◌, max, ◌≡◌, refl, sym, ap, subst, ◌∙◌, Option,
  some, List, [], ◌∷◌, ◌++◌, map, arith, length, length-append, wrapping_add,
}
use dtact.Lockfree.Ring.{read_run, read_run-grow, read_run-behind}
use dtact.Lockfree.Mpmc.{BoundedMpmcQueue, new, publish, release}

-- The consecutive numbers from `p` on.
pub count_from : ℕ → ℕ → List ℕ
count_from p zero = []
count_from p (suc n) = p ∷ count_from (p + 1) n

count_from-suc : (p n : ℕ) → count_from p (suc n) ≡ count_from p n ++ (p + n) ∷ []
unfolding count_from
count_from-suc p zero = ap (λ k. k ∷ []) (omega arith)
count_from-suc p (suc n) =
    ap (◌∷◌ p) (count_from-suc (p + 1) n ∙ ap (λ k. count_from (p + 1) n ++ k ∷ []) (omega arith))

-- The queue holds `xs`, oldest first: the cells of `xs` are published, the others free for the
-- positions to come.
pub record Holds {ℓ} {A : Type ℓ} (q : BoundedMpmcQueue A) (xs : List A) : Type ℓ where
  pub some_room : 0 < q.capacity
  pub enqueue_at : q.enqueue_pos ≡ q.dequeue_pos + length xs
  pub fits : length xs ≤ q.capacity
  pub cells : read_run q.capacity q.slot q.dequeue_pos (length xs) ≡ map some xs
  pub published :
      read_run q.capacity q.sequence q.dequeue_pos (length xs)
      ≡ count_from (q.dequeue_pos + 1) (length xs)
  pub freed :
      read_run q.capacity q.sequence q.enqueue_pos (q.capacity - length xs)
      ≡ count_from q.enqueue_pos (q.capacity - length xs)

-- The first number of the sequences in a run.
pub run_head :
    (c : ℕ) (f : ℕ → ℕ) (p q n : ℕ) → 0 < n → read_run c f p n ≡ count_from q n → f (p % c) ≡ q
unfolding read_run count_from
run_head c f p q zero pos e = absurd (omega arith)
run_head c f p q (suc n) pos e = cc

run_tail :
    (c : ℕ) (f : ℕ → ℕ) (p q n : ℕ)
    → read_run c f p (suc n) ≡ count_from q (suc n)
    → read_run c f (p + 1) n ≡ count_from (q + 1) n
unfolding read_run count_from
run_tail c f p q n e = cc

-- A new queue numbers its cells.
fresh_run : (c p n : ℕ) → p + n ≤ c → read_run c (λ i. i) p n ≡ count_from p n
unfolding read_run count_from
fresh_run c p zero h = refl
fresh_run c p (suc n) h = ap₂ ◌∷◌ (mod-eq_of_lt (omega arith)) (fresh_run c (p + 1) n (omega arith))

-- The positions, one round of the ring included, are below 2⁶³.
abbrev pub InRange {ℓ} : {A : Type ℓ} → BoundedMpmcQueue A → Type 0
InRange q = q.dequeue_pos + 2 * q.capacity < 2 ^ 63

module _ {ℓ} {A : Type ℓ} where
  cells_split :
      (c : ℕ) (f : ℕ → Option A) (p : ℕ) (x : A) (xs : List A)
      → read_run c f p (suc (length xs)) ≡ some x ∷ map some xs
      → record {
        oldest : f (p % c) ≡ some x;
        younger : read_run c f (p + 1) (length xs) ≡ map some xs;
      }
  unfolding read_run
  cells_split c f p x xs e = record { oldest = cc; younger = cc }

  pub publish-Holds :
      (q : BoundedMpmcQueue A) (xs : List A) (v : A)
      → Holds q xs
      → InRange q
      → length xs < q.capacity
      → Holds (publish q q.enqueue_pos v) (xs ++ v ∷ [])
  unfolding publish
  publish-Holds q xs v h range room = record {
    some_room = h.some_room;
    enqueue_at = omega (arith, h.enqueue_at, longer);
    fits = omega (arith, longer);
    cells =
        rw (longer, h.enqueue_at)
          (read_run-grow c q.slot d (length xs) (some v) room
            ∙ ap (λ ys. ys ++ some v ∷ []) h.cells
            ∙ sym (map-append some xs (v ∷ [])));
    published =
        rw (longer, next, h.enqueue_at)
          (read_run-grow c q.sequence d (length xs) (d + length xs + 1) room
            ∙ ap₂ (λ ys n. ys ++ n ∷ []) h.published (omega arith)
            ∙ sym (count_from-suc (d + 1) (length xs)));
    freed =
        rw (longer, next)
          (read_run-behind c q.sequence q.enqueue_pos (c - suc (length xs)) _
              (omega (arith, h.some_room))
            ∙ run_tail c q.sequence q.enqueue_pos q.enqueue_pos (c - suc (length xs)) (
                subst (λ n. read_run c q.sequence q.enqueue_pos n ≡ count_from q.enqueue_pos n)
                  {y = suc (c - suc (length xs))} (omega arith) h.freed));
  }
    where
      c : ℕ
      c = q.capacity

      d : ℕ
      d = q.dequeue_pos

      longer : length (xs ++ v ∷ []) ≡ suc (length xs)
      longer = omega (arith, length-append xs (v ∷ []))

      next : wrapping_add q.enqueue_pos 1 ≡ q.enqueue_pos + 1
      next = omega (arith, h.enqueue_at)

  pub release-Holds :
      (q : BoundedMpmcQueue A) (x : A) (xs : List A)
      → Holds q (x ∷ xs)
      → InRange q
      → (q.slot (q.dequeue_pos % q.capacity) ≡ some x) × Holds (release q q.dequeue_pos) xs
  unfolding release
  release-Holds q x xs h range = (
    oldest,
    record {
      some_room = h.some_room;
      enqueue_at = omega (arith, h.enqueue_at);
      fits = omega (arith, h.fits);
      cells = rw next younger;
      published = rw next (
          read_run-behind c q.sequence d (length xs) _ (omega (arith, h.fits))
          ∙ run_tail c q.sequence d (d + 1) (length xs) h.published);
      freed =
          rw (one_more, last)
            (read_run-grow c q.sequence q.enqueue_pos m (wrapping_add d c)
                (omega (arith, h.some_room))
              ∙ ap₂ (λ ns n. ns ++ n ∷ []) h.freed (omega (arith, h.enqueue_at, h.fits))
              ∙ sym (count_from-suc q.enqueue_pos m));
    },
  )
    where
      c : ℕ
      c = q.capacity

      d : ℕ
      d = q.dequeue_pos

      m : ℕ
      m = c - suc (length xs)

      next : wrapping_add d 1 ≡ d + 1
      next = omega arith

      one_more : c - length xs ≡ suc m
      one_more = omega (arith, h.fits)

      last : d % c ≡ (q.enqueue_pos + m) % c
      last = sym (add-mod_right d c) ∙ ap (λ p. p % c) (omega (arith, h.enqueue_at, h.fits))

      open (cells_split c q.slot d x xs h.cells) use {oldest, younger}

  -- A new queue of capacity `n` is empty, with one cell at least.
  pub new-Holds : (n : ℕ) → Holds (new {A = A} n) []
  unfolding new read_run count_from
  new-Holds n = record {
    some_room = omega arith;
    enqueue_at = refl;
    fits = omega arith;
    cells = refl;
    published = refl;
    freed = fresh_run (max n 1) 0 (max n 1 - 0) (omega arith);
  }

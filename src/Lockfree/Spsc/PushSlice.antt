-- ===== src/Lockfree/Spsc/PushSlice.antt =====
-- `push_slice` of `SpscQueue`: the same effect as pushing the elements one at a time.
use mathlib.Core.Path.{subst₃}
use native.Mathlib.Nat.{add-zero, mod-eq_of_lt, mod-add-mod, mod-lt}
use dtact.Base.{
  ℕ, zero, suc, ◌+◌, ◌-◌, ◌%◌, ◌≤◌, ◌<◌, min, ◌≡◌, refl, sym, ap, subst, ◌∙◌, inl, inr, Option,
  some, List, [], ◌∷◌, ◌++◌, append-nil, append_assoc, arith, ◌==◌, ==_iff, Bool-cases, update,
  length, length-append, length-take, take-split, take, drop, wrapping_add, wrapping_add-mod,
}
use dtact.Lockfree.Ring.{wraps_to_start}
use dtact.Lockfree.Spsc.{SpscQueue, len, copy_in, push_runs, push_slice}
use dtact.Lockfree.Spsc.Fifo.{Holds, len-Holds, push-Holds}

module _ {ℓ} {A : Type ℓ} where
  -- The elements of `xs` written at consecutive positions of the ring, from `p` on.
  write_run : ℕ → (ℕ → Option A) → ℕ → List A → ℕ → Option A
  write_run c f p [] = f
  write_run c f p (x ∷ xs) = write_run c (update f (p % c) (some x)) (p + 1) xs

  -- A copy that stays below the end of the buffer writes consecutive positions of the ring.
  copy_in-write_run :
      (c : ℕ) (f : ℕ → Option A) (p i : ℕ) (xs : List A)
      → p % c ≡ i
      → i + length xs ≤ c
      → copy_in f i xs ≡ write_run c f p xs
  unfolding copy_in write_run
  copy_in-write_run c f p i [] e h = refl
  copy_in-write_run c f p i (x ∷ []) e h = rw e
  copy_in-write_run c f p i (x ∷ y ∷ ys) e h = rw e (
      copy_in-write_run c (update f i (some x)) (p + 1) (i + 1) (y ∷ ys)
        (sym (mod-add-mod p c 1) ∙ ap (λ k. (k + 1) % c) e ∙ mod-eq_of_lt (omega arith))
        (omega arith))

  write_run-mod :
      (c : ℕ) (f : ℕ → Option A) (p r : ℕ) (xs : List A)
      → p % c ≡ r % c
      → write_run c f p xs ≡ write_run c f r xs
  unfolding write_run
  write_run-mod c f p r [] e = refl
  write_run-mod c f p r (x ∷ xs) e = rw e (
      write_run-mod c (update f (r % c) (some x)) (p + 1) (r + 1) xs
        (sym (mod-add-mod p c 1) ∙ ap (λ k. (k + 1) % c) e ∙ mod-add-mod r c 1))

  write_run-append :
      (c : ℕ) (f : ℕ → Option A) (p : ℕ) (xs ys : List A)
      → write_run c f p (xs ++ ys) ≡ write_run c (write_run c f p xs) (p + length xs) ys
  unfolding write_run
  write_run-append c f p [] ys = rw add-zero
  write_run-append c f p (x ∷ xs) ys =
      write_run-append c (update f (p % c) (some x)) (p + 1) xs ys
      ∙ ap (λ k. write_run c (write_run c f p (x ∷ xs)) k ys) (omega arith)

  abbrev one_more : SpscQueue A → A → SpscQueue A
  one_more q y = record q {
    buffer = update q.buffer (q.tail % q.capacity) (some y);
    tail = wrapping_add q.tail 1;
  }

  -- Writing a list behind the run holds the longer list.
  write_run-Holds :
      (q : SpscQueue A) (xs ys : List A)
      → Holds q xs
      → length xs + length ys ≤ q.capacity
      → Holds
          (record q {
            buffer = write_run q.capacity q.buffer q.tail ys;
            tail = wrapping_add q.tail (length ys);
          })
          (xs ++ ys)
  unfolding write_run
  write_run-Holds q xs [] h room =
      rw append-nil (subst (λ t. Holds (record q { tail = t }) xs) (omega (arith, h.tail_at)) h)
  write_run-Holds q xs (y ∷ ys) h room =
      subst₃ (λ f t l. Holds (record q { buffer = f; tail = t }) l)
        (write_run-mod q.capacity (update q.buffer (q.tail % q.capacity) (some y))
          (wrapping_add q.tail 1) (q.tail + 1) ys (wrapping_add-mod q.capacity q.tail 1 h.divides))
        (omega arith) (append_assoc xs (y ∷ []) ys)
        (write_run-Holds (one_more q y) (xs ++ y ∷ []) ys (push-Holds q xs y h (omega arith))
          (omega (arith, length-append xs (y ∷ []))))

  -- The second copy, which starts over at the first cell, or copies nothing.
  second_run :
      (c t n first m : ℕ) (g : ℕ → Option A) (ys : List A)
      → 0 < c
      → n ≤ c
      → first ≡ min n (c - t % c)
      → n ≡ first + m
      → copy_in g 0 (take m ys) ≡ write_run c g (t + first) (take m ys)
  unfolding copy_in write_run
  second_run c t n first zero g ys pos fits e split = refl
  second_run c t n first (suc m) g ys pos fits e split =
      copy_in-write_run c g (t + first) 0 (take (suc m) ys)
        (wraps_to_start c t n first pos e (omega arith)) (omega (arith, length-take (suc m) ys))

  -- The two copies of `push_slice` write consecutive positions of the ring.
  push_runs-write_run :
      (q : SpscQueue A) (src : List A) (n first : ℕ)
      → 0 < q.capacity
      → n ≤ q.capacity
      → n ≤ length src
      → first ≡ min n (q.capacity - q.tail % q.capacity)
      → (push_runs q src n first).buffer ≡ write_run q.capacity q.buffer q.tail (take n src)
  unfolding push_runs
  push_runs-write_run q src n first pos fits have e =
      ap (λ g. copy_in g 0 rest)
        (copy_in-write_run c q.buffer q.tail (q.tail % c) (take first src) refl
          (omega (arith, length-take first src, mod-lt q.tail pos)))
      ∙ second_run c q.tail n first (n - first) _ (drop first src) pos fits e (omega arith)
      ∙ ap (λ k. write_run c (write_run c q.buffer q.tail (take first src)) k rest)
          (omega (arith, length-take first src))
      ∙ sym (write_run-append c q.buffer q.tail (take first src) rest)
      ∙ ap (write_run c q.buffer q.tail)
          (sym (take-split first (n - first) src) ∙ ap (λ k. take k src) (omega arith))
    where
      c : ℕ
      c = q.capacity

      rest : List A
      rest = take (n - first) (drop first src)

  push_runs-Holds :
      (q : SpscQueue A) (xs src : List A) (n : ℕ)
      → Holds q xs
      → n ≤ q.capacity - length xs
      → n ≤ length src
      → Holds (push_runs q src n (min n (q.capacity - q.tail % q.capacity))) (xs ++ take n src)
  unfolding push_runs
  push_runs-Holds q xs src n h fits have =
      subst₃ (λ f t l. Holds (record q { buffer = f; tail = t }) l)
        (sym (push_runs-write_run q src n _ h.some_room (omega arith) have refl))
        (ap (wrapping_add q.tail) taken) refl
        (write_run-Holds q xs (take n src) h (omega (arith, taken, h.fits)))
    where
      taken : length (take n src) ≡ n
      taken = omega (arith, length-take n src)

  -- On a ring that holds a list, `push_slice` takes as many elements as fit, and the ring then holds
  -- the list with those elements behind it.
  pub push_slice-Holds :
      (q : SpscQueue A) (xs src : List A)
      → Holds q xs
      → ((push_slice q src).1 ≡ min (q.capacity - length xs) (length src))
        × Holds (push_slice q src).0 (xs ++ take (min (q.capacity - length xs) (length src)) src)
  unfolding push_slice len
  push_slice-Holds q xs src h = rw (len-Holds q xs h) (elim (Bool-cases (n == 0)) [
    | inl none_fit ↦
        let e : n ≡ 0 = (==_iff n 0).0 none_fit in rw (none_fit, e) (refl, rw append-nil h)
    | inr fit ↦ rw fit (refl, push_runs-Holds q xs src n h (omega arith) (omega arith))
  ])
    where
      n : ℕ
      n = min (q.capacity - length xs) (length src)

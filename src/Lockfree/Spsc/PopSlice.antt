-- ===== src/Lockfree/Spsc/PopSlice.antt =====
-- `pop_slice` of `SpscQueue`: the same effect as popping the elements one at a time.
use mathlib.Core.Path.{ap₂}
use native.Mathlib.Nat.{mod-eq_of_lt, mod-add-mod, mod-lt, suc-add}
use dtact.Base.{
  ℕ, zero, suc, ◌+◌, ◌-◌, ◌%◌, ◌≤◌, ◌<◌, min, ◌≡◌, refl, sym, ap, subst, ◌∙◌, inl, inr, Option,
  some, List, [], ◌∷◌, ◌++◌, map, arith, ◌==◌, ==_iff, Bool-cases, length, take, drop, wrapping_add,
  wrapping_add-mod,
}
use dtact.Lockfree.Ring.{read_run, read_run-mod, wraps_to_start}
use dtact.Lockfree.Spsc.{SpscQueue, len, copy_out, pop_runs, pop_slice}
use dtact.Lockfree.Spsc.Fifo.{Holds, len-Holds, pop-Holds}

module _ {ℓ} {A : Type ℓ} where
  -- `copy_out` below the end of the buffer reads consecutive positions of the ring.
  copy_out-read_run :
      (c : ℕ) (f : ℕ → Option A) (p i n : ℕ)
      → p % c ≡ i
      → i + n ≤ c
      → copy_out f i n ≡ read_run c f p n
  unfolding copy_out read_run
  copy_out-read_run c f p i zero e h = refl
  copy_out-read_run c f p i (suc zero) e h = rw e
  copy_out-read_run c f p i (suc (suc n)) e h = rw e (
      ap (◌∷◌ (f i)) (
        copy_out-read_run c f (p + 1) (i + 1) (suc n)
          (sym (mod-add-mod p c 1) ∙ ap (λ k. (k + 1) % c) e ∙ mod-eq_of_lt (omega arith))
          (omega arith)))

  read_run-append :
      (c : ℕ) (f : ℕ → Option A) (p m n : ℕ)
      → read_run c f p m ++ read_run c f (p + m) n ≡ read_run c f p (m + n)
  unfolding read_run
  read_run-append c f p zero n = ap₂ (read_run c f) (omega arith) (omega arith)
  read_run-append c f p (suc m) n =
      ap (◌∷◌ (f (p % c))) (
        ap (λ k. read_run c f (p + 1) m ++ read_run c f k n) (omega arith)
        ∙ read_run-append c f (p + 1) m n)
      ∙ ap (read_run c f p) (sym (suc-add m n))

  second_out :
      (c h n first m : ℕ) (f : ℕ → Option A)
      → 0 < c
      → n ≤ c
      → first ≡ min n (c - h % c)
      → n ≡ first + m
      → copy_out f 0 m ≡ read_run c f (h + first) m
  unfolding copy_out read_run
  second_out c h n first zero f pos fits e split = refl
  second_out c h n first (suc m) f pos fits e split =
      copy_out-read_run c f (h + first) 0 (suc m) (wraps_to_start c h n first pos e (omega arith))
        (omega arith)

  -- The elements that `pop_slice` copies out are consecutive positions of the ring.
  pop_runs-read_run :
      (q : SpscQueue A) (n first : ℕ)
      → 0 < q.capacity
      → n ≤ q.capacity
      → first ≡ min n (q.capacity - q.head % q.capacity)
      → pop_runs q n first ≡ read_run q.capacity q.buffer q.head n
  unfolding pop_runs
  pop_runs-read_run q n first pos fits e =
      ap₂ ◌++◌
        (copy_out-read_run q.capacity q.buffer q.head (q.head % q.capacity) first refl
          (omega (arith, mod-lt q.head pos)))
        (second_out q.capacity q.head n first (n - first) q.buffer pos fits e (omega arith))
      ∙ read_run-append q.capacity q.buffer q.head first (n - first)
      ∙ ap (read_run q.capacity q.buffer q.head) (omega arith)

  abbrev advance : SpscQueue A → ℕ → SpscQueue A
  advance q n = record q { head = wrapping_add q.head n }

  -- The head moves past the `n` oldest elements.
  advance-Holds :
      (q : SpscQueue A) (xs : List A) (n : ℕ)
      → Holds q xs
      → n ≤ length xs
      → (read_run q.capacity q.buffer q.head n ≡ map some (take n xs))
        × Holds (advance q n) (drop n xs)
  unfolding read_run
  advance-Holds q xs zero h le =
      (refl, subst (λ k. Holds (record q { head = k }) xs) (omega (arith, h.head_word)) h)
  advance-Holds q [] (suc n) h le = absurd (omega arith)
  advance-Holds q (x ∷ xs) (suc n) h le =
      let (oldest, kept) = pop-Holds q x xs h in
      let (others, rest) = advance-Holds (advance q 1) xs n kept (omega arith) in
      (
        ap₂ ◌∷◌ oldest (
            read_run-mod q.capacity q.buffer (q.head + 1) (wrapping_add q.head 1) n
              (sym (wrapping_add-mod q.capacity q.head 1 h.divides))
            ∙ others),
        subst (λ k. Holds (record q { head = k }) (drop n xs)) (omega arith) rest,
      )

  -- On a ring that holds a list, `pop_slice` hands out the oldest elements, as many as `dst` has room
  -- for, in order, and the ring then holds the rest.
  pub pop_slice-Holds :
      (q : SpscQueue A) (xs : List A) (room : ℕ)
      → Holds q xs
      → ((pop_slice q room).1 ≡ map some (take (min (length xs) room) xs))
        × Holds (pop_slice q room).0 (drop (min (length xs) room) xs)
  unfolding pop_slice len
  pop_slice-Holds q xs room h = rw (len-Holds q xs h) (elim (Bool-cases (n == 0)) [
    | inl nothing ↦ let e : n ≡ 0 = (==_iff n 0).0 nothing in rw (nothing, e) (refl, h)
    | inr some_out ↦
        let (out, rest) = advance-Holds q xs n h (omega arith) in
        rw some_out (pop_runs-read_run q n _ h.some_room (omega (arith, h.fits)) refl ∙ out, rest)
  ])
    where
      n : ℕ
      n = min (length xs) room

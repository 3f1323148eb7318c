-- ===== src/Scheduler/Worker/Polling.antt =====
-- The polling order: each peer once, and never the worker itself.
use dtact.Base.{
  ℕ, zero, suc, ◌+◌, ◌-◌, ◌/◌, ◌%◌, ◌^◌, ◌≤◌, ◌<◌, ◌≡◌, ◌⊎◌, refl, ap, sym, ◌∙◌, Bool, true, false,
  not, ◌&&◌, List, [], ◌∷◌, ◌++◌, ltb, ltb→lt, ◌==◌, ==_iff, ==_of_ne, if◌then◌else◌, Bool-cases,
  inl, inr, keep, arith,
}
use native.Mathlib.Nat.{mod-lt, mod-eq_of_lt, mod-eq-sub-mod}
use dtact.Scheduler.Worker.{range, rotation, same_ccx, polling_order_for}

abbrev pub count : ℕ → List ℕ → ℕ
count a [] = 0
count a (b ∷ bs) = if a == b then suc (count a bs) else count a bs

abbrev pub one_if : Bool → ℕ
one_if true = 1
one_if false = 0

count-append : (a : ℕ) (xs ys : List ℕ) → count a (xs ++ ys) ≡ count a xs + count a ys
count-append a [] ys = omega arith
count-append a (x ∷ xs) ys = ground (arith, count-append a xs ys)

count-keep :
    (p : ℕ → Bool) (a : ℕ) (xs : List ℕ) → count a (keep p xs) ≡ (if p a then count a xs else 0)
count-keep p a [] = ground arith
count-keep p a (x ∷ xs) = elim (Bool-cases (a == x)) [
  | inl e ↦
      let same : p a ≡ p x = ap p ((==_iff a x).0 e) in ground (arith, same, e, count-keep p a xs)
  | inr e ↦ ground (arith, e, count-keep p a xs)
]

count-range : (a i n : ℕ) → count a (range i n) ≡ one_if (not (ltb a i) && ltb a (i + n))
unfolding range
count-range a i zero = ground arith
count-range a i (suc n) = ground (arith, count-range a (i + 1) n)

-- The place of a core in the rotation from another.
abbrev offset_of : ℕ → ℕ → ℕ → ℕ
offset_of core total j = (j + total - core) % total

wrapped : (x n : ℕ) → x < n + n → ((x < n) × (x % n ≡ x)) ⊎ ((n ≤ x) × (x % n ≡ x - n))
wrapped x n h = elim (Bool-cases (ltb x n)) [
  | inl e ↦ inl (ltb→lt x n e, mod-eq_of_lt (ltb→lt x n e))
  | inr e ↦
      let le : n ≤ x = ground arith in inr (le, mod-eq-sub-mod le ∙ mod-eq_of_lt (omega arith))
]

rotation-hit :
    (core total j k : ℕ)
    → core < total
    → k < total
    → j < total
    → (j == (core + k) % total) ≡ (offset_of core total j == k)
rotation-hit core total j k h1 h2 h3 =
    let place = wrapped (core + k) total (omega arith) in
    let back = wrapped (j + total - core) total (omega arith) in ground (arith, place, back)

count-rotation :
    (core total j i n : ℕ)
    → core < total
    → j < total
    → i + n ≤ total
    → count j (rotation core total (range i n)) ≡ count (offset_of core total j) (range i n)
unfolding rotation range
count-rotation core total j i zero h1 h2 h3 = refl
count-rotation core total j i (suc n) h1 h2 h3 =
    rw
      (
        rotation-hit core total j i h1 (omega arith) h2,
        count-rotation core total j (i + 1) n h1 h2 (omega arith),
      )
      refl

count-rotation_out :
    (core total j i n : ℕ) → 0 < total → total ≤ j → count j (rotation core total (range i n)) ≡ 0
unfolding rotation range
count-rotation_out core total j i zero h1 h2 = refl
count-rotation_out core total j i (suc n) h1 h2 =
    rw (==_of_ne j ((core + i) % total) (λ e. absurd (omega (arith, mod-lt (core + i) h1))))
      (count-rotation_out core total j (i + 1) n h1 h2)

count-round :
    (core total j : ℕ)
    → core < total
    → count j (rotation core total (range 0 total)) ≡ one_if (ltb j total)
count-round core total j h = elim (Bool-cases (ltb j total)) [
  | inl e ↦
      let lt : j < total = ltb→lt j total e in
      count-rotation core total j 0 total h lt (omega arith)
      ∙ count-range (offset_of core total j) 0 total
      ∙ ground (arith, e, mod-lt (j + total - core) {m = total} (omega arith))
  | inr e ↦ count-rotation_out core total j 0 total (omega arith) (ground arith) ∙ ap one_if (sym e)
]

-- A number that is kept by one of the two tests.
halves :
    (self near inside : Bool)
    → (if not self && near then one_if inside else 0)
        + (if not self && not near then one_if inside else 0)
      ≡ one_if (inside && not self)
halves true near true = refl
halves true near false = refl
halves false true true = refl
halves false true false = refl
halves false false true = refl
halves false false false = refl

-- The core of a worker is below the number of workers, and the CCX is the one that `DtaScheduler::new`
-- gives. Then each other worker is polled exactly once, and the worker itself and others never.
pub count-polling_order_for :
    (core total j : ℕ)
    → core < total
    → count j (polling_order_for core (core / 8 % 2 ^ 16) total)
      ≡ one_if (ltb j total && not (j == core))
unfolding polling_order_for
count-polling_order_for core total j h =
    count-append j near far
    ∙ (λ i.
        (count-keep near_test j (range 0 total)
            ∙ ap (λ n. if near_test j then n else 0) (count-range j 0 total ∙ starts))
          i
        + (count-keep far_test j (rotation core total (range 0 total))
              ∙ ap (λ n. if far_test j then n else 0) (count-round core total j h))
            i)
    ∙ halves (j == core) (same_ccx (core / 8 % 2 ^ 16) j) (ltb j total)
  where
    near_test : ℕ → Bool
    near_test i = not (i == core) && same_ccx (core / 8 % 2 ^ 16) i

    far_test : ℕ → Bool
    far_test i = not (i == core) && not (same_ccx (core / 8 % 2 ^ 16) i)

    near : List ℕ
    near = keep near_test (range 0 total)

    far : List ℕ
    far = keep far_test (rotation core total (range 0 total))

    starts : one_if (not (ltb j 0) && ltb j (0 + total)) ≡ one_if (ltb j total)
    starts = ground arith

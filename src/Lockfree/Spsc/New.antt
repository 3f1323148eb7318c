-- ===== src/Lockfree/Spsc/New.antt =====
-- `SpscQueue::new`: which capacities it accepts, and what the queue holds at the start.
use Prim.Native.Nat.{◌∣◌}
use native.Mathlib.Nat.{dvd_refl, dvd-mul_right_of_dvd, pow-le-pow_right, pow-suc}
use dtact.Base.{
  ◌-◌, ◌⊎◌, ℕ, zero, suc, ◌+◌, ◌^◌, ◌<◌, ◌≡◌, refl, sym, ap, subst, ◌∙◌, inl, inr, true, false,
  none, some, [], arith, ◌==◌, ==_iff, Bool-cases, word_mod,
}
use dtact.Lockfree.Ring.{read_run}
use dtact.Lockfree.Spsc.{SpscQueue, power_below, is_power_of_two, new}
use dtact.Lockfree.Spsc.Fifo.{Holds}

power_below_lem : (n k : ℕ) → power_below n k ≡ true → (j : ℕ) × (j < k) × (n ≡ 2 ^ j)
unfolding power_below
power_below_lem n zero h = cc
power_below_lem n (suc k) h = elim (Bool-cases (n == 2 ^ k)) [
  | inl e ↦ (k, omega arith, (==_iff _ _).0 e)
  | inr e ↦ let (j, lt, w) = power_below_lem n k (rw e at h) in (j, omega arith, w)
]

two_pow_dvd : (j d : ℕ) → 2 ^ j ∣ 2 ^ (j + d)
two_pow_dvd j zero = subst (λ k. 2 ^ j ∣ 2 ^ k) (omega arith) (dvd_refl (2 ^ j))
two_pow_dvd j (suc d) =
    subst (λ k. 2 ^ j ∣ k) (sym (pow-suc 2 (j + d)) ∙ ap (λ k. 2 ^ k) (omega arith))
      (dvd-mul_right_of_dvd (2 ^ j) (two_pow_dvd j d) 2)

-- A power of two up to 2⁶³ is positive, a word, and divides 2⁶⁴.
is_power_of_two_lem : (n : ℕ) → is_power_of_two n ≡ true → (0 < n) × (n < word_mod) × (n ∣ word_mod)
unfolding is_power_of_two
is_power_of_two_lem n h =
    let (j, lt, e) = power_below_lem n 64 h in
    rw e (
      pos j,
      small j lt,
      subst (λ k. 2 ^ j ∣ 2 ^ k) {y = 64} (omega arith) (two_pow_dvd j (64 - j)),
    )
  where
    pos : (j : ℕ) → 0 < 2 ^ j
    pos j = pow-le-pow_right {n = 2} (omega arith) {i = 0} {j = j} (omega arith)

    small : (j : ℕ) → j < 64 → 2 ^ j < word_mod
    small j lt =
        omega (arith, pow-le-pow_right {n = 2} (omega arith) {i = j} {j = 63} (omega arith))

-- `new` makes an empty queue of the capacity asked for, for every power of two, and panics on all
-- other capacities.
pub new-Holds {ℓ} :
    (A : Type ℓ) (capacity : ℕ)
    → ((is_power_of_two capacity ≡ false) × (new {A = A} capacity ≡ none))
      ⊎ ((q : SpscQueue A) × (new capacity ≡ some q) × (q.capacity ≡ capacity) × Holds q [])
unfolding new read_run
new-Holds A capacity = elim (Bool-cases (is_power_of_two capacity)) [
  | inr e ↦ inl (e, rw e)
  | inl e ↦
      let (pos, small, divides) = is_power_of_two_lem capacity e in
      inr (
        record { head = 0; tail = 0; buffer = λ _. none; capacity = capacity },
        rw e,
        refl,
        record {
          divides = divides;
          some_room = pos;
          small = small;
          head_word = omega arith;
          tail_at = refl;
          fits = omega arith;
          cells = refl;
        },
      )
]

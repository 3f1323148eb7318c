-- ===== src/Lockfree/Ring.antt =====
-- Runs of consecutive positions of a ring of cells: what a queue over a ring buffer holds.
use native.Mathlib.Nat.{add-zero, mod-add-mod, mod-lt, mod_self}
use mathlib.Core.Path.{ap₂}
use dtact.Base.{
  ℕ, zero, suc, ◌+◌, ◌%◌, ◌<◌, ◌≡◌, refl, sym, ap, ◌∙◌, ◌≢◌, List, [], ◌∷◌, ◌++◌, arith, update,
  update_ne, update_self, length, mod-ne, subst, ◌-◌, min,
}

module _ {ℓ} {A : Type ℓ} (c : ℕ) where
  -- The `n` cells from position `p` on, each at its position modulo the capacity `c`.
  unfoldable pub read_run : (ℕ → A) → ℕ → ℕ → List A
  read_run f p zero = []
  read_run f p (suc n) = f (p % c) ∷ read_run f (p + 1) n

  pub length-read_run : (f : ℕ → A) (p n : ℕ) → length (read_run f p n) ≡ n
  unfolding read_run
  length-read_run f p zero = refl
  length-read_run f p (suc n) = ap suc (length-read_run f (p + 1) n)

  -- A run depends on its first position only modulo the capacity.
  pub read_run-mod : (f : ℕ → A) (p q n : ℕ) → p % c ≡ q % c → read_run f p n ≡ read_run f q n
  unfolding read_run
  read_run-mod f p q zero e = refl
  read_run-mod f p q (suc n) e = rw (
    e,
    read_run-mod f (p + 1) (q + 1) n
        (sym (mod-add-mod p c 1) ∙ ap (λ k. (k + 1) % c) e ∙ mod-add-mod q c 1),
  )

  -- A run that grows by one gets the cell behind its end.
  pub read_run-suc :
      (f : ℕ → A) (p n : ℕ) → read_run f p (suc n) ≡ read_run f p n ++ f ((p + n) % c) ∷ []
  unfolding read_run
  read_run-suc f p zero = rw add-zero
  read_run-suc f p (suc n) =
      rw (read_run-suc f (p + 1) n)
        (ap (λ k. f (p % c) ∷ (read_run f (p + 1) n ++ f (k % c) ∷ [])) (omega arith))

  -- A write outside the run leaves it alone.
  pub read_run-update :
      (f : ℕ → A) (p n j : ℕ) (a : A)
      → ((i : ℕ) → i < n → (p + i) % c ≢ j)
      → read_run (update f j a) p n ≡ read_run f p n
  unfolding read_run
  read_run-update f p zero j a h = refl
  read_run-update f p (suc n) j a h =
      ap₂ ◌∷◌ (update_ne f j (p % c) a (λ e. h 0 (omega arith) (rw add-zero (sym e)))) (
        read_run-update f (p + 1) n j a
          (λ i lt e. h (suc i) (omega arith) (ap (λ k. k % c) (omega arith) ∙ e)))

  -- A write to the cell behind the run, where there is room for one more, extends the run.
  pub read_run-grow :
      (f : ℕ → A) (p n : ℕ) (a : A)
      → n < c
      → read_run (update f ((p + n) % c) a) p (suc n) ≡ read_run f p n ++ a ∷ []
  read_run-grow f p n a h =
      read_run-suc (update f ((p + n) % c) a) p n
      ∙ ap₂ (λ xs x. xs ++ x ∷ [])
          (read_run-update f p n ((p + n) % c) a (λ i lt e. apart i lt (sym e)))
          (update_self f ((p + n) % c) a)
    where
      apart : (i : ℕ) → i < n → (p + n) % c ≢ (p + i) % c
      apart i lt =
          subst (λ k. k % c ≢ (p + i) % c) (omega arith)
            (mod-ne c (p + i) (n - i) (omega arith) (omega arith))

  -- A write to the cell in front of a run that is shorter than the ring leaves the run alone.
  pub read_run-behind :
      (f : ℕ → A) (p n : ℕ) (a : A)
      → n < c
      → read_run (update f (p % c) a) (p + 1) n ≡ read_run f (p + 1) n
  read_run-behind f p n a h =
      read_run-update f (p + 1) n (p % c) a (λ i lt e.
        mod-ne c p (i + 1) (omega arith) (omega arith) (ap (λ k. k % c) (omega arith) ∙ e))

-- The end of the first run is the start of the buffer, if anything is left for a second run.
pub wraps_to_start :
    (c t n first : ℕ) → 0 < c → first ≡ min n (c - t % c) → first < n → (t + first) % c ≡ 0
wraps_to_start c t n first pos e lt =
    sym (mod-add-mod t c first) ∙ ap (λ k. k % c) (omega (arith, mod-lt t pos)) ∙ mod_self c

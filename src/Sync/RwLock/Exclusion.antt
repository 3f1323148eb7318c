-- ===== src/Sync/RwLock/Exclusion.antt =====
-- `RwLock`: the guards in existence, over every interleaving of single accesses to the lock.
use dtact.Base.{
  granted, ℕ, suc, ◌+◌, ◌^◌, ◌<◌, ◌≡◌, refl, ◌≢◌, ◌⊎◌, inl, inr, true, not, arith, ◌==◌,
  wrapping_add,
}
use dtact.Sync.WaitQueue.{WaitQueue}
use dtact.Sync.RwLock.{
  RwLock, write_locked, is_negative, new, set_state-cases, try_acquire_read, try_write, leave_read,
  leave_write, set_contents,
}

-- The state stands for `readers` and `writers` guards, of which there is one writer alone or none.
abbrev pub Counts : ℕ → ℕ → ℕ → Type 0
Counts readers writers state =
    ((writers ≡ 0) × (state ≡ readers) × (readers < 2 ^ 63))
    ⊎ ((writers ≡ 1) × (readers ≡ 0) × (state ≡ write_locked))

free_of_positive : (s : ℕ) → not (is_negative s) ≡ true → s ≢ write_locked
free_of_positive s h e = ground arith

zero_of_test : (s r : ℕ) → (s == 0) ≡ true → s ≡ r → r ≡ 0
zero_of_test s r h e = ground arith

write_locked-ne : write_locked ≢ 0
write_locked-ne e = absurd (omega arith)

zero-add : (n : ℕ) → 0 + n ≡ n
zero-add n = omega arith

module _ {ℓ} {T : Type ℓ} where
  -- `Held readers writers l`: some sequence of accesses reaches `l` with that many guards alive.
  -- There are never 2^63 read guards, which no memory holds.
  pub data Held : ℕ → ℕ → RwLock T → Type ℓ where
    created : (t : T) → Held 0 0 (new t)
    read_tried :
        (r w : ℕ) (l : RwLock T)
        → suc r < 2 ^ 63
        → Held r w l
        → Held (granted (try_acquire_read l).1 + r) w (try_acquire_read l).0
    write_tried :
        (r w : ℕ) (l : RwLock T) → Held r w l → Held r (granted (try_write l).1 + w) (try_write l).0
    read_left : (r w : ℕ) (l : RwLock T) → Held (suc r) w l → Held r w (leave_read l)
    write_left : (r w : ℕ) (l : RwLock T) → Held r (suc w) l → Held r w (leave_write l)
    wrote : (r w : ℕ) (l : RwLock T) (t : T) → Held r (suc w) l → Held r (suc w) (set_contents l t)
    queued :
        (r w : ℕ) (l : RwLock T) (q : WaitQueue) → Held r w l → Held r w (record l { wait = q })

  read-Counts :
      (r w : ℕ) (l : RwLock T)
      → suc r < 2 ^ 63
      → Counts r w l.state
      → Counts (granted (try_acquire_read l).1 + r) w (try_acquire_read l).0.state
  unfolding try_acquire_read
  read-Counts r w l b c =
      elim (set_state-cases (not (is_negative l.state)) (wrapping_add l.state 1) l) [
        | inl (on, s, g) ↦
            rw (s, g)
              (elim c [
                | inl (x, y, z) ↦ inl (x, ground arith, omega arith)
                | inr (x, y, z) ↦ absurd (free_of_positive l.state on z)
              ])
        | inr (off, s, g) ↦ rw (s, g) (rw (zero-add r) c)
      ]

  write-Counts :
      (r w : ℕ) (l : RwLock T)
      → Counts r w l.state
      → Counts r (granted (try_write l).1 + w) (try_write l).0.state
  unfolding try_write
  write-Counts r w l c = elim (set_state-cases (l.state == 0) write_locked l) [
    | inl (on, s, g) ↦
        rw (s, g)
          (elim c [
            | inl (x, y, z) ↦ inr (omega arith, zero_of_test l.state r on y, refl)
            | inr (x, y, z) ↦ absurd (write_locked-ne (zero_of_test l.state write_locked on z))
          ])
    | inr (off, s, g) ↦ rw (s, g) (rw (zero-add w) c)
  ]

  read_left-Counts :
      (r w : ℕ) (l : RwLock T) → Counts (suc r) w l.state → Counts r w (leave_read l).state
  unfolding leave_read
  read_left-Counts r w l (inl (x, y, z)) = inl (x, ground arith, omega arith)
  read_left-Counts r w l (inr (x, y, z)) = absurd (omega arith)

  write_left-Counts :
      (r w : ℕ) (l : RwLock T) → Counts r (suc w) l.state → Counts r w (leave_write l).state
  unfolding leave_write
  write_left-Counts r w l (inl (x, y, z)) = absurd (omega arith)
  write_left-Counts r w l (inr (x, y, z)) = inl (omega arith, omega arith, omega arith)

  -- Over every interleaving of accesses with fewer than 2^63 read guards, either no write guard
  -- is alive and the state is the number of read guards, or one write guard is alive, no read
  -- guard is, and the state is `WRITE_LOCKED`.
  pub Held-Counts : (r w : ℕ) (l : RwLock T) → Held r w l → Counts r w l.state
  unfolding new set_contents
  Held-Counts _ _ _ (created t) = inl (refl, refl, omega arith)
  Held-Counts _ _ _ (read_tried r w l b h) = read-Counts r w l b (Held-Counts r w l h)
  Held-Counts _ _ _ (write_tried r w l h) = write-Counts r w l (Held-Counts r w l h)
  Held-Counts _ _ _ (read_left r w l h) = read_left-Counts r w l (Held-Counts (suc r) w l h)
  Held-Counts _ _ _ (write_left r w l h) = write_left-Counts r w l (Held-Counts r (suc w) l h)
  Held-Counts _ _ _ (wrote r w l t h) = Held-Counts r (suc w) l h
  Held-Counts _ _ _ (queued r w l q h) = Held-Counts r w l h

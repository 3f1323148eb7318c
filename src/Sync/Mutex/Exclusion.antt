-- ===== src/Sync/Mutex/Exclusion.antt =====
-- `Mutex`: the guards in existence, over every interleaving of single accesses to the mutex.
use dtact.Base.{granted, ℕ, suc, ◌+◌, ◌≡◌, refl, Bool, true, false, arith}
use dtact.Sync.WaitQueue
use dtact.Sync.WaitQueue.{WaitQueue}
use dtact.Sync.Mutex.{Mutex, new, lock_by, try_lock, unlock, wake, set_contents}

abbrev pub permitted : Bool → ℕ
permitted true = 1
permitted false = 0

last_guard : (n : ℕ) (b : Bool) → suc n ≡ permitted b → n ≡ 0
last_guard n true e = omega arith
last_guard n false e = absurd (omega arith)

module _ {ℓ} {T : Type ℓ} where
  -- `Held n m`: some sequence of accesses reaches `m`, with `n` guards alive. Only a guard can be
  -- unlocked, and only a guard writes the contents.
  pub data Held : ℕ → Mutex T → Type ℓ where
    created : (t : T) → Held 0 (new t)
    tried : (n : ℕ) (m : Mutex T) → Held n m → Held (granted (try_lock m).1 + n) (try_lock m).0
    registered :
        (n : ℕ) (m : Mutex T) (w : ℕ)
        → Held n m
        → Held n (record m { wait = (WaitQueue.register m.wait w).0 })
    cancelled :
        (n : ℕ) (m : Mutex T) (token : ℕ)
        → Held n m
        → Held n (record m { wait = WaitQueue.cancel m.wait token })
    wrote : (n : ℕ) (m : Mutex T) (t : T) → Held (suc n) m → Held (suc n) (set_contents m t)
    unlocked : (n : ℕ) (m : Mutex T) → Held (suc n) m → Held n (unlock m)
    woke : (n : ℕ) (m : Mutex T) → Held n m → Held n (wake m)

  try_lock-permitted :
      (n : ℕ) (m : Mutex T)
      → n ≡ permitted m.locked
      → granted (try_lock m).1 + n ≡ permitted (try_lock m).0.locked
  unfolding try_lock
  try_lock-permitted n m e = by_flag m.locked refl e
    where
      by_flag :
          (b : Bool)
          → m.locked ≡ b
          → n ≡ permitted b
          → granted (lock_by b m).1 + n ≡ permitted (lock_by b m).0.locked
      by_flag true f e = rw f (omega arith)
      by_flag false f e = rw e refl

  -- Over every interleaving of accesses, a locked mutex has exactly one guard and an unlocked one
  -- has none.
  pub Held-permitted : (n : ℕ) (m : Mutex T) → Held n m → n ≡ permitted m.locked
  unfolding new unlock wake set_contents
  Held-permitted _ _ (created t) = refl
  Held-permitted _ _ (tried n m h) = try_lock-permitted n m (Held-permitted n m h)
  Held-permitted _ _ (registered n m w h) = Held-permitted n m h
  Held-permitted _ _ (cancelled n m t h) = Held-permitted n m h
  Held-permitted _ _ (wrote n m t h) = Held-permitted (suc n) m h
  Held-permitted _ _ (unlocked n m h) = last_guard n m.locked (Held-permitted (suc n) m h)
  Held-permitted _ _ (woke n m h) = Held-permitted n m h

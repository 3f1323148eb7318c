-- ===== src/Sync/Protocol.antt =====
-- The shape that every waiting future of dtact-util/src/sync has: try, register with the wait queue,
-- try again, and take the registration back if the second attempt succeeds. What other tasks do in
-- between is given by two functions, one for each place where they can interfere.
pub mod Polls
use dtact.Base.{
  ℕ, ◌≡◌, refl, sym, ap, subst, ◌∙◌, ◌≢◌, inl, inr, Bool, true, false, Option, none, some, List, [],
  ◌∷◌, arith, if◌then◌else◌,
}
use dtact.Sync.Poll.{Poll, ready, pending}
use dtact.Sync.WaitQueue.{WaitQueue, register, cancel}
use dtact.Sync.WaitQueue.Waiting.{IsOrdered}
use dtact.Sync.WaitQueue.Parked.{Parked, register-Parked, register-IsOrdered, cancel-IsOrdered}
use dtact.Sync.WaitQueue.Others.{register-Parked_other, withdraw-Parked_other}

-- A state `S` with a wait queue, and an attempt that yields an `A` or nothing.
pub record Waits {ℓ κ} (S : Type ℓ) (A : Type κ) : Type (ℓ ⊔ κ) where
  pub wait_of : S → WaitQueue
  pub with_wait : S → WaitQueue → S
  pub attempt : S → S × Option A
  pub wait_of-with_wait : (s : S) (q : WaitQueue) → wait_of (with_wait s q) ≡ q
  pub wait_of-attempt : (s : S) → wait_of (attempt s).0 ≡ wait_of s

module _ {ℓ κ} {S : Type ℓ} {A : Type κ} (p : Waits S A) where
  open p use {wait_of, with_wait, attempt, wait_of-with_wait, wait_of-attempt}

  -- The second attempt's answer: withdraw the registration `token` on success.
  abbrev pub settle : ℕ → S × Option A → S × Poll A
  settle token (s, some a) = (with_wait s (cancel (wait_of s) token), ready a)
  settle token (s, none) = (s, pending)

  -- After a first attempt that failed.
  abbrev pub park : (S → S) → (S → S) → S → ℕ → S × Poll A
  park before between s w =
      let s1 = before s in
      let (q, token) = register (wait_of s1) w in settle token (attempt (between (with_wait s1 q)))

  abbrev pub after_first : (S → S) → (S → S) → ℕ → S × Option A → S × Poll A
  after_first before between w (s, some a) = (s, ready a)
  after_first before between w (s, none) = park before between s w

  abbrev pub first : (S → Bool) → S → S × Option A
  first fast s = if fast s then attempt s else (s, none)

  -- `fast` says whether the first attempt is made at all.
  abbrev pub poll_with : (S → Bool) → (S → S) → (S → S) → S → ℕ → S × Poll A
  poll_with fast before between s w = after_first before between w (first fast s)

  -- What others do keeps the queue ordered and every parked task parked.
  pub record Keeps (f : S → S) : Type ℓ where
    pub ordered : (s : S) → IsOrdered (wait_of s) → IsOrdered (wait_of (f s))
    pub parked :
        (s : S) (t w : ℕ)
        → IsOrdered (wait_of s)
        → Parked t w (wait_of s)
        → Parked t w (wait_of (f s))

  pub Keeps-id : Keeps (λ s. s)
  Keeps-id = record { ordered = λ s o. o; parked = λ s t w o k. k }

  pub Keeps-comp : (f g : S → S) → Keeps f → Keeps g → Keeps (λ s. g (f s))
  Keeps-comp f g k l = record {
    ordered = λ s o. l.ordered (f s) (k.ordered s o);
    parked = λ s t w o h. l.parked (f s) t w (k.ordered s o) (k.parked s t w o h);
  }

  -- What a task relies on when it is told to wait: it is parked, and the last attempt, made after
  -- it was registered, failed.
  pub record Sleeps (before between : S → S) (s : S) (w : ℕ) (r : S) : Type (ℓ ⊔ κ) where
    pub failed :
        (attempt (between (with_wait (before s) (register (wait_of (before s)) w).0))).1 ≡ none
    pub last : r ≡ (attempt (between (with_wait (before s) (register (wait_of (before s)) w).0))).0
    pub parked : Parked (wait_of (before s)).fresh w (wait_of r)

  settle-pending :
      (token : ℕ) (x : S × Option A)
      → (settle token x).1 ≡ pending
      → (x.1 ≡ none) × ((settle token x).0 ≡ x.0)
  settle-pending token (s, some a) e = cc
  settle-pending token (s, none) e = (refl, refl)

  pub park-Sleeps :
      (before between : S → S) (s : S) (w : ℕ)
      → Keeps before
      → Keeps between
      → IsOrdered (wait_of s)
      → (park before between s w).1 ≡ pending
      → Sleeps before between s w (park before between s w).0
  park-Sleeps before between s w kb kt o e =
      let (failed, last) = settle-pending _ (attempt (between s2)) e in
      record {
        failed = failed;
        last = last;
        parked =
            rw (last, wait_of-attempt (between s2))
              (kt.parked s2 _ w
                (rw (wait_of-with_wait (before s) registered)
                  (register-IsOrdered (wait_of (before s)) w ordered))
                (rw (wait_of-with_wait (before s) registered)
                  (register-Parked (wait_of (before s)) w ordered)));
      }
    where
      registered : WaitQueue
      registered = (register (wait_of (before s)) w).0

      s2 : S
      s2 = with_wait (before s) registered

      ordered : IsOrdered (wait_of (before s))
      ordered = kb.ordered s o

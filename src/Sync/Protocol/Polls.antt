-- ===== src/Sync/Protocol/Polls.antt =====
-- A whole poll of another task, as an event between two steps of a poll: it keeps parked tasks
-- parked.
use dtact.Base.{ℕ, ◌≡◌, refl, ap, ◌∙◌, ◌⊎◌, inl, inr, Bool, Option, none, some, Bool-cases}
use dtact.Sync.Poll.{Poll, ready, pending, Poll-cases}
use dtact.Sync.WaitQueue.{register, cancel}
use dtact.Sync.WaitQueue.Waiting.{IsOrdered}
use dtact.Sync.WaitQueue.Parked.{Parked, register-IsOrdered, cancel-IsOrdered}
use dtact.Sync.WaitQueue.Others.{register-Parked_other, withdraw-Parked_other}
use dtact.Sync.Protocol.{Waits, settle, park, after_first, first, poll_with, Keeps, park-Sleeps}

module _ {ℓ κ} {S : Type ℓ} {A : Type κ} (p : Waits S A) where
  open p use {wait_of, with_wait, attempt, wait_of-with_wait, wait_of-attempt}

  -- The wait queue that a parked or a withdrawn registration leaves.
  settle-wait :
      (token : ℕ) (x : S × Option A)
      → (wait_of (settle p token x).0 ≡ cancel (wait_of x.0) token)
        ⊎ (wait_of (settle p token x).0 ≡ wait_of x.0)
  settle-wait token (s, some a) = inl (wait_of-with_wait s (cancel (wait_of s) token))
  settle-wait token (s, none) = inr refl

  park-wait :
      (s : S) (w : ℕ)
      → (wait_of (park p (λ k. k) (λ k. k) s w).0
          ≡ cancel (register (wait_of s) w).0 (wait_of s).fresh)
        ⊎ (wait_of (park p (λ k. k) (λ k. k) s w).0 ≡ (register (wait_of s) w).0)
  unfolding register
  park-wait s w = elim (settle-wait (wait_of s).fresh (attempt s2)) [
    | inl e ↦ inl (e ∙ ap (λ q. cancel q (wait_of s).fresh) same)
    | inr e ↦ inr (e ∙ same)
  ]
    where
      s2 : S
      s2 = with_wait s (register (wait_of s) w).0

      same : wait_of (attempt s2).0 ≡ (register (wait_of s) w).0
      same = wait_of-attempt s2 ∙ wait_of-with_wait s (register (wait_of s) w).0

  after_first-wait :
      (x : S × Option A) (w : ℕ)
      → (wait_of (after_first p (λ k. k) (λ k. k) w x).0 ≡ wait_of x.0)
        ⊎ ((wait_of (after_first p (λ k. k) (λ k. k) w x).0
              ≡ cancel (register (wait_of x.0) w).0 (wait_of x.0).fresh)
            ⊎ (wait_of (after_first p (λ k. k) (λ k. k) w x).0 ≡ (register (wait_of x.0) w).0))
  after_first-wait (s, some a) w = inl refl
  after_first-wait (s, none) w = inr (park-wait s w)

  first-wait : (fast : S → Bool) (s : S) → wait_of (first p fast s).0 ≡ wait_of s
  first-wait fast s = elim (Bool-cases (fast s)) [ inl e ↦ rw e (wait_of-attempt s) | inr e ↦ rw e ]

  -- What a poll does to the queue: nothing, or it leaves a registration, withdrawn or not.
  poll-wait :
      (fast : S → Bool) (s : S) (w : ℕ)
      → let r = wait_of (poll_with p fast (λ k. k) (λ k. k) s w).0 in
        (r ≡ wait_of s)
        ⊎ ((r ≡ cancel (register (wait_of s) w).0 (wait_of s).fresh)
            ⊎ (r ≡ (register (wait_of s) w).0))
  poll-wait fast s w =
      let x = first p fast s in
      let e = first-wait fast s in
      elim (after_first-wait x w) [
        | inl k ↦ inl (k ∙ e)
        | inr (inl k) ↦ inr (inl (k ∙ ap (λ q. cancel (register q w).0 q.fresh) e))
        | inr (inr k) ↦ inr (inr (k ∙ ap (λ q. (register q w).0) e))
      ]

  pub poll-Keeps :
      (fast : S → Bool) (w : ℕ) → Keeps p (λ s. (poll_with p fast (λ k. k) (λ k. k) s w).0)
  poll-Keeps fast w = record {
    ordered = λ s o. elim (poll-wait fast s w) [
      | inl e ↦ rw e o
      | inr (inl e) ↦ rw e (cancel-IsOrdered _ _ (register-IsOrdered (wait_of s) w o))
      | inr (inr e) ↦ rw e (register-IsOrdered (wait_of s) w o)
    ];
    parked = λ s t w' o h. elim (poll-wait fast s w) [
      | inl e ↦ rw e h
      | inr (inl e) ↦ rw e (withdraw-Parked_other t w' w (wait_of s) o h)
      | inr (inr e) ↦ rw e (register-Parked_other t w' w (wait_of s) o h)
    ];
  }

  pub attempt-Keeps : Keeps p (λ s. (attempt s).0)
  attempt-Keeps = record {
    ordered = λ s o. rw (wait_of-attempt s) o;
    parked = λ s t w o h. rw (wait_of-attempt s) h;
  }

  abbrev pub Answer : S × Poll A → ℕ → Type (ℓ ⊔ κ)
  Answer r w =
      ((a : A) × (r.1 ≡ ready a))
      ⊎ ((r.1 ≡ pending)
          × ((s : S) × ((r.0 ≡ (attempt s).0) × ((attempt s).1 ≡ none)))
          × ((t : ℕ) × Parked t w (wait_of r.0)))

  after_first-Parked :
      (before between : S → S) (w : ℕ) (x : S × Option A)
      → Keeps p before
      → Keeps p between
      → IsOrdered (wait_of x.0)
      → Answer (after_first p before between w x) w
  after_first-Parked before between w (s, some a) kb kt o = inl (a, refl)
  after_first-Parked before between w (s, none) kb kt o =
      elim (Poll-cases (park p before between s w).1) [
        | inl r ↦ inl r
        | inr e ↦
            let k = park-Sleeps p before between s w kb kt o e in
            inr (e, (_, (k.last, k.failed)), (_, k.parked))
      ]

  -- Whatever the other tasks do, a poll answers, or its task is parked and its last attempt failed.
  pub poll_with-Parked :
      (fast : S → Bool) (before between : S → S) (s : S) (w : ℕ)
      → Keeps p before
      → Keeps p between
      → IsOrdered (wait_of s)
      → Answer (poll_with p fast before between s w) w
  poll_with-Parked fast before between s w kb kt o =
      after_first-Parked before between w (first p fast s) kb kt (rw (first-wait fast s) o)

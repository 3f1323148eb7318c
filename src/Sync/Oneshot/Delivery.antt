-- ===== src/Sync/Oneshot/Delivery.antt =====
-- The one-value channel: the value arrives however the two sides interleave, and a pending receiver
-- is not forgotten.
use dtact.Base.{ℕ, ◌≡◌, refl, ◌≢◌, ◌⊎◌, inl, inr, Bool, true, false, none, List, [], ◌∷◌, ◌++◌, In}
use dtact.Sync.Poll.{ready, pending}
use dtact.Sync.WaitQueue.Waiting.{IsOrdered}
use dtact.Sync.WaitQueue.Parked.{Parked}
use dtact.Sync.WaitQueue.Others.{wake_all-Parked, wake_all-IsOrdered, wake_all-reached}
use dtact.Sync.Protocol.{Keeps, Keeps-id, Keeps-comp}
use dtact.Sync.Protocol.Polls.{poll_with-Parked}
use dtact.Sync.Oneshot.{
  Inner, Received, Access, writes, publishes, wakes, closes, access, run, look_again, look_dropped,
  look_sent, try_take, take_now, takes, poll,
}

module _ {ℓ} {T : Type ℓ} where
  access-Keeps : (a : Access T) → Keeps takes (λ c. access c a)
  unfolding access
  access-Keeps (writes t) = record { ordered = λ s o. o; parked = λ s t w o h. h }
  access-Keeps publishes = record { ordered = λ s o. o; parked = λ s t w o h. h }
  access-Keeps wakes = record {
    ordered = λ s. wake_all-IsOrdered s.wait;
    parked = λ s t w. wake_all-Parked t w s.wait;
  }
  access-Keeps closes = record { ordered = λ s o. o; parked = λ s t w o h. h }

  run-Keeps : (l : List (Access T)) → Keeps takes (run l)
  unfolding run
  run-Keeps [] = Keeps-id takes
  run-Keeps (a ∷ l) = Keeps-comp takes (λ c. access c a) (run l) (access-Keeps a) (run-Keeps l)

  open_of_failure :
      (c : Inner T)
      → (take_now c).1 ≡ none
      → ((take_now c).0.sent ≡ false) × ((take_now c).0.sender_dropped ≡ false)
  unfolding try_take
  open_of_failure c = by_sent c.sent refl
    where
      by_again : (b : Bool) → (look_again b c).1 ≢ none
      by_again true e = cc
      by_again false e = cc

      by_dropped :
          (b : Bool)
          → c.sent ≡ false
          → c.sender_dropped ≡ b
          → (look_dropped b (λ k. k) c).1 ≡ none
          → ((look_dropped b (λ k. k) c).0.sent ≡ false)
            × ((look_dropped b (λ k. k) c).0.sender_dropped ≡ false)
      by_dropped true s d e = absurd (by_again c.sent e)
      by_dropped false s d e = (s, d)

      by_sent :
          (b : Bool)
          → c.sent ≡ b
          → (look_sent b (λ k. k) (λ k. k) c).1 ≡ none
          → ((look_sent b (λ k. k) (λ k. k) c).0.sent ≡ false)
            × ((look_sent b (λ k. k) (λ k. k) c).0.sender_dropped ≡ false)
      by_sent true s e = cc
      by_sent false s e = by_dropped c.sender_dropped s refl e

  -- Whatever accesses of the sender come before and between the steps of a poll, on a wait queue
  -- in order: the receiver gets an answer, or it is told to wait, the sender has neither sent nor
  -- been dropped, and the task is parked (in the queue and valid, or woken).
  poll-Parked :
      (before between : List (Access T)) (c : Inner T) (w : ℕ)
      → IsOrdered c.wait
      → let r = poll (run before) (run between) c w in
        ((a : Received T) × (r.1 ≡ ready a))
        ⊎ ((r.1 ≡ pending)
            × (r.0.sent ≡ false)
            × (r.0.sender_dropped ≡ false)
            × ((t : ℕ) × Parked t w r.0.wait))
  unfolding poll
  poll-Parked before between c w o =
      elim (poll_with-Parked takes (λ c. true) (run before) (run between) c w (run-Keeps before)
        (run-Keeps between) o) [
          | inl r ↦ inl r
          | inr (e, (s, (last, failed)), parked) ↦
              let (a, b) = open_of_failure s failed in inr (e, rw last a, rw last b, parked)
        ]

  -- On a wait queue in order, whatever accesses come after the sender's `Drop` has begun and
  -- before its wake-up, the drop wakes a task that was parked.
  pub drop_sender-reached :
      (l : List (Access T)) (c : Inner T) (t w : ℕ)
      → IsOrdered c.wait
      → Parked t w c.wait
      → In t (run (closes ∷ l ++ wakes ∷ []) c).wait.woken
  unfolding run access
  drop_sender-reached l c t w o h = woken_at_end l (access c closes) o h
    where
      woken_at_end :
          (l : List (Access T)) (c : Inner T)
          → IsOrdered c.wait
          → Parked t w c.wait
          → In t (run (l ++ wakes ∷ []) c).wait.woken
      woken_at_end [] c o h = wake_all-reached t w c.wait o h
      woken_at_end (a ∷ l) c o h =
          let k = access-Keeps a in woken_at_end l (access c a) (k.ordered c o) (k.parked c t w o h)

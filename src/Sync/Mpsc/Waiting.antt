-- ===== src/Sync/Mpsc/Waiting.antt =====
-- The channels: a pending sender or receiver is not forgotten. The future of the receiver waits in
-- `recv_wait`, those of the senders in `send_wait`.
use dtact.Base.{
  ℕ, ◌≡◌, refl, ◌∙◌, ◌⊎◌, inl, inr, Bool, true, false, not, ◌||◌, Bool-cases, Option, none, some,
  List, [], ◌∷◌, ◌==◌, PushResult, ok, err,
}
use dtact.Sync.Poll.{Poll}
use dtact.Sync.WaitQueue
use dtact.Sync.WaitQueue.{WaitQueue}
use dtact.Sync.WaitQueue.Waiting.{IsOrdered}
use dtact.Sync.WaitQueue.Parked.{Parked, wake_one-Parked, wake_one-IsOrdered}
use dtact.Sync.WaitQueue.Others.{wake_all-Parked, wake_all-IsOrdered}
use dtact.Sync.Protocol.{Waits, poll_with, Keeps, Keeps-id, Keeps-comp}
use dtact.Sync.Mpsc.{
  Queue, Shared, try_push, wake_parked, pushed, send_by, attempt_send, pop_queue, popped, try_pop,
  or_closed, attempt_recv, clone_sender, drop_sender,
}

wake_parked-IsOrdered : (q : WaitQueue) → IsOrdered q → IsOrdered (wake_parked q)
wake_parked-IsOrdered q o = elim (Bool-cases (WaitQueue.has_waiters q)) [
  | inl e ↦ rw e (wake_one-IsOrdered q o)
  | inr e ↦ rw e o
]

wake_parked-Parked :
    (t w : ℕ) (q : WaitQueue) → IsOrdered q → Parked t w q → Parked t w (wake_parked q)
wake_parked-Parked t w q o h = elim (Bool-cases (WaitQueue.has_waiters q)) [
  | inl e ↦ rw e (wake_one-Parked t w q o h)
  | inr e ↦ rw e h
]

module _ {ℓ} {T : Type ℓ} where
  -- What an attempt does to the two wait queues: nothing, or a wake-up in the other side's.
  pushed-wait :
      (c : Shared T) (p : Queue T × PushResult T)
      → ((pushed c p).0.send_wait ≡ c.send_wait)
        × (((pushed c p).0.recv_wait ≡ c.recv_wait)
            ⊎ ((pushed c p).0.recv_wait ≡ wake_parked c.recv_wait))
  pushed-wait c (q, ok) = (refl, inr refl)
  pushed-wait c (q, err v) = (refl, inl refl)

  pub attempt_send-wait :
      (v : T) (c : Shared T)
      → ((attempt_send v c).0.send_wait ≡ c.send_wait)
        × (((attempt_send v c).0.recv_wait ≡ c.recv_wait)
            ⊎ ((attempt_send v c).0.recv_wait ≡ wake_parked c.recv_wait))
  unfolding attempt_send
  attempt_send-wait v c = by_flag c.receiver_dropped
    where
      by_flag :
          (b : Bool)
          → ((send_by b v c).0.send_wait ≡ c.send_wait)
            × (((send_by b v c).0.recv_wait ≡ c.recv_wait)
                ⊎ ((send_by b v c).0.recv_wait ≡ wake_parked c.recv_wait))
      by_flag true = (refl, inl refl)
      by_flag false = pushed-wait c (try_push c.queue v)

  popped-wait :
      (c : Shared T) (p : Queue T × (List T × Option T)) → (popped c p).0.recv_wait ≡ c.recv_wait
  popped-wait c (q, (local, none)) = refl
  popped-wait c (q, (local, some v)) = refl

  try_pop-wait : (c : Shared T) → (try_pop c).0.recv_wait ≡ c.recv_wait
  unfolding try_pop
  try_pop-wait c = popped-wait c (pop_queue c.queue c.local)

  or_closed-wait : (p : Shared T × Option T) → (or_closed p).0.recv_wait ≡ p.0.recv_wait
  or_closed-wait (d, some v) = refl
  or_closed-wait (d, none) = elim (Bool-cases (d.sender_count == 0)) [
    | inl e ↦ rw e (try_pop-wait d)
    | inr e ↦ rw e refl
  ]

  pub attempt_recv-wait : (c : Shared T) → (attempt_recv c).0.recv_wait ≡ c.recv_wait
  unfolding attempt_recv
  attempt_recv-wait c = or_closed-wait (try_pop c) ∙ try_pop-wait c

  abbrev pub sends : T → Waits (Shared T) (PushResult T)
  sends v = record {
    wait_of = λ c. c.send_wait;
    with_wait = λ c q. record c { send_wait = q };
    attempt = attempt_send v;
    wait_of-with_wait = λ c q. refl;
    wait_of-attempt = λ c. (attempt_send-wait v c).0;
  }

  abbrev pub receives : Waits (Shared T) (Option T)
  receives = record {
    wait_of = λ c. c.recv_wait;
    with_wait = λ c q. record c { recv_wait = q };
    attempt = attempt_recv;
    wait_of-with_wait = λ c q. refl;
    wait_of-attempt = attempt_recv-wait;
  }

  -- One poll of `send` and of `recv`, with what others do before and after the registration. The
  -- first attempt of `poll_send` is made in full unless the channel is open and others wait.
  unfoldable pub poll_send :
      T
      → (Shared T → Shared T)
      → (Shared T → Shared T)
      → Shared T
      → ℕ
      → Shared T × Poll (PushResult T)
  poll_send v =
      poll_with (sends v) (λ c. c.receiver_dropped || not (WaitQueue.has_waiters c.send_wait))

  unfoldable pub poll_recv :
      (Shared T → Shared T) → (Shared T → Shared T) → Shared T → ℕ → Shared T × Poll (Option T)
  poll_recv = poll_with receives (λ c. true)

-- What the senders can do between two accesses of the receiver's poll.
pub data Access {ℓ} (T : Type ℓ) : Type ℓ where
  attempts : T → Access T
  clones : Access T
  drops : Access T
  requeues : WaitQueue → Access T

module _ {ℓ} {T : Type ℓ} where
  unfoldable pub access : Shared T → Access T → Shared T
  unfolding clone_sender drop_sender attempt_send
  access c (attempts v) = (attempt_send v c).0
  access c clones = clone_sender c
  access c drops = drop_sender c
  access c (requeues q) = record c { send_wait = q }

  unfoldable pub run : List (Access T) → Shared T → Shared T
  run [] c = c
  run (a ∷ rest) c = run rest (access c a)

  -- The senders' accesses keep the receiver parked.
  wakes-Keeps :
      (f : Shared T → Shared T)
      → ((c : Shared T)
          → ((f c).recv_wait ≡ c.recv_wait)
            ⊎ (((f c).recv_wait ≡ wake_parked c.recv_wait)
                ⊎ ((f c).recv_wait ≡ WaitQueue.wake_all c.recv_wait)))
      → Keeps receives f
  wakes-Keeps f h = record {
    ordered = λ c o. elim (h c) [
      | inl e ↦ rw e o
      | inr (inl e) ↦ rw e (wake_parked-IsOrdered c.recv_wait o)
      | inr (inr e) ↦ rw e (wake_all-IsOrdered c.recv_wait o)
    ];
    parked = λ c t w o k. elim (h c) [
      | inl e ↦ rw e k
      | inr (inl e) ↦ rw e (wake_parked-Parked t w c.recv_wait o k)
      | inr (inr e) ↦ rw e (wake_all-Parked t w c.recv_wait o k)
    ];
  }

  access-Keeps : (a : Access T) → Keeps receives (λ c. access c a)
  unfolding access clone_sender drop_sender
  access-Keeps (attempts v) =
      wakes-Keeps _ (λ c. elim (attempt_send-wait v c).1 [ inl e ↦ inl e | inr e ↦ inr (inl e) ])
  access-Keeps clones = wakes-Keeps _ (λ c. inl refl)
  access-Keeps drops = wakes-Keeps _ (λ c. elim (Bool-cases (c.sender_count == 1)) [
    | inl e ↦ rw e (inr (inr refl))
    | inr e ↦ rw e (inl refl)
  ])
  access-Keeps (requeues q) = wakes-Keeps _ (λ c. inl refl)

  pub run-Keeps : (l : List (Access T)) → Keeps receives (run l)
  unfolding run
  run-Keeps [] = Keeps-id receives
  run-Keeps (a ∷ l) = Keeps-comp receives (λ c. access c a) (run l) (access-Keeps a) (run-Keeps l)

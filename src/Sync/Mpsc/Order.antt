-- ===== src/Sync/Mpsc/Order.antt =====
-- The channels: what is sent arrives once, in order, however senders and receiver interleave.
use dtact.Base.{
  ◌<◌, ℕ, ◌≡◌, refl, sym, ap, ◌∙◌, inl, inr, Bool, true, false, Bool-cases, Option, none, some,
  List, [], ◌∷◌, ◌++◌, reverse, append-nil, append_assoc, reverse-cons, ◌==◌, PushResult, ok, err,
  ltb, length,
}
use dtact.Lockfree.Mpmc.Fifo.{fifo_push}
use dtact.Sync.WaitQueue.{WaitQueue}
use dtact.Sync.Mpsc.{
  Queue, bounded, unbounded, Shared, channel, unbounded_channel, try_push, pushed, send_by,
  attempt_send, pop_front, pop_queue, popped, try_pop, or_closed, attempt_recv,
}

module _ {ℓ} {T : Type ℓ} where
  -- The elements in the channel, the next one to receive first. The local deque of a bounded
  -- channel is never used.
  abbrev pub contents_of : Queue T → List T → List T
  contents_of (bounded capacity xs) local = xs
  contents_of (unbounded xs) local = local ++ reverse xs

  abbrev pub contents : Shared T → List T
  contents c = contents_of c.queue c.local

  -- What a send adds and what a receive takes.
  abbrev pub accepted : T → Option (PushResult T) → List T
  accepted v none = []
  accepted v (some ok) = v ∷ []
  accepted v (some (err w)) = []

  abbrev pub taken : Option T → List T
  taken none = []
  taken (some v) = v ∷ []

  abbrev pub received : Option (Option T) → List T
  received none = []
  received (some r) = taken r

  -- `Traffic a r c`: some sequence of attempts reaches `c`; the sends that succeeded were those of
  -- `a`, and the elements received were those of `r`. The counts, the flag and the wait queues can
  -- be anything in between.
  pub data Traffic : List T → List T → Shared T → Type ℓ where
    bounded_made : (capacity : ℕ) → 1 < capacity → Traffic [] [] (channel capacity)
    unbounded_made : Traffic [] [] unbounded_channel
    sent_one :
        (a r : List T) (c : Shared T) (v : T)
        → Traffic a r c
        → Traffic (a ++ accepted v (attempt_send v c).1) r (attempt_send v c).0
    received_one :
        (a r : List T) (c : Shared T)
        → Traffic a r c
        → Traffic a (r ++ received (attempt_recv c).1) (attempt_recv c).0
    moved :
        (a r : List T) (c : Shared T) (n : ℕ) (b : Bool) (p q : WaitQueue)
        → Traffic a r c
        → Traffic a r
            (record c { sender_count = n; receiver_dropped = b; recv_wait = p; send_wait = q })

  try_push-contents :
      (q : Queue T) (local : List T) (v : T)
      → contents_of (try_push q v).0 local
        ≡ contents_of q local ++ accepted v (some (try_push q v).1)
  unfolding try_push fifo_push
  try_push-contents (bounded capacity xs) local v = elim (Bool-cases (ltb (length xs) capacity)) [
    | inl e ↦ rw e refl
    | inr e ↦ rw e (sym (append-nil xs))
  ]
  try_push-contents (unbounded xs) local v =
      ap (λ l. local ++ l) (reverse-cons v xs) ∙ sym (append_assoc local (reverse xs) (v ∷ []))

  pushed-contents :
      (c : Shared T) (v : T) (p : Queue T × PushResult T)
      → contents_of p.0 c.local ≡ contents c ++ accepted v (some p.1)
      → contents (pushed c p).0 ≡ contents c ++ accepted v (pushed c p).1
  pushed-contents c v (q, ok) e = e
  pushed-contents c v (q, err w) e = e

  attempt_send-contents :
      (v : T) (c : Shared T)
      → contents (attempt_send v c).0 ≡ contents c ++ accepted v (attempt_send v c).1
  unfolding attempt_send
  attempt_send-contents v c = by_flag c.receiver_dropped
    where
      by_flag : (b : Bool) → contents (send_by b v c).0 ≡ contents c ++ accepted v (send_by b v c).1
      by_flag true = sym (append-nil (contents c))
      by_flag false = pushed-contents c v (try_push c.queue v) (try_push-contents c.queue c.local v)

  front : (xs : List T) → xs ≡ taken (pop_front xs).1 ++ (pop_front xs).0
  front [] = refl
  front (x ∷ xs) = refl

  pop_queue-contents :
      (q : Queue T) (local : List T)
      → contents_of q local
        ≡ taken (pop_queue q local).1.1 ++ contents_of (pop_queue q local).0 (pop_queue q local).1.0
  pop_queue-contents (bounded capacity []) local = refl
  pop_queue-contents (bounded capacity (x ∷ xs)) local = refl
  pop_queue-contents (unbounded xs) (y ∷ local) = refl
  pop_queue-contents (unbounded xs) [] =
      front (reverse xs)
      ∙ ap (λ l. taken (pop_front (reverse xs)).1 ++ l)
          (sym (append-nil (pop_front (reverse xs)).0))

  popped-contents :
      (c : Shared T) (p : Queue T × (List T × Option T))
      → contents c ≡ taken p.1.1 ++ contents_of p.0 p.1.0
      → contents c ≡ taken (popped c p).1 ++ contents (popped c p).0
  popped-contents c (q, (local, none)) e = e
  popped-contents c (q, (local, some v)) e = e

  try_pop-contents : (c : Shared T) → contents c ≡ taken (try_pop c).1 ++ contents (try_pop c).0
  unfolding try_pop
  try_pop-contents c =
      popped-contents c (pop_queue c.queue c.local) (pop_queue-contents c.queue c.local)

  or_closed-contents :
      (c : Shared T) (p : Shared T × Option T)
      → contents c ≡ taken p.1 ++ contents p.0
      → contents c ≡ received (or_closed p).1 ++ contents (or_closed p).0
  or_closed-contents c (d, some v) e = e
  or_closed-contents c (d, none) e = elim (Bool-cases (d.sender_count == 0)) [
    | inl z ↦ rw z (e ∙ try_pop-contents d)
    | inr z ↦ rw z e
  ]

  attempt_recv-contents :
      (c : Shared T) → contents c ≡ received (attempt_recv c).1 ++ contents (attempt_recv c).0
  unfolding attempt_recv
  attempt_recv-contents c = or_closed-contents c (try_pop c) (try_pop-contents c)

  -- However senders and the receiver take turns, on a bounded channel of two places or more or on an
  -- unbounded one: the elements
  -- accepted are the elements received followed by those in the channel, in the order in which they
  -- were sent. None is lost, made up, repeated or overtaken.
  pub Traffic-contents : (a r : List T) (c : Shared T) → Traffic a r c → a ≡ r ++ contents c
  unfolding channel unbounded_channel
  Traffic-contents _ _ _ (bounded_made capacity two) = refl
  Traffic-contents _ _ _ unbounded_made = refl
  Traffic-contents _ _ _ (sent_one a r c v h) =
      ap (λ l. l ++ accepted v (attempt_send v c).1) (Traffic-contents a r c h)
      ∙ append_assoc r (contents c) (accepted v (attempt_send v c).1)
      ∙ ap (λ l. r ++ l) (sym (attempt_send-contents v c))
  Traffic-contents _ _ _ (received_one a r c h) =
      Traffic-contents a r c h
      ∙ ap (λ l. r ++ l) (attempt_recv-contents c)
      ∙ sym (append_assoc r (received (attempt_recv c).1) (contents (attempt_recv c).0))
  Traffic-contents _ _ _ (moved a r c n b p q h) = Traffic-contents a r c h

-- ===== src/Sync/Broadcast/Lag.antt =====
-- The broadcast channel: what a receiver gets, by how far it lags behind the senders.
use Prim.Native.Nat.{Ordering, compare}
use native.Mathlib.Nat.{mod-eq_of_lt, add-mod_right}
use dtact.Base.{
  ok, ℕ, zero, suc, ◌+◌, ◌-◌, ◌%◌, ◌<◌, ◌≤◌, ◌≡◌, ◌≢◌, refl, sym, ap, ◌∙◌, false, Option, none,
  some, List, [], ◌∷◌, ◌++◌, arith, ◌==◌, ==_of_ne, update, update_self, update_ne, length,
  length-append, mod-ne, wrapping_add, wrapping_add-small, inl, inr, Bool-cases, ltb, ltb→lt,
}
use dtact.Sync.Broadcast.{
  unset, transient, Slot, Shared, channel, value_of, lagged, take_seq, set_slot, wake_parked, fill,
  recv_by, recv_slot, try_recv_one, send, receiver_count,
}

-- The last number is the one that is not below it.
≡_of_not-ltb : (s n : ℕ) → s < n + 1 → ltb s n ≡ false → s ≡ n
≡_of_not-ltb s n below h = ground arith

≤_of_not-ltb : (a b : ℕ) → ltb a b ≡ false → b ≤ a
≤_of_not-ltb a b h = ground arith

compare_self : (n : ℕ) → compare n n ≡ Ordering.eq
compare_self n = ground arith

compare_of_lt : (a b : ℕ) → a < b → compare a b ≡ Ordering.lt
compare_of_lt a b h = ground arith

compare_of_gt : (a b : ℕ) → b < a → compare a b ≡ Ordering.gt
compare_of_gt a b h = ground arith

module _ {ℓ} {T : Type ℓ} where
  abbrev pub get_elem? : List T → ℕ → Option T
  get_elem? [] n = none
  get_elem? (x ∷ xs) zero = some x
  get_elem? (x ∷ xs) (suc n) = get_elem? xs n

  get_elem?-last : (xs : List T) (x : T) → get_elem? (xs ++ x ∷ []) (length xs) ≡ some x
  get_elem?-last [] x = refl
  get_elem?-last (y ∷ xs) x = get_elem?-last xs x

  get_elem?-append :
      (xs : List T) (x : T) (n : ℕ) → n < length xs → get_elem? (xs ++ x ∷ []) n ≡ get_elem? xs n
  get_elem?-append [] x n lt = absurd (omega arith)
  get_elem?-append (y ∷ xs) x zero lt = refl
  get_elem?-append (y ∷ xs) x (suc n) lt = get_elem?-append xs x n (omega arith)

  -- The slots hold the last `capacity` values of `sent`, each under its number, and the slots that no
  -- number has reached are unset.
  pub record Holds (c : Shared T) (sent : List T) : Type ℓ where
    pub some_room : 0 < c.capacity
    pub next : c.next_seq ≡ length sent
    pub few : length sent < transient
    pub buffered :
        (s : ℕ)
        → s < length sent
        → length sent ≤ s + c.capacity
        → c.slots (s % c.capacity) ≡ record { seq = s; value = get_elem? sent s }
    pub unwritten : (i : ℕ) → i < c.capacity → length sent ≤ i → (c.slots i).seq ≡ unset

  abbrev entry : ℕ → Option T → Slot T
  entry s x = record { seq = s; value = x }

  pub channel-Holds : (capacity : ℕ) → Holds (channel {T = T} capacity) []
  unfolding channel
  channel-Holds capacity = record {
    some_room = ground arith;
    next = refl;
    few = omega arith;
    buffered = λ s below near. absurd (omega arith);
    unwritten = λ i inside beyond. refl;
  }

  last_update :
      (f : ℕ → Slot T) (i j : ℕ) (a b d : Slot T)
      → update (update (update f i a) i b) i d j ≡ update f i d j
  last_update f i j a b d = elim (Bool-cases (i == j)) [ inl e ↦ rw e refl | inr e ↦ rw e refl ]

  -- The accesses of a send keep the correspondence.
  fill-Holds :
      (c : Shared T) (sent : List T) (v : T)
      → Holds c sent
      → suc (length sent) < transient
      → Holds (fill v c) (sent ++ v ∷ [])
  unfolding fill take_seq set_slot wake_parked
  fill-Holds c sent v h lt = record {
    some_room = h.some_room;
    next = ap (λ n. wrapping_add n 1) h.next ∙ wrapping_add-small n 1 (omega arith) ∙ sym more;
    few = omega (arith, more);
    buffered = λ s below near. last_update c.slots i (s % c.capacity) _ _ _ ∙ slot_of s below near;
    unwritten = λ j inside beyond.
        ap (λ x. x.seq)
          (last_update c.slots i j _ _ _ ∙ update_ne c.slots i j _ (apart j inside beyond))
        ∙ h.unwritten j inside (omega (arith, more));
  }
    where
      n : ℕ
      n = length sent

      i : ℕ
      i = c.next_seq % c.capacity

      more : length (sent ++ v ∷ []) ≡ n + 1
      more = length-append sent (v ∷ [])

      apart : (j : ℕ) → j < c.capacity → length (sent ++ v ∷ []) ≤ j → i ≢ j
      apart j inside beyond e = absurd (
          omega (
            arith,
            more,
            h.next,
            e,
            mod-eq_of_lt {n = c.next_seq} {m = c.capacity} (omega (arith, more, h.next)),
          ))

      whole : (s : ℕ) → s < n → s + (n - s) ≡ c.next_seq
      whole s below = omega (arith, h.next)

      at_end : (s : ℕ) → s < length (sent ++ v ∷ []) → ltb s n ≡ false → s ≡ n
      at_end s below e = ≡_of_not-ltb s n (omega (arith, more)) e

      slot_of :
          (s : ℕ)
          → s < length (sent ++ v ∷ [])
          → length (sent ++ v ∷ []) ≤ s + c.capacity
          → update c.slots i (record { seq = c.next_seq; value = some v }) (s % c.capacity)
            ≡ record { seq = s; value = get_elem? (sent ++ v ∷ []) s }
      slot_of s below near = elim (Bool-cases (ltb s n)) [
        | inl e1 ↦
            update_ne c.slots i (s % c.capacity) _ (λ e.
              mod-ne c.capacity s (n - s) (omega (arith, ltb→lt s n e1))
                (omega (arith, more, ltb→lt s n e1))
                (ap (λ x. x % c.capacity) (whole s (ltb→lt s n e1)) ∙ e))
            ∙ h.buffered s (ltb→lt s n e1) (omega (arith, more))
            ∙ ap (λ x. record { seq = s; value = x })
                (sym (get_elem?-append sent v s (ltb→lt s n e1)))
        | inr e ↦
            ap
              (λ x. update c.slots i (record { seq = c.next_seq; value = some v }) (x % c.capacity))
              (at_end s below e ∙ sym h.next)
            ∙ update_self c.slots i _
            ∙ (λ t. entry (h.next t) (sym (get_elem?-last sent v) t))
            ∙ ap (λ x. record { seq = x; value = get_elem? (sent ++ v ∷ []) x })
                (sym (at_end s below e))
      ]

  -- A send with a receiver left succeeds, and when the slots hold the last values of a list before it,
  -- they hold the last values of the list with the sent value at its end after it.
  pub send-Holds :
      (c : Shared T) (sent : List T) (v : T)
      → Holds c sent
      → suc (length sent) < transient
      → (receiver_count c == 0) ≡ false
      → ((send v c).1 ≡ ok) × Holds (send v c).0 (sent ++ v ∷ [])
  unfolding send
  send-Holds c sent v h lt left = rw left (refl, fill-Holds c sent v h lt)

  unset_slot : (c : Shared T) (s : Slot T) → s.seq ≡ unset → recv_slot c s ≡ (c, none)
  unset_slot c s e = rw e refl

  real_slot :
      (c : Shared T) (s : Slot T)
      → s.seq < transient
      → recv_slot c s ≡ recv_by (compare c.cursor s.seq) c s
  real_slot c s lt =
      rw (==_of_ne s.seq unset (omega arith), ==_of_ne s.seq transient (omega arith)) refl

  recv_at :
      (c : Shared T) (s : ℕ) (x : Option T) (o : Ordering)
      → c.slots (c.cursor % c.capacity) ≡ entry s x
      → s < transient
      → compare c.cursor s ≡ o
      → try_recv_one c ≡ recv_by o c (entry s x)
  unfolding try_recv_one
  recv_at c s x o e lt by =
      ap (recv_slot c) e ∙ real_slot c (entry s x) lt ∙ ap (λ r. recv_by r c (entry s x)) by

  -- A receiver that has read everything gets nothing.
  pub try_recv_one-caught_up :
      (c : Shared T) (sent : List T)
      → Holds c sent
      → c.cursor ≡ length sent
      → try_recv_one c ≡ (c, none)
  unfolding try_recv_one
  try_recv_one-caught_up c sent h e = elim (Bool-cases (ltb (length sent) c.capacity)) [
    | inl few ↦ unset_slot c (c.slots (c.cursor % c.capacity)) (
        ap (λ i. (c.slots i).seq)
          (ap (λ n. n % c.capacity) e ∙ mod-eq_of_lt (ltb→lt (length sent) c.capacity few))
        ∙ h.unwritten (length sent) (ltb→lt (length sent) c.capacity few) (omega arith))
    | inr many ↦
        recv_at c (length sent - c.capacity) (get_elem? sent (length sent - c.capacity)) Ordering.gt
          (ap c.slots (before many)
            ∙ h.buffered (length sent - c.capacity) (omega (arith, h.some_room, full many))
                (omega arith))
          (omega (arith, h.few))
          (compare_of_gt c.cursor (length sent - c.capacity)
            (omega (arith, e, h.some_room, full many)))
  ]
    where
      full : ltb (length sent) c.capacity ≡ false → c.capacity ≤ length sent
      full many = ≤_of_not-ltb (length sent) c.capacity many

      before :
          ltb (length sent) c.capacity ≡ false
          → c.cursor % c.capacity ≡ (length sent - c.capacity) % c.capacity
      before many =
          ap (λ n. n % c.capacity) (omega (arith, e, full many))
          ∙ add-mod_right (length sent - c.capacity) c.capacity

  -- A receiver whose number was sent and is at most the capacity behind gets the value that was sent
  -- under it, and goes on at the next number.
  pub try_recv_one-value :
      (c : Shared T) (sent : List T)
      → Holds c sent
      → c.cursor < length sent
      → length sent ≤ c.cursor + c.capacity
      → try_recv_one c
        ≡ (record c { cursor = c.cursor + 1 }, some (value_of (get_elem? sent c.cursor)))
  unfolding try_recv_one
  try_recv_one-value c sent h below near =
      recv_at c c.cursor (get_elem? sent c.cursor) Ordering.eq (h.buffered c.cursor below near)
        (omega (arith, h.few)) (compare_self c.cursor)
      ∙ ap (λ n. (record c { cursor = n }, some (value_of (get_elem? sent c.cursor))))
          (wrapping_add-small c.cursor 1 (omega (arith, h.few)))

  -- A receiver further behind is told how far it lags and goes on at the buffered number `s` that
  -- shares its slot, which need not be the oldest buffered one.
  pub try_recv_one-lagged :
      (c : Shared T) (sent : List T) (s : ℕ)
      → Holds c sent
      → c.cursor < s
      → s < length sent
      → length sent ≤ s + c.capacity
      → s % c.capacity ≡ c.cursor % c.capacity
      → try_recv_one c ≡ (record c { cursor = s }, some (lagged (s - c.cursor)))
  unfolding try_recv_one
  try_recv_one-lagged c sent s h behind below near same =
      recv_at c s (get_elem? sent s) Ordering.lt (ap c.slots (sym same) ∙ h.buffered s below near)
        (omega (arith, h.few)) (compare_of_lt c.cursor s behind)

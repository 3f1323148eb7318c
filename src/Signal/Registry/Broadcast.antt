-- ===== src/Signal/Registry/Broadcast.antt =====
-- The registry of signal listeners: who hears a broadcast, and what one registration too many does.
use dtact.Base.{
  ℕ, zero, suc, ◌≤◌, ◌<◌, ◌≡◌, ◌≢◌, refl, sym, ap, ◌∙◌, inl, inr, true, false, Option, none, some,
  ◌+◌, ◌^◌, List, [], ◌∷◌, length, subst, false, arith, leb, ltb, ◌==◌, wrapping_add,
  wrapping_add-small, Bool-cases, update, update_self, update_ne,
}
use dtact.Sync.Poll.{ready}
use dtact.Signal.Registry.{
  ListenerState, ListenerRegistry, deliver, poll_recv, register, mark_dead, Op, registers,
  broadcasts, recvs, drops, at_slot, or_as_before, step, run, deliver_slot, deliver_all, broadcast,
}

deliver_all-other :
    (n : ℕ) (slots : ℕ → Option ListenerState) (i : ℕ) → n ≤ i → deliver_all n slots i ≡ slots i
unfolding deliver_all
deliver_all-other zero slots i le = refl
deliver_all-other (suc n) slots i le =
    deliver_all-other n _ i (omega arith) ∙ update_ne slots n i _ (λ e. absurd (omega arith))

deliver_all-each :
    (n : ℕ) (slots : ℕ → Option ListenerState) (i : ℕ)
    → i < n
    → deliver_all n slots i ≡ deliver_slot (slots i)
unfolding deliver_all
deliver_all-each zero slots i lt = absurd (omega arith)
deliver_all-each (suc n) slots i lt = elim (Bool-cases (n == i)) [
  | inl e ↦
      let k : n ≡ i = ground arith in
      deliver_all-other n _ i (omega arith)
      ∙ ap (λ j. update slots n (deliver_slot (slots n)) j) (sym k)
      ∙ update_self slots n _
      ∙ ap (λ j. deliver_slot (slots j)) k
  | inr e ↦
      let k : n ≢ i = λ f. absurd (ground arith) in
      deliver_all-each n _ i (ground arith) ∙ ap deliver_slot (update_ne slots n i _ k)
]

-- A broadcast of a registry with at most 16 registrations delivers once to every registered slot,
-- and leaves the other slots and the count alone.
broadcast-delivers :
    (r : ListenerRegistry)
    → r.len ≤ 16
    → (r' : ListenerRegistry) × (broadcast r ≡ some r')
      × (r'.len ≡ r.len)
      × ((i : ℕ) → i < r.len → r'.slots i ≡ deliver_slot (r.slots i))
      × ((i : ℕ) → r.len ≤ i → r'.slots i ≡ r.slots i)
unfolding broadcast
broadcast-delivers r le = (
  record r { slots = deliver_all r.len r.slots },
  rw (within r.len le) refl,
  refl,
  λ i lt. deliver_all-each r.len r.slots i lt,
  λ i out. deliver_all-other r.len r.slots i out,
)
  where
    within : (n : ℕ) → n ≤ 16 → leb n 16 ≡ true
    within n h = ground arith

-- What a listener still has to hear.
abbrev pub unheard : Option ListenerState → ℕ
unheard none = 0
unheard (some l) = l.pending

poll_recv-unheard : (l : ListenerState) (w : ℕ) → (poll_recv (λ k. k) l w).0.pending ≤ l.pending
unfolding poll_recv
poll_recv-unheard l w = by_count l.pending
  where
    by_count : (n : ℕ) → (poll_recv (λ k. k) (record l { pending = n }) w).0.pending ≤ n
    by_count zero = omega arith
    by_count (suc n) = omega arith

at_slot-unheard :
    (f : ListenerState → ListenerState)
    → ((l : ListenerState) → (f l).pending ≤ l.pending)
    → (slots : ℕ → Option ListenerState) (i j : ℕ)
    → unheard (update slots i (at_slot f (slots i)) j) ≤ unheard (slots j)
at_slot-unheard f le slots i j = elim (Bool-cases (i == j)) [
  | inl e ↦
      let k : i ≡ j = ground arith in
      subst (λ j. unheard (update slots i (at_slot f (slots i)) j) ≤ unheard (slots j)) k
        (rw (update_self slots i (at_slot f (slots i))) (kept (slots i)))
  | inr e ↦
      let k : i ≢ j = λ h. absurd (ground arith) in
      rw (update_ne slots i j (at_slot f (slots i)) k) (omega arith)
]
  where
    kept : (s : Option ListenerState) → unheard (at_slot f s) ≤ unheard s
    kept none = omega arith
    kept (some l) = le l

-- A registry with one registration too many, after some of at most so many further calls.
record Shut (r : ListenerRegistry) (r' : ListenerRegistry) : Type 0 where
  over : 16 < r'.len
  bound : r'.len ≤ r.len + 1
  quiet : (i : ℕ) → unheard (r'.slots i) ≤ unheard (r.slots i)

register-shut :
    (r : ListenerRegistry)
    → 15 < r.len
    → register r ≡ (record r { len = wrapping_add r.len 1 }, none)
unfolding register
register-shut r h = rw (closed r.len h) refl
  where
    closed : (n : ℕ) → 15 < n → ltb n 16 ≡ false
    closed n h = ground arith

broadcast-shut : (r : ListenerRegistry) → 16 < r.len → broadcast r ≡ none
unfolding broadcast
broadcast-shut r h = rw (closed r.len h) refl
  where
    closed : (n : ℕ) → 16 < n → leb n 16 ≡ false
    closed n h = ground arith

register-Shut : (r : ListenerRegistry) → 15 < r.len → r.len + 1 < 2 ^ 64 → Shut r (register r).0
register-Shut r h small =
    let raised = wrapping_add-small r.len 1 small in
    subst (λ c. Shut r c.0) (sym (register-shut r h))
      record {
        over = omega (arith, raised);
        bound = omega (arith, raised);
        quiet = λ i. omega arith;
      }

step-Shut : (o : Op) (r : ListenerRegistry) → 16 < r.len → r.len + 1 < 2 ^ 64 → Shut r (step o r)
unfolding step mark_dead
step-Shut registers r h small = register-Shut r (omega arith) small
step-Shut broadcasts r h small =
    subst (λ b. Shut r (or_as_before r b)) (sym (broadcast-shut r h))
      record { over = h; bound = omega arith; quiet = λ i. omega arith }
step-Shut (recvs i w) r h small = record {
  over = h;
  bound = omega arith;
  quiet = λ j.
      at_slot-unheard (λ l. (poll_recv (λ k. k) l w).0) (λ l. poll_recv-unheard l w) r.slots i j;
}
step-Shut (drops i) r h small = record {
  over = h;
  bound = omega arith;
  quiet = λ j. at_slot-unheard mark_dead (λ l. omega arith) r.slots i j;
}

run-shut :
    (os : List Op) (r : ListenerRegistry)
    → 16 < r.len
    → r.len + length os < 2 ^ 64
    → (broadcast (run os r) ≡ none) × ((i : ℕ) → unheard ((run os r).slots i) ≤ unheard (r.slots i))
unfolding run
run-shut [] r h small = (broadcast-shut r h, λ i. omega arith)
run-shut (o ∷ os) r h small =
    let once : Shut r (step o r) = step-Shut o r h (omega arith) in
    let (panics, quiet) = run-shut os (step o r) once.over (omega (arith, once.bound)) in
    (panics, λ i. omega (arith, quiet i, once.quiet i))

-- On a registry that has 16 listeners one more `register` panics. After that and any calls on the
-- registry and its listeners, fewer than 2 ^ 63 of them, a `broadcast` panics, and each listener has
-- as much left to hear as before, or less.
pub register-overfull :
    (r : ListenerRegistry) (os : List Op)
    → r.len ≡ 16
    → length os < 2 ^ 63
    → ((register r).1 ≡ none)
      × (broadcast (run os (register r).0) ≡ none)
      × ((i : ℕ) → unheard ((run os (register r).0).slots i) ≤ unheard (r.slots i))
register-overfull r os e few =
    let first : Shut r (register r).0 = register-Shut r (omega (arith, e)) (omega (arith, e)) in
    let (panics, quiet) = run-shut os (register r).0 first.over (omega (arith, first.bound, e)) in
    (
      ap (λ c. c.1) (register-shut r (omega (arith, e))),
      panics,
      λ i. omega (arith, quiet i, first.quiet i),
    )

-- A delivery that falls between the registration and the second look of a poll is not missed: the
-- poll of a listener that is alive, has nothing pending and is delivered to in between, answers
-- `Ready`, and nothing is pending afterwards.
pub poll_recv-deliver :
    (l : ListenerState) (w : ℕ)
    → l.dead ≡ false
    → l.pending ≡ 0
    → ((poll_recv deliver l w).1 ≡ ready tt) × ((poll_recv deliver l w).0.pending ≡ 0)
unfolding poll_recv deliver
poll_recv-deliver l w alive nothing = rw (nothing, alive) (refl, refl)

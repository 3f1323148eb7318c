-- ===== src/Lockfree/WakerSlot/Exclusive.antt =====
-- `AtomicWakerSlot`: at most one thread holds the cell of the waker.
use dtact.Base.{
  ℕ, zero, suc, ◌+◌, ◌≡◌, refl, subst, ◌⊎◌, inl, inr, Bool, true, false, not, ◌||◌, ◌&&◌, Option,
  none, some, List, [], ◌∷◌, arith, Bool-cases,
}
use dtact.Lockfree.WakerSlot.{
  State, AtomicWakerSlot, Thread, registers, stores, releases, takes_over, hands_back, takes,
  takes_cell, leaves, marks, done, is_waiting, will_wake, wake_task, step, step_at, run,
  waiting_state, registering_state, waking_state,
}

-- A thread between the compare-exchange that gives it the cell and the store that gives it back.
abbrev pub holding : Thread → ℕ
holding (registers w) = 0
holding (stores w) = 1
holding releases = 1
holding takes_over = 1
holding (hands_back w) = 1
holding takes = 0
holding takes_cell = 1
holding (leaves w) = 1
holding marks = 0
holding done = 0

abbrev pub holders : List Thread → ℕ
holders [] = 0
holders (t ∷ ts) = holding t + holders ts

-- At most one holder, and none while the state word is `WAITING`.
abbrev pub Exclusive : ℕ → State → Type 0
Exclusive n s = (n ≡ 0) ⊎ ((n ≡ 1) × (is_waiting s ≡ false))

zero_of_waiting : (n : ℕ) (s : State) → is_waiting s ≡ true → Exclusive n s → n ≡ 0
zero_of_waiting n s w (inl e) = e
zero_of_waiting n s w (inr (e, off)) = cc

claim-Exclusive :
    (rest : ℕ) (s s' : State)
    → is_waiting s ≡ true
    → is_waiting s' ≡ false
    → Exclusive (rest + 0) s
    → Exclusive (rest + 1) s'
claim-Exclusive rest s s' w off h =
    let z = zero_of_waiting (rest + 0) s w h in inr (omega arith, off)

renumber : (n m : ℕ) (s : State) → n ≡ m → Exclusive n s → Exclusive m s
renumber n m s e h = subst (λ k. Exclusive k s) e h

leave-Exclusive : (rest : ℕ) (s s' : State) → Exclusive (rest + 1) s → Exclusive (rest + 0) s'
leave-Exclusive rest s s' (inl z) = absurd (omega arith)
leave-Exclusive rest s s' (inr (z, off)) = inl (omega arith)

marked-Exclusive : (n : ℕ) (s s' : State) → is_waiting s' ≡ false → Exclusive n s → Exclusive n s'
marked-Exclusive n s s' off (inl z) = inl z
marked-Exclusive n s s' off (inr (z, k)) = inr (z, off)

wake_task-state : (w : Option ℕ) (s : AtomicWakerSlot) → (wake_task w s).state ≡ s.state
wake_task-state none s = refl
wake_task-state (some w) s = refl

marked : (b : Bool) → not (b || true) ≡ false
marked true = refl
marked false = refl

step-Exclusive :
    (rest : ℕ) (t : Thread) (s : AtomicWakerSlot)
    → Exclusive (rest + holding t) s.state
    → Exclusive (rest + holding (step t s).0) (step t s).1.state
unfolding step
step-Exclusive rest (registers w) s h = elim (Bool-cases (is_waiting s.state)) [
  | inl e ↦ rw e (claim-Exclusive rest s.state registering_state e refl h)
  | inr e ↦ rw e h
]
step-Exclusive rest (stores w) s h = elim (Bool-cases (will_wake s.waker w)) [
  | inl e ↦ rw e h
  | inr e ↦ rw e h
]
step-Exclusive rest releases s h = elim (Bool-cases (s.state.registering && not s.state.waking)) [
  | inl e ↦ rw e (leave-Exclusive rest s.state waiting_state h)
  | inr e ↦ rw e h
]
step-Exclusive rest takes_over s h = h
step-Exclusive rest (hands_back w) s h =
    leave-Exclusive rest s.state (wake_task w (record s { state = waiting_state })).state h
step-Exclusive rest takes s h = elim (Bool-cases (is_waiting s.state)) [
  | inl e ↦ rw e (claim-Exclusive rest s.state waking_state e refl h)
  | inr e ↦ rw e h
]
step-Exclusive rest takes_cell s h = h
step-Exclusive rest (leaves w) s h =
    leave-Exclusive rest s.state (wake_task w (record s { state = waiting_state })).state h
step-Exclusive rest marks s h =
    marked-Exclusive (rest + 0) s.state (record s.state { waking = true })
      (marked s.state.registering) h
step-Exclusive rest done s h = h

step_at-Exclusive :
    (n rest : ℕ) (ts : List Thread) (s : AtomicWakerSlot)
    → Exclusive (rest + holders ts) s.state
    → Exclusive (rest + holders (step_at n ts s).0) (step_at n ts s).1.state
unfolding step_at
step_at-Exclusive n rest [] s h = h
step_at-Exclusive zero rest (t ∷ ts) s h =
    renumber (rest + holders ts + holding (step t s).0) _ (step t s).1.state (omega arith) (
      step-Exclusive (rest + holders ts) t s
        (renumber _ (rest + holders ts + holding t) s.state (omega arith) h))
step_at-Exclusive (suc n) rest (t ∷ ts) s h =
    renumber (rest + holding t + holders (step_at n ts s).0) _ (step_at n ts s).1.state
      (omega arith)
      (step_at-Exclusive n (rest + holding t) ts s
        (renumber _ (rest + holding t + holders ts) s.state (omega arith) h))

-- However the accesses of any number of threads interleave, from a state in which the cell has at
-- most one holder and the state word is not `WAITING` if it has one, the same holds at the end: no
-- two threads hold the cell of the waker at once.
pub run-Exclusive :
    (schedule : List ℕ) (ts : List Thread) (s : AtomicWakerSlot)
    → Exclusive (holders ts) s.state
    → Exclusive (holders (run schedule ts s).0) (run schedule ts s).1.state
unfolding run
run-Exclusive [] ts s h = h
run-Exclusive (n ∷ schedule) ts s h = run-Exclusive schedule (step_at n ts s).0 (step_at n ts s).1 (
    renumber (0 + holders (step_at n ts s).0) _ (step_at n ts s).1.state (omega arith)
      (step_at-Exclusive n 0 ts s (renumber _ (0 + holders ts) s.state (omega arith) h)))

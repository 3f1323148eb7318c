-- ===== src/Lockfree/WakerSlot/Lost.antt =====
-- `AtomicWakerSlot`: a delivery that finds a registration in progress, and marks it too late.
use dtact.Base.{ℕ, zero, suc, ◌≡◌, refl, sym, ap, ◌∙◌, none, some, List, [], ◌∷◌}
use dtact.Lockfree.WakerSlot.{
  AtomicWakerSlot, registers, takes, done, waiting_state, waking_state, step, steps, take_and_wake,
  step_at, run,
}

-- `take_and_wake` again and again.
unfoldable pub deliver : ℕ → AtomicWakerSlot → AtomicWakerSlot
deliver zero s = s
deliver (suc n) s = deliver n (take_and_wake s)

-- The compare-exchange of thread 1 fails while thread 0 is registering; thread 0 releases; then
-- thread 1 sets the `WAKING` bit.
abbrev pub too_late : List ℕ
too_late = 0 ∷ 0 ∷ 1 ∷ 0 ∷ 1 ∷ []

-- A slot at rest and empty.
abbrev pub empty : List ℕ → AtomicWakerSlot
empty log = record { state = waiting_state; waker = none; woken = log }

take_and_wake-stuck : (s : AtomicWakerSlot) → s.state ≡ waking_state → take_and_wake s ≡ s
unfolding take_and_wake steps step
take_and_wake-stuck s e =
    ap (λ k. take_and_wake (record s { state = k })) e ∙ ap (λ k. record s { state = k }) (sym e)

deliver-stuck : (n : ℕ) (s : AtomicWakerSlot) → s.state ≡ waking_state → deliver n s ≡ s
unfolding deliver
deliver-stuck zero s e = refl
deliver-stuck (suc n) s e = ap (deliver n) (take_and_wake-stuck s e) ∙ deliver-stuck n s e

-- From a slot at rest and empty, one interleaving of `register` and `take_and_wake` leaves the
-- waker stored, not woken, and the state word at `WAKING`, and then no number of `take_and_wake`
-- calls wakes it.
pub too_late-lost :
    (w n : ℕ) (log : List ℕ)
    → let (ts, s') = run too_late (registers w ∷ takes ∷ []) (empty log) in
      (ts ≡ done ∷ done ∷ [])
      × (s'.waker ≡ some w)
      × (s'.state ≡ waking_state)
      × ((deliver n s').woken ≡ log)
unfolding run step_at step
too_late-lost w n log = (refl, refl, refl, ap (λ s. s.woken) (deliver-stuck n _ refl))

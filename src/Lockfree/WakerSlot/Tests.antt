-- ===== src/Lockfree/WakerSlot/Tests.antt =====
-- `AtomicWakerSlot` run on small inputs.
use dtact.Base.{◌≡◌, refl, inl, some, [], ◌∷◌}
use dtact.Lockfree.WakerSlot.{
  AtomicWakerSlot, registers, takes, done, waiting_state, waking_state, run,
}
use dtact.Lockfree.WakerSlot.Exclusive.{holders, Exclusive, run-Exclusive}
use dtact.Lockfree.WakerSlot.Lost.{too_late, empty, deliver, too_late-lost}

-- Task 6 is registered.
abbrev occupied : AtomicWakerSlot
occupied = record { state = waiting_state; waker = some 6; woken = 4 ∷ [] }

run-Exclusive_example :
    let r = run (0 ∷ 1 ∷ 0 ∷ 1 ∷ 0 ∷ 0 ∷ []) (registers 7 ∷ takes ∷ []) occupied in
    Exclusive (holders r.0) r.1.state
run-Exclusive_example =
    run-Exclusive (0 ∷ 1 ∷ 0 ∷ 1 ∷ 0 ∷ 0 ∷ []) (registers 7 ∷ takes ∷ []) occupied (inl refl)

too_late-lost_example :
    let (ts, s') = run too_late (registers 7 ∷ takes ∷ []) (empty []) in
    (ts ≡ done ∷ done ∷ [])
    × (s'.waker ≡ some 7)
    × (s'.state ≡ waking_state)
    × ((deliver 3 s').woken ≡ [])
too_late-lost_example = too_late-lost 7 3 []

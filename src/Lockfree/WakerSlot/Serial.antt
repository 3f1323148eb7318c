-- ===== src/Lockfree/WakerSlot/Serial.antt =====
-- `AtomicWakerSlot`: what its two calls do when nobody interrupts them.
use dtact.Base.{
  ℕ, ◌≡◌, refl, Bool, true, false, Option, none, some, List, [], ◌∷◌, ◌++◌, ◌==◌, if◌then◌else◌, ap,
  ◌∙◌, arith,
}
use dtact.Lockfree.WakerSlot.{
  AtomicWakerSlot, will_wake, waiting_state, registering_state, releases, step, steps, register,
  take_and_wake,
}

-- A slot at rest.
abbrev at_rest : Option ℕ → List ℕ → AtomicWakerSlot
at_rest w log = record { state = waiting_state; waker = w; woken = log }

-- The slot while a thread registers.
abbrev claimed : Option ℕ → List ℕ → AtomicWakerSlot
claimed w log = record { state = registering_state; waker = w; woken = log }

==→≡ : (a b : ℕ) → (a == b) ≡ true → a ≡ b
==→≡ a b h = ground arith

-- The steps after the store.
finish : (b : Bool) (w : ℕ) (k : Option ℕ) (log : List ℕ) → AtomicWakerSlot
finish b w k log =
    (steps 3 releases (if b then claimed k log else record (claimed k log) { waker = some w })).1

finish-stored :
    (b : Bool) (w : ℕ) (k : Option ℕ) (log : List ℕ)
    → will_wake k w ≡ b
    → finish b w k log ≡ at_rest (some w) log
unfolding finish steps step
finish-stored false w k log e = refl
finish-stored true w none log e = cc
finish-stored true w (some v) log e = ap (λ x. at_rest (some x) log) (==→≡ v w e)

register-at_rest :
    (w : ℕ) (k : Option ℕ) (log : List ℕ) → register w (at_rest k log) ≡ at_rest (some w) log
unfolding register steps step finish
register-at_rest w k log = finish-stored (will_wake k w) w k log refl

delivered :
    (w : ℕ) (log : List ℕ) → take_and_wake (at_rest (some w) log) ≡ at_rest none (log ++ w ∷ [])
unfolding take_and_wake steps step
delivered w log = refl

-- A registration that nobody interrupts, on a slot at rest, is delivered by the next
-- `take_and_wake`, once: the slot is then empty and at rest, and the registered task alone has been
-- woken, whatever waker was stored before.
pub take_and_wake-register :
    (w : ℕ) (s : AtomicWakerSlot)
    → s.state ≡ waiting_state
    → take_and_wake (register w s)
      ≡ record { state = waiting_state; waker = none; woken = s.woken ++ w ∷ [] }
take_and_wake-register w s e =
    ap (λ k. take_and_wake (register w (record s { state = k }))) e
    ∙ ap take_and_wake (register-at_rest w s.waker s.woken)
    ∙ delivered w s.woken

-- ===== src/Signal/Registry/Tests.antt =====
-- The registry of signal listeners run on small inputs.
use dtact.Base.{ℕ, ◌≡◌, ◌≤◌, refl, none, some, List, [], ◌∷◌, arith}
use dtact.Signal.Registry.{
  ListenerRegistry, new_state, new, register, broadcast, Op, registers, broadcasts, recvs, run,
}
use dtact.Signal.Registry.Broadcast.{unheard, register-overfull}

abbrev two : ListenerRegistry
two = (register (register new).0).0

two-len : two.len ≡ 2
unfolding register new
two-len = refl

abbrev full : ListenerRegistry
full = record { slots = λ i. some new_state; len = 16 }

-- A registration too many, a broadcast, a poll and another registration.
abbrev calls : List Op
calls = broadcasts ∷ recvs 0 7 ∷ registers ∷ []

register-overfull_example :
    ((register full).1 ≡ none)
    × (broadcast (run calls (register full).0) ≡ none)
    × ((i : ℕ) → unheard ((run calls (register full).0).slots i) ≤ unheard (full.slots i))
register-overfull_example = register-overfull full calls refl (omega arith)

-- ===== src/Lockfree/FreeList/Tests.antt =====
-- `TreiberStack` run on small inputs.
use dtact.Base.{
  ℕ, ◌≡◌, ◌<◌, refl, false, [], ◌∷◌, arith, update, Bool-cases, inl, inr, ◌-◌, ◌^◌, ◌==◌,
}
use dtact.Lockfree.FreeList.{TreiberStack, pushes, pops, pop_exchange, run}
use dtact.Lockfree.FreeList.Chain.{Holds}
use dtact.Lockfree.FreeList.Tagged.{Narrow, pop_exchange-late}

-- Index 2 is free, then index 0; index 1 is out.
abbrev two : TreiberStack
two = record { head = 2; next = update (update (λ i. 0) 0 (2 ^ 32 - 1)) 2 0; size = 3 }

two-Holds : Holds two (2 ∷ 0 ∷ [])
two-Holds = record {
  top = refl;
  chain = (omega arith, refl, (λ e. absurd (omega arith), tt), (omega arith, refl, tt, tt));
  indices = omega arith;
}

two-Narrow : Narrow two
two-Narrow = (links, omega arith)
  where
    links : (i : ℕ) → two.next i < 2 ^ 32
    links i = elim (Bool-cases (2 == i)) [
      | inl e ↦ rw e (omega arith)
      | inr e ↦
          rw e
            (elim (Bool-cases (0 == i)) [ inl f ↦ rw f (omega arith) | inr f ↦ rw f (omega arith) ])
    ]

-- Others pop 2 and push it back: the index at the front is the same, and the exchange fails.
pop_exchange-late_example :
    pop_exchange (run (pops ∷ pushes 2 ∷ []) two) two.head 0
    ≡ (run (pops ∷ pushes 2 ∷ []) two, false)
pop_exchange-late_example =
    pop_exchange-late (pops ∷ pushes 2 ∷ []) two 0 two-Narrow (tt, (omega arith, tt)) (omega arith)
      (omega arith)

-- ===== src/Lockfree/Stack/Tests.antt =====
-- `MpmcStack` run on small inputs.
use dtact.Base.{ℕ, ◌≡◌, refl, none, some, [], ◌∷◌, arith}
use dtact.Lockfree.Stack.{MpmcStack, new, push, pop, compare_exchange}
use dtact.Lockfree.Stack.Chain.{Holds, push-Holds}
use dtact.Lockfree.Stack.Aba.{pop_reused}

-- 5 was pushed first, at address 1; 6 lies on top, at address 2.
abbrev two : MpmcStack ℕ
two = push (push new 1 5) 2 6

two-Holds : Holds two (2 ∷ 1 ∷ []) (6 ∷ 5 ∷ [])
unfolding new
two-Holds =
    push-Holds (push new 1 5) (1 ∷ []) (5 ∷ []) 2 6
      (push-Holds new [] [] 1 5 (record { top = refl; chain = tt }) tt) (omega arith)

pop_reused_example :
    (t u v : MpmcStack ℕ) × (pop two ≡ some (t, some 6))
    × (pop t ≡ some (u, some 5))
    × (compare_exchange (push u 2 7) two.head (some 1) ≡ some v)
    × (pop v ≡ none)
pop_reused_example = pop_reused two 2 1 [] 6 5 7 [] two-Holds

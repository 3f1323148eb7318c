-- ===== src/Lockfree/Mpmc/Tests.antt =====
-- `BoundedMpmcQueue` run on small inputs.
use dtact.Base.{ℕ, ◌≡◌, refl, none, some, [], ◌∷◌, arith, ok, err, signed_cmp}
use dtact.Lockfree.Mpmc.{
  BoundedMpmcQueue, new, publish, push_loop, try_push, pop_loop, try_pop, release, drain_until,
  before, drain_round,
}
use dtact.Lockfree.Mpmc.Cells.{Holds, new-Holds, publish-Holds}
use dtact.Lockfree.Mpmc.Fifo.{push-Fifo, pop-Fifo, fifo_push, fifo_pop}
use dtact.Lockfree.Mpmc.Single.{overwrite}

-- Two cells, the first of which holds 5.
abbrev pair : BoundedMpmcQueue ℕ
pair = publish (new 2) 0 5

pair-Holds : Holds pair (5 ∷ [])
unfolding new publish
pair-Holds = publish-Holds (new 2) [] 5 (new-Holds 2) (omega arith) (omega arith)

-- One cell, which holds 5.
abbrev single : BoundedMpmcQueue ℕ
single = publish (new 1) 0 5

single-Holds : Holds single (5 ∷ [])
unfolding new publish
single-Holds = publish-Holds (new 1) [] 5 (new-Holds 1) (omega arith) (omega arith)

-- The third push finds the queue of two full.
push_thrice : (try_push 1 (try_push 1 pair 6).0 7).1 ≡ some (err 7)
unfolding try_push push_loop publish new signed_cmp
push_thrice = refl

drain_pair : (drain_until 3 (try_push 1 pair 6).0 2).1 ≡ some 5 ∷ some 6 ∷ []
unfolding try_push push_loop publish new signed_cmp drain_until drain_round try_pop pop_loop release
    before
drain_pair = refl

push-Fifo_example :
    ((try_push 1 pair 6).1 ≡ some (fifo_push 2 (5 ∷ []) 6).1)
    × Holds (try_push 1 pair 6).0 (fifo_push 2 (5 ∷ []) 6).0
unfolding new publish
push-Fifo_example = push-Fifo 0 pair (5 ∷ []) 6 pair-Holds (omega arith) (omega arith)

pop-Fifo_example :
    ((try_pop 1 pair).1 ≡ some (fifo_pop (5 ∷ [])).1)
    × Holds (try_pop 1 pair).0 (fifo_pop (5 ∷ [])).0
unfolding new publish
pop-Fifo_example = pop-Fifo 0 pair (5 ∷ []) pair-Holds (omega arith)

overwrite_example :
    (try_push 1 single 6 ≡ (publish single 1 6, some ok))
    × ((n : ℕ) → (try_pop n (publish single 1 6)).1 ≡ none)
unfolding new publish
overwrite_example = overwrite 0 single 5 6 single-Holds (omega arith) refl

-- ===== src/Lockfree/Spsc/Tests.antt =====
-- `SpscQueue` run on small inputs, across the end of the buffer and the end of the 64-bit words.
use native.Mathlib.Nat.{dvd-mul_right}
use dtact.Base.{ℕ, ◌-◌, ◌^◌, ◌≡◌, refl, none, some, [], ◌∷◌, arith, update, word_mod, ok}
use dtact.Lockfree.Ring.{read_run}
use dtact.Lockfree.Spsc
use dtact.Lockfree.Spsc.{
  SpscQueue, new, push, pop, push_slice, pop_slice, pushes, pops, Op, Reply, pushed, popped, run,
  len,
}
use dtact.Lockfree.Spsc.Fifo.{Holds, run-fifo_run, fifo_run}

-- Capacity 4, with 7 in the last cell and `tail` at the last word.
abbrev near_wrap : SpscQueue ℕ
near_wrap = record {
  head = word_mod - 2;
  tail = word_mod - 1;
  buffer = update (λ _. none) 2 (some 7);
  capacity = 4;
}

near_wrap-Holds : Holds near_wrap (7 ∷ [])
unfolding read_run
near_wrap-Holds = record {
  divides = dvd-mul_right 4 (2 ^ 62);
  some_room = omega arith;
  small = omega arith;
  head_word = omega arith;
  tail_at = refl;
  fits = omega arith;
  cells = refl;
}

push_pop :
    run near_wrap (pushes 8 ∷ pushes 9 ∷ pops ∷ pops ∷ pops ∷ pops ∷ [])
    ≡ pushed ok
      ∷ pushed ok
      ∷ popped (some (some 7))
      ∷ popped (some (some 8))
      ∷ popped (some (some 9))
      ∷ popped none
      ∷ []
unfolding run push pop
push_pop = refl

slices :
    (pop_slice (push_slice near_wrap (1 ∷ 2 ∷ 3 ∷ 4 ∷ [])).0 3).1 ≡ some 7 ∷ some 1 ∷ some 2 ∷ []
unfolding push_slice pop_slice Spsc.push_runs Spsc.pop_runs Spsc.copy_in Spsc.copy_out
slices = refl

run-fifo_run_example :
    run near_wrap (pushes 8 ∷ pops ∷ []) ≡ fifo_run 4 (7 ∷ []) (pushes 8 ∷ pops ∷ [])
run-fifo_run_example = run-fifo_run near_wrap (7 ∷ []) (pushes 8 ∷ pops ∷ []) near_wrap-Holds

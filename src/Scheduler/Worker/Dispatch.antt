-- ===== src/Scheduler/Worker/Dispatch.antt =====
-- The dispatch of a worker's tasks, and the task that a full queue loses.
use dtact.Base.{
  ℕ, suc, ◌+◌, ◌≡◌, refl, ap, ◌∙◌, true, false, Option, some, List, [], ◌∷◌, ◌++◌, arith, ◌==◌,
  ==_iff, ==_of_ne, length, length-append,
}
use dtact.Scheduler.Fiber.{FiberStatus, notified}
use dtact.Scheduler.Worker.{
  Worker, local_queue_capacity, push_local, pop_local, Disposal, frees, requeues, leaves, settle,
  Dispatched, freed, parked, requeued, dispose, dispatch_one, dispatch_loop, prepend, after_one,
}
use dtact.Scheduler.Worker.Queue.{Queued, pop_local-Queued, push_local-room, push_local-full}

-- Fibers that push nothing to the worker's queue, each with the state that it is found in.
abbrev pub quiet : (ℕ → FiberStatus) → ℕ → Worker → Worker × FiberStatus
quiet final task w = (w, final task)

-- The tasks of the queue in order, up to the first that is to run again, which goes to the end.
abbrev pub settled : Disposal → ℕ → List ℕ → List ℕ × List Dispatched → List ℕ × List Dispatched
settled frees x xs (rest, ds) = (rest, freed x ∷ ds)
settled leaves x xs (rest, ds) = (rest, parked x ∷ ds)
settled requeues x xs later = (xs ++ x ∷ [], requeued x true ∷ [])

unfoldable pub drained : (ℕ → FiberStatus) → List ℕ → List ℕ × List Dispatched
drained final [] = ([], [])
drained final (x ∷ xs) = settled (settle (final x)) x xs (drained final xs)

empty-places : (w : Worker) → Queued w [] → (w.local_head == w.local_tail) ≡ true
empty-places w h = (==_iff _ _).1 (omega (arith, h.tail_at, h.head_in))

some-places :
    (w : Worker) (x : ℕ) (xs : List ℕ) → Queued w (x ∷ xs) → (w.local_head == w.local_tail) ≡ false
some-places w x xs h = ==_of_ne _ _ (λ e. absurd (omega (arith, h.tail_at, h.head_in, h.fits, e)))

abbrev Drains : ℕ → (ℕ → FiberStatus) → Worker → List ℕ × List Dispatched → Type 0
Drains fuel final w (rest, ds) =
    (v : Worker) × (dispatch_loop fuel (quiet final) w ≡ some (v, ds)) × Queued v rest

loop-turn :
    (fuel : ℕ) (run : ℕ → Worker → Worker × FiberStatus) (w : Worker)
    → (w.local_head == w.local_tail) ≡ false
    → dispatch_loop (suc fuel) run w
      ≡ after_one (λ v. dispatch_loop fuel run v) (dispatch_one run w)
unfolding dispatch_loop
loop-turn fuel run w e = rw (e, dispatch_loop) refl

-- One turn of the loop, by what becomes of the first task.
turn-Drains :
    (d : Disposal) (fuel : ℕ) (final : ℕ → FiberStatus) (w : Worker) (x : ℕ) (xs : List ℕ)
    → Queued w (x ∷ xs)
    → settle (final x) ≡ d
    → (later : List ℕ × List Dispatched) → Drains fuel final (pop_local w).0 later
    → Drains (suc fuel) final w (settled d x xs later)
unfolding dispatch_one
turn-Drains d fuel final w x xs h e later after = by d one_turn
  where
    one_turn : dispatch_one (quiet final) w ≡ dispose d x (pop_local w).0
    one_turn =
        let (task, popped) = pop_local-Queued w x xs h in
        ap (λ t. dispose (settle (final t)) t (pop_local w).0) task
        ∙ ap (λ k. dispose k x (pop_local w).0) e

    loop : Worker → Option (Worker × List Dispatched)
    loop v = dispatch_loop fuel (quiet final) v

    step :
        {r : Worker × Dispatched}
        → dispatch_one (quiet final) w ≡ r
        → dispatch_loop (suc fuel) (quiet final) w ≡ after_one loop r
    step turn = loop-turn fuel (quiet final) w (some-places w x xs h) ∙ ap (after_one loop) turn

    by :
        (d : Disposal)
        → dispatch_one (quiet final) w ≡ dispose d x (pop_local w).0
        → Drains (suc fuel) final w (settled d x xs later)
    by frees turn = let (v, r, q) = after in (v, step turn ∙ ap (prepend (freed x)) r, q)
    by leaves turn = let (v, r, q) = after in (v, step turn ∙ ap (prepend (parked x)) r, q)
    by requeues turn =
        let (task, popped) = pop_local-Queued w x xs h in
        let (ok, held) = push_local-room (pop_local w).0 xs x popped (omega (arith, h.fits)) in
        (
          (push_local (pop_local w).0 x).0,
          step turn ∙ (λ i. some ((push_local (pop_local w).0 x).0, requeued x (ok i) ∷ [])),
          held,
        )

-- On a queue of tasks whose fibers push nothing to it, `dispatch_loop` with one turn more than there
-- are tasks ends. It has run the tasks in order, up to the first one that is to run again, which is
-- pushed back successfully; the queue then holds the tasks behind it and that one.
pub dispatch_loop-drained :
    (final : ℕ → FiberStatus) (w : Worker) (xs : List ℕ)
    → Queued w xs
    → (v : Worker) × (dispatch_loop (suc (length xs)) (quiet final) w
        ≡ some (v, (drained final xs).1))
      × Queued v (drained final xs).0
unfolding dispatch_loop drained
dispatch_loop-drained final w [] h = (w, rw (empty-places w h, dispatch_loop) refl, h)
dispatch_loop-drained final w (x ∷ xs) h =
    turn-Drains (settle (final x)) (suc (length xs)) final w x xs h refl (drained final xs)
      (dispatch_loop-drained final (pop_local w).0 xs (pop_local-Queued w x xs h).1)

-- When the queue is full and the fiber of its first task pushes a task to it and is then found
-- notified, the push back of the task fails: the queue holds the others, and not this task.
dispatch_one-loses :
    (w : Worker) (x y : ℕ) (xs : List ℕ)
    → Queued w (x ∷ xs)
    → length (x ∷ xs) + 1 ≡ local_queue_capacity
    → (v : Worker) × (dispatch_one (λ task u. ((push_local u y).0, notified)) w
        ≡ (v, requeued x false))
      × Queued v (xs ++ y ∷ [])
unfolding dispatch_one
dispatch_one-loses w x y xs h full =
    let (task, popped) = pop_local-Queued w x xs h in
    let (ok, held) = push_local-room (pop_local w).0 xs y popped (omega arith) in
    let refused =
      push_local-full (push_local (pop_local w).0 y).0 (xs ++ y ∷ []) (pop_local w).1 held
        (omega (arith, length-append xs (y ∷ []))) in
    (
      (push_local (pop_local w).0 y).0,
      (λ i. ((refused i).0, requeued (pop_local w).1 (refused i).1))
          ∙ ap (λ t. ((push_local (pop_local w).0 y).0, requeued t false)) task,
      held,
    )

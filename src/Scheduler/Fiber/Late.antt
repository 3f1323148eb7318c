-- ===== src/Scheduler/Fiber/Late.antt =====
-- A wake of a fiber between its store of `Finished` and the worker's load of the state.
use dtact.Base.{◌+◌, ◌≡◌, refl, ap, none, some, [], ◌∷◌, false, arith}
use dtact.Scheduler.Fiber.{
  finished, ended, looks, Choice, Fiber, wake, free, decide, look, step, Step, woken, dispatched,
  moved, Reach, next,
}

-- The fiber after a late wake and the worker's load of the state, which finds `Notified`.
abbrev pub looked : Fiber → Fiber
unfolding wake
looked f = record (wake f) { queued = (wake f).queued + 1; runners = [] }

-- After that, taken from the queue by a worker, which switches to where the fiber has stopped.
abbrev pub resumed : Fiber → Fiber
unfolding wake
resumed f = record (looked f) { queued = f.queued; runners = f.saved ∷ [] }

-- When a fiber has stored `Finished` and its worker has not yet loaded the state, the load frees the
-- context. But if a waker is called in between, the load frees nothing and puts the fiber into the
-- queue once more; it can be taken from there, and the worker that takes it switches to the fiber
-- behind the end of its entry point, where no step leads on, with the context not freed.
pub look-late :
    {f : Fiber} (c : Choice)
    → Reach f
    → f.state ≡ finished
    → f.runners ≡ looks ∷ []
    → f.saved ≡ ended
    → f.freed ≡ false
    → (step c looks f ≡ (free f, none))
      × Step f (wake f)
      × (step c looks (wake f) ≡ (record (wake f) { queued = (wake f).queued + 1 }, none))
      × Step (wake f) (looked f)
      × Step (looked f) (resumed f)
      × ((resumed f).runners ≡ ended ∷ [])
      × ((resumed f).freed ≡ false)
      × Reach (resumed f)
      × (step c ended (resumed f) ≡ (resumed f, some ended))
unfolding step look decide free wake
look-late {f} c r at on back live = (
  ap (λ s. look s f) at,
  woken f,
  refl,
  moved (wake f) c [] looks [] on,
  dispatched (looked f) f.queued (omega arith),
  ap (λ pc. pc ∷ []) back,
  live,
  next (next (next r (woken f)) (moved (wake f) c [] looks [] on))
      (dispatched (looked f) f.queued (omega arith)),
  refl,
)

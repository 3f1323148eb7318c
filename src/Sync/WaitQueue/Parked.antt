-- ===== src/Sync/WaitQueue/Parked.antt =====
-- What a parked task can rely on, whatever others do to its `WaitQueue`: it is queued until it is
-- woken.
use mathlib.Core.Path.{ap₂}
use dtact.Base.{
  In-keep_inv, In-Below, ℕ, suc, ◌≡◌, refl, sym, ap, subst, ◌∙◌, ◌⊎◌, inl, inr, true, Option, none,
  some, List, [], ◌∷◌, ◌++◌, append-nil, append_assoc, arith, ltb, Bool-cases, update, update_self,
  length, keep, keep-append, keep-update, In, Distinct, Below, In-append_left, In-append_right,
  Distinct-insert, Below-NotIn, Below-mono, Below-append, Below-append_inv,
}
use dtact.Lockfree.Mpmc.Fifo.{fifo_push}
use dtact.Sync.WaitQueue.{
  WaitQueue, new, ready_list, ready_capacity, register, cancel, pop_valid, wake_overflow,
  wake_ready, wake_from, wake_one,
}
use dtact.Sync.WaitQueue.Laws.{Cut, pop_valid-Cut, Distinct-suffix, Below-suffix}
use dtact.Sync.WaitQueue.Waiting.{entries, waiting, IsOrdered, WakesOne, wake_one-WakesOne}

-- The entry `t` stands for the task `w`, and it waits or has been woken.
pub record Parked (t w : ℕ) (q : WaitQueue) : Type 0 where
  pub task : q.waker t ≡ w
  pub reached : In t (waiting q) ⊎ In t q.woken

unfoldable pub Registered : WaitQueue → ℕ → WaitQueue → Type 0
Registered q w q' =
    (waiting q' ≡ keep q.valid (ready_list q.ready) ++ q.fresh ∷ keep q.valid q.overflow)
    × (q'.waker ≡ update q.waker q.fresh w)
    × (q'.woken ≡ q.woken)
    × IsOrdered q'

-- A queue with the new entry between the ready ones and the overflow.
registered :
    (q : WaitQueue) (w : ℕ) (q' : WaitQueue)
    → IsOrdered q
    → entries q' ≡ ready_list q.ready ++ q.fresh ∷ q.overflow
    → q'.valid ≡ update q.valid q.fresh true
    → q'.waker ≡ update q.waker q.fresh w
    → q'.fresh ≡ suc q.fresh
    → q'.woken ≡ q.woken
    → Registered q w q'
unfolding Registered
registered q w q' o at_end v wk f log = (
  ap₂ keep v at_end
      ∙ keep-append (update q.valid q.fresh true) r (q.fresh ∷ q.overflow)
      ∙ ap₂ ◌++◌ (keep-update q.valid q.fresh true r (Below-NotIn q.fresh r parts.0)) (
          rw (update_self q.valid q.fresh true) (
            ap (◌∷◌ q.fresh) (
              keep-update q.valid q.fresh true q.overflow
                (Below-NotIn q.fresh q.overflow parts.1)))),
  wk,
  log,
  record {
    distinct = rw at_end (Distinct-insert q.fresh r q.overflow o.older o.distinct);
    older =
        rw (at_end, f)
          (Below-append (suc q.fresh) r (q.fresh ∷ q.overflow)
            (Below-mono q.fresh (suc q.fresh) r (omega arith) parts.0)
            (omega arith, Below-mono q.fresh (suc q.fresh) q.overflow (omega arith) parts.1));
    logged = rw (log, f) (Below-mono q.fresh (suc q.fresh) q.woken (omega arith) o.logged);
  },
)
  where
    r : List ℕ
    r = ready_list q.ready

    parts : Below q.fresh r × Below q.fresh q.overflow
    parts = Below-append_inv q.fresh r q.overflow o.older

pub register-Registered : (q : WaitQueue) (w : ℕ) → IsOrdered q → Registered q w (register q w).0
unfolding register fifo_push
register-Registered q w o = elim (Bool-cases (ltb (length r) ready_capacity)) [
  | inl room ↦
      rw (room, register)
        (registered q w _ o (append_assoc r (q.fresh ∷ []) q.overflow) refl refl refl refl)
  | inr full ↦ rw (full, register) (registered q w _ o refl refl refl refl refl)
]
  where
    r : List ℕ
    r = ready_list q.ready

-- The wakers and the entries that a wake leaves: those behind a point of the queue.
Leaves : WaitQueue → WaitQueue → Type 0
Leaves q q' =
    (q'.waker ≡ q.waker) × (q'.fresh ≡ q.fresh) × (gone : List ℕ) × (entries q ≡ gone ++ entries q')

wake_overflow-Leaves :
    (q : WaitQueue) (r : List ℕ × Option ℕ)
    → ready_list q.ready ≡ []
    → Cut q.valid q.overflow r
    → Leaves q (wake_overflow q r)
unfolding Leaves
wake_overflow-Leaves q (rest, none) empty (nothing, skip) =
    (refl, refl, q.overflow, rw (empty, nothing) (sym (append-nil q.overflow)))
wake_overflow-Leaves q (rest, some e) empty (skipped, split, skip, on) =
    (refl, refl, skipped ++ e ∷ [], rw (empty) (split ∙ sym (append_assoc skipped (e ∷ []) rest)))

wake_ready-Leaves :
    (q : WaitQueue) (l : List ℕ) (r : List ℕ × Option ℕ)
    → q.ready ≡ some l
    → Cut q.valid l r
    → Leaves q (wake_ready q r)
unfolding Leaves
wake_ready-Leaves q l (rest, none) e (nothing, skip) =
    let (wk, f, gone, split) =
      wake_overflow-Leaves (record q { ready = some rest }) (pop_valid q.valid q.overflow) nothing
        (pop_valid-Cut q.valid q.overflow) in
    (
      wk,
      f,
      ready_list q.ready ++ gone,
      ap (◌++◌ (ready_list q.ready)) (ap (λ k. k ++ q.overflow) (sym nothing) ∙ split)
          ∙ sym (append_assoc (ready_list q.ready) gone _),
    )
wake_ready-Leaves q l (rest, some x) e (skipped, split, skip, on) = (
  refl,
  refl,
  skipped ++ x ∷ [],
  ap (λ r. ready_list r ++ q.overflow) e
      ∙ ap (λ k. k ++ q.overflow) (split ∙ sym (append_assoc skipped (x ∷ []) rest))
      ∙ append_assoc (skipped ++ x ∷ []) rest q.overflow,
)

wake_from-Leaves : (q : WaitQueue) (r : Option (List ℕ)) → q.ready ≡ r → Leaves q (wake_from q r)
wake_from-Leaves q none e =
    wake_overflow-Leaves q (pop_valid q.valid q.overflow) (ap ready_list e)
      (pop_valid-Cut q.valid q.overflow)
wake_from-Leaves q (some l) e =
    wake_ready-Leaves q l (pop_valid q.valid l) e (pop_valid-Cut q.valid l)

-- A wake keeps the order: what it logs was queued.
Leaves-IsOrdered : (q q' : WaitQueue) → Leaves q q' → WakesOne q q' → IsOrdered q → IsOrdered q'
unfolding Leaves
Leaves-IsOrdered q q' (wk, f, gone, split) w o = record {
  distinct = Distinct-suffix gone (entries q') (subst Distinct split o.distinct);
  older = rw f (Below-suffix q.fresh gone (entries q') (subst (Below q.fresh) split o.older));
  logged = rw f (logged w);
}
  where
    logged : WakesOne q q' → Below q.fresh q'.woken
    logged (inl (empty, after, log)) = rw log o.logged
    logged (inr (e, es, before, after, log)) =
        let (queued, on) = In-keep_inv q.valid e (entries q) (rw before (inl refl)) in
        rw log (
          Below-append q.fresh q.woken (e ∷ []) o.logged
            (In-Below e q.fresh (entries q) queued o.older, tt))

pub wake_one-IsOrdered : (q : WaitQueue) → IsOrdered q → IsOrdered (wake_one q)
unfolding wake_one
wake_one-IsOrdered q o =
    Leaves-IsOrdered q _ (wake_from-Leaves q q.ready refl) (wake_one-WakesOne q o) o

pub wake_one-waker : (q : WaitQueue) → (wake_one q).waker ≡ q.waker
unfolding wake_one Leaves
wake_one-waker q = (wake_from-Leaves q q.ready refl).0

pub cancel-IsOrdered : (q : WaitQueue) (t : ℕ) → IsOrdered q → IsOrdered (cancel q t)
unfolding cancel
cancel-IsOrdered q t o = record { distinct = o.distinct; older = o.older; logged = o.logged }

pub register-IsOrdered : (q : WaitQueue) (w : ℕ) → IsOrdered q → IsOrdered (register q w).0
unfolding Registered
register-IsOrdered q w o = (register-Registered q w o).3

-- A task is parked from its registration on.
pub register-Parked : (q : WaitQueue) (w : ℕ) → IsOrdered q → Parked q.fresh w (register q w).0
unfolding Registered
register-Parked q w o =
    let (wait, wk, log, ord) = register-Registered q w o in
    record {
      task = ap (λ f. f q.fresh) wk ∙ update_self q.waker q.fresh w;
      reached =
          inl (rw wait (In-append_right q.fresh (keep q.valid (ready_list q.ready)) _ (inl refl)));
    }

-- One wake, whoever it reaches, leaves a parked task parked.
wake-reached :
    (t : ℕ) (q q' : WaitQueue)
    → WakesOne q q'
    → In t (waiting q) ⊎ In t q.woken
    → In t (waiting q') ⊎ In t q'.woken
wake-reached t q q' (inl (empty, after, log)) (inl i) = absurd (subst (In t) empty i)
wake-reached t q q' (inl (empty, after, log)) (inr i) = inr (rw log i)
wake-reached t q q' (inr (x, xs, before, after, log)) (inr i) =
    inr (rw log (In-append_left t q.woken (x ∷ []) i))
wake-reached t q q' (inr (x, xs, before, after, log)) (inl i) = elim (subst (In t) before i) [
  | inl k ↦ inr (rw log (In-append_right t q.woken (x ∷ []) (inl k)))
  | inr k ↦ inl (rw after k)
]

pub wake_one-Parked :
    (t w : ℕ) (q : WaitQueue) → IsOrdered q → Parked t w q → Parked t w (wake_one q)
wake_one-Parked t w q o p = record {
  task = ap (λ f. f t) (wake_one-waker q) ∙ p.task;
  reached = wake-reached t q (wake_one q) (wake_one-WakesOne q o) p.reached;
}

-- An empty queue is in order.
pub new-IsOrdered : IsOrdered new
new-IsOrdered = record { distinct = tt; older = tt; logged = tt }

-- One task waits in an otherwise unused queue.
abbrev pub lone : ℕ → WaitQueue
lone w = (register new w).0

pub lone-IsOrdered : (w : ℕ) → IsOrdered (lone w)
lone-IsOrdered w = register-IsOrdered new w new-IsOrdered

pub lone-Parked : (w : ℕ) → Parked 0 w (lone w)
lone-Parked w = register-Parked new w new-IsOrdered

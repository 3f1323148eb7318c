-- ===== src/Sync/WaitQueue/Waiting.antt =====
-- `WaitQueue` seen as the list of entries that still wait, the next to be woken first.
use dtact.Base.{
  ℕ, ◌≡◌, refl, sym, ap, subst, ◌∙◌, ◌⊎◌, inl, inr, Bool, true, false, Option, none, some, List, [],
  ◌∷◌, ◌++◌, reverse, append-nil, append_assoc, update, update_ne, keep, keep-append, keep-update,
  NotIn, Distinct, Below,
}
use dtact.Sync.WaitQueue.{
  WaitQueue, ready_list, pop_valid, wake_overflow, wake_ready, wake_from, wake_one, wake_if,
  wake_each, wake_all, emptied,
}
use dtact.Sync.WaitQueue.Laws.{
  Cut, pop_valid-Cut, keep-cut, keep-woken, keep-off, Distinct-append_reverse, Distinct-suffix,
}

-- Every entry that is queued, tombstones included.
abbrev pub entries : WaitQueue → List ℕ
entries q = ready_list q.ready ++ q.overflow

-- The entries that a wake may still reach.
abbrev pub waiting : WaitQueue → List ℕ
waiting q = keep q.valid (entries q)

-- The queued entries are distinct, and they and those woken are older than the next one.
pub record IsOrdered (q : WaitQueue) : Type 0 where
  pub distinct : Distinct (entries q)
  pub older : Below q.fresh (entries q)
  pub logged : Below q.fresh q.woken

-- What one wake does: it wakes the first that waits, or nobody if none does.
abbrev pub WakesOne : WaitQueue → WaitQueue → Type 0
WakesOne q q' =
    ((waiting q ≡ []) × (waiting q' ≡ []) × (q'.woken ≡ q.woken))
    ⊎ ((e : ℕ) × (es : List ℕ) × (waiting q ≡ e ∷ es)
        × (waiting q' ≡ es)
        × (q'.woken ≡ q.woken ++ e ∷ []))

wake_overflow-WakesOne :
    (q : WaitQueue) (r : List ℕ × Option ℕ)
    → Distinct (entries q)
    → keep q.valid (ready_list q.ready) ≡ []
    → Cut q.valid q.overflow r
    → WakesOne q (wake_overflow q r)
wake_overflow-WakesOne q (rest, none) d empty (nothing, skip) = inl (
  rw (keep-append q.valid (ready_list q.ready) q.overflow, empty) skip,
  rw nothing (rw append-nil empty),
  refl,
)
wake_overflow-WakesOne q (rest, some e) d empty (skipped, split, skip, on) = inr (
  e,
  keep q.valid rest,
  rw (keep-append q.valid (ready_list q.ready) q.overflow, empty)
      (ap (keep q.valid) split ∙ keep-cut q.valid skipped e rest skip on),
  rw
      (
        keep-append (update q.valid e false) (ready_list q.ready) rest,
        keep-off q.valid e (ready_list q.ready) empty,
      )
      (keep-woken q.valid skipped e rest
        (subst Distinct split (Distinct-suffix (ready_list q.ready) q.overflow d))),
  refl,
)

WakesOne-ready :
    (q : WaitQueue) (r : Option (List ℕ)) (q' : WaitQueue)
    → waiting (record q { ready = r }) ≡ waiting q
    → WakesOne (record q { ready = r }) q'
    → WakesOne q q'
WakesOne-ready q r q' same (inl (none_left, after, log)) = inl (sym same ∙ none_left, after, log)
WakesOne-ready q r q' same (inr (e, es, before, after, log)) =
    inr (e, es, sym same ∙ before, after, log)

wake_ready-WakesOne :
    (q : WaitQueue) (l : List ℕ) (r : List ℕ × Option ℕ)
    → IsOrdered q
    → q.ready ≡ some l
    → Cut q.valid l r
    → WakesOne q (wake_ready q r)
wake_ready-WakesOne q l (rest, none) o e (nothing, skip) =
    WakesOne-ready q (some rest)
      (wake_overflow (record q { ready = some rest }) (pop_valid q.valid q.overflow))
      (rw (
        keep-append q.valid rest q.overflow,
        keep-append q.valid (ready_list q.ready) q.overflow,
        ready_skipped,
        nothing,
      ))
      (wake_overflow-WakesOne (record q { ready = some rest }) (pop_valid q.valid q.overflow)
        (rw nothing (Distinct-suffix (ready_list q.ready) q.overflow o.distinct)) (rw nothing)
        (pop_valid-Cut q.valid q.overflow))
  where
    ready_skipped : keep q.valid (ready_list q.ready) ≡ []
    ready_skipped = ap (λ r. keep q.valid (ready_list r)) e ∙ skip
wake_ready-WakesOne q l (rest, some x) o e (skipped, split, skip, on) = inr (
  x,
  keep q.valid (rest ++ q.overflow),
  ap (keep q.valid) all ∙ keep-cut q.valid skipped x (rest ++ q.overflow) skip on,
  keep-woken q.valid skipped x (rest ++ q.overflow) (subst Distinct all o.distinct),
  refl,
)
  where
    all : entries q ≡ skipped ++ x ∷ (rest ++ q.overflow)
    all =
        ap (λ r. ready_list r ++ q.overflow) e
        ∙ ap (λ k. k ++ q.overflow) split
        ∙ append_assoc skipped (x ∷ rest) q.overflow

wake_from-WakesOne :
    (q : WaitQueue) (r : Option (List ℕ)) → IsOrdered q → q.ready ≡ r → WakesOne q (wake_from q r)
wake_from-WakesOne q none o e =
    wake_overflow-WakesOne q (pop_valid q.valid q.overflow) o.distinct
      (ap (λ r. keep q.valid (ready_list r)) e) (pop_valid-Cut q.valid q.overflow)
wake_from-WakesOne q (some l) o e =
    wake_ready-WakesOne q l (pop_valid q.valid l) o e (pop_valid-Cut q.valid l)

-- On a queue in order, `wake_one` wakes exactly the first entry that waits, skips tombstones, and
-- wakes nobody only if nobody waits.
pub wake_one-WakesOne : (q : WaitQueue) → IsOrdered q → WakesOne q (wake_one q)
unfolding wake_one
wake_one-WakesOne q o = wake_from-WakesOne q q.ready o refl

-- The effect of waking the entries `es`: those that are valid are woken, in order, and none of them
-- is valid afterwards.
record Wakes (q : WaitQueue) (es : List ℕ) (q' : WaitQueue) : Type 0 where
  log : q'.woken ≡ q.woken ++ keep q.valid es
  same_fresh : q'.fresh ≡ q.fresh
  same_waker : q'.waker ≡ q.waker
  same_ready : q'.ready ≡ q.ready
  same_overflow : q'.overflow ≡ q.overflow
  others : (a : ℕ) → NotIn a es → q'.valid a ≡ q.valid a

Wakes-cons :
    (b : Bool) (q : WaitQueue) (e : ℕ) (es : List ℕ) (q' : WaitQueue)
    → q.valid e ≡ b
    → NotIn e es
    → Wakes (wake_if b q e) es q'
    → Wakes q (e ∷ es) q'
Wakes-cons true q e es q' on out w = record {
  log = rw on (
      w.log
      ∙ append_assoc q.woken (e ∷ []) _
      ∙ ap (λ l. q.woken ++ e ∷ l) (keep-update q.valid e false es out));
  same_fresh = w.same_fresh;
  same_waker = w.same_waker;
  same_ready = w.same_ready;
  same_overflow = w.same_overflow;
  others = λ a o. w.others a o.1 ∙ update_ne q.valid e a false (λ k. o.0 (sym k));
}
Wakes-cons false q e es q' off out w = record {
  log = rw off w.log;
  same_fresh = w.same_fresh;
  same_waker = w.same_waker;
  same_ready = w.same_ready;
  same_overflow = w.same_overflow;
  others = λ a o. w.others a o.1;
}

wake_each-Wakes : (q : WaitQueue) (es : List ℕ) → Distinct es → Wakes q es (wake_each q es)
unfolding wake_each
wake_each-Wakes q [] d = record {
  log = sym (append-nil q.woken);
  same_fresh = refl;
  same_waker = refl;
  same_ready = refl;
  same_overflow = refl;
  others = λ a out. refl;
}
wake_each-Wakes q (e ∷ es) d =
    Wakes-cons (q.valid e) q e es (wake_each (wake_if (q.valid e) q e) es) refl d.0
      (wake_each-Wakes (wake_if (q.valid e) q e) es d.1)

wake_each-append :
    (q : WaitQueue) (xs ys : List ℕ) → wake_each (wake_each q xs) ys ≡ wake_each q (xs ++ ys)
unfolding wake_each
wake_each-append q [] ys = refl
wake_each-append q (x ∷ xs) ys = wake_each-append (wake_if (q.valid x) q x) xs ys

emptied-nil : (r : Option (List ℕ)) → ready_list (emptied r) ≡ []
emptied-nil none = refl
emptied-nil (some _) = refl

module _ (q : WaitQueue) (o : IsOrdered q) where
  started : WaitQueue
  started = record q { ready = emptied q.ready; overflow = [] }

  abbrev all : List ℕ
  all = ready_list q.ready ++ reverse q.overflow

  all-Wakes : Wakes started all (wake_all q)
  unfolding wake_all started
  all-Wakes = rw (wake_each-append started (ready_list q.ready) (reverse q.overflow)) (
      wake_each-Wakes started all
        (Distinct-append_reverse (ready_list q.ready) q.overflow o.distinct))

  -- `wake_all` empties the queue, tombstones included.
  pub wake_all-entries : entries (wake_all q) ≡ []
  unfolding started
  wake_all-entries =
      ap (λ r. ready_list r ++ (wake_all q).overflow) all-Wakes.same_ready
      ∙ ap (λ l. ready_list (emptied q.ready) ++ l) all-Wakes.same_overflow
      ∙ append-nil (ready_list (emptied q.ready))
      ∙ emptied-nil q.ready

  -- On a queue in order, `wake_all` wakes every entry that waits, those of the ready queue first and then those of the
  -- overflow from the oldest, and leaves nobody waiting.
  pub wake_all-woken :
      (waiting (wake_all q) ≡ [])
      × ((wake_all q).woken ≡ q.woken ++ keep q.valid (ready_list q.ready ++ reverse q.overflow))
  unfolding started
  wake_all-woken = (ap (keep (wake_all q).valid) wake_all-entries, all-Wakes.log)

  pub wake_all-same : ((wake_all q).waker ≡ q.waker) × ((wake_all q).fresh ≡ q.fresh)
  unfolding started
  wake_all-same = (all-Wakes.same_waker, all-Wakes.same_fresh)

-- ===== src/Sync/WaitQueue/Others.antt =====
-- A parked task stays parked while others register, cancel and wake, and `wake_all` wakes it.
use dtact.Base.{
  In-Below, In-keep, In-keep_inv, ℕ, ◌<◌, ◌≡◌, refl, ap, ◌∙◌, ◌≢◌, inl, inr, Bool, false, not, ◌||◌,
  List, [], ◌∷◌, ◌++◌, reverse, reverse-cons, arith, Bool-cases, update, update_ne, keep, In, Below,
  In-append_left, In-append_right, In-append, Below-append, Below-append_inv,
}
use dtact.Sync.WaitQueue.{WaitQueue, ready_list, register, cancel, wake_all, has_waiters, is_nil}
use dtact.Sync.WaitQueue.Waiting.{
  entries, waiting, IsOrdered, wake_all-woken, wake_all-entries, wake_all-same,
}
use dtact.Sync.WaitQueue.Parked.{Parked, Registered, register-Registered}

-- A parked entry is older than the next one.
Parked-lt : (t w : ℕ) (q : WaitQueue) → IsOrdered q → Parked t w q → t < q.fresh
Parked-lt t w q o p = elim p.reached [
  | inl i ↦ In-Below t q.fresh (entries q) (In-keep_inv q.valid t (entries q) i).0 o.older
  | inr i ↦ In-Below t q.fresh q.woken i o.logged
]

-- A queued entry stays queued when another one is registered.
In-registered :
    (t : ℕ) (q : WaitQueue)
    → In t (waiting q)
    → In t (keep q.valid (ready_list q.ready) ++ q.fresh ∷ keep q.valid q.overflow)
In-registered t q i =
    let (queued, on) = In-keep_inv q.valid t (entries q) i in
    elim (In-append t (ready_list q.ready) q.overflow queued) [
      | inl r ↦
          In-append_left t (keep q.valid (ready_list q.ready)) _
            (In-keep q.valid t (ready_list q.ready) r on)
      | inr r ↦
          In-append_right t (keep q.valid (ready_list q.ready)) _
            (inr (In-keep q.valid t q.overflow r on))
    ]

-- Another registration leaves a parked task parked.
pub register-Parked_other :
    (t w w' : ℕ) (q : WaitQueue) → IsOrdered q → Parked t w q → Parked t w (register q w').0
unfolding Registered
register-Parked_other t w w' q o p =
    let (wait, wk, log, ord) = register-Registered q w' o in
    let lt = Parked-lt t w q o p in
    record {
      task = ap (λ f. f t) wk ∙ update_ne q.waker q.fresh t w' (λ k. absurd (omega arith)) ∙ p.task;
      reached = elim p.reached [
        | inl i ↦ inl (rw wait (In-registered t q i))
        | inr i ↦ inr (rw log i)
      ];
    }

-- Another task's cancellation leaves a parked task parked.
pub cancel-Parked_other :
    (t w t' : ℕ) (q : WaitQueue) → t' ≢ t → Parked t w q → Parked t w (cancel q t')
unfolding cancel
cancel-Parked_other t w t' q ne p = record {
  task = p.task;
  reached = elim p.reached [
    | inl i ↦
        let (queued, on) = In-keep_inv q.valid t (entries q) i in
        inl (
          In-keep (update q.valid t' false) t (entries q) queued
            (update_ne q.valid t' t false ne ∙ on))
    | inr i ↦ inr i
  ];
}

In-reverse : (a : ℕ) (l : List ℕ) → In a l → In a (reverse l)
In-reverse a [] h = absurd h
In-reverse a (x ∷ xs) (inl e) =
    rw (reverse-cons x xs) (In-append_right a (reverse xs) (x ∷ []) (inl e))
In-reverse a (x ∷ xs) (inr h) =
    rw (reverse-cons x xs) (In-append_left a (reverse xs) (x ∷ []) (In-reverse a xs h))

-- What `wake_all` logs holds every entry that waited.
In-woken :
    (t : ℕ) (q : WaitQueue)
    → In t (waiting q)
    → In t (keep q.valid (ready_list q.ready ++ reverse q.overflow))
In-woken t q i =
    let (queued, on) = In-keep_inv q.valid t (entries q) i in
    In-keep q.valid t (ready_list q.ready ++ reverse q.overflow)
      (elim (In-append t (ready_list q.ready) q.overflow queued) [
        | inl r ↦ In-append_left t (ready_list q.ready) (reverse q.overflow) r
        | inr r ↦
            In-append_right t (ready_list q.ready) (reverse q.overflow) (In-reverse t q.overflow r)
      ])
      on

-- `wake_all` wakes every parked task.
pub wake_all-reached :
    (t w : ℕ) (q : WaitQueue) → IsOrdered q → Parked t w q → In t (wake_all q).woken
wake_all-reached t w q o p = rw ((wake_all-woken q o).1) (elim p.reached [
  | inl i ↦ In-append_right t q.woken _ (In-woken t q i)
  | inr i ↦ In-append_left t q.woken _ i
])

pub wake_all-Parked :
    (t w : ℕ) (q : WaitQueue) → IsOrdered q → Parked t w q → Parked t w (wake_all q)
wake_all-Parked t w q o p = record {
  task = ap (λ f. f t) (wake_all-same q o).0 ∙ p.task;
  reached = inr (wake_all-reached t w q o p);
}

Below-keep : (n : ℕ) (v : ℕ → Bool) (l : List ℕ) → Below n l → Below n (keep v l)
Below-keep n v [] b = tt
Below-keep n v (x ∷ xs) b = elim (Bool-cases (v x)) [
  | inl e ↦ rw e (b.0, Below-keep n v xs b.1)
  | inr e ↦ rw e (Below-keep n v xs b.1)
]

Below-reverse : (n : ℕ) (l : List ℕ) → Below n l → Below n (reverse l)
Below-reverse n [] b = tt
Below-reverse n (x ∷ xs) b =
    rw (reverse-cons x xs) (Below-append n (reverse xs) (x ∷ []) (Below-reverse n xs b.1) (b.0, tt))

pub wake_all-IsOrdered : (q : WaitQueue) → IsOrdered q → IsOrdered (wake_all q)
wake_all-IsOrdered q o =
    let e = wake_all-entries q o in
    let (r, s) = Below-append_inv q.fresh (ready_list q.ready) q.overflow o.older in
    record {
      distinct = rw e tt;
      older = rw e tt;
      logged =
          rw ((wake_all-woken q o).1, (wake_all-same q o).1)
            (Below-append q.fresh q.woken _ o.logged (
              Below-keep q.fresh q.valid (ready_list q.ready ++ reverse q.overflow) (
                Below-append q.fresh (ready_list q.ready) (reverse q.overflow) r
                  (Below-reverse q.fresh q.overflow s))));
    }

-- Only when nobody waits can `has_waiters` answer no.
pub has_waiters-false : (q : WaitQueue) → has_waiters q ≡ false → waiting q ≡ []
unfolding has_waiters
has_waiters-false q h = go (ready_list q.ready) q.overflow h
  where
    go : (r o : List ℕ) → (not (is_nil r) || not (is_nil o)) ≡ false → keep q.valid (r ++ o) ≡ []
    go [] [] h = refl
    go [] (x ∷ o) h = cc
    go (x ∷ r) o h = cc

-- Another task that registers, then finds that it need not wait, leaves a parked task parked.
pub withdraw-Parked_other :
    (t w w' : ℕ) (q : WaitQueue)
    → IsOrdered q
    → Parked t w q
    → Parked t w (cancel (register q w').0 q.fresh)
withdraw-Parked_other t w w' q o p =
    let lt = Parked-lt t w q o p in
    cancel-Parked_other t w q.fresh (register q w').0 (λ k. absurd (omega arith))
      (register-Parked_other t w w' q o p)

-- ===== src/Sync/Mutex/Abandon.antt =====
-- `Mutex`: a `lock` future that is dropped while it waits. It has no `Drop` of its own, so that its
-- entry stays in the queue.
use dtact.Base.{ℕ, ◌≡◌, refl, ap, ◌∙◌, inl, inr, false, List, [], ◌∷◌, ◌++◌}
use dtact.Sync.WaitQueue
use dtact.Sync.WaitQueue.{WaitQueue}
use dtact.Sync.WaitQueue.Waiting.{waiting, IsOrdered, WakesOne, wake_one-WakesOne}
use dtact.Sync.Mutex.{Mutex, unlock, wake, drop_guard, drop_lock}

first_woken :
    (q q' : WaitQueue) (t : ℕ) (rest : List ℕ)
    → waiting q ≡ t ∷ rest
    → WakesOne q q'
    → (waiting q' ≡ rest) × (q'.woken ≡ q.woken ++ t ∷ [])
first_woken q q' t rest at (inl (empty, after, log)) = absurd cc
first_woken q q' t rest at (inr (e, es, before, after, log)) =
    let same : e ≡ t = cc in
    let left : es ≡ rest = cc in (after ∙ left, log ∙ ap (λ i. q.woken ++ i ∷ []) same)

-- Two tasks at least wait for a mutex whose wait queue is in order, and the future of the first is
-- dropped. Then the drop of the guard unlocks the mutex and spends its one wake on the entry of the
-- dropped future: the others wait as before, the second at their head, and none of them is woken.
pub drop_guard-abandoned {ℓ} :
    {T : Type ℓ} (m : Mutex T) (t u : ℕ) (rest : List ℕ)
    → IsOrdered m.wait
    → waiting m.wait ≡ t ∷ u ∷ rest
    → (let m' = drop_guard (drop_lock t m) in
        (m'.locked ≡ false)
        × (waiting m'.wait ≡ u ∷ rest)
        × (m'.wait.woken ≡ m.wait.woken ++ t ∷ []))
unfolding drop_guard drop_lock unlock wake
drop_guard-abandoned m t u rest o at =
    let (left, log) =
      first_woken m.wait (WaitQueue.wake_one m.wait) t (u ∷ rest) at (wake_one-WakesOne m.wait o) in
    (refl, left, log)

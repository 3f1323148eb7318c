-- ===== src/Scheduler/Await/Heard.antt =====
-- One fiber that waits for another is woken, or will be; of two, the first can wait for ever.
use dtact.Base.{ℕ, ◌≡◌, ◌≢◌, refl, sym, true, false, none, ==_self, ==_of_ne}
use dtact.Scheduler.Await.{finished, freed, suspended, Join, take_waiter, register_waiter}
use dtact.Scheduler.Await.Spots.{At}

record Holds (k : ℕ) (j : Join) : Type 0 where
  at : At (j.spots k) k j.phase j.late_wake j.waiter (j.woken k)
  late : j.noted ≡ true → j.late_wake ≡ true

-- While one fiber is suspended and not yet woken, another registers for the same fiber, which then
-- finishes, takes the waiter and is freed. The other has been woken; the first is suspended still, and
-- no waiter is left.
pub register_waiter-overwrites :
    (k l : ℕ) (j : Join)
    → k ≢ l
    → j.spots k ≡ suspended
    → j.woken k ≡ false
    → (let e = record (take_waiter (record (register_waiter l j) { phase = finished })) {
      phase = freed;
      current = false;
    } in
        (e.spots k ≡ suspended) × (e.woken k ≡ false) × (e.woken l ≡ true) × (e.waiter ≡ none))
unfolding take_waiter register_waiter
register_waiter-overwrites k l j apart at asleep =
    rw (==_of_ne l k (λ e. apart (sym e)), ==_self l) (at, asleep, refl, refl)

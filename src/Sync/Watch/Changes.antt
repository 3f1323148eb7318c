-- ===== src/Sync/Watch/Changes.antt =====
-- The latest-value channel: a receiver hears of every change, and a pending one is not forgotten.
use dtact.Base.{
  ℕ, suc, ◌+◌, ◌^◌, ◌%◌, ◌<◌, ◌≡◌, ◌≢◌, refl, sym, ap, ◌∙◌, ◌⊎◌, inl, inr, Bool, true, false,
  Bool-cases, none, some, List, [], ◌∷◌, arith, ◌==◌, ==_of_ne, ==_iff, length,
}
use dtact.Sync.Poll.{ready, pending}
use dtact.Sync.WaitQueue.Waiting.{IsOrdered}
use dtact.Sync.WaitQueue.Parked.{Parked}
use dtact.Sync.WaitQueue.Others.{wake_all-Parked, wake_all-IsOrdered}
use dtact.Sync.Protocol.{Keeps, Keeps-id, Keeps-comp}
use dtact.Sync.Protocol.Polls.{poll_with-Parked}
use dtact.Sync.Watch.{
  Shared, Changed, changed, Access, writes, bumps, wakes, clones, drops, write, bump, wake_all,
  send, clone_sender, drop_sender, borrow_and_update, observe_by, try_observe_change, last_look,
  closed_by, or_closed, attempt_change, observes, poll_changed, send_all, access, run,
}

nonzero : (n : ℕ) → (n == 0) ≡ false → n ≢ 0
nonzero n h e = ground arith

moved : (v n : ℕ) → v < 2 ^ 64 → 0 < n → n < 2 ^ 64 → (v + n) % 2 ^ 64 ≢ v
moved v n a b d e = absurd (omega arith)

module _ {ℓ} {T : Type ℓ} where
  access-Keeps : (a : Access T) → Keeps observes (λ c. access c a)
  unfolding access write bump wake_all clone_sender drop_sender
  access-Keeps (writes t) = record { ordered = λ s o. o; parked = λ s t w o h. h }
  access-Keeps bumps = record { ordered = λ s o. o; parked = λ s t w o h. h }
  access-Keeps wakes = record {
    ordered = λ s. wake_all-IsOrdered s.wait;
    parked = λ s t w. wake_all-Parked t w s.wait;
  }
  access-Keeps clones = record { ordered = λ s o. o; parked = λ s t w o h. h }
  access-Keeps drops = record {
    ordered = λ s o. elim (Bool-cases (s.sender_count == 1)) [
      | inl e ↦ rw e (wake_all-IsOrdered s.wait o)
      | inr e ↦ rw e o
    ];
    parked = λ s t w o h. elim (Bool-cases (s.sender_count == 1)) [
      | inl e ↦ rw e (wake_all-Parked t w s.wait o h)
      | inr e ↦ rw e h
    ];
  }

  run-Keeps : (l : List (Access T)) → Keeps observes (run l)
  unfolding run
  run-Keeps [] = Keeps-id observes
  run-Keeps (a ∷ l) = Keeps-comp observes (λ c. access c a) (run l) (access-Keeps a) (run-Keeps l)

  last_look-some : (p : Shared T × Bool) → (last_look p).1 ≢ none
  last_look-some (c, true) e = cc
  last_look-some (c, false) e = cc

  closed_by-none :
      (b : Bool) (c : Shared T)
      → (c.sender_count == 0) ≡ b
      → c.version ≡ c.seen_version
      → (closed_by b c).1 ≡ none
      → ((closed_by b c).0.version ≡ (closed_by b c).0.seen_version)
        × ((closed_by b c).0.sender_count ≢ 0)
  closed_by-none true c s v e = absurd (last_look-some (try_observe_change c) e)
  closed_by-none false c s v e = (v, nonzero c.sender_count s)

  same_of_failure :
      (c : Shared T)
      → (attempt_change c).1 ≡ none
      → ((attempt_change c).0.version ≡ (attempt_change c).0.seen_version)
        × ((attempt_change c).0.sender_count ≢ 0)
  unfolding attempt_change try_observe_change
  same_of_failure c = by_test (c.version == c.seen_version) refl
    where
      by_test :
          (b : Bool)
          → (c.version == c.seen_version) ≡ b
          → (or_closed (observe_by b c)).1 ≡ none
          → ((or_closed (observe_by b c)).0.version ≡ (or_closed (observe_by b c)).0.seen_version)
            × ((or_closed (observe_by b c)).0.sender_count ≢ 0)
      by_test true k e =
          closed_by-none (c.sender_count == 0) c refl ((==_iff c.version c.seen_version).0 k) e
      by_test false k e = cc

  -- Whatever accesses of the senders come before and between the steps of a poll of `changed`, on a
  -- wait queue in order: the receiver gets an answer, or it is told to wait, it has seen the current
  -- version, a sender is alive, and the task is parked (in the queue and valid, or woken).
  pub poll_changed-Parked :
      (before between : List (Access T)) (c : Shared T) (w : ℕ)
      → IsOrdered c.wait
      → let r = poll_changed (run before) (run between) c w in
        ((a : Changed) × (r.1 ≡ ready a))
        ⊎ ((r.1 ≡ pending)
            × (r.0.version ≡ r.0.seen_version)
            × (r.0.sender_count ≢ 0)
            × ((t : ℕ) × Parked t w r.0.wait))
  unfolding poll_changed
  poll_changed-Parked before between c w o =
      elim (poll_with-Parked observes (λ c. true) (run before) (run between) c w (run-Keeps before)
        (run-Keeps between) o) [
          | inl r ↦ inl r
          | inr (e, (s, (last, failed)), parked) ↦
              let (a, b) = same_of_failure s failed in
              inr (
                e,
                ap (λ r. r.version) last ∙ a ∙ sym (ap (λ r. r.seen_version) last),
                (λ k. b (sym (ap (λ r. r.sender_count) last) ∙ k)),
                parked,
              )
        ]

  send_all-version :
      (ts : List T) (c : Shared T)
      → c.version < 2 ^ 64
      → (send_all ts c).version ≡ (c.version + length ts) % 2 ^ 64
  unfolding send_all send write bump wake_all
  send_all-version [] c lt = omega arith
  send_all-version (t ∷ ts) c lt =
      send_all-version ts (send t c) (omega arith) ∙ wrap c.version (length ts)
    where
      wrap : (v n : ℕ) → ((v + 1) % 2 ^ 64 + n) % 2 ^ 64 ≡ (v + suc n) % 2 ^ 64
      wrap v n = omega arith

  send_all-seen : (ts : List T) (c : Shared T) → (send_all ts c).seen_version ≡ c.seen_version
  unfolding send_all send write bump wake_all
  send_all-seen [] c = refl
  send_all-seen (t ∷ ts) c = send_all-seen ts (send t c)

  -- After a receiver has borrowed and updated, any number of sends from one on and below 2^64 makes
  -- the next `changed` answer `Ok` at once, and then it has seen the last version.
  pub attempt_change-send_all :
      (ts : List T) (c : Shared T)
      → c.version < 2 ^ 64
      → 0 < length ts
      → length ts < 2 ^ 64
      → let c' = send_all ts (borrow_and_update c).0 in
        attempt_change c' ≡ (record c' { seen_version = c'.version }, some changed)
  unfolding attempt_change try_observe_change borrow_and_update
  attempt_change-send_all ts c lt some_sent few =
      ap (λ b. or_closed (observe_by b c')) (==_of_ne c'.version c'.seen_version differs)
    where
      c' : Shared T
      c' = send_all ts (record c { seen_version = c.version })

      differs : c'.version ≢ c'.seen_version
      differs e = moved c.version (length ts) lt some_sent few (
          sym (send_all-version ts (record c { seen_version = c.version }) lt)
          ∙ e
          ∙ send_all-seen ts (record c { seen_version = c.version }))

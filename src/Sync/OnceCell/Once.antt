-- ===== src/Sync/OnceCell/Once.antt =====
-- `OnceCell`: the cell is initialized once, its value never changes, and a caller that waits for the
-- value is not forgotten.
use dtact.Base.{
  ℕ, suc, ◌+◌, ◌≡◌, refl, ◌≢◌, ◌⊎◌, inl, inr, Bool, true, false, Option, none, some, List, [], ◌∷◌,
  arith, ok, err,
}
use dtact.Sync.Poll.{ready, pending}
use dtact.Sync.WaitQueue.{WaitQueue}
use dtact.Sync.WaitQueue.Waiting.{IsOrdered}
use dtact.Sync.WaitQueue.Parked.{Parked}
use dtact.Sync.WaitQueue.Others.{wake_all-Parked, wake_all-IsOrdered}
use dtact.Sync.Protocol.{Keeps, Keeps-id, Keeps-comp}
use dtact.Sync.Protocol.Polls.{poll-Keeps, poll_with-Parked}
use dtact.Sync.OnceCell.{
  Phase, uninit, initializing, init, OnceCell, Access, claims, writes, finishes, wakes, polls, new,
  get, claim_by, claim, write, finish, wake_all, publish, set_by, set, look, is_init, looks,
  poll_wait_for_init, access, run,
}

abbrev pub tokens_of : Bool → ℕ
tokens_of true = 1
tokens_of false = 0

module _ {ℓ} {T : Type ℓ} where
  -- `Reached tokens written c`: some sequence of accesses reaches `c`, with that many callers
  -- between their claim and their publication, `written` of which have written their value.
  pub data Reached : ℕ → ℕ → OnceCell T → Type ℓ where
    created : Reached 0 0 new
    claimed :
        (n k : ℕ) (c : OnceCell T)
        → Reached n k c
        → Reached (tokens_of (claim c).1 + n) k (claim c).0
    wrote : (n k : ℕ) (c : OnceCell T) (t : T) → Reached (suc n) k c → Reached n (suc k) (write t c)
    finished : (n k : ℕ) (c : OnceCell T) → Reached n (suc k) c → Reached n k (finish c)
    queued :
        (n k : ℕ) (c : OnceCell T) (q : WaitQueue)
        → Reached n k c
        → Reached n k (record c { wait = q })

  -- What the state says of the callers and of the contents.
  abbrev pub Says : Phase → ℕ → ℕ → Option T → Type ℓ
  Says uninit n k v = (n ≡ 0) × (k ≡ 0) × (v ≡ none)
  Says initializing n k v =
      ((n ≡ 1) × (k ≡ 0) × (v ≡ none)) ⊎ ((n ≡ 0) × (k ≡ 1) × ((t : T) × (v ≡ some t)))
  Says init n k v = (n ≡ 0) × (k ≡ 0) × ((t : T) × (v ≡ some t))

  claim-Says :
      (n k : ℕ) (c : OnceCell T)
      → Says c.state n k c.contents
      → Says (claim c).0.state (tokens_of (claim c).1 + n) k (claim c).0.contents
  unfolding claim
  claim-Says n k c h = by_phase c.state refl h
    where
      by_phase :
          (p : Phase)
          → c.state ≡ p
          → Says p n k c.contents
          → Says (claim_by p c).0.state (tokens_of (claim_by p c).1 + n) k (claim_by p c).0.contents
      by_phase uninit e (a, b, v) = inl (omega arith, b, v)
      by_phase initializing e (inl (a, b, v)) = rw e (inl (omega arith, b, v))
      by_phase initializing e (inr (a, b, v)) = rw e (inr (omega arith, b, v))
      by_phase init e (a, b, v) = rw e (omega arith, b, v)

  write-Says :
      (n k : ℕ) (p : Phase) (v : Option T) (t : T) → Says p (suc n) k v → Says p n (suc k) (some t)
  write-Says n k uninit v t (a, b, e) = absurd (omega arith)
  write-Says n k initializing v t (inl (a, b, e)) = inr (omega arith, omega arith, (t, refl))
  write-Says n k initializing v t (inr (a, b, e)) = absurd (omega arith)
  write-Says n k init v t (a, b, e) = absurd (omega arith)

  finish-Says : (n k : ℕ) (p : Phase) (v : Option T) → Says p n (suc k) v → Says init n k v
  finish-Says n k uninit v (a, b, e) = absurd (omega arith)
  finish-Says n k initializing v (inl (a, b, e)) = absurd (omega arith)
  finish-Says n k initializing v (inr (a, b, e)) = (a, omega arith, e)
  finish-Says n k init v (a, b, e) = absurd (omega arith)

  -- Over every interleaving of the accesses of callers that publish only with the token: in
  -- `UNINIT` no caller holds it and the cell is empty; in `INITIALIZING` one caller holds it, and the
  -- cell is empty until that caller writes; in `INIT` none holds it and the cell has a value.
  pub Reached-Says : (n k : ℕ) (c : OnceCell T) → Reached n k c → Says c.state n k c.contents
  unfolding new write finish
  Reached-Says _ _ _ created = (refl, refl, refl)
  Reached-Says _ _ _ (claimed n k c h) = claim-Says n k c (Reached-Says n k c h)
  Reached-Says _ _ _ (wrote n k c t h) =
      write-Says n k c.state c.contents t (Reached-Says (suc n) k c h)
  Reached-Says _ _ _ (finished n k c h) =
      finish-Says n k c.state c.contents (Reached-Says n (suc k) c h)
  Reached-Says _ _ _ (queued n k c q h) = Reached-Says n k c h

  -- `set` on an empty cell makes `get` answer the value, and on any other cell it changes nothing
  -- and gives the value back.
  pub get-set :
      (t : T) (c : OnceCell T)
      → ((c.state ≡ uninit) × ((set t c).1 ≡ ok) × (get (set t c).0 ≡ some t))
        ⊎ ((c.state ≢ uninit) × (set t c ≡ (c, err t)))
  unfolding get set claim publish write finish wake_all
  get-set t c = by_phase c.state refl
    where
      by_phase :
          (p : Phase)
          → c.state ≡ p
          → ((p ≡ uninit)
              × ((set_by (claim_by p c) t).1 ≡ ok)
              × (get (set_by (claim_by p c) t).0 ≡ some t))
            ⊎ ((p ≢ uninit) × (set_by (claim_by p c) t ≡ (c, err t)))
      by_phase uninit e = inl (refl, refl, refl)
      by_phase initializing e = inr (λ k. cc, refl)
      by_phase init e = inr (λ k. cc, refl)

  access-Keeps : (a : Access T) → Keeps looks (λ c. access c a)
  unfolding access write finish wake_all poll_wait_for_init claim
  access-Keeps claims = record {
    ordered = λ s o. rw (claim-wait s.state s) o;
    parked = λ s t w o h. rw (claim-wait s.state s) h;
  }
    where
      claim-wait : (p : Phase) (s : OnceCell T) → (claim_by p s).0.wait ≡ s.wait
      claim-wait uninit s = refl
      claim-wait initializing s = refl
      claim-wait init s = refl
  access-Keeps (writes t) = record { ordered = λ s o. o; parked = λ s t w o h. h }
  access-Keeps finishes = record { ordered = λ s o. o; parked = λ s t w o h. h }
  access-Keeps wakes = record {
    ordered = λ s. wake_all-IsOrdered s.wait;
    parked = λ s t w. wake_all-Parked t w s.wait;
  }
  access-Keeps (polls w) = poll-Keeps looks (λ c. true) w

  run-Keeps : (l : List (Access T)) → Keeps looks (run l)
  unfolding run
  run-Keeps [] = Keeps-id looks
  run-Keeps (a ∷ l) = Keeps-comp looks (λ c. access c a) (run l) (access-Keeps a) (run-Keeps l)

  uninit_of_failure : (c : OnceCell T) → (is_init c).1 ≡ none → (is_init c).0.state ≢ init
  unfolding is_init
  uninit_of_failure c = by_phase c.state refl
    where
      by_phase : (p : Phase) → c.state ≡ p → (look p c).1 ≡ none → (look p c).0.state ≢ init
      by_phase uninit e h k = cc
      by_phase initializing e h k = cc
      by_phase init e h k = cc

  -- Whatever accesses of others come before and between the steps of a poll, on a wait queue in
  -- order: a caller that waits for the value is told that it is there, or it is told to wait, the
  -- cell is not initialized, and its task is parked (in the queue and valid, or woken).
  poll_wait_for_init-Parked :
      (before between : List (Access T)) (c : OnceCell T) (w : ℕ)
      → IsOrdered c.wait
      → let r = poll_wait_for_init (run before) (run between) c w in
        (r.1 ≡ ready tt) ⊎ ((r.1 ≡ pending) × (r.0.state ≢ init) × ((t : ℕ) × Parked t w r.0.wait))
  unfolding poll_wait_for_init
  poll_wait_for_init-Parked before between c w o =
      elim (poll_with-Parked looks (λ c. true) (run before) (run between) c w (run-Keeps before)
        (run-Keeps between) o) [
          | inl (a, e) ↦ inl e
          | inr (e, (s, (last, failed)), parked) ↦
              inr (e, rw last (uninit_of_failure s failed), parked)
        ]

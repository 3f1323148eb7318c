-- ===== src/Sync/WaitQueue.antt =====
-- `WaitQueue` of dtact-util/src/sync/wait_queue.rs: the tasks that wait for a primitive, in a
-- first-in first-out queue of 256 places with a stack behind it. An entry (`Arc<Entry>`) is an
-- address, so that a token and the queue share its `valid` flag; a waker is the number of its task.
-- The queue and the stack are the lists that `BoundedMpmcQueue` and `MpmcStack` hold.
pub mod Laws
pub mod Waiting
pub mod Parked
pub mod Others
pub mod Tests
use dtact.Base.{
  ℕ, suc, ◌+◌, Bool, true, false, ◌&&◌, ◌||◌, not, Option, none, some, List, [], ◌∷◌, ◌++◌, reverse,
  ltb, ◌==◌, if◌then◌else◌, update, PushResult, ok, err,
}
use dtact.Lockfree.Mpmc.Fifo.{fifo_push}

abbrev pub ready_capacity : ℕ
ready_capacity = 256

-- `ready` is `none` until the queue is first used (`OnceLock`). `valid` and `waker` are the fields
-- of the entries, `fresh` is the address of the next one, and `woken` logs the entries whose wakers
-- were called, oldest first.
pub record WaitQueue : Type 0 where
  pub ready : Option (List ℕ)
  pub overflow : List ℕ
  pub valid : ℕ → Bool
  pub waker : ℕ → ℕ
  pub fresh : ℕ
  pub woken : List ℕ

abbrev pub new : WaitQueue
new = record {
  ready = none;
  overflow = [];
  valid = λ _. false;
  waker = λ _. 0;
  fresh = 0;
  woken = [];
}

-- `get_or_init`: the places of the ready queue, which is made on first use.
abbrev pub ready_list : Option (List ℕ) → List ℕ
ready_list none = []
ready_list (some r) = r

-- Where `register` puts the entry that `try_push` answers for.
abbrev pub enlist : WaitQueue → List ℕ × PushResult ℕ → WaitQueue
enlist q (r, ok) = record q { ready = some r }
enlist q (r, err e) = record q { ready = some r; overflow = e ∷ q.overflow }

-- The new entry is valid. Its address is the token.
unfoldable pub register : WaitQueue → ℕ → WaitQueue × ℕ
unfolding fifo_push
register q w = (
  enlist
      (record q {
        valid = update q.valid q.fresh true;
        waker = update q.waker q.fresh w;
        fresh = suc q.fresh;
      })
      (fifo_push ready_capacity (ready_list q.ready) q.fresh),
  q.fresh,
)

unfoldable pub cancel : WaitQueue → ℕ → WaitQueue
cancel q token = record q { valid = update q.valid token false }

-- Pop entries until one is valid: what is left, and that entry.
unfoldable pub pop_valid : (ℕ → Bool) → List ℕ → List ℕ × Option ℕ
pop_valid valid [] = ([], none)
pop_valid valid (e ∷ es) = let rest = pop_valid valid es in if valid e then (es, some e) else rest

-- `entry.valid.swap(false)` and `wake_by_ref`.
abbrev pub wake_entry : WaitQueue → ℕ → WaitQueue
wake_entry q e = record q { valid = update q.valid e false; woken = q.woken ++ e ∷ [] }

-- The second loop of `wake_one`, over the overflow stack.
abbrev pub wake_overflow : WaitQueue → List ℕ × Option ℕ → WaitQueue
wake_overflow q (rest, none) = record q { overflow = rest }
wake_overflow q (rest, some e) = wake_entry (record q { overflow = rest }) e

-- The first loop of `wake_one`, over the ready queue, if it was ever made.
abbrev pub wake_ready : WaitQueue → List ℕ × Option ℕ → WaitQueue
wake_ready q (rest, none) =
    wake_overflow (record q { ready = some rest }) (pop_valid q.valid q.overflow)
wake_ready q (rest, some e) = wake_entry (record q { ready = some rest }) e

-- `wake_one`, by what `self.ready.get()` answers.
abbrev pub wake_from : WaitQueue → Option (List ℕ) → WaitQueue
wake_from q none = wake_overflow q (pop_valid q.valid q.overflow)
wake_from q (some r) = wake_ready q (pop_valid q.valid r)

unfoldable pub wake_one : WaitQueue → WaitQueue
wake_one q = wake_from q q.ready

-- The body of both loops of `wake_all`, by what the swap of the entry's flag returned.
abbrev pub wake_if : Bool → WaitQueue → ℕ → WaitQueue
wake_if true q e = wake_entry q e
wake_if false q e = q

unfoldable pub wake_each : WaitQueue → List ℕ → WaitQueue
wake_each q [] = q
wake_each q (e ∷ es) = wake_each (wake_if (q.valid e) q e) es

abbrev pub emptied : Option (List ℕ) → Option (List ℕ)
emptied none = none
emptied (some _) = some []

-- Everything in the ready queue, then what `drain_all` returns of the stack.
unfoldable pub wake_all : WaitQueue → WaitQueue
wake_all q =
    wake_each (wake_each (record q { ready = emptied q.ready; overflow = [] }) (ready_list q.ready))
      (reverse q.overflow)

abbrev is_nil : List ℕ → Bool
is_nil [] = true
is_nil (_ ∷ _) = false

unfoldable pub has_waiters : WaitQueue → Bool
has_waiters q = not (is_nil (ready_list q.ready)) || not (is_nil q.overflow)

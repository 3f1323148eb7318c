-- ===== src/Scheduler/Fiber/Exclusive.antt =====
-- A fiber is in one queue, or on one worker, or parked.
use dtact.Base.{
  ℕ, suc, ◌+◌, ◌≤◌, ◌≡◌, ◌≢◌, refl, subst, sym, ap, ◌∙◌, Bool, true, false, Option, none, some,
  List, [], ◌∷◌, ◌++◌, length, length-append, arith,
}
use dtact.Scheduler.Fiber.{
  FiberStatus, initial, running, yielded, finished, panicked, notified, suspending, Pc, loads,
  clears, polls, continues, spins, suspends, joins, joined, finishes, ended, looks, parks, Choice,
  Fiber, spawned, found, wake, enqueue, step, placed, Step, woken, enqueued, dispatched, moved,
  respawned, Reach, start, next,
}
use dtact.Scheduler.Fiber.Owned.{
  expected, tokens, Settled, FirstSettled, Resumes, Owned, lone, kept, step-Leaves,
}

-- A worker that holds an owned fiber is the only one, and the fiber is live and in no queue.
pub record Sole (f : Fiber) (before : List Pc) (pc : Pc) (after : List Pc) : Type 0 where
  pub first : before ≡ []
  pub last : after ≡ []
  pub same : f ≡ lone f.state pc f.saved f.due
  pub up : f.state ≢ yielded
  pub at : Settled pc f.state
  pub back : Resumes f.saved

expected-one : (s : FiberStatus) (b : Bool) → expected s b ≡ 1 → (b ≡ false) × (s ≢ yielded)
expected-one initial true e = absurd (omega arith)
expected-one running true e = absurd (omega arith)
expected-one yielded true e = absurd (omega arith)
expected-one finished true e = absurd (omega arith)
expected-one panicked true e = absurd (omega arith)
expected-one notified true e = absurd (omega arith)
expected-one suspending true e = absurd (omega arith)
expected-one initial false e = (refl, λ q. absurd cc)
expected-one running false e = (refl, λ q. absurd cc)
expected-one yielded false e = absurd (omega arith)
expected-one finished false e = (refl, λ q. absurd cc)
expected-one panicked false e = (refl, λ q. absurd cc)
expected-one notified false e = (refl, λ q. absurd cc)
expected-one suspending false e = (refl, λ q. absurd cc)

pub expected-le : (s : FiberStatus) (b : Bool) → expected s b ≤ 1
expected-le initial true = omega arith
expected-le running true = omega arith
expected-le yielded true = omega arith
expected-le finished true = omega arith
expected-le panicked true = omega arith
expected-le notified true = omega arith
expected-le suspending true = omega arith
expected-le initial false = omega arith
expected-le running false = omega arith
expected-le yielded false = omega arith
expected-le finished false = omega arith
expected-le panicked false = omega arith
expected-le notified false = omega arith
expected-le suspending false = omega arith

nil_of_length {ℓ} : {A : Type ℓ} (xs : List A) → length xs ≡ 0 → xs ≡ []
nil_of_length [] e = refl
nil_of_length (x ∷ xs) e = absurd (omega arith)

pub Owned-Sole :
    (f : Fiber) (before : List Pc) (pc : Pc) (after : List Pc)
    → Owned f
    → f.runners ≡ before ++ pc ∷ after
    → Sole f before pc after
Owned-Sole f before pc after o e = record {
  first = first;
  last = last;
  same = λ i. record {
    state = f.state;
    queued = none_queued i;
    enqueuing = none_enqueuing i;
    runners = only i;
    saved = f.saved;
    due = f.due;
    freed = alive.0 i;
  };
  up = alive.1;
  back = o.resumes;
  at = subst (λ pcs. FirstSettled pcs f.state) only o.settled;
}
  where
    held_by : length f.runners ≡ length before + suc (length after)
    held_by = ap length e ∙ length-append before (pc ∷ after)

    first : before ≡ []
    first = nil_of_length before (omega (arith, held_by, o.count, expected-le f.state f.freed))

    last : after ≡ []
    last = nil_of_length after (omega (arith, held_by, o.count, expected-le f.state f.freed))

    none_queued : f.queued ≡ 0
    none_queued = omega (arith, held_by, o.count, expected-le f.state f.freed)

    none_enqueuing : f.enqueuing ≡ 0
    none_enqueuing = omega (arith, held_by, o.count, expected-le f.state f.freed)

    only : f.runners ≡ pc ∷ []
    only = e ∙ (λ i. first i ++ pc ∷ last i)

    alive : (f.freed ≡ false) × (f.state ≢ yielded)
    alive =
        expected-one f.state f.freed (omega (arith, held_by, o.count, expected-le f.state f.freed))

wake-count :
    (n : ℕ) (s : FiberStatus) (b : Bool)
    → n ≡ expected s b
    → (b ≡ true → s ≢ yielded)
    → n + found s ≡ expected notified b
wake-count n initial true e q = omega arith
wake-count n running true e q = omega arith
wake-count n yielded true e q = absurd (q refl refl)
wake-count n finished true e q = omega arith
wake-count n panicked true e q = omega arith
wake-count n notified true e q = omega arith
wake-count n suspending true e q = omega arith
wake-count n initial false e q = omega arith
wake-count n running false e q = omega arith
wake-count n yielded false e q = omega arith
wake-count n finished false e q = omega arith
wake-count n panicked false e q = omega arith
wake-count n notified false e q = omega arith
wake-count n suspending false e q = omega arith

notified-Settled : (pc : Pc) → Settled pc notified
notified-Settled loads = tt
notified-Settled clears = tt
notified-Settled polls = tt
notified-Settled continues = tt
notified-Settled (spins k) = tt
notified-Settled suspends = tt
notified-Settled joins = tt
notified-Settled joined = tt
notified-Settled finishes = tt
notified-Settled ended = tt
notified-Settled looks = tt
notified-Settled parks = tt

notified-FirstSettled : (pcs : List Pc) → FirstSettled pcs notified
notified-FirstSettled [] = tt
notified-FirstSettled (pc ∷ pcs) = notified-Settled pc

wake-Owned : (f : Fiber) → Owned f → Owned (wake f)
unfolding wake
wake-Owned f o = record {
  count = omega (arith, wake-count (tokens f) f.state f.freed o.count o.quiet);
  quiet = λ e q. absurd cc;
  settled = notified-FirstSettled f.runners;
  resumes = o.resumes;
}

Resumes-Settled : (pc : Pc) (s : FiberStatus) → Resumes pc → Settled pc s
Resumes-Settled loads s r = tt
Resumes-Settled clears s r = tt
Resumes-Settled polls s r = tt
Resumes-Settled continues s r = tt
Resumes-Settled (spins k) s r = tt
Resumes-Settled suspends s r = tt
Resumes-Settled joins s r = tt
Resumes-Settled joined s r = tt
Resumes-Settled finishes s r = tt
Resumes-Settled ended s r = tt
Resumes-Settled looks s r = absurd r
Resumes-Settled parks s r = absurd r

kept-placed : (held_at : Option Pc) → kept held_at ≡ placed [] held_at []
kept-placed none = refl
kept-placed (some pc) = refl

-- What a step of a worker leaves is what it leaves of the lone fiber.
pub moved-lone :
    (f : Fiber) (c : Choice) (before : List Pc) (pc : Pc) (after : List Pc)
    → Sole f before pc after
    → (let r = step c pc (lone f.state pc f.saved f.due) in record r.0 { runners = kept r.1 })
      ≡ record (step c pc f).0 { runners = placed before (step c pc f).1 after }
moved-lone f c before pc after sole =
    let back = sym sole.same in
    let front = sym sole.first in
    let behind = sym sole.last in
    let r = step c pc (lone f.state pc f.saved f.due) in
    ap (λ pcs. record r.0 { runners = pcs }) (kept-placed r.1) ∙ (λ i.
      record (step c pc (back i)).0 {
        runners = placed (front i) (step c pc (back i)).1 (behind i);
      })

moved-Owned :
    (f : Fiber) (c : Choice) (before : List Pc) (pc : Pc) (after : List Pc)
    → f.runners ≡ before ++ pc ∷ after
    → Owned f
    → Owned (record (step c pc f).0 { runners = placed before (step c pc f).1 after })
moved-Owned f c before pc after e o =
    let sole = Owned-Sole f before pc after o e in
    subst Owned (moved-lone f c before pc after sole)
      (step-Leaves c pc f.state f.saved f.due o.resumes sole.up sole.at)

spawned-Owned : Owned spawned
unfolding spawned
spawned-Owned = record { count = refl; quiet = λ h. absurd cc; settled = tt; resumes = tt }

Step-Owned : {f g : Fiber} → Step f g → Owned f → Owned g
unfolding enqueue spawned
Step-Owned (woken f) o = wake-Owned f o
Step-Owned (enqueued f k e) o = record {
  count = omega (arith, o.count, e);
  quiet = o.quiet;
  settled = o.settled;
  resumes = o.resumes;
}
Step-Owned (dispatched f k e) o = record {
  count = omega (arith, o.count, e);
  quiet = o.quiet;
  settled = Resumes-Settled f.saved f.state o.resumes;
  resumes = o.resumes;
}
Step-Owned (moved f c before pc after e) o = moved-Owned f c before pc after e o
Step-Owned (respawned f e) o = spawned-Owned

pub Reach-Owned : {f : Fiber} → Reach f → Owned f
Reach-Owned start = spawned-Owned
Reach-Owned (next r st) = Step-Owned st (Reach-Owned r)

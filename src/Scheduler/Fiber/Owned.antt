-- ===== src/Scheduler/Fiber/Owned.antt =====
-- What a step of a worker leaves of a fiber that it alone holds.
use dtact.Base.{
  ℕ, zero, suc, ◌+◌, ◌≡◌, ◌≢◌, refl, Bool, true, false, Option, none, some, List, [], ◌∷◌, length,
}
use dtact.Scheduler.Fiber.{
  FiberStatus, initial, running, yielded, finished, panicked, notified, suspending, Pc, loads,
  clears, polls, continues, spins, suspends, joins, joined, finishes, ended, looks, parks, Choice,
  pends, readies, gives_way, yields, yield_to, awaits, suspend_join, join, Fiber, after_load,
  suspend, answer, planned, free, decide, look, park, step,
}

-- How many queue entries and holders a fiber has: none when it is parked or freed.
abbrev pub expected : FiberStatus → Bool → ℕ
expected s true = 0
expected yielded false = 0
expected s false = 1

abbrev pub tokens : Fiber → ℕ
tokens f = f.queued + f.enqueuing + length f.runners

-- The states that a worker finds after a switch, and where its exchange with `Yielded` can stand.
abbrev pub Settled : Pc → FiberStatus → Type 0
Settled looks suspending = Unit {0}
Settled looks finished = Unit {0}
Settled looks notified = Unit {0}
Settled looks s = ⊥
Settled parks suspending = Unit {0}
Settled parks notified = Unit {0}
Settled parks s = ⊥
Settled pc s = Unit {0}

abbrev pub FirstSettled : List Pc → FiberStatus → Type 0
FirstSettled [] s = Unit {0}
FirstSettled (pc ∷ pcs) s = Settled pc s

-- Where a fiber goes on is never inside the worker's part.
abbrev pub Resumes : Pc → Type 0
Resumes looks = ⊥
Resumes parks = ⊥
Resumes pc = Unit {0}

pub record Owned (f : Fiber) : Type 0 where
  pub count : tokens f ≡ expected f.state f.freed
  pub quiet : f.freed ≡ true → f.state ≢ yielded
  pub settled : FirstSettled f.runners f.state
  pub resumes : Resumes f.saved

-- A live fiber that one worker holds.
abbrev pub lone : FiberStatus → Pc → Pc → Bool → Fiber
lone s pc saved due = record {
  state = s;
  queued = 0;
  enqueuing = 0;
  runners = pc ∷ [];
  saved = saved;
  due = due;
  freed = false;
}

abbrev pub kept : Option Pc → List Pc
kept none = []
kept (some pc) = pc ∷ []

abbrev pub Leaves : Fiber × Option Pc → Type 0
Leaves r = Owned (record r.0 { runners = kept r.1 })

pub live-Owned :
    (s : FiberStatus) (pc saved : Pc) (due : Bool) (r : Resumes saved)
    → s ≢ yielded
    → Settled pc s
    → Owned (lone s pc saved due)
live-Owned initial pc saved due r up h = record {
  count = refl;
  quiet = λ e. absurd cc;
  settled = h;
  resumes = r;
}
live-Owned running pc saved due r up h = record {
  count = refl;
  quiet = λ e. absurd cc;
  settled = h;
  resumes = r;
}
live-Owned yielded pc saved due r up h = absurd (up refl)
live-Owned finished pc saved due r up h = record {
  count = refl;
  quiet = λ e. absurd cc;
  settled = h;
  resumes = r;
}
live-Owned panicked pc saved due r up h = record {
  count = refl;
  quiet = λ e. absurd cc;
  settled = h;
  resumes = r;
}
live-Owned notified pc saved due r up h = record {
  count = refl;
  quiet = λ e. absurd cc;
  settled = h;
  resumes = r;
}
live-Owned suspending pc saved due r up h = record {
  count = refl;
  quiet = λ e. absurd cc;
  settled = h;
  resumes = r;
}

pub answer-Leaves :
    (c : Choice) (k : ℕ) (s : FiberStatus) (pc saved : Pc) (due : Bool) (r : Resumes saved)
    → s ≢ yielded
    → Leaves (answer c k (lone s pc saved due))
unfolding answer yield_to
answer-Leaves (pends j) zero s pc saved due r up = live-Owned s suspends saved due r up tt
answer-Leaves (pends j) (suc k) s pc saved due r up = live-Owned s (spins k) saved due r up tt
answer-Leaves readies k s pc saved due r up = live-Owned s finishes saved due r up tt
answer-Leaves gives_way k s pc saved due r up =
    live-Owned notified looks continues due tt (λ e. absurd cc) tt
answer-Leaves yields k s pc saved due r up =
    live-Owned suspending looks continues false tt (λ e. absurd cc) tt
answer-Leaves awaits k s pc saved due r up = live-Owned s joins saved due r up tt

suspend_join-Leaves :
    (s : FiberStatus) (pc saved : Pc) (due : Bool) (r : Resumes saved)
    → s ≢ yielded
    → Leaves (suspend_join s (lone s pc saved due))
unfolding suspend_join
suspend_join-Leaves running pc saved due r up =
    live-Owned suspending looks joins due tt (λ e. absurd cc) tt
suspend_join-Leaves initial pc saved due r up = live-Owned initial joins saved due r up tt
suspend_join-Leaves yielded pc saved due r up = absurd (up refl)
suspend_join-Leaves finished pc saved due r up = live-Owned finished joins saved due r up tt
suspend_join-Leaves panicked pc saved due r up = live-Owned panicked joins saved due r up tt
suspend_join-Leaves notified pc saved due r up = live-Owned notified joins saved due r up tt
suspend_join-Leaves suspending pc saved due r up = live-Owned suspending joins saved due r up tt

join-Leaves :
    (c : Choice) (s : FiberStatus) (pc saved : Pc) (due : Bool) (r : Resumes saved)
    → s ≢ yielded
    → Leaves (join c (lone s pc saved due))
unfolding join
join-Leaves awaits s pc saved due r up = suspend_join-Leaves s pc saved due r up
join-Leaves (pends j) s pc saved due r up = live-Owned s continues saved due r up tt
join-Leaves readies s pc saved due r up = live-Owned s continues saved due r up tt
join-Leaves yields s pc saved due r up = live-Owned s continues saved due r up tt
join-Leaves gives_way s pc saved due r up = live-Owned s continues saved due r up tt

pub suspend-Leaves :
    (s : FiberStatus) (pc saved : Pc) (due : Bool) (r : Resumes saved)
    → s ≢ yielded
    → Leaves (suspend s (lone s pc saved due))
unfolding suspend
suspend-Leaves running pc saved due r up =
    live-Owned suspending looks loads due tt (λ e. absurd cc) tt
suspend-Leaves initial pc saved due r up = live-Owned initial loads saved due r up tt
suspend-Leaves yielded pc saved due r up = absurd (up refl)
suspend-Leaves finished pc saved due r up = live-Owned finished loads saved due r up tt
suspend-Leaves panicked pc saved due r up = live-Owned panicked loads saved due r up tt
suspend-Leaves notified pc saved due r up = live-Owned notified loads saved due r up tt
suspend-Leaves suspending pc saved due r up = live-Owned suspending loads saved due r up tt

pub freed-Leaves :
    (s : FiberStatus) (pc saved : Pc) (due : Bool) (r : Resumes saved)
    → Leaves (free (lone s pc saved due), none)
unfolding free
freed-Leaves s pc saved due r = record {
  count = refl;
  quiet = λ h e. absurd cc;
  settled = tt;
  resumes = r;
}

pub queued-Leaves :
    (pc saved : Pc) (due : Bool) (r : Resumes saved)
    → Leaves (decide notified (lone notified pc saved due))
unfolding decide
queued-Leaves pc saved due r = record {
  count = refl;
  quiet = λ h. absurd cc;
  settled = tt;
  resumes = r;
}

pub look-Leaves :
    (s : FiberStatus) (saved : Pc) (due : Bool) (r : Resumes saved)
    → Settled looks s
    → Leaves (look s (lone s looks saved due))
unfolding look
look-Leaves suspending saved due r h = live-Owned suspending parks saved due r (λ e. absurd cc) tt
look-Leaves finished saved due r h = freed-Leaves finished looks saved due r
look-Leaves notified saved due r h = queued-Leaves looks saved due r
look-Leaves initial saved due r h = absurd h
look-Leaves running saved due r h = absurd h
look-Leaves yielded saved due r h = absurd h
look-Leaves panicked saved due r h = absurd h

pub park-Leaves :
    (s : FiberStatus) (saved : Pc) (due : Bool) (r : Resumes saved)
    → Settled parks s
    → Leaves (park s (lone s parks saved due))
unfolding park
park-Leaves suspending saved due r h = record {
  count = refl;
  quiet = λ h. absurd cc;
  settled = tt;
  resumes = r;
}
park-Leaves notified saved due r h = queued-Leaves parks saved due r
park-Leaves finished saved due r h = absurd h
park-Leaves initial saved due r h = absurd h
park-Leaves running saved due r h = absurd h
park-Leaves yielded saved due r h = absurd h
park-Leaves panicked saved due r h = absurd h

pub step-Leaves :
    (c : Choice) (pc : Pc) (s : FiberStatus) (saved : Pc) (due : Bool) (r : Resumes saved)
    → s ≢ yielded
    → Settled pc s
    → Leaves (step c pc (lone s pc saved due))
unfolding step
step-Leaves c loads s saved due r up h = loaded s up
  where
    loaded : (s : FiberStatus) → s ≢ yielded → Owned (lone s (after_load s) saved due)
    loaded running up = live-Owned running polls saved due r up tt
    loaded initial up = live-Owned initial clears saved due r up tt
    loaded yielded up = absurd (up refl)
    loaded finished up = live-Owned finished clears saved due r up tt
    loaded panicked up = live-Owned panicked clears saved due r up tt
    loaded notified up = live-Owned notified clears saved due r up tt
    loaded suspending up = live-Owned suspending clears saved due r up tt
step-Leaves c clears s saved due r up h = live-Owned running polls saved due r (λ e. absurd cc) tt
step-Leaves c polls s saved due r up h = answer-Leaves c (planned c) s polls saved false r up
step-Leaves c joins s saved due r up h = live-Owned running joined saved false r (λ e. absurd cc) tt
step-Leaves c joined s saved due r up h = join-Leaves c s joined saved due r up
step-Leaves c continues s saved due r up h = answer-Leaves c (planned c) s continues saved due r up
step-Leaves c (spins k) s saved due r up h = answer-Leaves c k s (spins k) saved false r up
step-Leaves c suspends s saved due r up h = suspend-Leaves s suspends saved due r up
step-Leaves c finishes s saved due r up h =
    live-Owned finished looks ended false tt (λ e. absurd cc) tt
step-Leaves c ended s saved due r up h = live-Owned s ended saved due r up tt
step-Leaves c looks s saved due r up h = look-Leaves s saved due r h
step-Leaves c parks s saved due r up h = park-Leaves s saved due r h

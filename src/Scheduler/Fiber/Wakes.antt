-- ===== src/Scheduler/Fiber/Wakes.antt =====
-- A wake of a fiber is not lost.
use dtact.Base.{
  ℕ, ◌+◌, ◌≡◌, ◌≢◌, refl, sym, ap, subst, ◌∙◌, ◌⊎◌, inl, inr, Bool, true, false, Option, List, [],
  ◌∷◌, ◌++◌, length, arith,
}
use dtact.Scheduler.Fiber.{
  FiberStatus, initial, running, yielded, finished, panicked, notified, suspending, Pc, loads,
  clears, polls, continues, spins, suspends, joins, joined, finishes, ended, looks, parks, Choice,
  pends, readies, gives_way, yields, yield_to, awaits, suspend_join, join, Fiber, spawned, wake,
  enqueue, suspend, answer, planned, free, decide, look, park, step, placed, Step, woken, enqueued,
  dispatched, moved, respawned, Reach, start, next,
}
use dtact.Scheduler.Fiber.Exclusive.{moved-lone, expected-le, Owned-Sole, Reach-Owned}
use dtact.Scheduler.Fiber.Owned.{expected, Owned, lone, kept}

-- A wake that no poll and no overwriting of the state has followed is still in the state word, or the holder is about to poll.
abbrev Heard : Fiber → Type 0
Heard f = f.due ≡ true → (f.state ≡ notified) ⊎ (f.runners ≡ polls ∷ [])

abbrev Keeps : Fiber × Option Pc → Type 0
Keeps r = Heard (record r.0 { runners = kept r.1 })

-- A poll takes notice of all wakes before it.
answer-due : (c : Choice) (k : ℕ) (f : Fiber) → (answer c k f).0.due ≡ true → f.due ≡ true
unfolding answer yield_to
answer-due (pends j) k f e = e
answer-due readies k f e = e
answer-due gives_way k f e = e
answer-due yields k f e = absurd cc
answer-due awaits k f e = e

polls-Keeps : (c : Choice) (k : ℕ) (f : Fiber) → Keeps (answer c k (record f { due = false }))
polls-Keeps c k f e = absurd cc (answer-due c k (record f { due = false }) e)

continues-Keeps :
    (c : Choice) (k : ℕ) (saved : Pc) (due : Bool)
    → Keeps (answer c k (lone notified continues saved due))
unfolding answer yield_to
continues-Keeps (pends j) k saved due e = inl refl
continues-Keeps readies k saved due e = inl refl
continues-Keeps gives_way k saved due e = inl refl
continues-Keeps yields k saved due e = absurd cc
continues-Keeps awaits k saved due e = inl refl

join-Keeps :
    (c : Choice) (saved : Pc) (due : Bool) → Keeps (join c (lone notified joined saved due))
unfolding join suspend_join
join-Keeps (pends j) saved due e = inl refl
join-Keeps readies saved due e = inl refl
join-Keeps yields saved due e = inl refl
join-Keeps gives_way saved due e = inl refl
join-Keeps awaits saved due e = inl refl

step-Keeps_notified : (c : Choice) (pc saved : Pc) → Keeps (step c pc (lone notified pc saved true))
unfolding step suspend look park decide
step-Keeps_notified c loads saved e = inl refl
step-Keeps_notified c clears saved e = inr refl
step-Keeps_notified c polls saved e = polls-Keeps c (planned c) (lone notified polls saved true) e
step-Keeps_notified c continues saved e = continues-Keeps c (planned c) saved true e
step-Keeps_notified c (spins k) saved e = polls-Keeps c k (lone notified (spins k) saved true) e
step-Keeps_notified c suspends saved e = inl refl
step-Keeps_notified c joins saved e = absurd cc
step-Keeps_notified c joined saved e = join-Keeps c saved true e
step-Keeps_notified c finishes saved e = absurd cc
step-Keeps_notified c ended saved e = inl refl
step-Keeps_notified c looks saved e = inl refl
step-Keeps_notified c parks saved e = inl refl

-- No step of a worker is a wake.
suspend-due : (s : FiberStatus) (f : Fiber) → (suspend s f).0.due ≡ true → f.due ≡ true
unfolding suspend
suspend-due initial f e = e
suspend-due running f e = e
suspend-due yielded f e = e
suspend-due finished f e = e
suspend-due panicked f e = e
suspend-due notified f e = e
suspend-due suspending f e = e

suspend_join-due : (s : FiberStatus) (f : Fiber) → (suspend_join s f).0.due ≡ f.due
unfolding suspend_join
suspend_join-due initial f = refl
suspend_join-due running f = refl
suspend_join-due yielded f = refl
suspend_join-due finished f = refl
suspend_join-due panicked f = refl
suspend_join-due notified f = refl
suspend_join-due suspending f = refl

join-due : (c : Choice) (f : Fiber) → (join c f).0.due ≡ f.due
unfolding join
join-due (pends j) f = refl
join-due readies f = refl
join-due yields f = refl
join-due gives_way f = refl
join-due awaits f = suspend_join-due f.state f

decide-due : (s : FiberStatus) (f : Fiber) → (decide s f).0.due ≡ true → f.due ≡ true
unfolding decide free
decide-due initial f e = e
decide-due running f e = e
decide-due yielded f e = e
decide-due finished f e = absurd cc
decide-due panicked f e = absurd cc
decide-due notified f e = e
decide-due suspending f e = e

look-due : (s : FiberStatus) (f : Fiber) → (look s f).0.due ≡ true → f.due ≡ true
unfolding look
look-due initial f e = decide-due initial f e
look-due running f e = decide-due running f e
look-due yielded f e = decide-due yielded f e
look-due finished f e = decide-due finished f e
look-due panicked f e = decide-due panicked f e
look-due notified f e = decide-due notified f e
look-due suspending f e = e

park-due : (s : FiberStatus) (f : Fiber) → (park s f).0.due ≡ true → f.due ≡ true
unfolding park
park-due initial f e = decide-due initial f e
park-due running f e = decide-due running f e
park-due yielded f e = decide-due yielded f e
park-due finished f e = decide-due finished f e
park-due panicked f e = decide-due panicked f e
park-due notified f e = decide-due notified f e
park-due suspending f e = e

step-due : (c : Choice) (pc : Pc) (f : Fiber) → (step c pc f).0.due ≡ true → f.due ≡ true
unfolding step
step-due c loads f e = e
step-due c clears f e = e
step-due c polls f e = absurd cc (answer-due c (planned c) (record f { due = false }) e)
step-due c continues f e = answer-due c (planned c) f e
step-due c (spins k) f e = absurd cc (answer-due c k (record f { due = false }) e)
step-due c suspends f e = suspend-due f.state f e
step-due c joins f e = absurd cc
step-due c joined f e = sym (join-due c f) ∙ e
step-due c finishes f e = absurd cc
step-due c ended f e = e
step-due c looks f e = look-due f.state f e
step-due c parks f e = park-due f.state f e

head_eq : (a b : Pc) → a ∷ [] ≡ b ∷ [] → a ≡ b
head_eq a b e = cc

step-Keeps :
    (c : Choice) (pc : Pc) (s : FiberStatus) (saved : Pc) (due : Bool)
    → Heard (lone s pc saved due)
    → Keeps (step c pc (lone s pc saved due))
unfolding step answer
step-Keeps c pc s saved due h e =
    let was : due ≡ true = step-due c pc (lone s pc saved due) e in
    elim (h was) [
      | inl at ↦
          subst (λ f. Keeps (step c pc f)) (λ i. lone (sym at i) pc saved (sym was i))
            (step-Keeps_notified c pc saved) e
      | inr at ↦
          subst (λ q. Keeps (step c q (lone s q saved due))) (sym (head_eq pc polls at))
            (polls-Keeps c (planned c) (lone s polls saved due)) e
    ]

moved-Heard :
    (f : Fiber) (c : Choice) (before : List Pc) (pc : Pc) (after : List Pc)
    → f.runners ≡ before ++ pc ∷ after
    → Owned f
    → Heard f
    → Heard (record (step c pc f).0 { runners = placed before (step c pc f).1 after })
moved-Heard f c before pc after e o h =
    let sole = Owned-Sole f before pc after o e in
    subst Heard (moved-lone f c before pc after sole)
      (step-Keeps c pc f.state f.saved f.due (subst Heard sole.same h))

Step-Heard : {f g : Fiber} → Step f g → Owned f → Heard f → Heard g
unfolding wake enqueue spawned
Step-Heard (woken f) o h = λ e. inl refl
Step-Heard (enqueued f k q) o h = h
Step-Heard (dispatched f k q) o h = λ e. elim (h e) [
  | inl at ↦ inl at
  | inr at ↦ absurd (omega (arith, o.count, expected-le f.state f.freed, q, ap length at))
]
Step-Heard (moved f c before pc after q) o h = moved-Heard f c before pc after q o h
Step-Heard (respawned f q) o h = λ e. absurd cc

Reach-Heard : {f : Fiber} → Reach f → Heard f
unfolding spawned
Reach-Heard start = λ e. absurd cc
Reach-Heard (next r st) = Step-Heard st (Reach-Owned r) (Reach-Heard r)

one_holder : (s : FiberStatus) → s ≢ yielded → expected s false ≡ 1
one_holder initial up = refl
one_holder running up = refl
one_holder yielded up = absurd (up refl)
one_holder finished up = refl
one_holder panicked up = refl
one_holder notified up = refl
one_holder suspending up = refl

-- A fiber that is reached and not freed, and that was woken after its last poll began, after the last
-- time that `dtact_await` put `Running` into its state and after the last time that `yield_to` put
-- `Suspending` there, is not parked: it is in one queue, about to be put into one, or held by one
-- worker.
pub Reach-heard :
    {f : Fiber}
    → Reach f
    → f.freed ≡ false
    → f.due ≡ true
    → (f.state ≢ yielded) × (f.queued + f.enqueuing + length f.runners ≡ 1)
Reach-heard {f} r live woken_since =
    let o = Reach-Owned r in
    let up : f.state ≢ yielded = elim (Reach-Heard r woken_since) [
      | inl at ↦ λ e. absurd cc
      | inr at ↦ λ e. absurd (
          omega (
            arith,
            o.count,
            ap length at,
            ap (λ s. expected s f.freed) e,
            ap (expected yielded) live,
          ))
    ] in
    (up, o.count ∙ ap (expected f.state) live ∙ one_holder f.state up)

-- ===== src/Scheduler/Polling/Columns.antt =====
-- The mailboxes that lead to a worker, and the moves of chunks out of them.
use dtact.Base.{
  ℕ, ◌≤◌, ◌<◌, ◌≡◌, ◌⊎◌, refl, ap, sym, subst, Bool, true, false, ◌&&◌, Option, none, some, List,
  [], ◌∷◌, arith, ◌==◌, ==_iff, ==_of_ne, ==_self, if◌then◌else◌, Bool-cases, inl, inr, length,
}
use dtact.Scheduler.Mailbox.{TaskChunk, Mailbox, chunk_size}
use dtact.Scheduler.Mailbox
use dtact.Scheduler.Mailbox.Fifo.{pop-Fifo, fifo_pop}
use dtact.Scheduler.Routing.{DtaScheduler, set_mailbox, set_external}
use dtact.Scheduler.Routing.View.{
  View, Stored, Place, box, external, stocked, deposit, set_mailbox-Stored, set_external-Stored,
}
use dtact.Scheduler.Routing.Hops.{Allowed}
use dtact.Scheduler.Routing.Arrival.{local_batch}
use dtact.Scheduler.Polling.{pop_row}

-- What waits for a worker in one of its mailboxes.
abbrev pub column : ℕ → Option ℕ → View → List TaskChunk
column core none v = v.outside core
column core (some i) v = v.boxes i core

abbrev pub set_column : ℕ → Option ℕ → List TaskChunk → View → View
set_column core none xs v = record v { outside = λ j. if core == j then xs else v.outside j }
set_column core (some p) xs v = record v {
  boxes = λ i j. if (p == i) && (core == j) then xs else v.boxes i j;
}

-- Where a chunk that a worker has received goes: to the end of its own queue, or to an allowed place.
pub data Lands (core : ℕ) (c : TaskChunk) (v : View) : View → Type 0 where
  kept : Lands core c v (local_batch core c v)
  sent :
      (place : Place) (hops : ℕ)
      → Allowed v.num_workers core place
      → Lands core c v (deposit core place (record c { hop_count = hops }) v)

-- The first chunk of a mailbox is moved.
pub data Move (core : ℕ) : View → View → Type 0 where
  moved :
      (row : Option ℕ) (c : TaskChunk) (rest : List TaskChunk) (v w : View)
      → column core row v ≡ c ∷ rest
      → Lands core c (set_column core row rest v) w
      → Move core v w

pub data Moves (core : ℕ) : View → View → Type 0 where
  done : (v : View) → Moves core v v
  onward : {u v w : View} → Move core u v → Moves core v w → Moves core u w

pub Moves-trans : {core : ℕ} {u v w : View} → Moves core u v → Moves core v w → Moves core u w
Moves-trans (done v) ms = ms
Moves-trans (onward m ms) ns = onward m (Moves-trans ms ns)

abbrev pub Filled : List TaskChunk → Type 0
Filled [] = Unit {0}
Filled (c ∷ cs) = (c.count ≤ length c.tasks) × Filled cs

-- A pop from an empty mailbox, and from one that is not.
row-set :
    (s : DtaScheduler) (v : View) (core p : ℕ) (xs : List TaskChunk) (m : Mailbox)
    → Stored s v
    → Mailbox.Fifo.Holds m xs
    → Stored (set_mailbox p core m s) (set_column core (some p) xs v)
row-set s v core p xs m h held =
    set_mailbox-Stored s v (set_column core (some p) xs v).boxes p core m h
      (rw (==_self p, ==_self core) held) (λ i j off. rw off refl)

outside-set :
    (s : DtaScheduler) (v : View) (core : ℕ) (xs : List TaskChunk) (m : Mailbox)
    → Stored s v
    → Mailbox.Fifo.Holds m xs
    → Stored (set_external core m s) (set_column core none xs v)
outside-set s v core xs m h held =
    set_external-Stored s v (set_column core none xs v).outside core m h (rw (==_self core) held)
      (λ j off. rw off refl)

pub pop_row-some :
    (s : DtaScheduler) (v : View) (core : ℕ) (row : Option ℕ) (c : TaskChunk)
    (rest : List TaskChunk)
    → Stored s v
    → column core row v ≡ c ∷ rest
    → ((pop_row core row s).1 ≡ some c) × Stored (pop_row core row s).0 (set_column core row rest v)
unfolding pop_row fifo_pop
pop_row-some s v core none c rest h e =
    let (answer, held) =
      pop-Fifo (s.external_mailboxes core) (c ∷ rest)
        (subst (Mailbox.Fifo.Holds (s.external_mailboxes core)) e (h.outside_hold core)) in
    (answer, outside-set s v core rest _ h held)
pop_row-some s v core (some i) c rest h e =
    let (answer, held) =
      pop-Fifo (s.mailboxes i core) (c ∷ rest)
        (subst (Mailbox.Fifo.Holds (s.mailboxes i core)) e (h.boxes_hold i core)) in
    (answer, row-set s v core i rest _ h held)

pub pop_row-none :
    (s : DtaScheduler) (v : View) (core : ℕ) (row : Option ℕ)
    → Stored s v
    → column core row v ≡ []
    → ((pop_row core row s).1 ≡ none) × Stored (pop_row core row s).0 v
unfolding pop_row fifo_pop
pop_row-none s v core none h e =
    let (answer, held) =
      pop-Fifo (s.external_mailboxes core) []
        (subst (Mailbox.Fifo.Holds (s.external_mailboxes core)) e (h.outside_hold core)) in
    (
      answer,
      set_external-Stored s v v.outside core _ h
          (subst (Mailbox.Fifo.Holds (Mailbox.pop (s.external_mailboxes core)).0) (sym e) held)
          (λ j off. refl),
    )
pop_row-none s v core (some i) h e =
    let (answer, held) =
      pop-Fifo (s.mailboxes i core) []
        (subst (Mailbox.Fifo.Holds (s.mailboxes i core)) e (h.boxes_hold i core)) in
    (
      answer,
      set_mailbox-Stored s v v.boxes i core _ h
          (subst (Mailbox.Fifo.Holds (Mailbox.pop (s.mailboxes i core)).0) (sym e) held)
          (λ k l off. refl),
    )

-- A column of a view in which one column was set.
pub column-set :
    (core : ℕ) (r r' : Option ℕ) (xs : List TaskChunk) (v : View)
    → ((r ≡ r') × (column core r' (set_column core r xs v) ≡ xs))
      ⊎ (column core r' (set_column core r xs v) ≡ column core r' v)
column-set core none none xs v = inl (refl, rw (==_self core) refl)
column-set core none (some i) xs v = inr refl
column-set core (some p) none xs v = inr refl
column-set core (some p) (some i) xs v = elim (Bool-cases (p == i)) [
  | inl e ↦ inl (ap some ((==_iff p i).0 e), rw (e, ==_self core) refl)
  | inr e ↦ inr (rw e refl)
]

and_false : (b : Bool) → (b && false) ≡ false
and_false true = refl
and_false false = refl

-- What a worker sends on is in none of its own mailboxes.
pub column-Lands :
    (core : ℕ) (c : TaskChunk) (v w : View)
    → core < v.num_workers
    → Lands core c v w
    → (r : Option ℕ) → column core r w ≡ column core r v
column-Lands core c v _ lt kept none = refl
column-Lands core c v _ lt kept (some i) = refl
column-Lands core c v _ lt (sent (box t) hops (inside, below, apart)) none = refl
column-Lands core c v _ lt (sent (box t) hops (inside, below, apart)) (some i) =
    rw (==_of_ne t core apart, and_false (core == i)) refl
column-Lands core c v _ lt (sent (external t) hops (outer, below)) r = absurd (omega arith)
column-Lands core c v _ lt (sent stocked hops t) none = refl
column-Lands core c v _ lt (sent stocked hops t) (some i) = refl

pub workers-Lands :
    (core : ℕ) (c : TaskChunk) (v w : View) → Lands core c v w → w.num_workers ≡ v.num_workers
workers-Lands core c v _ kept = refl
workers-Lands core c v _ (sent (box t) hops a) = refl
workers-Lands core c v _ (sent (external t) hops a) = refl
workers-Lands core c v _ (sent stocked hops a) = refl

pub workers-set_column :
    (core : ℕ) (r : Option ℕ) (xs : List TaskChunk) (v : View)
    → (set_column core r xs v).num_workers ≡ v.num_workers
workers-set_column core none xs v = refl
workers-set_column core (some i) xs v = refl

pub locals-set_column :
    (core : ℕ) (r : Option ℕ) (xs : List TaskChunk) (v : View)
    → (set_column core r xs v).locals ≡ v.locals
locals-set_column core none xs v = refl
locals-set_column core (some i) xs v = refl

pub stock-set_column :
    (core : ℕ) (r : Option ℕ) (xs : List TaskChunk) (v : View)
    → (set_column core r xs v).stock ≡ v.stock
stock-set_column core none xs v = refl
stock-set_column core (some i) xs v = refl

pub column_self :
    (core : ℕ) (r : Option ℕ) (xs : List TaskChunk) (v : View)
    → column core r (set_column core r xs v) ≡ xs
column_self core none xs v = rw (==_self core) refl
column_self core (some i) xs v = rw (==_self i, ==_self core) refl

pub locals-deposit :
    (p : ℕ) (place : Place) (c : TaskChunk) (v : View) → (deposit p place c v).locals ≡ v.locals
locals-deposit p (box t) c v = refl
locals-deposit p (external t) c v = refl
locals-deposit p stocked c v = refl

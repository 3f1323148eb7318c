-- ===== src/Scheduler/Mailbox/Fifo.antt =====
-- A mailbox against a first-in first-out list that is one shorter than its ring.
use native.Mathlib.Nat.{mod-eq_of_lt}
use dtact.Base.{
  ◌+◌, ◌%◌, ◌<◌, ◌≡◌, ◌≢◌, refl, ap, sym, ◌∙◌, Option, none, some, List, [], ◌∷◌, ◌++◌, arith, ltb,
  ltb→lt, ◌==◌, ==_iff, ==_of_ne, if◌then◌else◌, Bool-cases, inl, inr, length, length-append,
  PushResult, ok, err,
}
use native.Mathlib.Numerals.{add-one}
use dtact.Lockfree.Ring.{read_run, read_run-grow, read_run-mod}
use dtact.Scheduler.Mailbox.{TaskChunk, Mailbox, mailbox_capacity, new, next_place, push, pop}

pub record Holds (m : Mailbox) (xs : List TaskChunk) : Type 0 where
  pub head_in : m.head < mailbox_capacity
  pub tail_at : m.tail ≡ (m.head + length xs) % mailbox_capacity
  pub fits : length xs < mailbox_capacity
  pub cells : read_run mailbox_capacity m.buffer m.head (length xs) ≡ xs

pub new-Holds : Holds new []
unfolding new read_run
new-Holds = record { head_in = omega arith; tail_at = refl; fits = omega arith; cells = refl }

-- The list that a mailbox holds, with room for one less than the ring.
unfoldable pub fifo_push : List TaskChunk → TaskChunk → List TaskChunk × PushResult TaskChunk
fifo_push xs c = if length xs + 1 == mailbox_capacity then (xs, err c) else (xs ++ c ∷ [], ok)

unfoldable pub fifo_pop : List TaskChunk → List TaskChunk × Option TaskChunk
fifo_pop [] = ([], none)
fifo_pop (c ∷ cs) = (cs, some c)

push-full :
    (m : Mailbox) (xs : List TaskChunk) (c : TaskChunk)
    → Holds m xs
    → length xs + 1 ≡ mailbox_capacity
    → push m c ≡ (m, err c)
unfolding push
push-full m xs c h e =
    rw ((==_iff (next_place m.tail) m.head).1 (omega (arith, h.tail_at, h.head_in))) refl

push-room :
    (m : Mailbox) (xs : List TaskChunk) (c : TaskChunk)
    → Holds m xs
    → length xs + 1 ≢ mailbox_capacity
    → ((push m c).1 ≡ ok) × Holds (push m c).0 (xs ++ c ∷ [])
unfolding push
push-room m xs c h ne = rw (==_of_ne (next_place m.tail) m.head apart) (
  refl,
  record {
    head_in = h.head_in;
    tail_at = omega (arith, h.tail_at, longer);
    fits = omega (arith, longer, small);
    cells =
        rw (longer, add-one, h.tail_at)
          (read_run-grow mailbox_capacity m.buffer m.head (length xs) c h.fits
            ∙ ap (λ ys. ys ++ c ∷ []) h.cells);
  },
)
  where
    longer : length (xs ++ c ∷ []) ≡ length xs + 1
    longer = length-append xs (c ∷ [])

    small : length xs + 1 < mailbox_capacity
    small = elim (Bool-cases (ltb (length xs + 1) mailbox_capacity)) [
      | inl e ↦ ltb→lt _ _ e
      | inr e ↦ absurd (ne (let lt : length xs < mailbox_capacity = h.fits in ground arith))
    ]

    apart : next_place m.tail ≢ m.head
    apart e = absurd (omega (arith, h.tail_at, h.head_in, small, e))

-- On a mailbox that holds a list, `push` answers what the list with that much room answers, and the
-- mailbox then holds what the list has become.
pub push-Fifo :
    (m : Mailbox) (xs : List TaskChunk) (c : TaskChunk)
    → Holds m xs
    → ((push m c).1 ≡ (fifo_push xs c).1) × Holds (push m c).0 (fifo_push xs c).0
unfolding fifo_push
push-Fifo m xs c h = elim (Bool-cases (length xs + 1 == mailbox_capacity)) [
  | inl e ↦ rw (e, push-full m xs c h ((==_iff _ _).0 e)) (refl, h)
  | inr e ↦ rw e (push-room m xs c h (λ q. absurd cc (sym e ∙ (==_iff _ _).1 q)))
]

-- On a mailbox that holds a list, `pop` answers its first chunk or that there is none, and the mailbox
-- then holds the rest.
pub pop-Fifo :
    (m : Mailbox) (xs : List TaskChunk)
    → Holds m xs
    → ((pop m).1 ≡ (fifo_pop xs).1) × Holds (pop m).0 (fifo_pop xs).0
unfolding fifo_pop pop read_run
pop-Fifo m [] h = rw ((==_iff m.head m.tail).1 (omega (arith, h.tail_at, h.head_in))) (refl, h)
pop-Fifo m (c ∷ cs) h = rw (==_of_ne m.head m.tail apart) (
  ap some first,
  record {
    head_in = omega arith;
    tail_at = omega (arith, h.tail_at);
    fits = omega (arith, h.fits);
    cells =
        read_run-mod mailbox_capacity m.buffer (next_place m.head) (m.head + 1) (length cs)
          (omega arith)
        ∙ rest;
  },
)
  where
    apart : m.head ≢ m.tail
    apart e = absurd (omega (arith, h.tail_at, h.head_in, h.fits, e))

    first : m.buffer m.head ≡ c
    first = ap m.buffer (sym (mod-eq_of_lt h.head_in)) ∙ cc (h.cells)

    rest : read_run mailbox_capacity m.buffer (m.head + 1) (length cs) ≡ cs
    rest = cc (h.cells)

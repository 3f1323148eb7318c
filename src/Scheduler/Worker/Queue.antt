-- ===== src/Scheduler/Worker/Queue.antt =====
-- The local queue of a worker against the list of its tasks.
use native.Mathlib.Nat.{add-zero, mod-eq_of_lt}
use native.Mathlib.Numerals.{add-one}
use dtact.Base.{
  ℕ, suc, ◌+◌, ◌-◌, ◌%◌, ◌≤◌, ◌<◌, ◌≡◌, refl, ap, sym, ◌∙◌, true, false, List, [], ◌∷◌, ◌++◌,
  append-nil, append_assoc, arith, leb, Bool-cases, inl, inr, update, length, length-append,
  length-take, take-split, take, drop,
}
use dtact.Lockfree.Ring.{read_run, read_run-grow, read_run-mod}
use dtact.Scheduler.Mailbox.{TaskChunk, items}
use dtact.Scheduler.Worker.{
  Worker, new, local_queue_capacity, local_queue_len, push_local, push_batch, copied, copy_in,
  pop_local,
}

pub record Queued (w : Worker) (xs : List ℕ) : Type 0 where
  pub head_in : w.local_head < local_queue_capacity
  pub tail_at : w.local_tail ≡ (w.local_head + length xs) % local_queue_capacity
  pub fits : length xs < local_queue_capacity
  pub cells : read_run local_queue_capacity w.local_queue w.local_head (length xs) ≡ xs

pub new-Queued : (core ccx total : ℕ) → Queued (new core ccx total) []
unfolding new read_run
new-Queued core ccx total = record {
  head_in = omega arith;
  tail_at = refl;
  fits = omega arith;
  cells = refl;
}

pub len-Queued : (w : Worker) (xs : List ℕ) → Queued w xs → local_queue_len w ≡ length xs
unfolding local_queue_len
len-Queued w xs h = omega (arith, h.tail_at, h.head_in, h.fits)

-- The tasks written at consecutive places of the ring from `p` on.
write_run : (ℕ → ℕ) → ℕ → List ℕ → ℕ → ℕ
write_run f p [] = f
write_run f p (x ∷ xs) = write_run (update f (p % local_queue_capacity) x) (p + 1) xs

write_run-mod :
    (f : ℕ → ℕ) (p r : ℕ) (xs : List ℕ)
    → p % local_queue_capacity ≡ r % local_queue_capacity
    → write_run f p xs ≡ write_run f r xs
unfolding write_run
write_run-mod f p r [] e = refl
write_run-mod f p r (x ∷ xs) e =
    rw e (write_run-mod (update f (r % local_queue_capacity) x) (p + 1) (r + 1) xs (omega arith))

leb→le : (a b : ℕ) → leb a b ≡ true → a ≤ b
leb→le a b h = ground arith

le→leb : (a b : ℕ) → a ≤ b → leb a b ≡ true
le→leb a b h = ground arith

lt→not-leb : (a b : ℕ) → b < a → leb a b ≡ false
lt→not-leb a b h = ground arith

copy_in-write_run :
    (f : ℕ → ℕ) (p i : ℕ) (xs : List ℕ)
    → p % local_queue_capacity ≡ i
    → i + length xs ≤ local_queue_capacity
    → copy_in f i xs ≡ write_run f p xs
unfolding copy_in write_run
copy_in-write_run f p i [] e h = refl
copy_in-write_run f p i (x ∷ []) e h = rw e
copy_in-write_run f p i (x ∷ y ∷ ys) e h =
    rw e (copy_in-write_run (update f i x) (p + 1) (i + 1) (y ∷ ys) (omega arith) (omega arith))

write_run-append :
    (f : ℕ → ℕ) (p : ℕ) (xs ys : List ℕ)
    → write_run f p (xs ++ ys) ≡ write_run (write_run f p xs) (p + length xs) ys
unfolding write_run
write_run-append f p [] ys = rw add-zero
write_run-append f p (x ∷ xs) ys =
    write_run-append (update f (p % local_queue_capacity) x) (p + 1) xs ys
    ∙ ap (λ k. write_run (write_run f p (x ∷ xs)) k ys) (omega arith)

-- What is written behind a run extends it.
read_run-write_run :
    (f : ℕ → ℕ) (p n : ℕ) (xs : List ℕ)
    → n + length xs ≤ local_queue_capacity
    → read_run local_queue_capacity (write_run f (p + n) xs) p (n + length xs)
      ≡ read_run local_queue_capacity f p n ++ xs
unfolding write_run
read_run-write_run f p n [] h = rw (add-zero, append-nil) refl
read_run-write_run f p n (x ∷ xs) h =
    (λ i. read_run local_queue_capacity (write_run f' (place i) xs) p (size i))
    ∙ read_run-write_run f' p (n + 1) xs (omega arith)
    ∙ ap (λ ys. ys ++ xs) (rw add-one (read_run-grow local_queue_capacity f p n x (omega arith)))
    ∙ append_assoc (read_run local_queue_capacity f p n) (x ∷ []) xs
  where
    f' : ℕ → ℕ
    f' = update f ((p + n) % local_queue_capacity) x

    place : p + n + 1 ≡ p + (n + 1)
    place = omega arith

    size : n + suc (length xs) ≡ n + 1 + length xs
    size = omega arith

-- The one or two copies of `push_batch` write consecutive places.
copied-write_run :
    (w : Worker) (chunk : TaskChunk)
    → w.local_tail < local_queue_capacity
    → chunk.count ≤ local_queue_capacity
    → chunk.count ≤ length chunk.tasks
    → copied w chunk ≡ write_run w.local_queue w.local_tail (items chunk)
unfolding copied
copied-write_run w chunk inside small have =
    elim (Bool-cases (leb (w.local_tail + chunk.count) local_queue_capacity)) [
      | inl e ↦ rw e (
          copy_in-write_run w.local_queue w.local_tail w.local_tail (items chunk)
            (mod-eq_of_lt inside) (omega (arith, taken, leb→le _ _ e)))
      | inr e ↦ rw e (
          ap (λ g. copy_in g 0 rest)
            (copy_in-write_run w.local_queue w.local_tail w.local_tail (take first chunk.tasks)
              (mod-eq_of_lt inside) (omega (arith, length-take first chunk.tasks)))
          ∙ copy_in-write_run _ (w.local_tail + first) 0 rest (omega arith)
              (omega (arith, length-take (chunk.count - first) (drop first chunk.tasks)))
          ∙ ap
              (λ k.
                write_run (write_run w.local_queue w.local_tail (take first chunk.tasks)) k rest)
              (omega (arith, length-take first chunk.tasks, over e))
          ∙ sym (write_run-append w.local_queue w.local_tail (take first chunk.tasks) rest)
          ∙ ap (write_run w.local_queue w.local_tail) (
              sym (take-split first (chunk.count - first) chunk.tasks)
              ∙ ap (λ k. take k chunk.tasks) (omega (arith, over e))))
    ]
  where
    first : ℕ
    first = local_queue_capacity - w.local_tail

    rest : List ℕ
    rest = take (chunk.count - first) (drop first chunk.tasks)

    taken : length (items chunk) ≡ chunk.count
    taken = omega (arith, length-take chunk.count chunk.tasks)

    over :
        leb (w.local_tail + chunk.count) local_queue_capacity ≡ false
        → local_queue_capacity < w.local_tail + chunk.count
    over e = ground arith

-- The caller's contract of `push_batch` is that the batch leaves a place of the queue free. Then the
-- queue holds the tasks of the chunk behind those it held, on both branches.
pub push_batch-Queued :
    (w : Worker) (xs : List ℕ) (chunk : TaskChunk)
    → Queued w xs
    → chunk.count ≤ length chunk.tasks
    → length xs + chunk.count < local_queue_capacity
    → Queued (push_batch w chunk) (xs ++ items chunk)
unfolding push_batch
push_batch-Queued w xs chunk h have room = record {
  head_in = h.head_in;
  tail_at = omega (arith, h.tail_at, longer);
  fits = omega (arith, longer);
  cells =
      (λ i. read_run local_queue_capacity (written i) w.local_head (longer i))
      ∙ ap
          (λ n.
            read_run local_queue_capacity
              (write_run w.local_queue (w.local_head + length xs) (items chunk)) w.local_head
              (length xs + n))
          (sym taken)
      ∙ read_run-write_run w.local_queue w.local_head (length xs) (items chunk)
          (omega (arith, taken))
      ∙ ap (λ ys. ys ++ items chunk) h.cells;
}
  where
    taken : length (items chunk) ≡ chunk.count
    taken = omega (arith, length-take chunk.count chunk.tasks)

    longer : length (xs ++ items chunk) ≡ length xs + chunk.count
    longer = omega (arith, length-append xs (items chunk), taken)

    written : copied w chunk ≡ write_run w.local_queue (w.local_head + length xs) (items chunk)
    written =
        copied-write_run w chunk (omega (arith, h.tail_at)) (omega arith) have
        ∙ write_run-mod w.local_queue w.local_tail (w.local_head + length xs) (items chunk)
            (omega (arith, h.tail_at))

-- With one free place left `push_local` refuses; with more it puts the task behind the others.
pub push_local-full :
    (w : Worker) (xs : List ℕ) (task : ℕ)
    → Queued w xs
    → length xs + 1 ≡ local_queue_capacity
    → push_local w task ≡ (w, false)
unfolding push_local
push_local-full w xs task h e =
    let len : local_queue_len w ≡ length xs = len-Queued w xs h in
    rw (le→leb (local_queue_capacity - 1) (local_queue_len w) (omega arith)) refl

pub push_local-room :
    (w : Worker) (xs : List ℕ) (task : ℕ)
    → Queued w xs
    → length xs + 1 < local_queue_capacity
    → ((push_local w task).1 ≡ true) × Queued (push_local w task).0 (xs ++ task ∷ [])
unfolding push_local
push_local-room w xs task h room =
    let len : local_queue_len w ≡ length xs = len-Queued w xs h in
    rw (lt→not-leb (local_queue_capacity - 1) (local_queue_len w) (omega arith)) (
      refl,
      record {
        head_in = h.head_in;
        tail_at = omega (arith, h.tail_at, longer);
        fits = omega (arith, longer);
        cells =
            rw (longer, add-one, h.tail_at)
              (read_run-grow local_queue_capacity w.local_queue w.local_head (length xs) task h.fits
                ∙ ap (λ ys. ys ++ task ∷ []) h.cells);
      },
    )
  where
    longer : length (xs ++ task ∷ []) ≡ length xs + 1
    longer = length-append xs (task ∷ [])

pub pop_local-Queued :
    (w : Worker) (x : ℕ) (xs : List ℕ)
    → Queued w (x ∷ xs)
    → ((pop_local w).1 ≡ x) × Queued (pop_local w).0 xs
unfolding pop_local read_run
pop_local-Queued w x xs h = (
  ap w.local_queue (sym (mod-eq_of_lt h.head_in)) ∙ cc (h.cells),
  record {
    head_in = omega arith;
    tail_at = omega (arith, h.tail_at);
    fits = omega (arith, h.fits);
    cells =
        read_run-mod local_queue_capacity w.local_queue ((w.local_head + 1) % local_queue_capacity)
          (w.local_head + 1) (length xs) (omega arith)
        ∙ cc (h.cells);
  },
)

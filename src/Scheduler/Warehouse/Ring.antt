-- ===== src/Scheduler/Warehouse/Ring.antt =====
-- The ring of a warehouse is the bounded queue of dtact-util; what its loops do to the count and the head.
use Prim.Native.Nat.{Ordering}
use dtact.Base.{
  ℕ, zero, suc, ◌+◌, ◌-◌, ◌*◌, ◌%◌, ◌^◌, ◌<◌, ◌≡◌, refl, ap, sym, Option, none, some, ◌==◌,
  if◌then◌else◌, Bool-cases, inl, inr, signed_cmp, PushResult, ok, err, wrapping_add, ==_iff,
}
use dtact.Lockfree.Mpmc.{BoundedMpmcQueue, try_push, try_pop}
use dtact.Lockfree.Mpmc
use dtact.Scheduler.Mailbox.{TaskChunk}
use dtact.Scheduler.Warehouse.{
  Warehouse, warehouse_capacity, push_loop, push, publish, pop_loop, pop, release,
}

-- The ring of a warehouse, as that queue.
abbrev pub ring : Warehouse → BoundedMpmcQueue TaskChunk
ring wh = record {
  sequence = wh.seq;
  slot = wh.chunk;
  capacity = warehouse_capacity;
  enqueue_pos = wh.tail;
  dequeue_pos = wh.head;
}

-- Head and tail are far from the end of their words.
abbrev pub Fresh : Warehouse → Type 0
Fresh wh = wh.head + 2 * warehouse_capacity < 2 ^ 63

abbrev pub view : {A : Type 0} → Warehouse × A → BoundedMpmcQueue TaskChunk × A
view (wh, r) = (ring wh, r)

-- The loops are those of the queue.
pub push_loop-ring :
    (fuel : ℕ) (wh : Warehouse) (pos : ℕ) (c : TaskChunk)
    → view (push_loop fuel wh pos c) ≡ Mpmc.push_loop fuel (ring wh) pos c
unfolding push_loop publish Mpmc.push_loop Mpmc.publish
push_loop-ring zero wh pos c = refl
push_loop-ring (suc fuel) wh pos c =
    elim (signed_cmp (wh.seq (pos % warehouse_capacity)) pos)
      as (λ o.
        view (elim o [
          | Ordering.eq ↦
              if wh.tail == pos then (publish wh pos c, some ok) else push_loop fuel wh wh.tail c
          | Ordering.lt ↦ (wh, some (err c))
          | Ordering.gt ↦ push_loop fuel wh wh.tail c
        ])
        ≡ elim o [
          | Ordering.eq ↦
              if wh.tail == pos
              then (Mpmc.publish (ring wh) pos c, some ok)
              else Mpmc.push_loop fuel (ring wh) wh.tail c
          | Ordering.lt ↦ (ring wh, some (err c))
          | Ordering.gt ↦ Mpmc.push_loop fuel (ring wh) wh.tail c
        ]) [
          | Ordering.eq ↦ elim (Bool-cases (wh.tail == pos)) [
            | inl e ↦ rw e refl
            | inr e ↦ rw e (push_loop-ring fuel wh wh.tail c)
          ]
          | Ordering.lt ↦ refl
          | Ordering.gt ↦ push_loop-ring fuel wh wh.tail c
        ]

pub pop_loop-ring :
    (fuel : ℕ) (wh : Warehouse) (pos : ℕ)
    → view (pop_loop fuel wh pos) ≡ Mpmc.pop_loop fuel (ring wh) pos
unfolding pop_loop release Mpmc.pop_loop Mpmc.release
pop_loop-ring zero wh pos = refl
pop_loop-ring (suc fuel) wh pos =
    elim (signed_cmp (wh.seq (pos % warehouse_capacity)) (wrapping_add pos 1))
      as (λ o.
        view (elim o [
          | Ordering.eq ↦
              if wh.head == pos
              then (release wh pos, some (some (wh.chunk (pos % warehouse_capacity))))
              else pop_loop fuel wh wh.head
          | Ordering.lt ↦ (wh, some none)
          | Ordering.gt ↦ pop_loop fuel wh wh.head
        ])
        ≡ elim o [
          | Ordering.eq ↦
              if wh.head == pos
              then (Mpmc.release (ring wh) pos, some (some (wh.chunk (pos % warehouse_capacity))))
              else Mpmc.pop_loop fuel (ring wh) wh.head
          | Ordering.lt ↦ (ring wh, some none)
          | Ordering.gt ↦ Mpmc.pop_loop fuel (ring wh) wh.head
        ]) [
          | Ordering.eq ↦ elim (Bool-cases (wh.head == pos)) [
            | inl e ↦ rw e refl
            | inr e ↦ rw e (pop_loop-ring fuel wh wh.head)
          ]
          | Ordering.lt ↦ refl
          | Ordering.gt ↦ pop_loop-ring fuel wh wh.head
        ]

-- The count changes with what the loops answer.
abbrev pub after_push : Option (PushResult TaskChunk) → ℕ → ℕ
after_push (some ok) n = (n + 1) % 2 ^ 32
after_push r n = n

abbrev pub after_pop : Option (Option (Option TaskChunk)) → ℕ → ℕ
after_pop (some (some c)) n = (n + 2 ^ 32 - 1) % 2 ^ 32
after_pop r n = n

pub push_loop-backlog :
    (fuel : ℕ) (wh : Warehouse) (pos : ℕ) (c : TaskChunk)
    → (let r = push_loop fuel wh pos c in r.0.backlog ≡ after_push r.1 wh.backlog)
unfolding push_loop publish
push_loop-backlog zero wh pos c = refl
push_loop-backlog (suc fuel) wh pos c =
    elim (signed_cmp (wh.seq (pos % warehouse_capacity)) pos)
      as (λ o.
        (let r : Warehouse × Option (PushResult TaskChunk) = elim o [
          | Ordering.eq ↦
              if wh.tail == pos then (publish wh pos c, some ok) else push_loop fuel wh wh.tail c
          | Ordering.lt ↦ (wh, some (err c))
          | Ordering.gt ↦ push_loop fuel wh wh.tail c
        ] in
          r.0.backlog ≡ after_push r.1 wh.backlog)) [
            | Ordering.eq ↦ elim (Bool-cases (wh.tail == pos)) [
              | inl e ↦ rw e refl
              | inr e ↦ rw e (push_loop-backlog fuel wh wh.tail c)
            ]
            | Ordering.lt ↦ refl
            | Ordering.gt ↦ push_loop-backlog fuel wh wh.tail c
          ]

pub pop_loop-backlog :
    (fuel : ℕ) (wh : Warehouse) (pos : ℕ)
    → (let r = pop_loop fuel wh pos in r.0.backlog ≡ after_pop r.1 wh.backlog)
unfolding pop_loop release
pop_loop-backlog zero wh pos = refl
pop_loop-backlog (suc fuel) wh pos =
    elim (signed_cmp (wh.seq (pos % warehouse_capacity)) (wrapping_add pos 1))
      as (λ o.
        (let r : Warehouse × Option (Option (Option TaskChunk)) = elim o [
          | Ordering.eq ↦
              if wh.head == pos
              then (release wh pos, some (some (wh.chunk (pos % warehouse_capacity))))
              else pop_loop fuel wh wh.head
          | Ordering.lt ↦ (wh, some none)
          | Ordering.gt ↦ pop_loop fuel wh wh.head
        ] in
          r.0.backlog ≡ after_pop r.1 wh.backlog)) [
            | Ordering.eq ↦ elim (Bool-cases (wh.head == pos)) [
              | inl e ↦ rw e refl
              | inr e ↦ rw e (pop_loop-backlog fuel wh wh.head)
            ]
            | Ordering.lt ↦ refl
            | Ordering.gt ↦ pop_loop-backlog fuel wh wh.head
          ]

-- A pop that finds a chunk advances the head.
abbrev pub after_head : Option (Option (Option TaskChunk)) → ℕ → ℕ
after_head (some (some c)) n = wrapping_add n 1
after_head r n = n

pub pop_loop-head :
    (fuel : ℕ) (wh : Warehouse) (pos : ℕ)
    → (let r = pop_loop fuel wh pos in r.0.head ≡ after_head r.1 wh.head)
unfolding pop_loop release
pop_loop-head zero wh pos = refl
pop_loop-head (suc fuel) wh pos =
    elim (signed_cmp (wh.seq (pos % warehouse_capacity)) (wrapping_add pos 1))
      as (λ o.
        (let r : Warehouse × Option (Option (Option TaskChunk)) = elim o [
          | Ordering.eq ↦
              if wh.head == pos
              then (release wh pos, some (some (wh.chunk (pos % warehouse_capacity))))
              else pop_loop fuel wh wh.head
          | Ordering.lt ↦ (wh, some none)
          | Ordering.gt ↦ pop_loop fuel wh wh.head
        ] in
          r.0.head ≡ after_head r.1 wh.head)) [
            | Ordering.eq ↦ elim (Bool-cases (wh.head == pos)) [
              | inl e ↦ rw e (ap (λ n. wrapping_add n 1) (sym ((==_iff wh.head pos).0 e)))
              | inr e ↦ rw e (pop_loop-head fuel wh wh.head)
            ]
            | Ordering.lt ↦ refl
            | Ordering.gt ↦ pop_loop-head fuel wh wh.head
          ]

pub head-pop :
    (fuel : ℕ) (wh : Warehouse) → (let r = pop fuel wh in r.0.head ≡ after_head r.1 wh.head)
unfolding pop
head-pop fuel wh = pop_loop-head fuel wh wh.head

-- A push leaves the head alone.
pub push_loop-head :
    (fuel : ℕ) (wh : Warehouse) (pos : ℕ) (c : TaskChunk)
    → (push_loop fuel wh pos c).0.head ≡ wh.head
unfolding push_loop publish
push_loop-head zero wh pos c = refl
push_loop-head (suc fuel) wh pos c =
    elim (signed_cmp (wh.seq (pos % warehouse_capacity)) pos)
      as (λ o.
        (let r : Warehouse × Option (PushResult TaskChunk) = elim o [
          | Ordering.eq ↦
              if wh.tail == pos then (publish wh pos c, some ok) else push_loop fuel wh wh.tail c
          | Ordering.lt ↦ (wh, some (err c))
          | Ordering.gt ↦ push_loop fuel wh wh.tail c
        ] in
          r.0.head ≡ wh.head)) [
            | Ordering.eq ↦ elim (Bool-cases (wh.tail == pos)) [
              | inl e ↦ rw e refl
              | inr e ↦ rw e (push_loop-head fuel wh wh.tail c)
            ]
            | Ordering.lt ↦ refl
            | Ordering.gt ↦ push_loop-head fuel wh wh.tail c
          ]

pub head-push : (fuel : ℕ) (wh : Warehouse) (c : TaskChunk) → (push fuel wh c).0.head ≡ wh.head
unfolding push
head-push fuel wh c = push_loop-head fuel wh wh.tail c

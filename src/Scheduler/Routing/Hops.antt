-- ===== src/Scheduler/Routing/Hops.antt =====
-- `push_chunk_with_hop`: the chunk ends in one place, which is never the producer's own column.
use dtact.Base.{
  ℕ, zero, suc, ◌+◌, ◌%◌, ◌≤◌, ◌<◌, ◌≡◌, ◌≢◌, ◌⊎◌, refl, ap, sym, subst, ◌∙◌, Bool, false, ◌&&◌,
  arith, ltb, ltb→lt, leb, ◌==◌, Bool-cases, inl, inr, length, mod-ne, err,
}
use native.Mathlib.Nat.{mod-lt, mod-eq_of_lt}
use dtact.Scheduler.Mailbox.{TaskChunk}
use dtact.Scheduler.Warehouse.{warehouse_capacity}
use dtact.Scheduler.Routing.{
  DtaScheduler, Outcome, placed, overflows, put, off_column, hop, next_target, on_full, hopped,
  hop_loop, push_chunk_with_hop,
}
use dtact.Scheduler.Routing.View.{
  View, Stored, Place, box, external, stocked, deposit, aim, put-Stored, signal-Stored, park-Stored,
}

-- Where a producer may leave a chunk: a worker in its mailbox of another worker, a host thread in the
-- external mailbox of a worker, and both in the warehouse.
abbrev pub Allowed : ℕ → ℕ → Place → Type 0
Allowed n p (box t) = (p < n) × (t < n) × (t ≢ p)
Allowed n p (external t) = (n ≤ p) × (t < n)
Allowed n p stocked = Unit {0}

-- The chunk, with some hop count, is in one allowed place and nowhere else, or the warehouse was full.
abbrev pub Arrives : ℕ → TaskChunk → View → DtaScheduler × Outcome → Type 0
Arrives p c v r =
    ((r.1 ≡ placed)
      × ((place : Place) × (hops : ℕ) × Allowed v.num_workers p place
          × Stored r.0 (deposit p place (record c { hop_count = hops }) v)))
    ⊎ ((r.1 ≡ overflows) × (warehouse_capacity ≤ length v.stock))

-- A target of a producer: a worker, and another one if the producer is a worker.
abbrev Fair : ℕ → ℕ → ℕ → Type 0
Fair n p t = (t < n) × (p < n → t ≢ p)

≥_of_ltb : (p n : ℕ) → ltb p n ≡ false → n ≤ p
≥_of_ltb p n e = ground arith

aim-Allowed : (n p t : ℕ) → Fair n p t → Allowed n p (aim n p t)
aim-Allowed n p t (lt, apart) = elim (Bool-cases (ltb p n)) [
  | inl e ↦ rw e (ltb→lt p n e, lt, apart (ltb→lt p n e))
  | inr e ↦ rw e (≥_of_ltb p n e, lt)
]

pub turned : (n p : ℕ) → 1 < n → p < n → ((p + 1) % n < n) × ((p + 1) % n ≢ p)
turned n p two lt =
    (mod-lt (p + 1) (omega arith), λ e. mod-ne n p 1 (omega arith) two (e ∙ sym (mod-eq_of_lt lt)))

pub off_column-Fair :
    (n p t : ℕ) → 1 < n → t < n → (off_column n p t < n) × (p < n → off_column n p t ≢ p)
off_column-Fair n p t two lt = elim (Bool-cases (ltb p n && ltb 1 n && (t == p))) [
  | inl e ↦
      let same : t ≡ p = ground arith in
      let inside : p < n = ground arith in
      let (below, apart) = turned n p two inside in rw (e, same) (below, λ k. apart)
  | inr e ↦ rw e (lt, λ k same. absurd (contrary k same e))
]
  where
    contrary : p < n → t ≡ p → (ltb p n && ltb 1 n && (t == p)) ≡ false → ⊥
    contrary k same e = ground arith

-- After a full mailbox: the warehouse, or another turn.
full-Arrives :
    (again : ℕ → TaskChunk → DtaScheduler → DtaScheduler × Outcome) (p t : ℕ) (c : TaskChunk)
    (r : DtaScheduler) (v : View)
    → Stored r v
    → 1 < v.num_workers
    → (c.hop_count < v.max_hops
        → (t' : ℕ) → Fair v.num_workers p t'
        → Arrives p c v (again t' (hop c) r))
    → Arrives p c v (hopped again p t (r, err c))
full-Arrives again p t c r v stored two turn = elim (Bool-cases (leb r.max_hops c.hop_count)) [
  | inl e ↦ decided e (elim (park-Stored r v p c stored) [
    | inl (done, held) ↦ inl (done, (stocked, c.hop_count, tt, held))
    | inr over ↦ inr over
  ])
  | inr e ↦
      let below : c.hop_count < r.max_hops = lt_of_not-leb r.max_hops c.hop_count e in
      decided e (
        subst (λ n. Arrives p c v (again (next_target n p (hop c)) (hop c) r))
          (sym stored.workers_same)
          (turn (omega (arith, stored.hops_same)) (next_target v.num_workers p (hop c))
            (off_column-Fair v.num_workers p _ two (mod-lt _ (omega arith)))))
]
  where
    decided :
        {b : Bool}
        → leb r.max_hops c.hop_count ≡ b
        → Arrives p c v (on_full again p c r b)
        → Arrives p c v (hopped again p t (r, err c))
    decided e = subst (λ d. Arrives p c v (on_full again p c r d)) (sym e)

    lt_of_not-leb : (a b : ℕ) → leb a b ≡ false → b < a
    lt_of_not-leb a b e = ground arith

put-Arrives :
    (again : ℕ → TaskChunk → DtaScheduler → DtaScheduler × Outcome) (p t : ℕ) (c : TaskChunk)
    (s : DtaScheduler) (v : View)
    → Stored s v
    → 1 < v.num_workers
    → Fair v.num_workers p t
    → ((r : DtaScheduler)
        → Stored r v
        → c.hop_count < v.max_hops
        → (t' : ℕ) → Fair v.num_workers p t'
        → Arrives p c v (again t' (hop c) r))
    → Arrives p c v (hopped again p t (put p t c s))
put-Arrives again p t c s v h two fair turn = elim (put-Stored s v p t c h) [
  | inl (e, stored) ↦
      subst (Arrives p c v) (sym (ap (λ a. hopped again p t ((put p t c s).0, a)) e)) (
        inl (
          refl,
          (
            aim s.num_workers p t,
            c.hop_count,
            subst (λ n. Allowed v.num_workers p (aim n p t)) (sym h.workers_same)
                (aim-Allowed v.num_workers p t fair),
            signal-Stored (put p t c s).0 _ t stored,
          ),
        ))
  | inr (e, stored) ↦
      subst (Arrives p c v) (sym (ap (λ a. hopped again p t ((put p t c s).0, a)) e))
        (full-Arrives again p t c (put p t c s).0 v stored two (turn (put p t c s).0 stored))
]

-- With enough turns left, the loop ends in an allowed place.
hop_loop-Arrives :
    (fuel p t : ℕ) (c : TaskChunk) (s : DtaScheduler) (v : View)
    → Stored s v
    → 1 < v.num_workers
    → v.max_hops ≤ 255
    → v.max_hops ≤ fuel + c.hop_count
    → Fair v.num_workers p t
    → Arrives p c v (hop_loop (suc fuel) p t c s)
unfolding hop_loop
hop_loop-Arrives zero p t c s v h two small enough fair =
    put-Arrives (λ t' c' s'. hop_loop zero p t' c' s') p t c s v h two fair
      (λ r stored below. absurd (omega arith))
hop_loop-Arrives (suc fuel) p t c s v h two small enough fair =
    put-Arrives (λ t' c' s'. hop_loop (suc fuel) p t' c' s') p t c s v h two fair
      (λ r stored below t' fair'.
        hop_loop-Arrives fuel p t' (hop c) r v stored two small (omega arith) fair')

-- The queues of a scheduler hold the lists of a view, it has two workers or more, its hop limit is a
-- byte, and the target is a worker. Then `push_chunk_with_hop` ends within its 256 turns. The chunk is
-- then in one place: in a mailbox of another worker if the producer is a worker, in the external
-- mailbox of a worker if it is not, or in the warehouse; or the warehouse was full, and the program
-- panics.
pub push_chunk_with_hop-Arrives :
    (p t : ℕ) (c : TaskChunk) (s : DtaScheduler) (v : View)
    → Stored s v
    → 1 < v.num_workers
    → v.max_hops ≤ 255
    → t < v.num_workers
    → Arrives p c v (push_chunk_with_hop p t c s)
unfolding push_chunk_with_hop
push_chunk_with_hop-Arrives p t c s v h two small lt =
    subst (λ n. Arrives p c v (hop_loop 256 p (off_column n p t) c s)) (sym h.workers_same)
      (hop_loop-Arrives 255 p (off_column v.num_workers p t) c s v h two small (omega arith)
        (off_column-Fair v.num_workers p t two lt))

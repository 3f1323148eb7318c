-- ===== src/Scheduler/Pool/Layout.antt =====
-- The layout of the arena: slots and guard pages do not overlap, and lie inside the arena.
use dtact.Base.{
  ℕ, ◌+◌, ◌-◌, ◌*◌, ◌/◌, ◌≤◌, ◌<◌, ◌≡◌, ◌⊎◌, inl, inr, refl, ap, sym, subst, Bool-cases, ltb,
  ltb→lt, arith, Bool, false, Option, none, some, ◌==◌,
}
use dtact.Scheduler.Pool.{
  SafetyLevel, safety_0, safety_1, safety_2, ContextPool, arena_size, guard_count, guard_at,
  guard_offset, get_context_ptr, groups, context_sz, protect_all, Made, made, filled, blank,
  protected, new, metadata_size, if_allocated, mprotect_failed, read_buffer_size, align_up,
}
use native.Mathlib.Nat.{mul-add, div-add-mod', mod-lt}

-- Where the slot of an index starts, behind the start of the arena.
abbrev pub slot_at : SafetyLevel → ℕ → ℕ → ℕ → ℕ
slot_at safety slot page i = i * slot + guard_offset safety page i

mul_mono : (a b k : ℕ) → a ≤ b → a * k ≤ b * k
mul_mono a b k h = grind arith

suc_mul : (a k : ℕ) → (a + 1) * k ≡ a * k + k
suc_mul a k = grind arith

next_mul : (a b k : ℕ) → a < b → a * k + k ≤ b * k
next_mul a b k h = omega (arith, mul_mono (a + 1) b k (omega arith), suc_mul a k)

spread : (g s p : ℕ) → g * (s * 32 + p) ≡ g * 32 * s + g * p
spread g s p = grind arith

≤_of_not-ltb : (a b : ℕ) → ltb a b ≡ false → b ≤ a
≤_of_not-ltb a b h = ground arith

slots-apart :
    (l : SafetyLevel) (slot page i j : ℕ)
    → i < j
    → slot_at l slot page i + slot ≤ slot_at l slot page j
unfolding guard_offset
slots-apart safety_0 slot page i j h = omega (arith, next_mul i j slot h)
slots-apart safety_1 slot page i j h =
    omega (arith, next_mul i j slot h, mul_mono (i / 32 + 1) (j / 32 + 1) page (omega arith))
slots-apart safety_2 slot page i j h =
    omega (arith, next_mul i j slot h, mul_mono (i + 1) (j + 1) page (omega arith))

slots-inside :
    (l : SafetyLevel) (capacity slot page i : ℕ)
    → i < capacity
    → slot_at l slot page i + slot ≤ arena_size l capacity slot page
unfolding guard_offset arena_size
slots-inside safety_0 capacity slot page i h = omega (arith, next_mul i capacity slot h)
slots-inside safety_1 capacity slot page i h =
    omega (
      arith,
      next_mul i capacity slot h,
      mul_mono (i / 32 + 1) (groups capacity) page (omega arith),
    )
slots-inside safety_2 capacity slot page i h = omega (
  arith,
  next_mul i capacity slot h,
  mul_mono (i + 1) capacity page (omega arith),
  mul-add capacity slot page,
)

guards-apart :
    (l : SafetyLevel) (capacity slot page g i : ℕ)
    → g < guard_count l capacity
    → (guard_at l slot page g + page ≤ slot_at l slot page i)
      ⊎ (slot_at l slot page i + slot ≤ guard_at l slot page g)
unfolding guard_offset guard_at guard_count
guards-apart safety_0 capacity slot page g i h = absurd (omega arith)
guards-apart safety_1 capacity slot page g i h = elim (Bool-cases (ltb (i / 32) g)) [
  | inl behind ↦
      let lt : i / 32 < g = ltb→lt _ _ behind in
      inr (
        omega (
          arith,
          next_mul i (g * 32) slot (omega arith),
          mul_mono (i / 32 + 1) g page (omega arith),
          spread g slot page,
        ))
  | inr before ↦
      let le : g ≤ i / 32 = ≤_of_not-ltb _ _ before in
      inl (
        omega (
          arith,
          mul_mono (g * 32) i slot (omega arith),
          mul_mono (g + 1) (i / 32 + 1) page (omega arith),
          spread g slot page,
          suc_mul g page,
        ))
]
guards-apart safety_2 capacity slot page g i h = elim (Bool-cases (ltb i g)) [
  | inl behind ↦
      let lt : i < g = ltb→lt _ _ behind in
      inr (
        omega
          (arith, next_mul i g slot lt, mul_mono (i + 1) g page (omega arith), mul-add g slot page))
  | inr before ↦
      let le : g ≤ i = ≤_of_not-ltb _ _ before in
      inl (
        omega (
          arith,
          mul_mono g i slot le,
          mul_mono (g + 1) (i + 1) page (omega arith),
          mul-add g slot page,
          suc_mul g page,
        ))
]

-- Where the slot of a context starts.
abbrev pub slot_start : ContextPool → ℕ → ℕ
slot_start p i = p.base_ptr + slot_at p.safety p.slot_size p.page_size i

abbrev pub guard_start : ContextPool → ℕ → ℕ
guard_start p g = p.base_ptr + guard_at p.safety p.slot_size p.page_size g

protected-made :
    (protect : ℕ → Bool) (q p : ContextPool)
    → protected protect q ≡ made p
    → (p ≡ filled q) × (0 < q.capacity)
unfolding protected
protected-made protect q p e =
    elim (Bool-cases (
      protect_all protect (λ i. q.base_ptr + guard_at q.safety q.slot_size q.page_size i) 0
        (guard_count q.safety q.capacity))) [
          | inl on ↦ elim (Bool-cases (q.capacity == 0)) [
            | inl nothing ↦ absurd cc (rw (on, nothing) at e)
            | inr some_room ↦
                let same : made (filled q) ≡ made p = rw (on, some_room) at e in (cc, ground arith)
          ]
          | inr off ↦ let bad : mprotect_failed ≡ made p = rw off at e in absurd cc
        ]

allocated-made :
    (o : Option ℕ) (k : ℕ → Made) (p : ContextPool)
    → if_allocated o k ≡ made p
    → (base : ℕ) × (k base ≡ made p)
allocated-made none k p e = absurd cc
allocated-made (some base) k p e = (base, e)

-- A pool that `new` makes is a blank one with its contexts filled, and has a context at least.
pub made-filled :
    (context_size page : ℕ) (allocate : ℕ → Option ℕ) (protect : ℕ → Bool) (capacity stack : ℕ)
    (safety : SafetyLevel) (p : ContextPool)
    → new context_size page allocate protect capacity stack safety ≡ made p
    → (base : ℕ) × (p ≡ filled (blank context_size page capacity stack safety base))
      × (0 < capacity)
unfolding new blank
made-filled context_size page allocate protect capacity stack safety p e =
    let (base, f) = allocated-made (allocate _) _ p e in
    let (same, some_room) = protected-made protect _ p f in (base, same, some_room)

-- The layout that the theorems need of a pool: what `new` establishes.
pub record Laid (context_size : ℕ) (p : ContextPool) : Type 0 where
  pub total : p.total_size ≡ arena_size p.safety p.capacity p.slot_size p.page_size + metadata_size
  pub ends : p.context_end_offset + context_sz context_size ≡ p.slot_size
  pub buffered : read_buffer_size ≤ p.context_end_offset

slot_for-le : (n k : ℕ) → 0 < k → n ≤ align_up n k
slot_for-le n k h = omega (arith, div-add-mod' (n + k - 1) k, mod-lt (n + k - 1) h)

pub blank-Laid :
    (context_size page capacity stack : ℕ) (safety : SafetyLevel) (base : ℕ)
    → 0 < page
    → Laid context_size (filled (blank context_size page capacity stack safety base))
unfolding blank filled
blank-Laid context_size page capacity stack safety base h =
    let le = slot_for-le (stack + context_sz context_size + read_buffer_size) page h in
    record { total = refl; ends = omega (arith, le); buffered = omega (arith, le) }

-- In a pool that `new` makes, with pages of positive size: the slots of two different contexts do not
-- overlap; each slot lies inside the arena, in front of its metadata; no guard page overlaps a slot,
-- where the pool has guard pages; and a context ends with its slot, with a read buffer in front of it
-- inside the slot.
pub slots-layout :
    (context_size page : ℕ) (allocate : ℕ → Option ℕ) (protect : ℕ → Bool) (capacity stack : ℕ)
    (safety : SafetyLevel) (p : ContextPool) (i j g : ℕ)
    → new context_size page allocate protect capacity stack safety ≡ made p
    → 0 < page
    → i < p.capacity
    → j < p.capacity
    → ((i ≡ j)
        ⊎ (slot_start p i + p.slot_size ≤ slot_start p j)
        ⊎ (slot_start p j + p.slot_size ≤ slot_start p i))
      × (slot_start p j + p.slot_size + metadata_size ≤ p.base_ptr + p.total_size)
      × ((guard_count p.safety p.capacity ≤ g)
          ⊎ (guard_start p g + p.page_size ≤ slot_start p j)
          ⊎ (slot_start p j + p.slot_size ≤ guard_start p g))
      × (get_context_ptr p j + context_sz context_size ≡ slot_start p j + p.slot_size)
      × (slot_start p j + read_buffer_size ≤ get_context_ptr p j)
unfolding get_context_ptr
slots-layout context_size page allocate protect capacity stack safety p i j g e pos first inside =
    let (base, same, some_room) =
      made-filled context_size page allocate protect capacity stack safety p e in
    let laid : Laid context_size p =
      subst (Laid context_size) (sym same)
        (blank-Laid context_size page capacity stack safety base pos) in
    (
      each_apart,
      omega (arith, slots-inside p.safety p.capacity p.slot_size p.page_size j inside, laid.total),
      guarded,
      omega (arith, laid.ends),
      omega (arith, laid.buffered),
    )
  where
    shifted :
        (a b c m n : ℕ)
        → (a + m ≤ b) ⊎ (b + n ≤ c)
        → (p.base_ptr + a + m ≤ p.base_ptr + b) ⊎ (p.base_ptr + b + n ≤ p.base_ptr + c)
    shifted a b c m n (inl h) = inl (omega arith)
    shifted a b c m n (inr h) = inr (omega arith)

    each_apart :
        (i ≡ j)
        ⊎ (slot_start p i + p.slot_size ≤ slot_start p j)
        ⊎ (slot_start p j + p.slot_size ≤ slot_start p i)
    each_apart = elim (Bool-cases (ltb i j)) [
      | inl before ↦ inr (
          inl (omega (arith, slots-apart p.safety p.slot_size p.page_size i j (ltb→lt i j before))))
      | inr from ↦ elim (Bool-cases (ltb j i)) [
        | inl behind ↦ inr (
            inr
              (omega (arith, slots-apart p.safety p.slot_size p.page_size j i (ltb→lt j i behind))))
        | inr up_to ↦ inl (omega (arith, ≤_of_not-ltb i j from, ≤_of_not-ltb j i up_to))
      ]
    ]

    guarded :
        (guard_count p.safety p.capacity ≤ g)
        ⊎ (guard_start p g + p.page_size ≤ slot_start p j)
        ⊎ (slot_start p j + p.slot_size ≤ guard_start p g)
    guarded = elim (Bool-cases (ltb g (guard_count p.safety p.capacity))) [
      | inl there ↦ inr (
          shifted _ _ _ p.page_size p.slot_size
            (guards-apart p.safety p.capacity p.slot_size p.page_size g j (ltb→lt _ _ there)))
      | inr none_such ↦ inl (≤_of_not-ltb g (guard_count p.safety p.capacity) none_such)
    ]

-- With a guard page for each context, the page in front of a slot is a guard page; with one for each
-- 32 contexts, that holds of the first slot of each 32.
guard-slot :
    (p : ContextPool) (i : ℕ)
    → (p.safety ≡ safety_2 → guard_start p i + p.page_size ≡ slot_start p i)
      × (p.safety ≡ safety_1 → guard_start p i + p.page_size ≡ slot_start p (i * 32))
unfolding guard_at guard_offset
guard-slot p i = (
  λ e. rw e (omega (arith, mul-add i p.slot_size p.page_size, suc_mul i p.page_size)),
  λ e. rw e (omega (arith, spread i p.slot_size p.page_size, suc_mul i p.page_size, group i)),
)
  where
    group : (i : ℕ) → (i * 32 / 32 + 1) * p.page_size ≡ (i + 1) * p.page_size
    group i = ap (λ n. n * p.page_size) (omega arith)

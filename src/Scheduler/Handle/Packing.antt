-- ===== src/Scheduler/Handle/Packing.antt =====
-- Packing a handle and reading it, and how long a handle stays recognisable.
use Prim.Native.Nat.{bit_or, bit_or-bitwise, digits, max}
use native.Mathlib.Nat.{pow-suc, mul_assoc}
use dtact.Base.{
  ℕ, zero, suc, ◌+◌, ◌*◌, ◌/◌, ◌%◌, ◌^◌, ◌≤◌, ◌<◌, ◌≡◌, ap, sym, ◌∙◌, true, false, arith, ==_iff,
  ==_of_ne,
}
use dtact.Scheduler.Handle.{
  handle, stack_handle, target_ctx_id, handle_gen, target_core_id, is_current, waiter_handle,
  waiter_of,
}

-- Digits below a power of two are those of the one number, and the others those of the other.
digits-disjoint :
    (k n a c : ℕ) → a < 2 ^ k → a ≤ n → digits (λ b. b) max n a (c * 2 ^ k) ≡ a + c * 2 ^ k
digits-disjoint k zero zero c h le = omega arith
digits-disjoint k (suc n) zero c h le = omega arith
digits-disjoint k zero (suc a) c h le = absurd (omega arith)
digits-disjoint zero (suc n) (suc a) c h le = absurd (omega arith)
digits-disjoint (suc k) (suc n) (suc a) c h le =
    let twice : c * 2 ^ suc k ≡ c * 2 ^ k * 2 =
      ap (λ x. c * x) (pow-suc 2 k) ∙ sym (mul_assoc c (2 ^ k) 2) in
    let half = digits-disjoint k n (suc a / 2) c (omega (arith, pow-suc 2 k)) (omega arith) in
    rw (twice) (one_digit (c * 2 ^ k) half)
  where
    one_digit :
        (x : ℕ)
        → digits (λ b. b) max n (suc a / 2) x ≡ suc a / 2 + x
        → digits (λ b. b) max (suc n) (suc a) (x * 2) ≡ suc a + x * 2
    one_digit x e =
        (λ i. digits (λ b. b) max n (suc a / 2) (halved i) * 2 + max (suc a % 2) (even i))
        ∙ ap (λ m. m * 2 + max (suc a % 2) 0) e
        ∙ omega arith
      where
        halved : x * 2 / 2 ≡ x
        halved = omega arith

        even : x * 2 % 2 ≡ 0
        even = omega arith

bit_or-disjoint : (k a c : ℕ) → a < 2 ^ k → bit_or a (c * 2 ^ k) ≡ a + c * 2 ^ k
bit_or-disjoint k a c h = bit_or-bitwise a (c * 2 ^ k) ∙ digits-disjoint k a a c h (omega arith)

-- Below their widths the fields do not meet.
handle-sum :
    (ctx_id core generation : ℕ)
    → ctx_id < 2 ^ 32
    → core < 2 ^ 16
    → handle ctx_id core generation ≡ ctx_id + core * 2 ^ 32 + generation % 2 ^ 15 * 2 ^ 48 + 2 ^ 63
unfolding handle
handle-sum ctx_id core generation h1 h2 =
    (λ i. bit_or (bit_or (bit_or ctx_id (core_field i)) (generation_field i)) (1 * 2 ^ 63))
    ∙ (λ i.
        bit_or (bit_or (bit_or-disjoint 32 ctx_id core h1 i) (generation % 2 ^ 15 * 2 ^ 48))
          (1 * 2 ^ 63))
    ∙ (λ i.
        bit_or (bit_or-disjoint 48 (ctx_id + core * 2 ^ 32) (generation % 2 ^ 15) (omega arith) i)
          (1 * 2 ^ 63))
    ∙ bit_or-disjoint 63 (ctx_id + core * 2 ^ 32 + generation % 2 ^ 15 * 2 ^ 48) 1 (omega arith)
  where
    core_field : core * 2 ^ 32 % 2 ^ 64 ≡ core * 2 ^ 32
    core_field = omega arith

    generation_field : generation % 2 ^ 15 * 2 ^ 48 % 2 ^ 64 ≡ generation % 2 ^ 15 * 2 ^ 48
    generation_field = omega arith

-- The handle of a context with an index of 32 bits, whose core has 16 bits, is read as that index, that
-- core, and the last 15 bits of the generation; and its highest bit is set.
pub handle-read :
    (ctx_id core generation : ℕ)
    → ctx_id < 2 ^ 32
    → core < 2 ^ 16
    → (target_ctx_id (handle ctx_id core generation) ≡ ctx_id)
      × (target_core_id (handle ctx_id core generation) ≡ core)
      × (handle_gen (handle ctx_id core generation) ≡ generation % 2 ^ 15)
      × (2 ^ 63 ≤ handle ctx_id core generation)
unfolding target_ctx_id target_core_id handle_gen
handle-read ctx_id core generation h1 h2 =
    rw (handle-sum ctx_id core generation h1 h2)
      (omega arith, omega arith, omega arith, omega arith)

-- The waiter handle of a fiber with an index of 32 bits, on a worker with a number of 31 bits, is read
-- as that worker and that fiber.
pub waiter_of-waiter_handle :
    (ctx_id worker : ℕ)
    → ctx_id < 2 ^ 32
    → worker < 2 ^ 31
    → waiter_of (waiter_handle ctx_id worker) ≡ (worker, ctx_id)
unfolding waiter_of waiter_handle
waiter_of-waiter_handle ctx_id worker h1 h2 = ap waiter_of sum ∙ (λ i. (first i, second i))
  where
    field : worker * 2 ^ 32 % 2 ^ 64 ≡ worker * 2 ^ 32
    field = omega arith

    sum : waiter_handle ctx_id worker ≡ ctx_id + worker * 2 ^ 32 + 1 * 2 ^ 63
    sum =
        (λ i. bit_or (bit_or ctx_id (field i)) (1 * 2 ^ 63))
        ∙ (λ i. bit_or (bit_or-disjoint 32 ctx_id worker h1 i) (1 * 2 ^ 63))
        ∙ bit_or-disjoint 63 (ctx_id + worker * 2 ^ 32) 1 (omega arith)

    first : (ctx_id + worker * 2 ^ 32 + 1 * 2 ^ 63) % 2 ^ 63 / 2 ^ 32 ≡ worker
    first = omega arith

    second : (ctx_id + worker * 2 ^ 32 + 1 * 2 ^ 63) % 2 ^ 63 % 2 ^ 32 ≡ ctx_id
    second = omega arith

-- A handle is current for the context that it was made for; when the context has been freed at least
-- once and up to 32767 times since, it is not; and after 32768 times it is again.
pub is_current-handle :
    (ctx_id core generation frees : ℕ)
    → ctx_id < 2 ^ 32
    → core < 2 ^ 16
    → 0 < frees
    → frees < 2 ^ 15
    → (is_current (handle ctx_id core generation) generation ≡ true)
      × (is_current (handle ctx_id core generation) ((generation + frees) % 2 ^ 32) ≡ false)
      × (is_current (handle ctx_id core generation) ((generation + 2 ^ 15) % 2 ^ 32) ≡ true)
unfolding is_current
is_current-handle ctx_id core generation frees h1 h2 low high =
    let (c, k, same, valid) = handle-read ctx_id core generation h1 h2 in
    (
      (==_iff _ _).1 (omega (arith, same)),
      ==_of_ne _ _ (λ e. absurd (omega (arith, same))),
      (==_iff _ _).1 (omega (arith, same)),
    )

-- The handle of `spawn_with_stack` carries no generation: when the context was freed before, less than
-- 32768 times, the handle is not current from the start, and `dtact_await` does not wait for it.
pub is_current-stack_handle :
    (ctx_id core generation : ℕ)
    → ctx_id < 2 ^ 32
    → core < 2 ^ 16
    → 0 < generation
    → generation < 2 ^ 15
    → (target_ctx_id (stack_handle ctx_id core) ≡ ctx_id)
      × (is_current (stack_handle ctx_id core) generation ≡ false)
unfolding is_current stack_handle target_ctx_id handle_gen
is_current-stack_handle ctx_id core generation h1 h2 low high =
    rw sum (omega arith, ==_of_ne _ _ (λ e. absurd (omega arith)))
  where
    field : core * 2 ^ 32 % 2 ^ 64 ≡ core * 2 ^ 32
    field = omega arith

    sum : stack_handle ctx_id core ≡ ctx_id + core * 2 ^ 32
    sum = (λ i. bit_or ctx_id (field i)) ∙ bit_or-disjoint 32 ctx_id core h1

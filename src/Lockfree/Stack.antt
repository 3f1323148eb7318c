-- ===== src/Lockfree/Stack.antt =====
-- `MpmcStack<T>` of dtact-util/src/lockfree.rs: a Treiber stack of heap nodes. A pointer is an
-- address, null is `none`, and `node` maps the live addresses to their nodes. The address of a new
-- node is the allocator's choice and an argument of `push`.
pub mod Chain
pub mod Drain
pub mod Aba
pub mod Tests
use dtact.Base.{
  ℕ, zero, suc, ◌+◌, Bool, true, false, Option, none, some, List, [], ◌∷◌, ◌++◌, reverse, ◌==◌,
  if◌then◌else◌, update, wrapping_add, wrapping_sub,
}

pub record Node {ℓ} (A : Type ℓ) : Type ℓ where
  pub value : A
  pub next : Option ℕ

pub record MpmcStack {ℓ} (A : Type ℓ) : Type ℓ where
  pub head : Option ℕ
  pub node : ℕ → Option (Node A)
  pub len : ℕ

-- Equality of pointers.
unfoldable pub ptr_eq : Option ℕ → Option ℕ → Bool
ptr_eq none none = true
ptr_eq (some a) (some b) = a == b
ptr_eq _ _ = false

module _ {ℓ} {A : Type ℓ} where
  unfoldable pub new : MpmcStack A
  new = record { head = none; node = λ _. none; len = 0 }

  -- The exchange on `head`: `none` if the head is no longer the one observed.
  unfoldable pub compare_exchange : MpmcStack A → Option ℕ → Option ℕ → Option (MpmcStack A)
  compare_exchange s observed new =
      if ptr_eq s.head observed then some (record s { head = new }) else none

  -- A push that no other thread interrupts.
  unfoldable pub push : MpmcStack A → ℕ → A → MpmcStack A
  push s addr value = record {
    head = some addr;
    node = update s.node addr (some (record { value = value; next = s.head }));
    len = wrapping_add s.len 1;
  }

  -- What a pop does once its exchange has succeeded: the node is freed and its value returned.
  abbrev pub take_node : MpmcStack A → ℕ → Node A → MpmcStack A × Option A
  take_node s addr n = (
    record { head = n.next; node = update s.node addr none; len = wrapping_sub s.len 1 },
    some n.value,
  )

  -- A pop that no other thread interrupts, from the head that it has read. The outer `none` is a
  -- read through a dangling pointer.
  unfoldable pub pop_from : MpmcStack A → Option ℕ → Option (MpmcStack A × Option A)
  pop_from s none = some (s, none)
  pop_from s (some addr) = elim (s.node addr) [ none ↦ none | some n ↦ some (take_node s addr n) ]

  unfoldable pub pop : MpmcStack A → Option (MpmcStack A × Option A)
  unfolding pop_from
  pop s = pop_from s s.head

  unfoldable pub is_empty : MpmcStack A → Bool
  unfolding ptr_eq
  is_empty s = ptr_eq s.head none

  -- The walk of `drain_all`: free each node and keep its value, first node first. `none` is a
  -- dangling pointer, or fuel that ran out.
  unfoldable pub walk :
      ℕ → (ℕ → Option (Node A)) → Option ℕ → Option ((ℕ → Option (Node A)) × List A)
  walk fuel f none = some (f, [])
  walk zero f (some addr) = none
  walk (suc fuel) f (some addr) = elim (f addr) [
    | none ↦ none
    | some n ↦ elim (walk fuel (update f addr none) n.next) [
      | none ↦ none
      | some (f', xs) ↦ some (f', n.value ∷ xs)
    ]
  ]

  unfoldable pub drain_all : ℕ → MpmcStack A → Option (MpmcStack A × List A)
  unfolding walk
  drain_all fuel s = elim (walk fuel s.node s.head) [
    | none ↦ none
    | some (f, xs) ↦ some (record { head = none; node = f; len = 0 }, reverse xs)
  ]

  -- The first loop of `drain_into_vec_deque`: turn the pointers round in place. The result is the
  -- heap and the last node.
  unfoldable pub turn :
      ℕ → (ℕ → Option (Node A)) → Option ℕ → Option ℕ → Option ((ℕ → Option (Node A)) × Option ℕ)
  turn fuel f prev none = some (f, prev)
  turn zero f prev (some addr) = none
  turn (suc fuel) f prev (some addr) = elim (f addr) [
    | none ↦ none
    | some n ↦
        turn fuel (update f addr (some (record { value = n.value; next = prev }))) (some addr)
          n.next
  ]

  -- The second loop pushes the values back to the deque; `len` is left as it was.
  unfoldable pub drain_into_vec_deque : ℕ → MpmcStack A → List A → Option (MpmcStack A × List A)
  drain_into_vec_deque fuel s target = elim (turn fuel s.node none s.head) [
    | none ↦ none
    | some (f, last) ↦ elim (walk fuel f last) [
      | none ↦ none
      | some (f', xs) ↦ some (record s { head = none; node = f' }, target ++ xs)
    ]
  ]

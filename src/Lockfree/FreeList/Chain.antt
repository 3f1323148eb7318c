-- ===== src/Lockfree/FreeList/Chain.antt =====
-- `TreiberStack`: the free indices that the links hold, and what `push` and `pop` do to them.
use dtact.Base.{
  ℕ, ◌^◌, ◌<◌, ◌≡◌, ◌≢◌, refl, ◌∙◌, none, some, List, [], ◌∷◌, arith, lt→ltb, update, update_self,
  update_ne, NotIn, ==_of_ne, ==_self,
}
use dtact.Lockfree.FreeList.{
  TreiberStack, nil_index, index_of, next_head, new, push_turn, push, pop_exchange, pop, new_empty,
}

abbrev pub first : List ℕ → ℕ
first [] = nil_index
first (x ∷ xs) = x

-- The links run through `xs`, whose members differ and are below `size`.
abbrev pub Chain : (ℕ → ℕ) → ℕ → List ℕ → Type 0
Chain next size [] = Unit {0}
Chain next size (x ∷ xs) = (x < size) × (next x ≡ first xs) × NotIn x xs × Chain next size xs

-- The free-list holds the indices `xs`, the next one to pop first.
pub record Holds (s : TreiberStack) (xs : List ℕ) : Type 0 where
  pub top : index_of s.head ≡ first xs
  pub chain : Chain s.next s.size xs
  pub indices : s.size < 2 ^ 32

index-next_head : (h i : ℕ) → i < 2 ^ 32 → index_of (next_head h i) ≡ i
index-next_head h i lt = omega arith

first-lt :
    (next : ℕ → ℕ) (size : ℕ) (xs : List ℕ) → size < 2 ^ 32 → Chain next size xs → first xs < 2 ^ 32
first-lt next size [] s c = omega arith
first-lt next size (x ∷ xs) s c = let lt : x < size = c.0 in omega arith

Chain-update :
    (next : ℕ → ℕ) (size i v : ℕ) (xs : List ℕ)
    → NotIn i xs
    → Chain next size xs
    → Chain (update next i v) size xs
Chain-update next size i v [] out c = tt
Chain-update next size i v (x ∷ xs) out (lt, link, apart, c) =
    (lt, update_ne next i x v out.0 ∙ link, apart, Chain-update next size i v xs out.1 c)

pop-step :
    (s : TreiberStack) (x n : ℕ)
    → index_of s.head ≡ x
    → x ≢ nil_index
    → s.next x ≡ n
    → pop s ≡ (record s { head = next_head s.head n }, some x)
unfolding pop pop_exchange
pop-step s x n top ne link = rw (top, ==_of_ne x nil_index ne, ==_self s.head, link) refl

-- On a free-list that holds at least one index, `pop` answers the first one, which is below `size`
-- and not held any more, and the list then holds the others.
pub pop-free :
    (s : TreiberStack) (x : ℕ) (xs : List ℕ)
    → Holds s (x ∷ xs)
    → ((pop s).1 ≡ some x) × (x < s.size) × NotIn x xs × Holds (pop s).0 xs
pop-free s x xs h =
    let (lt, link, apart, c) = h.chain in
    let size : s.size < 2 ^ 32 = h.indices in
    rw (pop-step s x (first xs) h.top (λ e. absurd (omega arith)) link) (
      refl,
      lt,
      apart,
      record {
        top = index-next_head s.head (first xs) (first-lt s.next s.size xs size c);
        chain = c;
        indices = size;
      },
    )

-- An empty free-list stays as it is.
pop-empty : (s : TreiberStack) → Holds s [] → pop s ≡ (s, none)
unfolding pop
pop-empty s h = rw h.top refl

-- On a free-list that does not hold the index `i`, which is below `size`, `push` does not panic, and
-- the list then holds `i` in front of the others.
pub push-free :
    (s : TreiberStack) (i : ℕ) (xs : List ℕ)
    → Holds s xs
    → i < s.size
    → NotIn i xs
    → (t : TreiberStack) × (push s i ≡ some t) × Holds t (i ∷ xs)
unfolding push push_turn
push-free s i xs h lt out =
    let size : s.size < 2 ^ 32 = h.indices in
    (
      record s { head = next_head s.head i; next = update s.next i (index_of s.head) },
      rw (lt→ltb i s.size lt, ==_self s.head) refl,
      record {
        top = index-next_head s.head i (omega arith);
        chain = (
          lt,
          update_self s.next i (index_of s.head) ∙ h.top,
          out,
          Chain-update s.next s.size i (index_of s.head) xs out h.chain,
        );
        indices = size;
      },
    )

-- A stack that `new` or `new_empty` makes is empty, whatever its size: the next `pop` answers `None`.
pub pop-new :
    (size : ℕ)
    → (pop (new size) ≡ (new size, none)) × (pop (new_empty size) ≡ (new_empty size, none))
unfolding pop new new_empty
pop-new size = (refl, refl)

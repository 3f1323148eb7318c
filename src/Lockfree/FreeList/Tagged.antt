-- ===== src/Lockfree/FreeList/Tagged.antt =====
-- `TreiberStack`: the tag in the head makes a delayed exchange fail.
use dtact.Base.{
  ℕ, ◌+◌, ◌%◌, ◌^◌, ◌<◌, ◌≡◌, ◌≢◌, refl, sym, ap, subst, ◌∙◌, Bool, true, false, none, some, List,
  [], ◌∷◌, arith, ◌==◌, update, Bool-cases, inl, inr, ==_of_ne, ==_self,
}
use dtact.Lockfree.FreeList.{
  TreiberStack, nil_index, index_of, tag_of, next_head, push_turn, pop_exchange, pop, Op, pushes,
  pops, step, run,
}

-- The links and the free-list are made of `u32`s.
abbrev pub Narrow : TreiberStack → Type 0
Narrow s = ((i : ℕ) → s.next i < 2 ^ 32) × (s.head < 2 ^ 64)

abbrev pub NarrowOp : Op → Type 0
NarrowOp (pushes i) = i < 2 ^ 32
NarrowOp pops = Unit {0}

abbrev pub AllNarrow : List Op → Type 0
AllNarrow [] = Unit {0}
AllNarrow (op ∷ ops) = NarrowOp op × AllNarrow ops

-- How many of the operations change the list: a `pop` of an empty list does not.
abbrev pub changed : Bool → ℕ
changed true = 0
changed false = 1

abbrev pub changes_of : TreiberStack → Op → ℕ
changes_of s (pushes i) = 1
changes_of s pops = changed (index_of s.head == nil_index)

abbrev pub changes : List Op → TreiberStack → ℕ
changes [] s = 0
changes (op ∷ ops) s = changes_of s op + changes ops (step s op)

tag-next_head : (h i : ℕ) → i < 2 ^ 32 → tag_of (next_head h i) ≡ (tag_of h + 1) % 2 ^ 32
tag-next_head h i lt = omega arith

next_head-lt : (h i : ℕ) → i < 2 ^ 32 → next_head h i < 2 ^ 64
next_head-lt h i lt = omega arith

-- What a step does to the head's tag, and that links and heads stay in range.
Advances : TreiberStack → ℕ → TreiberStack → Type 0
Advances s n t = Narrow t × (tag_of t.head ≡ (tag_of s.head + n) % 2 ^ 32)

update-narrow :
    (f : ℕ → ℕ) (i v : ℕ)
    → v < 2 ^ 32
    → ((j : ℕ) → f j < 2 ^ 32)
    → (j : ℕ) → update f i v j < 2 ^ 32
update-narrow f i v lt h j = elim (Bool-cases (i == j)) [ inl e ↦ rw e lt | inr e ↦ rw e (h j) ]

push_turn_self :
    (s : TreiberStack) (i : ℕ)
    → push_turn s s.head i
      ≡ (record s { head = next_head s.head i; next = update s.next i (index_of s.head) }, true)
unfolding push_turn
push_turn_self s i = rw (==_self s.head) refl

pop-indexed :
    (s : TreiberStack)
    → (index_of s.head == nil_index) ≡ false
    → pop s
      ≡ (record s { head = next_head s.head (s.next (index_of s.head)) }, some (index_of s.head))
unfolding pop pop_exchange
pop-indexed s e = rw (e, ==_self s.head) refl

pop-exhausted : (s : TreiberStack) → (index_of s.head == nil_index) ≡ true → pop s ≡ (s, none)
unfolding pop
pop-exhausted s e = rw e refl

same-tag : (h : ℕ) → h < 2 ^ 64 → tag_of h ≡ (tag_of h + 0) % 2 ^ 32
same-tag h lt = omega arith

step-Advances :
    (s : TreiberStack) (op : Op) → Narrow s → NarrowOp op → Advances s (changes_of s op) (step s op)
unfolding Advances step
step-Advances s (pushes i) n k =
    subst (λ r. Advances s 1 r.0) (sym (push_turn_self s i))
      (
        (update-narrow s.next i (index_of s.head) (omega arith) n.0, next_head-lt s.head i k),
        tag-next_head s.head i k,
      )
step-Advances s pops n k = elim (Bool-cases (index_of s.head == nil_index)) [
  | inl e ↦
      subst (λ r. Advances s (changes_of s pops) r.0) (sym (pop-exhausted s e))
        (n, rw e (same-tag s.head n.1))
  | inr e ↦
      let lt = n.0 (index_of s.head) in
      subst (λ r. Advances s (changes_of s pops) r.0) (sym (pop-indexed s e))
        ((n.0, next_head-lt s.head _ lt), rw e (tag-next_head s.head _ lt))
]

tags-add :
    (a b c m n : ℕ) → b ≡ (a + m) % 2 ^ 32 → c ≡ (b + n) % 2 ^ 32 → c ≡ (a + (m + n)) % 2 ^ 32
tags-add a b c m n e f = omega arith

run-Advances :
    (ops : List Op) (s : TreiberStack)
    → Narrow s
    → AllNarrow ops
    → Advances s (changes ops s) (run ops s)
unfolding Advances run
run-Advances [] s n k = (n, same-tag s.head n.1)
run-Advances (op ∷ ops) s n k =
    let (n', e) = step-Advances s op n k.0 in
    let (n'', e') = run-Advances ops (step s op) n' k.1 in
    (n'', tags-add (tag_of s.head) _ _ (changes_of s op) _ e e')

tag-ne : (t n : ℕ) → t < 2 ^ 32 → 0 < n → n < 2 ^ 32 → (t + n) % 2 ^ 32 ≢ t
tag-ne t n a b c e = absurd (omega arith)

-- On a free-list whose links are `u32`s and whose head is a `u64`: a `pop` reads the head and a
-- successor; other threads then change the list at least once and fewer than 2^32 times, even
-- if they bring the same index back to the front; the exchange of the `pop` fails.
pub pop_exchange-late :
    (ops : List Op) (s : TreiberStack) (successor : ℕ)
    → Narrow s
    → AllNarrow ops
    → 0 < changes ops s
    → changes ops s < 2 ^ 32
    → pop_exchange (run ops s) s.head successor ≡ (run ops s, false)
unfolding Advances pop_exchange
pop_exchange-late ops s successor n k some_change few =
    let (n', e) = run-Advances ops s n k in
    let moved : (run ops s).head ≢ s.head = λ same.
      tag-ne (tag_of s.head) (changes ops s) (tag-lt s.head n.1) some_change few
        (sym e ∙ ap tag_of same) in
    rw (==_of_ne (run ops s).head s.head moved) refl
  where
    tag-lt : (h : ℕ) → h < 2 ^ 64 → tag_of h < 2 ^ 32
    tag-lt h lt = omega arith

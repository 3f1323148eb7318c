-- ===== src/Lockfree/Stack/Chain.antt =====
-- `MpmcStack` against a list: what the chain of nodes holds, and how `push` and `pop` change it.
use dtact.Base.{
  NotIn, ℕ, ◌≡◌, refl, ap, ◌∙◌, Option, none, some, List, [], ◌∷◌, update, update_ne, update_self,
}
use dtact.Lockfree.Stack.{Node, MpmcStack, push, take_node, pop, pop_from}

abbrev pub first : List ℕ → Option ℕ
first [] = none
first (a ∷ as') = some a

-- The nodes at the addresses hold the values, each pointing to the next; no address is met twice.
abbrev pub Chain {ℓ} : {A : Type ℓ} → (ℕ → Option (Node A)) → List ℕ → List A → Type ℓ
Chain f [] [] = Unit
Chain f (a ∷ addrs) (x ∷ xs) =
    (f a ≡ some (record { value = x; next = first addrs })) × NotIn a addrs × Chain f addrs xs
Chain f _ _ = ⊥ × Unit {ℓ}

-- The stack holds `xs`, newest first, in nodes at the addresses `addrs`.
pub record Holds {ℓ} {A : Type ℓ} (s : MpmcStack A) (addrs : List ℕ) (xs : List A) : Type ℓ where
  pub top : s.head ≡ first addrs
  pub chain : Chain s.node addrs xs

module _ {ℓ} {A : Type ℓ} where
  -- A write to an address outside the chain leaves the chain alone.
  pub Chain-update :
      (f : ℕ → Option (Node A)) (addrs : List ℕ) (xs : List A) (a : ℕ) (n : Option (Node A))
      → NotIn a addrs
      → Chain f addrs xs
      → Chain (update f a n) addrs xs
  Chain-update f [] [] a n out c = c
  Chain-update f [] (x ∷ xs) a n out c = c
  Chain-update f (b ∷ addrs) [] a n out c = c
  Chain-update f (b ∷ addrs) (x ∷ xs) a n out c =
      (update_ne f a b n out.0 ∙ c.0, c.1, Chain-update f addrs xs a n out.1 c.2)

  -- `push` puts its value on top, in a node at an address that was not in use.
  pub push-Holds :
      (s : MpmcStack A) (addrs : List ℕ) (xs : List A) (a : ℕ) (v : A)
      → Holds s addrs xs
      → NotIn a addrs
      → Holds (push s a v) (a ∷ addrs) (v ∷ xs)
  unfolding push
  push-Holds s addrs xs a v h out = record {
    top = refl;
    chain = (
      update_self s.node a _ ∙ ap (λ p. some (record { value = v; next = p })) h.top,
      out,
      Chain-update s.node addrs xs a _ out h.chain,
    );
  }

  -- On a stack whose chain holds at least one value, `pop` meets no dangling pointer, answers the
  -- newest value, and the stack then holds the rest.
  pub pop-Holds :
      (s : MpmcStack A) (a : ℕ) (addrs : List ℕ) (x : A) (xs : List A)
      → Holds s (a ∷ addrs) (x ∷ xs)
      → (t : MpmcStack A) × (pop s ≡ some (t, some x)) × Holds t addrs xs
  unfolding pop
  pop-Holds s a addrs x xs h = (
    (take_node s a (record { value = x; next = first addrs })).0,
    ap (pop_from s) h.top ∙ rw (h.chain.0, pop_from),
    record { top = refl; chain = Chain-update s.node addrs xs a none h.chain.1 h.chain.2 },
  )

  pub pop-empty : (s : MpmcStack A) → Holds s [] [] → pop s ≡ some (s, none)
  unfolding pop
  pop-empty s h = ap (pop_from s) h.top

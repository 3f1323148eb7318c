-- ===== src/Lockfree/Stack/Drain.antt =====
-- The two ways to empty an `MpmcStack`: both hand the values over oldest first, and only one of them
-- resets the length.
use dtact.Base.{
  NotIn, ℕ, zero, suc, ◌+◌, ◌≤◌, ◌≡◌, refl, sym, ap, ◌∙◌, Option, none, some, List, [], ◌∷◌, ◌++◌,
  reverse, append-nil, append_assoc, reverse-cons, arith, update, update_self, length,
}
use dtact.Lockfree.Stack.{Node, MpmcStack, walk, drain_all, turn, drain_into_vec_deque}
use dtact.Lockfree.Stack.Chain.{first, Chain, Chain-update, Holds}

-- The addresses of one list, none of them in the other.
abbrev Apart : List ℕ → List ℕ → Type 0
Apart [] ds = Unit
Apart (a ∷ addrs) ds = NotIn a ds × Apart addrs ds

shunt {ℓ} : {A : Type ℓ} → List A → List A → List A
shunt [] ys = ys
shunt (x ∷ xs) ys = shunt xs (x ∷ ys)

shunt-reverse {ℓ} : {A : Type ℓ} (xs ys : List A) → shunt xs ys ≡ reverse xs ++ ys
unfolding shunt
shunt-reverse [] ys = refl
shunt-reverse (x ∷ xs) ys = shunt-reverse xs (x ∷ ys) ∙ rw (reverse-cons x xs, append_assoc)

Apart-nil : (as' : List ℕ) → Apart as' []
Apart-nil [] = tt
Apart-nil (a ∷ as') = (tt, Apart-nil as')

Apart-cons : (a : ℕ) (addrs ds : List ℕ) → NotIn a addrs → Apart addrs ds → Apart addrs (a ∷ ds)
Apart-cons a [] ds out h = tt
Apart-cons a (b ∷ addrs) ds out h = ((λ e. out.0 (sym e), h.0), Apart-cons a addrs ds out.1 h.1)

module _ {ℓ} {A : Type ℓ} where
  -- The walk meets no dangling pointer and finds the values in order.
  walk-Chain :
      (fuel : ℕ) (f : ℕ → Option (Node A)) (addrs : List ℕ) (xs : List A)
      → length xs ≤ fuel
      → Chain f addrs xs
      → (g : ℕ → Option (Node A)) × (walk fuel f (first addrs) ≡ some (g, xs))
  unfolding walk
  walk-Chain fuel f [] [] le c = (f, refl)
  walk-Chain fuel f [] (x ∷ xs) le c = absurd c.0
  walk-Chain fuel f (a ∷ addrs) [] le c = absurd c.0
  walk-Chain zero f (a ∷ addrs) (x ∷ xs) le c = absurd (omega arith)
  walk-Chain (suc fuel) f (a ∷ addrs) (x ∷ xs) le c =
      let (g, e) =
        walk-Chain fuel (update f a none) addrs xs (omega arith)
          (Chain-update f addrs xs a none c.1 c.2) in
      (g, rw (c.0, walk) (rw (e, walk)))

  -- Turning the pointers round in place leaves a chain of the same values in reverse.
  turn-Chain :
      (fuel : ℕ) (f : ℕ → Option (Node A)) (ds addrs : List ℕ) (ys xs : List A)
      → length xs ≤ fuel
      → Chain f ds ys
      → Chain f addrs xs
      → Apart addrs ds
      → (g : ℕ → Option (Node A)) × (turn fuel f (first ds) (first addrs)
          ≡ some (g, first (shunt addrs ds)))
        × Chain g (shunt addrs ds) (shunt xs ys)
  unfolding turn shunt
  turn-Chain fuel f ds [] ys [] le done c away = (f, refl, done)
  turn-Chain fuel f ds [] ys (x ∷ xs) le done c away = absurd c.0
  turn-Chain fuel f ds (a ∷ addrs) ys [] le done c away = absurd c.0
  turn-Chain zero f ds (a ∷ addrs) ys (x ∷ xs) le done c away = absurd (omega arith)
  turn-Chain (suc fuel) f ds (a ∷ addrs) ys (x ∷ xs) le done c away =
      let n : Option (Node A) = some (record { value = x; next = first ds }) in
      let (g, e, r) =
        turn-Chain fuel (update f a n) (a ∷ ds) addrs (x ∷ ys) xs (omega arith)
          (update_self f a n, away.0, Chain-update f ds ys a n away.0 done)
          (Chain-update f addrs xs a n c.1 c.2) (Apart-cons a addrs ds c.1 away.1) in
      (g, rw (c.0, turn) e, r)

  -- On a stack whose chain holds values, with fuel for each of them, `drain_all` meets no dangling
  -- pointer, answers the values oldest first, and leaves the stack empty with a length of 0.
  pub drain_all-Holds :
      (fuel : ℕ) (s : MpmcStack A) (addrs : List ℕ) (xs : List A)
      → Holds s addrs xs
      → length xs ≤ fuel
      → (t : MpmcStack A) × (drain_all fuel s ≡ some (t, reverse xs)) × Holds t [] [] × (t.len ≡ 0)
  unfolding drain_all
  drain_all-Holds fuel s addrs xs h le =
      let (g, e) = walk-Chain fuel s.node addrs xs le h.chain in
      let e' : walk fuel s.node s.head ≡ some (g, xs) = ap (walk fuel s.node) h.top ∙ e in
      (
        record { head = none; node = g; len = 0 },
        rw (e', drain_all),
        record { top = refl; chain = tt },
        refl,
      )

  length-shunt : (xs ys : List A) → length (shunt xs ys) ≡ length xs + length ys
  unfolding shunt
  length-shunt [] ys = omega arith
  length-shunt (x ∷ xs) ys = omega (arith, length-shunt xs (x ∷ ys))

  -- On a stack whose chain holds values, with fuel for each of them, `drain_into_vec_deque` meets no
  -- dangling pointer, appends the values to the target oldest first, and leaves the stack empty,
  -- but its length counter as it was.
  pub drain_into_vec_deque-Holds :
      (fuel : ℕ) (s : MpmcStack A) (addrs : List ℕ) (xs target : List A)
      → Holds s addrs xs
      → length xs ≤ fuel
      → (t : MpmcStack A) × (drain_into_vec_deque fuel s target ≡ some (t, target ++ reverse xs))
        × Holds t [] []
        × (t.len ≡ s.len)
  unfolding drain_into_vec_deque
  drain_into_vec_deque-Holds fuel s addrs xs target h le =
      let (g, e, c) = turn-Chain fuel s.node [] addrs [] xs le tt h.chain (Apart-nil addrs) in
      let (g', e') =
        walk-Chain fuel g (shunt addrs []) (shunt xs []) (omega (arith, length-shunt xs [])) c in
      let turned : turn fuel s.node none s.head ≡ some (g, first (shunt addrs [])) =
        ap (turn fuel s.node none) h.top ∙ e in
      (
        record s { head = none; node = g' },
        rw (turned, drain_into_vec_deque)
            (rw (e', drain_into_vec_deque)
              (ap (λ vs. some (record s { head = none; node = g' }, target ++ vs))
                (shunt-reverse xs [] ∙ append-nil (reverse xs)))),
        record { top = refl; chain = tt },
        refl,
      )

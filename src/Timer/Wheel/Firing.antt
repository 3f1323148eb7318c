-- ===== src/Timer/Wheel/Firing.antt =====
-- The timing wheel: at which tick a sleep fires.
use dtact.Base.{
  ℕ, suc, ◌-◌, ◌≡◌, ◌⊎◌, sym, List, [], ◌∷◌, ◌++◌, reverse, reverse-cons, arith, ◌==◌, ==_of_ne,
  inl, inr, Bool-cases, In,
}
use dtact.Timer.Wheel.{Node, visit}

-- A list of nodes has one with this state and these rounds.
abbrev pub Has : ℕ → ℕ → List Node → Type 0
Has s r [] = ⊥
Has s r (n ∷ ns) = ((n.state ≡ s) × (n.rounds ≡ r)) ⊎ Has s r ns

Has-append_left : (s r : ℕ) (xs ys : List Node) → Has s r xs → Has s r (xs ++ ys)
Has-append_left s r (n ∷ xs) ys (inl e) = inl e
Has-append_left s r (n ∷ xs) ys (inr h) = inr (Has-append_left s r xs ys h)
Has-append_left s r [] ys h = absurd h

Has-append_right : (s r : ℕ) (xs ys : List Node) → Has s r ys → Has s r (xs ++ ys)
Has-append_right s r [] ys h = h
Has-append_right s r (n ∷ xs) ys h = inr (Has-append_right s r xs ys h)

pub Has-reverse : (s r : ℕ) (xs : List Node) → Has s r xs → Has s r (reverse xs)
Has-reverse s r [] h = absurd h
Has-reverse s r (n ∷ xs) (inl e) =
    rw (reverse-cons n xs) (Has-append_right s r (reverse xs) (n ∷ []) (inl e))
Has-reverse s r (n ∷ xs) (inr h) =
    rw (reverse-cons n xs) (Has-append_left s r (reverse xs) (n ∷ []) (Has-reverse s r xs h))

-- A visit keeps what it has put back and what it has fired.
visit-keeps :
    (batch bucket : List Node) (fired : List ℕ) (s r : ℕ)
    → Has s r bucket
    → Has s r (visit batch bucket fired).0
unfolding visit
visit-keeps [] bucket fired s r h = h
visit-keeps (n ∷ batch) bucket fired s r h = elim (Bool-cases (n.rounds == 0)) [
  | inl e ↦ rw e (visit-keeps batch bucket (n.state ∷ fired) s r h)
  | inr e ↦ rw e (visit-keeps batch (record n { rounds = n.rounds - 1 } ∷ bucket) fired s r (inr h))
]

visit-fired :
    (batch bucket : List Node) (fired : List ℕ) (s : ℕ)
    → In s fired
    → In s (visit batch bucket fired).1
unfolding visit
visit-fired [] bucket fired s h = h
visit-fired (n ∷ batch) bucket fired s h = elim (Bool-cases (n.rounds == 0)) [
  | inl e ↦ rw e (visit-fired batch bucket (n.state ∷ fired) s (inr h))
  | inr e ↦ rw e (visit-fired batch (record n { rounds = n.rounds - 1 } ∷ bucket) fired s h)
]

-- A node with no rounds left fires.
pub visit-zero :
    (batch bucket : List Node) (fired : List ℕ) (s : ℕ)
    → Has s 0 batch
    → In s (visit batch bucket fired).1
unfolding visit
visit-zero [] bucket fired s h = absurd h
visit-zero (n ∷ batch) bucket fired s (inl (e, z)) =
    rw (z) (visit-fired batch bucket (n.state ∷ fired) s (inl (sym e)))
visit-zero (n ∷ batch) bucket fired s (inr h) = elim (Bool-cases (n.rounds == 0)) [
  | inl e ↦ rw e (visit-zero batch bucket (n.state ∷ fired) s h)
  | inr e ↦ rw e (visit-zero batch (record n { rounds = n.rounds - 1 } ∷ bucket) fired s h)
]

-- Another node goes back with one round fewer.
pub visit-suc :
    (batch bucket : List Node) (fired : List ℕ) (s r : ℕ)
    → Has s (suc r) batch
    → Has s r (visit batch bucket fired).0
unfolding visit
visit-suc [] bucket fired s r h = absurd h
visit-suc (n ∷ batch) bucket fired s r (inl (e, z)) =
    rw (==_of_ne n.rounds 0 (λ k. absurd (omega arith))) (
      visit-keeps batch (record n { rounds = n.rounds - 1 } ∷ bucket) fired s r
        (inl (e, omega arith)))
visit-suc (n ∷ batch) bucket fired s r (inr h) = elim (Bool-cases (n.rounds == 0)) [
  | inl e ↦ rw e (visit-suc batch bucket (n.state ∷ fired) s r h)
  | inr e ↦ rw e (visit-suc batch (record n { rounds = n.rounds - 1 } ∷ bucket) fired s r h)
]

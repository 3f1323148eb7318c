-- ===== src/Sync/WaitQueue/Laws.antt =====
-- The lists behind the waiters: what popping up to a valid entry skips and leaves.
use dtact.Base.{
  reverse, reverse-cons, ℕ, ◌≡◌, refl, sym, ap, inl, inr, Bool, true, false, Option, none, some,
  List, [], ◌∷◌, ◌++◌, arith, Bool-cases, update, keep, keep-append, keep-update, NotIn, Distinct,
  Below, NotIn-append,
}
use dtact.Sync.WaitQueue.{pop_valid}

pub Distinct-suffix : (xs ys : List ℕ) → Distinct (xs ++ ys) → Distinct ys
Distinct-suffix [] ys d = d
Distinct-suffix (x ∷ xs) ys d = Distinct-suffix xs ys d.1

pub Below-suffix : (n : ℕ) (xs ys : List ℕ) → Below n (xs ++ ys) → Below n ys
Below-suffix n [] ys b = b
Below-suffix n (x ∷ xs) ys b = Below-suffix n xs ys b.1

-- How `pop_valid` cuts a list: everything was skipped, or all up to the entry that it returns.
abbrev pub Cut : (ℕ → Bool) → List ℕ → List ℕ × Option ℕ → Type 0
Cut v l (rest, none) = (rest ≡ []) × (keep v l ≡ [])
Cut v l (rest, some e) =
    (skipped : List ℕ) × (l ≡ skipped ++ e ∷ rest) × (keep v skipped ≡ []) × (v e ≡ true)

Cut-skip :
    (v : ℕ → Bool) (e : ℕ) (es : List ℕ) (r : List ℕ × Option ℕ)
    → v e ≡ false
    → Cut v es r
    → Cut v (e ∷ es) r
Cut-skip v e es (rest, none) off (nothing, skip) = (nothing, rw off skip)
Cut-skip v e es (rest, some x) off (skipped, split, skip, on) =
    (e ∷ skipped, ap (◌∷◌ e) split, rw off skip, on)

pub pop_valid-Cut : (v : ℕ → Bool) (l : List ℕ) → Cut v l (pop_valid v l)
unfolding pop_valid
pop_valid-Cut v [] = (refl, refl)
pop_valid-Cut v (e ∷ es) = elim (Bool-cases (v e)) [
  | inl on ↦ rw (on, pop_valid) ([], refl, refl, on)
  | inr off ↦ rw (off, pop_valid) (Cut-skip v e es (pop_valid v es) off (pop_valid-Cut v es))
]

-- What is kept of a list in which everything in front of a valid entry is skipped.
pub keep-cut :
    (v : ℕ → Bool) (skipped : List ℕ) (e : ℕ) (rest : List ℕ)
    → keep v skipped ≡ []
    → v e ≡ true
    → keep v (skipped ++ e ∷ rest) ≡ e ∷ keep v rest
keep-cut v skipped e rest skip on = rw (keep-append v skipped (e ∷ rest), skip, on)

-- Once the entry is no longer valid, the rest is kept as before.
pub keep-woken :
    (v : ℕ → Bool) (skipped : List ℕ) (e : ℕ) (rest : List ℕ)
    → Distinct (skipped ++ e ∷ rest)
    → keep (update v e false) rest ≡ keep v rest
keep-woken v skipped e rest d = keep-update v e false rest (Distinct-suffix skipped (e ∷ rest) d).0

-- Nothing is kept of a list of which nothing was kept, when one more entry is switched off.
pub keep-off : (v : ℕ → Bool) (a : ℕ) (l : List ℕ) → keep v l ≡ [] → keep (update v a false) l ≡ []
keep-off v a [] h = refl
keep-off v a (x ∷ xs) h = elim (Bool-cases (v x)) [
  | inl on ↦ let h' : x ∷ keep v xs ≡ [] = rw on at h in cc
  | inr off ↦
      let h' : keep v xs ≡ [] = rw off at h in
      let off' : update v a false x ≡ false = ground arith in rw off' (keep-off v a xs h')
]

NotIn-suffix : (a : ℕ) (xs ys : List ℕ) → NotIn a (xs ++ ys) → NotIn a ys
NotIn-suffix a [] ys h = h
NotIn-suffix a (x ∷ xs) ys h = NotIn-suffix a xs ys h.1

NotIn-prefix : (a : ℕ) (xs ys : List ℕ) → NotIn a (xs ++ ys) → NotIn a xs
NotIn-prefix a [] ys h = tt
NotIn-prefix a (x ∷ xs) ys h = (h.0, NotIn-prefix a xs ys h.1)

NotIn-reverse : (a : ℕ) (xs : List ℕ) → NotIn a xs → NotIn a (reverse xs)
NotIn-reverse a [] h = tt
NotIn-reverse a (x ∷ xs) h =
    rw (reverse-cons x xs) (NotIn-append a (reverse xs) (x ∷ []) (NotIn-reverse a xs h.1) (h.0, tt))

Distinct-snoc : (xs : List ℕ) (a : ℕ) → Distinct xs → NotIn a xs → Distinct (xs ++ a ∷ [])
Distinct-snoc [] a d out = (tt, tt)
Distinct-snoc (x ∷ xs) a d out =
    (NotIn-append x xs (a ∷ []) d.0 (λ e. out.0 (sym e), tt), Distinct-snoc xs a d.1 out.1)

Distinct-reverse : (xs : List ℕ) → Distinct xs → Distinct (reverse xs)
Distinct-reverse [] d = tt
Distinct-reverse (x ∷ xs) d =
    rw (reverse-cons x xs)
      (Distinct-snoc (reverse xs) x (Distinct-reverse xs d.1) (NotIn-reverse x xs d.0))

-- The second half of a list of distinct numbers may be turned round.
pub Distinct-append_reverse : (xs ys : List ℕ) → Distinct (xs ++ ys) → Distinct (xs ++ reverse ys)
Distinct-append_reverse [] ys d = Distinct-reverse ys d
Distinct-append_reverse (x ∷ xs) ys d = (
  NotIn-append x xs (reverse ys) (NotIn-prefix x xs ys d.0)
      (NotIn-reverse x ys (NotIn-suffix x xs ys d.0)),
  Distinct-append_reverse xs ys d.1,
)

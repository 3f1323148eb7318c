-- ===== src/Base/Lists.antt =====
-- Lists measured by native numbers.
use Prim.Native.Nat.{ℕ, zero, suc, ◌+◌, ◌-◌, ◌≤◌, ◌<◌, min}
use mathlib.Core.Path.{◌≡◌, refl, ap, sym, ◌∙◌}
use mathlib.Core.Logic.{◌≢◌, ◌⊎◌, inl, inr}
use mathlib.Core.List.{List, [], ◌∷◌, ◌++◌, reverse, reverse-cons}
use mathlib.Core.Bool.{Bool, true}
use native.Mathlib.Omega.{arith}
use native.Mathlib.Nat.{suc-add}
use dtact.Base.Tests.{if◌then◌else◌, update, update_ne, Bool-cases}

module _ {ℓ} {A : Type ℓ} where
  abbrev pub length : List A → ℕ
  length [] = 0
  length (x ∷ xs) = suc (length xs)

  abbrev pub take : ℕ → List A → List A
  take zero xs = []
  take (suc n) [] = []
  take (suc n) (x ∷ xs) = x ∷ take n xs

  abbrev pub drop : ℕ → List A → List A
  drop zero xs = xs
  drop (suc n) [] = []
  drop (suc n) (x ∷ xs) = drop n xs

  -- The elements that pass a Boolean test.
  abbrev pub keep : (A → Bool) → List A → List A
  keep p [] = []
  keep p (x ∷ xs) = let rest = keep p xs in if p x then x ∷ rest else rest

module _ {ℓ} {A : Type ℓ} where
  pub length-append : (xs ys : List A) → length (xs ++ ys) ≡ length xs + length ys
  length-append [] ys = omega arith
  length-append (x ∷ xs) ys = omega (arith, length-append xs ys)

  pub keep-append : (p : A → Bool) (xs ys : List A) → keep p (xs ++ ys) ≡ keep p xs ++ keep p ys
  keep-append p [] ys = refl
  keep-append p (x ∷ xs) ys = ground (arith, keep-append p xs ys)

  pub length-reverse : (xs : List A) → length (reverse xs) ≡ length xs
  length-reverse [] = refl
  length-reverse (x ∷ xs) =
      omega (
        arith,
        ap length (reverse-cons x xs),
        length-append (reverse xs) (x ∷ []),
        length-reverse xs,
      )

module _ {ℓ} {A : Type ℓ} where
  pub length-take : (n : ℕ) (xs : List A) → length (take n xs) ≡ min n (length xs)
  length-take zero xs = omega arith
  length-take (suc n) [] = omega arith
  length-take (suc n) (x ∷ xs) = omega (arith, length-take n xs)

  pub length-drop : (n : ℕ) (xs : List A) → length (drop n xs) ≡ length xs - n
  length-drop zero xs = omega arith
  length-drop (suc n) [] = omega arith
  length-drop (suc n) (x ∷ xs) = omega (arith, length-drop n xs)

  take-nil : (n : ℕ) → take {A = A} n [] ≡ []
  take-nil zero = refl
  take-nil (suc n) = refl

  -- A prefix, cut in two.
  pub take-split : (m k : ℕ) (xs : List A) → take (m + k) xs ≡ take m xs ++ take k (drop m xs)
  take-split zero k xs = ap (λ n. take n xs) (omega arith)
  take-split (suc m) k [] = ap (λ n. take n []) (suc-add m k) ∙ sym (take-nil k)
  take-split (suc m) k (x ∷ xs) =
      ap (λ n. take n (x ∷ xs)) (suc-add m k) ∙ ap (◌∷◌ x) (take-split m k xs)

-- Membership, absence and distinctness of numbers, by recursion on the list.
abbrev pub In : ℕ → List ℕ → Type 0
In a [] = ⊥
In a (b ∷ bs) = (a ≡ b) ⊎ In a bs

abbrev pub NotIn : ℕ → List ℕ → Type 0
NotIn a [] = Unit
NotIn a (b ∷ bs) = (a ≢ b) × NotIn a bs

abbrev pub Distinct : List ℕ → Type 0
Distinct [] = Unit
Distinct (a ∷ as') = NotIn a as' × Distinct as'

-- All numbers of the list are below a bound.
abbrev pub Below : ℕ → List ℕ → Type 0
Below n [] = Unit
Below n (a ∷ as') = (a < n) × Below n as'

pub In-append_left : (a : ℕ) (xs ys : List ℕ) → In a xs → In a (xs ++ ys)
In-append_left a [] ys h = absurd h
In-append_left a (x ∷ xs) ys (inl e) = inl e
In-append_left a (x ∷ xs) ys (inr h) = inr (In-append_left a xs ys h)

pub In-append_right : (a : ℕ) (xs ys : List ℕ) → In a ys → In a (xs ++ ys)
In-append_right a [] ys h = h
In-append_right a (x ∷ xs) ys h = inr (In-append_right a xs ys h)

pub In-append : (a : ℕ) (xs ys : List ℕ) → In a (xs ++ ys) → In a xs ⊎ In a ys
In-append a [] ys h = inr h
In-append a (x ∷ xs) ys (inl e) = inl (inl e)
In-append a (x ∷ xs) ys (inr h) = elim (In-append a xs ys h) [ inl k ↦ inl (inr k) | inr k ↦ inr k ]

pub Below-NotIn : (n : ℕ) (xs : List ℕ) → Below n xs → NotIn n xs
Below-NotIn n [] b = tt
Below-NotIn n (x ∷ xs) b = (λ e. absurd (omega arith), Below-NotIn n xs b.1)

pub Below-mono : (n m : ℕ) (xs : List ℕ) → n ≤ m → Below n xs → Below m xs
Below-mono n m [] h b = tt
Below-mono n m (x ∷ xs) h b = (omega arith, Below-mono n m xs h b.1)

pub Below-append : (n : ℕ) (xs ys : List ℕ) → Below n xs → Below n ys → Below n (xs ++ ys)
Below-append n [] ys h k = k
Below-append n (x ∷ xs) ys h k = (h.0, Below-append n xs ys h.1 k)

pub Below-append_inv : (n : ℕ) (xs ys : List ℕ) → Below n (xs ++ ys) → Below n xs × Below n ys
Below-append_inv n [] ys h = (tt, h)
Below-append_inv n (x ∷ xs) ys h = let (l, r) = Below-append_inv n xs ys h.1 in ((h.0, l), r)

pub NotIn-append : (a : ℕ) (xs ys : List ℕ) → NotIn a xs → NotIn a ys → NotIn a (xs ++ ys)
NotIn-append a [] ys h k = k
NotIn-append a (x ∷ xs) ys h k = (h.0, NotIn-append a xs ys h.1 k)

-- A fresh number may be put anywhere in a list of distinct numbers.
pub Distinct-insert :
    (n : ℕ) (xs ys : List ℕ) → Below n (xs ++ ys) → Distinct (xs ++ ys) → Distinct (xs ++ n ∷ ys)
Distinct-insert n [] ys b d = (Below-NotIn n ys b, d)
Distinct-insert n (x ∷ xs) ys b d =
    (NotIn-insert x xs ys (λ e. absurd (omega arith)) d.0, Distinct-insert n xs ys b.1 d.1)
  where
    NotIn-insert : (x : ℕ) (xs ys : List ℕ) → x ≢ n → NotIn x (xs ++ ys) → NotIn x (xs ++ n ∷ ys)
    NotIn-insert x [] ys ne h = (ne, h)
    NotIn-insert x (z ∷ zs) ys ne h = (h.0, NotIn-insert x zs ys ne h.1)

-- A write to a test at a number that is not in the list is not seen in the list.
pub keep-update :
    (p : ℕ → Bool) (a : ℕ) (v : Bool) (xs : List ℕ)
    → NotIn a xs
    → keep (update p a v) xs ≡ keep p xs
keep-update p a v [] out = refl
keep-update p a v (x ∷ xs) out =
    rw (update_ne p a x v out.0)
      (ap (λ rest. if p x then x ∷ rest else rest) (keep-update p a v xs out.1))

pub In-keep : (v : ℕ → Bool) (a : ℕ) (l : List ℕ) → In a l → v a ≡ true → In a (keep v l)
In-keep v a [] h on = absurd h
In-keep v a (x ∷ xs) (inl e) on = rw (ap v (sym e) ∙ on) (inl e)
In-keep v a (x ∷ xs) (inr h) on = elim (Bool-cases (v x)) [
  | inl e ↦ rw e (inr (In-keep v a xs h on))
  | inr e ↦ rw e (In-keep v a xs h on)
]

In-kept :
    (v : ℕ → Bool) (a x : ℕ) (l : List ℕ)
    → v x ≡ true
    → (In a (keep v l) → In a l × (v a ≡ true))
    → In a (x ∷ keep v l)
    → In a (x ∷ l) × (v a ≡ true)
In-kept v a x l e ih (inl k) = (inl k, ap v k ∙ e)
In-kept v a x l e ih (inr k) = let (i, on) = ih k in (inr i, on)

pub In-keep_inv : (v : ℕ → Bool) (a : ℕ) (l : List ℕ) → In a (keep v l) → In a l × (v a ≡ true)
In-keep_inv v a [] h = absurd h
In-keep_inv v a (x ∷ xs) h = elim (Bool-cases (v x)) [
  | inl e ↦ In-kept v a x xs e (In-keep_inv v a xs) (rw e at h)
  | inr e ↦ let (i, on) = In-keep_inv v a xs (rw e at h) in (inr i, on)
]

pub In-Below : (t n : ℕ) (l : List ℕ) → In t l → Below n l → t < n
In-Below t n [] h b = absurd h
In-Below t n (x ∷ xs) (inl e) b = omega arith
In-Below t n (x ∷ xs) (inr h) b = In-Below t n xs h b.1

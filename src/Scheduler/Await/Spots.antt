-- ===== src/Scheduler/Await/Spots.antt =====
-- Where a fiber stands in `dtact_await`, what holds there, and what keeps it.
use dtact.Base.{
  ℕ, ◌≡◌, ◌⊎◌, refl, Bool, true, false, Option, none, some, inl, inr, ◌==◌, ==_iff, ==_self,
  Bool-cases, if◌then◌else◌,
}
use dtact.Scheduler.Await.{
  Phase, live, finished, swapped, cleared, freed, Spot, enters, checks, checks_state, registers,
  rechecks, rechecks_state, suspends, suspended, leaves, is_over, wake_waiter, on_or_leave,
  after_exchange,
}

-- A swap of the waiter is still to come, of this fiber or of the next in its context.
abbrev pub Early : Phase → Type 0
Early live = Unit {0}
Early finished = Unit {0}
Early p = ⊥

-- What holds of a fiber at each spot.
abbrev pub At : Spot → ℕ → Phase → Bool → Option ℕ → Bool → Type 0
At rechecks k p late waiter woken = (woken ≡ true) ⊎ (waiter ≡ some k)
At rechecks_state k p late waiter woken = (woken ≡ true) ⊎ (waiter ≡ some k)
At suspends k p late waiter woken = (woken ≡ true) ⊎ ((waiter ≡ some k) × (Early p ⊎ (late ≡ true)))
At suspended k p late waiter woken =
    (woken ≡ true) ⊎ ((waiter ≡ some k) × (Early p ⊎ (late ≡ true)))
At t k p late waiter woken = Unit {0}

outlasts :
    (k : ℕ) (p q : Phase) (l m : Bool) (waiter : Option ℕ) (woken : Bool)
    → (Early p → Early q)
    → (l ≡ true → m ≡ true)
    → At suspended k p l waiter woken
    → At suspended k q m waiter woken
outlasts k p q l m waiter woken f g (inl e) = inl e
outlasts k p q l m waiter woken f g (inr (e, inl t)) = inr (e, inl (f t))
outlasts k p q l m waiter woken f g (inr (e, inr w)) = inr (e, inr (g w))

-- A step of the other fiber that leaves the waiter alone.
pub stays :
    (t : Spot) (k : ℕ) (p q : Phase) (l m : Bool) (waiter : Option ℕ) (woken : Bool)
    → (Early p → Early q)
    → (l ≡ true → m ≡ true)
    → At t k p l waiter woken
    → At t k q m waiter woken
stays enters k p q l m waiter woken f g h = tt
stays checks k p q l m waiter woken f g h = tt
stays checks_state k p q l m waiter woken f g h = tt
stays registers k p q l m waiter woken f g h = tt
stays leaves k p q l m waiter woken f g h = tt
stays rechecks k p q l m waiter woken f g h = h
stays rechecks_state k p q l m waiter woken f g h = h
stays suspends k p q l m waiter woken f g h = outlasts k p q l m waiter woken f g h
stays suspended k p q l m waiter woken f g h = outlasts k p q l m waiter woken f g h

-- A fiber that was woken may be anywhere.
pub stirred :
    (t : Spot) (k : ℕ) (p : Phase) (l : Bool) (waiter : Option ℕ) (woken : Bool)
    → woken ≡ true
    → At t k p l waiter woken
stirred enters k p l waiter woken e = tt
stirred checks k p l waiter woken e = tt
stirred checks_state k p l waiter woken e = tt
stirred registers k p l waiter woken e = tt
stirred leaves k p l waiter woken e = tt
stirred rechecks k p l waiter woken e = inl e
stirred rechecks_state k p l waiter woken e = inl e
stirred suspends k p l waiter woken e = inl e
stirred suspended k p l waiter woken e = inl e

pub wake_waiter-told :
    (k : ℕ) (waiter : Option ℕ) (woken : ℕ → Bool)
    → (woken k ≡ true) ⊎ (waiter ≡ some k)
    → wake_waiter waiter woken k ≡ true
wake_waiter-told k none woken (inl e) = e
wake_waiter-told k none woken (inr e) = absurd cc
wake_waiter-told k (some i) woken (inl e) = elim (Bool-cases (i == k)) [
  | inl q ↦ rw q refl
  | inr q ↦ rw q e
]
wake_waiter-told k (some i) woken (inr e) = rw ((==_iff i k).1 cc) refl

-- A swap of the waiter.
pub taken :
    (t : Spot) (k : ℕ) (p q : Phase) (l : Bool) (waiter : Option ℕ) (woken : ℕ → Bool)
    → At t k p l waiter (woken k)
    → At t k q l none (wake_waiter waiter woken k)
taken enters k p q l waiter woken h = tt
taken checks k p q l waiter woken h = tt
taken checks_state k p q l waiter woken h = tt
taken registers k p q l waiter woken h = tt
taken leaves k p q l waiter woken h = tt
taken rechecks k p q l waiter woken h = inl (wake_waiter-told k waiter woken h)
taken rechecks_state k p q l waiter woken h = inl (wake_waiter-told k waiter woken h)
taken suspends k p q l waiter woken (inl e) = inl (wake_waiter-told k waiter woken (inl e))
taken suspends k p q l waiter woken (inr (e, m)) = inl (wake_waiter-told k waiter woken (inr e))
taken suspended k p q l waiter woken (inl e) = inl (wake_waiter-told k waiter woken (inl e))
taken suspended k p q l waiter woken (inr (e, m)) = inl (wake_waiter-told k waiter woken (inr e))

-- The spot of a fiber after it is set.
pub set_at :
    (t : Spot) (k : ℕ) (p : Phase) (l : Bool) (waiter : Option ℕ) (woken : Bool) (was : Spot)
    → At t k p l waiter woken
    → At (if k == k then t else was) k p l waiter woken
set_at t k p l waiter woken was h = rw (==_self k) h

-- What the second load of the state has seen.
pub is_over-passed : (p : Phase) (n : Bool) → is_over p n ≡ false → Early p ⊎ (n ≡ true)
is_over-passed live n e = inl tt
is_over-passed finished n e = inl tt
is_over-passed swapped true e = inr refl
is_over-passed swapped false e = absurd cc
is_over-passed cleared true e = inr refl
is_over-passed cleared false e = absurd cc
is_over-passed freed true e = inr refl
is_over-passed freed false e = absurd cc

pub on-At :
    (b : Bool) (t : Spot) (k : ℕ) (p : Phase) (l : Bool) (waiter : Option ℕ) (woken : Bool)
    → At t k p l waiter woken
    → At (on_or_leave b t) k p l waiter woken
on-At true t k p l waiter woken h = h
on-At false t k p l waiter woken h = tt

pub exchange-At :
    (b : Bool) (k : ℕ) (p : Phase) (l : Bool) (waiter : Option ℕ) (woken : Bool)
    → At suspends k p l waiter woken
    → At (after_exchange b) k p l waiter woken
exchange-At true k p l waiter woken h = tt
exchange-At false k p l waiter woken h = h

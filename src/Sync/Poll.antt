-- ===== src/Sync/Poll.antt =====
-- `std::task::Poll`: what a future answers when it is polled.
use dtact.Base.{◌≡◌, refl, ◌⊎◌, inl, inr}

pub data Poll {ℓ} (A : Type ℓ) : Type ℓ where
  ready : A → Poll A
  pending : Poll A

pub Poll-cases {ℓ} : {A : Type ℓ} (p : Poll A) → ((a : A) × (p ≡ ready a)) ⊎ (p ≡ pending)
Poll-cases (ready a) = inl (a, refl)
Poll-cases pending = inr refl

-- ===== src/Timer/Wheel/Schedule.antt =====
-- The timing wheel: a sleep fires at one tick, and not before.
use dtact.Base.{
  ℕ, zero, suc, ◌+◌, ◌*◌, ◌/◌, ◌%◌, ◌<◌, ◌≤◌, ◌≡◌, ◌≢◌, refl, sym, ap, subst, ◌∙◌, [], arith, ◌==◌,
  if◌then◌else◌, update, update_self, update_ne, wrapping_add, inl, In, In-append_left,
  In-append_right,
}
use dtact.Timer.Wheel.{Wheel, wheel_size, tick, insert, ticks}
use dtact.Timer.Wheel.Firing.{Has, Has-reverse, visit-zero, visit-suc}

-- The sleep `s` lies in the bucket that the wheel visits at its `d`-th tick from now, with `r` rounds to
-- go.
abbrev pub Lies : Wheel → ℕ → ℕ → ℕ → Type 0
Lies w s r d = Has s r (w.buckets ((w.current_tick + d) % wheel_size))

next_slot : (c d : ℕ) → (wrapping_add c 1 + d) % 256 ≡ (c + suc d) % 256
next_slot c d = omega arith

other_slot : (c d : ℕ) → 0 < d → d < 256 → wrapping_add c 1 % 256 ≢ (c + suc d) % 256
other_slot c d some_more few e = absurd (omega arith)

this_slot : (c : ℕ) → (c + 1) % 256 ≡ wrapping_add c 1 % 256
this_slot c = omega arith

full_turn : (c : ℕ) → (c + 256) % 256 ≡ c % 256
full_turn c = omega arith

-- A tick that visits another bucket.
tick-other : (w : Wheel) (s r d : ℕ) → 0 < d → d < 256 → Lies w s r (suc d) → Lies (tick w) s r d
unfolding tick
tick-other w s r d some_more few h =
    let c = w.current_tick in
    subst (Has s r)
      (sym (
        ap (update w.buckets (wrapping_add c 1 % 256) _) (next_slot c d)
        ∙ update_ne w.buckets _ _ _ (other_slot c d some_more few)))
      h

-- A tick that visits the bucket of a sleep with no rounds to go.
tick-due : (w : Wheel) (s : ℕ) → Lies w s 0 1 → In s (tick w).fired
unfolding tick
tick-due w s h = In-append_left s _ w.fired (
    visit-zero _ [] [] s
      (Has-reverse s 0 _ (subst (λ i. Has s 0 (w.buckets i)) (this_slot w.current_tick) h)))

-- A tick that visits the bucket of a sleep with rounds to go.
tick-again : (w : Wheel) (s r : ℕ) → Lies w s (suc r) 1 → Lies (tick w) s r 256
unfolding tick
tick-again w s r h =
    let c = w.current_tick in
    subst (Has s r)
      (sym (
        ap (update w.buckets (wrapping_add c 1 % 256) _) (full_turn (wrapping_add c 1))
        ∙ update_self w.buckets (wrapping_add c 1 % 256) _))
      (visit-suc _ [] [] s r
        (Has-reverse s (suc r) _ (subst (λ i. Has s (suc r) (w.buckets i)) (this_slot c) h)))

tick-fired : (w : Wheel) (s : ℕ) → In s w.fired → In s (tick w).fired
unfolding tick
tick-fired w s h = In-append_right s _ w.fired h

-- The sleep fires `d + 256 * r` ticks from now.
Lies-fires :
    (m : ℕ) (w : Wheel) (s r d : ℕ)
    → 0 < d
    → d ≤ 256
    → m ≡ d + 256 * r
    → Lies w s r d
    → In s (ticks m w).fired
unfolding ticks
Lies-fires zero w s r d some_more few e h = absurd (omega arith)
Lies-fires (suc m) w s r zero some_more few e h = absurd (omega arith)
Lies-fires (suc m) w s r (suc (suc d)) some_more few e h =
    Lies-fires m (tick w) s r (suc d) (omega arith) (omega arith) (omega arith)
      (tick-other w s r (suc d) (omega arith) (omega arith) h)
Lies-fires (suc m) w s zero (suc zero) some_more few e h =
    let z : m ≡ 0 = omega arith in
    subst (λ n. In s (ticks n (tick w)).fired) (sym z) (tick-due w s h)
Lies-fires (suc m) w s (suc r) (suc zero) some_more few e h =
    Lies-fires m (tick w) s r 256 (omega arith) (omega arith) (omega arith) (tick-again w s r h)

-- Before that it lies in its bucket.
Lies-waits :
    (n : ℕ) (w : Wheel) (s r d : ℕ)
    → 0 < d
    → d ≤ 256
    → n < d + 256 * r
    → Lies w s r d
    → (r' d' : ℕ) × Lies (ticks n w) s r' d'
unfolding ticks
Lies-waits zero w s r d some_more few lt h = (r, d, h)
Lies-waits (suc n) w s r zero some_more few lt h = absurd (omega arith)
Lies-waits (suc n) w s r (suc (suc d)) some_more few lt h =
    Lies-waits n (tick w) s r (suc d) (omega arith) (omega arith) (omega arith)
      (tick-other w s r (suc d) (omega arith) (omega arith) h)
Lies-waits (suc n) w s zero (suc zero) some_more few lt h = absurd (omega arith)
Lies-waits (suc n) w s (suc r) (suc zero) some_more few lt h =
    Lies-waits n (tick w) s r 256 (omega arith) (omega arith) (omega arith) (tick-again w s r h)

-- The tick at which a sleep of `t` ticks fires: a whole rotation late if `t` is a multiple of 256.
abbrev pub firing_tick : ℕ → ℕ
firing_tick t = if t % 256 == 0 then t + 256 else t

-- The first visit of the bucket after `t` ticks' registration.
abbrev first_visit : ℕ → ℕ
first_visit t = if t % 256 == 0 then 256 else t % 256

insert-Lies : (w : Wheel) (s t : ℕ) → Lies (insert w s t) s (t / 256) (first_visit t)
unfolding insert
insert-Lies w s t =
    subst (Has s (t / 256))
      (sym (
        ap (update w.buckets (wrapping_add w.current_tick t % 256) _) (slot w.current_tick t)
        ∙ update_self w.buckets (wrapping_add w.current_tick t % 256) _))
      (inl (refl, refl))
  where
    slot : (c t : ℕ) → (c + first_visit t) % 256 ≡ wrapping_add c t % 256
    slot c t = ground arith

first_visit-range : (t : ℕ) → (0 < first_visit t) × (first_visit t ≤ 256)
first_visit-range t = (ground arith, ground arith)

firing_tick-first_visit : (t : ℕ) → firing_tick t ≡ first_visit t + 256 * (t / 256)
firing_tick-first_visit t = ground arith

-- A sleep that is put into the wheel with `t` ticks to go fires at the `t`-th tick from then, or, if
-- `t` is a multiple of 256, at tick `t + 256`; at every tick before it still lies in a bucket.
pub insert-fires :
    (w : Wheel) (s t : ℕ)
    → In s (ticks (firing_tick t) (insert w s t)).fired
      × ((n : ℕ) → n < firing_tick t → (r d : ℕ) × Lies (ticks n (insert w s t)) s r d)
insert-fires w s t =
    let (some_more, few) = first_visit-range t in
    let e = firing_tick-first_visit t in
    (
      Lies-fires (firing_tick t) (insert w s t) s (t / 256) (first_visit t) some_more few e
          (insert-Lies w s t),
      λ n lt.
          Lies-waits n (insert w s t) s (t / 256) (first_visit t) some_more few
            (subst (λ k. n < k) e lt) (insert-Lies w s t),
    )

-- ===== src/Timer/Wheel/Tests.antt =====
-- The timing wheel run on small inputs.
use dtact.Base.{ℕ, ◌≡◌, ◌<◌, refl, [], ◌∷◌, In}
use dtact.Timer.Wheel.{new, insert, register, tick, ticks, turn, turns, visit, length_of}
use dtact.Timer.Wheel.Schedule.{Lies, insert-fires}

insert-fires_example :
    In 7 (ticks 512 (insert new 7 256)).fired
    × ((n : ℕ) → n < 512 → (r d : ℕ) × Lies (ticks n (insert new 7 256)) 7 r d)
insert-fires_example = insert-fires new 7 256

-- The wheel was idle for a second and stands at tick 0. A sleep of three milliseconds that starts
-- then fires after three turns, with no time passing.
turns-early : (turns 3 1000000000 (register new 7 1000000000 1003000000)).fired ≡ 7 ∷ []
unfolding turns turn register insert new tick visit length_of
turns-early = refl

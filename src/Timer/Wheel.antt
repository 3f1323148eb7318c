-- ===== src/Timer/Wheel.antt =====
-- The hashed timing wheel of dtact-util/src/timer/native.rs. A bucket is the list that its `MpmcStack`
-- holds, newest first. A sleep is the number of its `SleepState`; `fired` logs the sleeps whose status
-- was set to `DONE` and whose wakers were called. Times are nanoseconds since the wheel started.
pub mod Firing
pub mod Schedule
pub mod Tests
use dtact.Base.{
  ℕ, zero, suc, ◌+◌, ◌-◌, ◌*◌, ◌/◌, ◌%◌, ◌^◌, Bool, true, false, List, [], ◌∷◌, ◌++◌, reverse, ltb,
  leb, ◌==◌, if◌then◌else◌, update, wrapping_add, wrapping_sub,
}

abbrev pub wheel_size : ℕ
wheel_size = 256

-- One millisecond.
abbrev pub tick_length : ℕ
tick_length = 1000000

pub record Node : Type 0 where
  pub state : ℕ
  pub rounds : ℕ

pub record Wheel : Type 0 where
  pub buckets : ℕ → List Node
  pub current_tick : ℕ
  pub pending : ℕ
  pub fired : List ℕ

unfoldable pub new : Wheel
new = record { buckets = λ i. []; current_tick = 0; pending = 0; fired = [] }

-- What a visit does to a batch: the sleeps that fire, and the bucket with the others pushed back.
unfoldable pub visit : List Node → List Node → List ℕ → List Node × List ℕ
visit [] bucket fired = (bucket, fired)
visit (n ∷ batch) bucket fired =
    if n.rounds == 0
    then visit batch bucket (n.state ∷ fired)
    else visit batch (record n { rounds = n.rounds - 1 } ∷ bucket) fired

unfoldable pub length_of : List ℕ → ℕ
length_of [] = 0
length_of (x ∷ xs) = suc (length_of xs)

-- The part of `worker_loop` that advances the wheel and visits a bucket. An empty bucket goes through
-- the same steps with nothing to do.
unfoldable pub tick : Wheel → Wheel
tick w =
    let now = wrapping_add w.current_tick 1 in
    let slot = now % wheel_size in
    let (bucket, out) = visit (reverse (w.buckets slot)) [] [] in
    record {
      buckets = update w.buckets slot bucket;
      current_tick = now;
      pending = wrapping_sub w.pending (length_of out);
      fired = out ++ w.fired;
    }

-- One turn of `worker_loop` that finds the time `now` wherever it looks at the clock: parked while no
-- sleep is pending, or until the tick is due.
unfoldable pub turn : ℕ → Wheel → Wheel
unfolding tick
turn now w =
    if w.pending == 0
    then w
    else if ltb now (tick_length * (w.current_tick % 2 ^ 32 + 1))
    then w
    else tick w

-- `div_ceil`.
abbrev pub div_ceil : ℕ → ℕ → ℕ
div_ceil a b = (a + (b - 1)) / b

-- `register`, for a sleep that has `ticks_from_now` ticks to go.
unfoldable pub insert : Wheel → ℕ → ℕ → Wheel
insert w state ticks_from_now =
    let slot = wrapping_add w.current_tick ticks_from_now % wheel_size in
    record w {
      buckets =
          update w.buckets slot
            (record { state = state; rounds = ticks_from_now / wheel_size } ∷ w.buckets slot);
      pending = wrapping_add w.pending 1;
    }

-- `register`. A deadline that has passed is done at once, and nobody waits for it yet.
unfoldable pub register : Wheel → ℕ → ℕ → ℕ → Wheel
unfolding insert
register w state now deadline =
    if leb deadline now
    then record w { fired = state ∷ w.fired }
    else insert w state (div_ceil (deadline - now) tick_length)

-- Any number of ticks, and any number of turns at one time.
unfoldable pub ticks : ℕ → Wheel → Wheel
ticks zero w = w
ticks (suc n) w = ticks n (tick w)

unfoldable pub turns : ℕ → ℕ → Wheel → Wheel
turns zero now w = w
turns (suc n) now w = turns n now (turn now w)

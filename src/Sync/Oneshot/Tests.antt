-- ===== src/Sync/Oneshot/Tests.antt =====
-- The one-value channel run on small inputs.
use dtact.Base.{ℕ, ◌≡◌, ◌⊎◌, refl, false, none, some, [], ◌∷◌}
use dtact.Sync.Oneshot.{value_of, writes, publishes, wakes, closes, channel, try_take, run}
use dtact.Sync.Oneshot.Arrival.{try_take-arrives}

try_take-arrives_example :
    let c = run {T = ℕ} (writes 5 ∷ []) channel in
    let r = (try_take (run (publishes ∷ wakes ∷ closes ∷ [])) (run (wakes ∷ [])) c).1 in
    (r ≡ some (value_of 5)) ⊎ ((r ≡ none) × (c.sent ≡ false))
try_take-arrives_example =
    try_take-arrives 5 (writes 5 ∷ []) (publishes ∷ wakes ∷ closes ∷ []) (wakes ∷ []) [] refl
